-- ===== src/Keys/Agreed.antt =====
-- After any run of the services of keys, a verification answers as the tables do:
-- apps/api_keys/services.py and apps/api_keys/signals.py.
use osir_ai.Prelude.{
  ℕ, ◌≡◌, refl, sym, ap, ◌∙◌, inl, inr, List, [], Option, none, some, Text, ok, >>=-ok,
  ok_injective, subst, Option-cases,
}
use osir_ai.Members.{OrgWorkspace}
use osir_ai.Keys.{ApiKey, Vault}
use osir_ai.Keys.Issue.{
  AllowedAccount, IssuedKey, with_scope, issue_api_key, update_api_key, revoke_api_key, revoked_now,
  account_ids,
}
use osir_ai.Keys.Issued.{issue_api_key-IsMade}
use osir_ai.Keys.Granted.{update_api_key-IsEdited}
use osir_ai.Keys.Cache.{Cache}
use osir_ai.Keys.Verify.{verify_token, direct_lookup}
use osir_ai.Keys.Cached.{verify_token-direct_lookup, verify_token-IsFresh}
use osir_ai.Keys.Signals.{
  invalidate_api_key_cache, issue_signalled, update_signalled, revoke_signalled, keys_of_account,
}
use osir_ai.Keys.Fresh.{delete-IsLess, IsFresh-change}
use osir_ai.Keys.Runs.{
  Reach, start, issued, edited, revoked, saved, linked, cleared, verified, elsewhere, IsOf, Good,
  changed-Good, among-Good, added-Good, after_save-IsLess, after_save-IsGone,
}

module _ (make_lookup hmac_hex : Text → Text) (c : Cache ApiKey) (names : ℕ → Text) where
  issue_signalled-Good :
      (workspace : OrgWorkspace) (accounts : List AllowedAccount) (issuer : ℕ) (name : Text)
      (asked : List Text) (expires : Option ℕ) (random_part : Text) (v v1 : Vault) (s s1 : c.Store)
      (key : IssuedKey)
      → Good make_lookup hmac_hex c names v.keys s
      → names v.next_key ≡ make_lookup random_part
      → issue_signalled c
          (issue_api_key make_lookup hmac_hex workspace accounts issuer name asked expires
            random_part v)
          s
        ≡ ok (key, (v1, s1))
      → Good make_lookup hmac_hex c names v1.keys s1
  unfolding issue_signalled
  issue_signalled-Good workspace accounts issuer name asked expires random_part v v1 s s1 key good
        own h =
      let ((k, after), h1, h2) =
        >>=-ok
          (issue_api_key make_lookup hmac_hex workspace accounts issuer name asked expires
            random_part v)
          _ h in
      let m =
        issue_api_key-IsMade make_lookup hmac_hex workspace accounts issuer name asked expires
          random_part v k after h1 in
      subst (λ p. Good make_lookup hmac_hex c names p.1.0.keys p.1.1) (ok_injective h2)
        (rw m.is_after (
          added-Good make_lookup hmac_hex c names v.keys s _ _ good (sym own)
            (after_save-IsLess make_lookup hmac_hex c names [] k.api_key.social_accounts k.api_key
              s)
            (after_save-IsGone make_lookup hmac_hex c names [] k.api_key.social_accounts k.api_key s
              _ (ap (λ i. i.api_key.lookup_prefix) m.is_issued))))

  update_signalled-Good :
      (key new : ApiKey) (editor : ℕ) (asked : List Text) (accounts : List AllowedAccount)
      (expires : Option ℕ) (v v1 : Vault) (s s1 : c.Store)
      → Good make_lookup hmac_hex c names v.keys s
      → IsOf make_lookup hmac_hex c names key
      → update_signalled c key (update_api_key key editor asked accounts expires v) s
        ≡ ok (new, (v1, s1))
      → Good make_lookup hmac_hex c names v1.keys s1
  unfolding update_signalled
  update_signalled-Good key new editor asked accounts expires v v1 s s1 good own h =
      let ((k, after), h1, h2) = >>=-ok (update_api_key key editor asked accounts expires v) _ h in
      let (e, is_after) = update_api_key-IsEdited key k editor asked accounts expires v after h1 in
      subst (λ p. Good make_lookup hmac_hex c names p.1.0.keys p.1.1) (ok_injective h2)
        (rw is_after (
          changed-Good make_lookup hmac_hex c names v.keys s _
            (with_scope k.permissions expires (account_ids accounts)) key good
            (record { same_id = λ r. refl; same_lookup = λ r. refl }) own
            (after_save-IsLess make_lookup hmac_hex c names key.social_accounts k.social_accounts k
              s)
            (after_save-IsGone make_lookup hmac_hex c names key.social_accounts k.social_accounts k
              s key.lookup_prefix e.same_lookup)))

  revoke_signalled-Good :
      (now : ℕ) (key : ApiKey) (v : Vault) (s : c.Store)
      → Good make_lookup hmac_hex c names v.keys s
      → IsOf make_lookup hmac_hex c names key
      → Good make_lookup hmac_hex c names
          (revoke_signalled c now key v s).0.keys
          (revoke_signalled c now key v s).1
  unfolding revoke_signalled revoke_api_key
  revoke_signalled-Good now key v s good own = elim (Option-cases key.revoked_at) [
    | inl e ↦ rw e (
        changed-Good make_lookup hmac_hex c names v.keys s _ (revoked_now now) key good
          (record { same_id = λ r. refl; same_lookup = λ r. refl }) own
          (λ later j w h.
            delete-IsLess c _ s later j w
              (delete-IsLess c _ (invalidate_api_key_cache c key s) later j w h))
          (λ later. c.get_delete later _ (invalidate_api_key_cache c key s)))
    | inr (before, e) ↦
        rw e
          (good.0, IsFresh-change c v.keys v.keys s _ good.1 (delete-IsLess c _ s) (λ q. inr refl))
  ]

  Reach-Good :
      {v : Vault} {s : c.Store}
      → Reach make_lookup hmac_hex c names v s
      → Good make_lookup hmac_hex c names v.keys s
  Reach-Good (start named) =
      (named, λ later q w h. let bad : some w ≡ none = sym h ∙ c.get_empty later _ in absurd (cc))
  Reach-Good
        (issued {v} {v1} {s} {s1} r workspace accounts issuer name asked expires random_part key own
          h) =
      issue_signalled-Good workspace accounts issuer name asked expires random_part v v1 s s1 key
        (Reach-Good r) own h
  Reach-Good (edited {v} {v1} {s} {s1} r key new editor asked accounts expires own h) =
      update_signalled-Good key new editor asked accounts expires v v1 s s1 (Reach-Good r) own h
  Reach-Good (revoked {v} {s} r now key own) = revoke_signalled-Good now key v s (Reach-Good r) own
  Reach-Good (saved {v} {s} r f key same own) =
      changed-Good make_lookup hmac_hex c names v.keys s _ f key (Reach-Good r) same own
        (delete-IsLess c _ s) (λ later. c.get_delete later _ s)
  Reach-Good (linked {v} {s} r f account ids same) =
      among-Good make_lookup hmac_hex c names ids f v.keys s (Reach-Good r) same
  Reach-Good (cleared {v} {s} r f account same) =
      among-Good make_lookup hmac_hex c names (keys_of_account account v.keys) f v.keys s
        (Reach-Good r) same
  Reach-Good (verified {v} {s} r now raw) =
      ((Reach-Good r).0, verify_token-IsFresh make_lookup hmac_hex c now raw v s (Reach-Good r).1)
  Reach-Good (elsewhere {v} {v1} {s} r same) = rw same (Reach-Good r)

  -- After any sequence of issues, edits, revocations, other saves, changes of allowlists from either
  -- side, verifications and changes of other tables, which share one cache that may also lose
  -- entries, a verification answers as the tables alone do, for every token and time: no scope,
  -- expiry or revocation that was changed before is still in force.
  pub verify_token-current :
      {v : Vault} {s : c.Store}
      → Reach make_lookup hmac_hex c names v s
      → (now : ℕ) (raw : Text)
      → (verify_token make_lookup hmac_hex c now raw v s).0
        ≡ direct_lookup make_lookup hmac_hex c now raw v
  verify_token-current {v} {s} r now raw =
      verify_token-direct_lookup make_lookup hmac_hex c now raw v s (Reach-Good r).1
