-- ===== src/Keys/Revoked.antt =====
-- A revoked key passes no verification once the time to live has gone by: `verify_token` and
-- `revoke_api_key` of apps/api_keys/services.py.
use osir_ai.Prelude.{
  ℕ, ◌≡◌, ◌≤◌, ◌+◌, refl, sym, ap, ◌∙◌, arith, inl, inr, List, none, some, ◌==◌, find, update_where,
  Text, Bool-cases, Option-cases,
}
use osir_ai.Keys.{ApiKey, Vault}
use osir_ai.Keys.Token.{ParsedToken, parse_token}
use osir_ai.Keys.Issue.{with_lookup, revoke_api_key, revoked_now}
use osir_ai.Keys.Cache.{Cache}
use osir_ai.Keys.Verify.{active_cache_key, revocation_cache_ttl, verify_token, verify_parsed}
use osir_ai.Keys.Signals.{invalidate_api_key_cache, revoke_signalled}
use osir_ai.Keys.Fresh.{delete-IsLess}
use osir_ai.Keys.Workers.{
  put, find-update_back, unrevoked, Turns, begin, wait, verifies, revokes, changes,
}
use osir_ai.Keys.Timed.{IsTimed, IsTimed-less, IsTimed-later, unchanged, verify_parsed-IsTimed}

module _ (make_lookup hmac_hex : Text → Text) (c : Cache ApiKey) where
  revoked_rows-IsTimed :
      (now : ℕ) (key : ApiKey) (keys : List ApiKey) (s : c.Store)
      → IsTimed make_lookup hmac_hex c now keys s
      → IsTimed make_lookup hmac_hex c now
          (update_where (λ k. k.id == key.id) (revoked_now now) keys)
          s
  revoked_rows-IsTimed now key keys s t = record {
    lives = t.lives;
    dies = λ later q r row at_ h found gone.
        let (before, was, which) =
          find-update_back (λ k. k.id == key.id) (revoked_now now) q keys row (λ k. refl) found in
        elim which [
          | inl e ↦
              let same : some now ≡ some at_ = sym (ap (λ k. k.revoked_at) e) ∙ gone in
              let at_now : now ≡ at_ = cc in let live = t.lives later q r h in omega arith
          | inr e ↦ t.dies later q r before at_ h was (sym (ap (λ k. k.revoked_at) e) ∙ gone)
        ];
  }

  revoke_signalled-IsTimed :
      (now : ℕ) (key : ApiKey) (v : Vault) (s : c.Store)
      → IsTimed make_lookup hmac_hex c now v.keys s
      → IsTimed make_lookup hmac_hex c now
          (revoke_signalled c now key v s).0.keys
          (revoke_signalled c now key v s).1
        × ((s1 : c.Store)
            → IsTimed make_lookup hmac_hex c now v.keys s1
            → IsTimed make_lookup hmac_hex c now (revoke_signalled c now key v s).0.keys s1)
  unfolding revoke_signalled revoke_api_key
  revoke_signalled-IsTimed now key v s t = elim (Option-cases key.revoked_at) [
    | inl e ↦ rw e (
      IsTimed-less make_lookup hmac_hex c now _ _ s _ (revoked_rows-IsTimed now key v.keys s t)
          (unchanged make_lookup hmac_hex c _)
          (λ later j w h.
            delete-IsLess c _ s later j w
              (delete-IsLess c _ (invalidate_api_key_cache c key s) later j w h)),
      λ s1 k. revoked_rows-IsTimed now key v.keys s1 k,
    )
    | inr (before, e) ↦ rw e (
      IsTimed-less make_lookup hmac_hex c now v.keys v.keys s _ t
          (unchanged make_lookup hmac_hex c v.keys) (delete-IsLess c _ s),
      λ s1 k. k,
    )
  ]

  -- One worker's cache is replaced, the others are as they were.
  put-IsTimed :
      (now : ℕ) (keys : List ApiKey) (w : ℕ) (s1 : c.Store) (cs : ℕ → c.Store)
      → IsTimed make_lookup hmac_hex c now keys s1
      → ((i : ℕ) → IsTimed make_lookup hmac_hex c now keys (cs i))
      → (i : ℕ) → IsTimed make_lookup hmac_hex c now keys (put w s1 cs i)
  put-IsTimed now keys w s1 cs own others i = elim (Bool-cases (i == w)) [
    | inl e ↦ rw e own
    | inr e ↦ rw e (others i)
  ]

  verify_token-IsTimed :
      (now : ℕ) (raw : Text) (v : Vault) (s : c.Store)
      → IsTimed make_lookup hmac_hex c now v.keys s
      → IsTimed make_lookup hmac_hex c now v.keys
          (verify_token make_lookup hmac_hex c now raw v s).1
  unfolding verify_token
  verify_token-IsTimed now raw v s t =
      verify_parsed-IsTimed make_lookup hmac_hex c now (parse_token make_lookup raw) v s t

  Turns-IsTimed :
      {now : ℕ} {v : Vault} {cs : ℕ → c.Store}
      → Turns make_lookup hmac_hex c now v cs
      → (i : ℕ) → IsTimed make_lookup hmac_hex c now v.keys (cs i)
  Turns-IsTimed begin i = record {
    lives = λ later q r h. let bad : some r ≡ none = sym h ∙ c.get_empty later _ in absurd (cc);
    dies = λ later q r row at_ h found gone.
        let bad : some r ≡ none = sym h ∙ c.get_empty later _ in absurd (cc);
  }
  Turns-IsTimed (wait {now} {v} {cs} r later le) i =
      IsTimed-later make_lookup hmac_hex c now later v.keys (cs i) le (Turns-IsTimed r i)
  Turns-IsTimed (verifies {now} {v} {cs} r w raw) i =
      put-IsTimed now v.keys w _ cs (verify_token-IsTimed now raw v (cs w) (Turns-IsTimed r w))
        (Turns-IsTimed r) i
  Turns-IsTimed (revokes {now} {v} {cs} r w key) i =
      let (own, rest) = revoke_signalled-IsTimed now key v (cs w) (Turns-IsTimed r w) in
      put-IsTimed now _ w _ cs own (λ j. rest (cs j) (Turns-IsTimed r j)) i
  Turns-IsTimed (changes {now} {v} {cs} r w v1 s1 keeps less) i =
      put-IsTimed now v1.keys w s1 cs
        (IsTimed-less make_lookup hmac_hex c now v.keys v1.keys (cs w) s1 (Turns-IsTimed r w) keeps
          less)
        (λ j.
          IsTimed-less make_lookup hmac_hex c now v.keys v1.keys (cs j) (cs j) (Turns-IsTimed r j)
            keeps (λ later k x h. h))
        i

  refused_row :
      (now at_ : ℕ) (p : ParsedToken) (v : Vault) (s : c.Store) (row : ApiKey)
      → c.get now (active_cache_key p.lookup_prefix) s ≡ none
      → find (with_lookup p.lookup_prefix) v.keys ≡ some row
      → row.revoked_at ≡ some at_
      → (verify_parsed make_lookup hmac_hex c now (some p) v s).0 ≡ none
  refused_row now at_ p v s row absent found gone =
      rw (absent, found, unrevoked now row at_ gone) refl

  -- Several workers that each have a cache verify tokens and revoke keys in any order, while other
  -- changes that leave revocations as they are happen: once a key has been revoked for the 30
  -- seconds of the time to live, no worker verifies a token of its lookup.
  pub verify_token-revoked :
      {now : ℕ} {v : Vault} {cs : ℕ → c.Store}
      → Turns make_lookup hmac_hex c now v cs
      → (w at_ : ℕ) (raw : Text) (p : ParsedToken) (row : ApiKey)
      → parse_token make_lookup raw ≡ some p
      → find (with_lookup p.lookup_prefix) v.keys ≡ some row
      → row.revoked_at ≡ some at_
      → at_ + revocation_cache_ttl ≤ now
      → (verify_token make_lookup hmac_hex c now raw v (cs w)).0 ≡ none
  unfolding verify_token
  verify_token-revoked {now} {v} {cs} r w at_ raw p row parsed found gone late =
      elim (Option-cases (c.get now (active_cache_key p.lookup_prefix) (cs w))) [
        | inl e ↦ rw parsed (refused_row now at_ p v (cs w) row e found gone)
        | inr (k, e) ↦
            let soon = (Turns-IsTimed r w).dies now p.lookup_prefix k row at_ e found gone in
            absurd (omega arith)
      ]
