-- ===== src/Keys/Runs.antt =====
-- The runs of the services of keys that share one cache, and what each of them keeps:
-- apps/api_keys/services.py and apps/api_keys/signals.py.
use osir_ai.Prelude.{
  ℕ, ◌≡◌, ap, false, inl, inr, List, [], ◌∷◌, ◌++◌, Option, ◌==◌, any, update_where, member,
  All-append, All-update_where, Text, text_eq, text_eq→eq, subst, Bool-cases, ok,
}
use osir_ai.Members.{OrgWorkspace}
use osir_ai.Keys.{ApiKey, Vault}
use osir_ai.Keys.Issue.{
  AllowedAccount, IssuedKey, with_lookup, update_key, issue_api_key, update_api_key,
}
use osir_ai.Keys.Cache.{Cache}
use osir_ai.Keys.Verify.{verify_token}
use osir_ai.Keys.Signals.{
  post_remove, pre_clear, post_clear, keys_among, keys_of_account, invalidate_api_key_cache,
  invalidate_each, on_account_side, after_set, issue_signalled, update_signalled, revoke_signalled,
}
use osir_ai.Keys.Fresh.{IsLess, IsGone, IsFresh, delete-IsLess, IsGone-IsLess, IsFresh-change}
use osir_ai.Keys.Reached.{
  IsSameKey, IsNamed, find-update_where, find-append_other, keep_id_named, after_set-IsLess,
  invalidate_each-IsLess, invalidate_each-IsGone,
}

abbrev pub update_among : List ℕ → (ApiKey → ApiKey) → Vault → Vault
update_among ids f v = record v { keys = update_where (λ k. member k.id ids) f v.keys }

module _ (make_lookup hmac_hex : Text → Text) (c : Cache ApiKey) (names : ℕ → Text) where
  -- The two signals of a clear: the first keeps the keys of the account, which are then changed.
  abbrev pub cleared_cache : ℕ → (ApiKey → ApiKey) → Vault → c.Store → c.Store
  cleared_cache account f v s =
      let after = update_among (keys_of_account account v.keys) f v in
      let result =
        on_account_side c post_clear account [] after
          (on_account_side c pre_clear account [] v ([], s)) in
      result.1

  -- The object that a caller holds for a key has the key's lookup.
  abbrev pub IsOf : ApiKey → Type 0
  IsOf key = key.lookup_prefix ≡ names key.id

  -- What the tables and the cache can become: a key is issued, edited, revoked, saved elsewhere
  -- with any other columns, linked or unlinked from the side of an account, whose links can also
  -- be cleared; a token is verified; other tables change.
  pub data Reach : Vault → c.Store → Type 0 where
    start : {v : Vault} → IsNamed names v.keys → Reach v c.empty
    issued :
        {v v1 : Vault} {s s1 : c.Store}
        → Reach v s
        → (workspace : OrgWorkspace) (accounts : List AllowedAccount) (issuer : ℕ) (name : Text)
          (asked : List Text) (expires : Option ℕ) (random_part : Text) (key : IssuedKey)
        → names v.next_key ≡ make_lookup random_part
        → issue_signalled c
            (issue_api_key make_lookup hmac_hex workspace accounts issuer name asked expires
              random_part v)
            s
          ≡ ok (key, (v1, s1))
        → Reach v1 s1
    edited :
        {v v1 : Vault} {s s1 : c.Store}
        → Reach v s
        → (key new : ApiKey) (editor : ℕ) (asked : List Text) (accounts : List AllowedAccount)
          (expires : Option ℕ)
        → IsOf key
        → update_signalled c key (update_api_key key editor asked accounts expires v) s
          ≡ ok (new, (v1, s1))
        → Reach v1 s1
    revoked :
        {v : Vault} {s : c.Store}
        → Reach v s
        → (now : ℕ) (key : ApiKey) → IsOf key
        → Reach (revoke_signalled c now key v s).0 (revoke_signalled c now key v s).1
    saved :
        {v : Vault} {s : c.Store}
        → Reach v s
        → (f : ApiKey → ApiKey) (key : ApiKey) → IsSameKey f
        → IsOf key
        → Reach (update_key key.id f v) (invalidate_api_key_cache c key s)
    linked :
        {v : Vault} {s : c.Store}
        → Reach v s
        → (f : ApiKey → ApiKey) (account : ℕ) (ids : List ℕ) → IsSameKey f
        → Reach
            (update_among ids f v)
            (on_account_side c post_remove account ids (update_among ids f v) ([], s)).1
    cleared :
        {v : Vault} {s : c.Store}
        → Reach v s
        → (f : ApiKey → ApiKey) (account : ℕ) → IsSameKey f
        → Reach (update_among (keys_of_account account v.keys) f v) (cleared_cache account f v s)
    verified :
        {v : Vault} {s : c.Store}
        → Reach v s
        → (now : ℕ) (raw : Text) → Reach v (verify_token make_lookup hmac_hex c now raw v s).1
    elsewhere : {v v1 : Vault} {s : c.Store} → Reach v s → v1.keys ≡ v.keys → Reach v1 s

  -- The rows have their lookups, and the cache has their rows.
  abbrev pub Good : List ApiKey → c.Store → Type 0
  Good keys s = IsNamed names keys × IsFresh c keys s

  -- A row is changed, and the lookup of its key is gone from the cache.
  pub changed-Good :
      (keys : List ApiKey) (s s1 : c.Store) (f : ApiKey → ApiKey) (key : ApiKey)
      → Good keys s
      → IsSameKey f
      → IsOf key
      → IsLess c s1 s
      → IsGone c key.lookup_prefix s1
      → Good (update_where (λ k. k.id == key.id) f keys) s1
  changed-Good keys s s1 f key (named, fresh) same own less gone =
      let still : IsNamed names (update_where (λ k. k.id == key.id) f keys) =
        All-update_where (λ k. k.lookup_prefix ≡ names k.id) (λ k. k.lookup_prefix ≡ names k.id)
          (λ k. k.id == key.id) f keys
          (λ k h. elim (Bool-cases (k.id == key.id)) [
            | inl e ↦ rw (e, same.same_id k, same.same_lookup k) h
            | inr e ↦ rw e h
          ])
          named in
      (
        still,
        IsFresh-change c keys _ s s1 fresh less (λ q.
            elim (Bool-cases (text_eq key.lookup_prefix q)) [
              | inl e ↦ inl (subst (λ l. IsGone c l s1) (text_eq→eq _ q e) gone)
              | inr e ↦
                  let other : text_eq (names key.id) q ≡ false = rw⁻¹ own e in
                  inr (
                    find-update_where (λ k. k.id == key.id) f q keys same
                      (keep_id_named names key.id q _ still other)
                      (λ k. ap (λ i. i == key.id) (same.same_id k)))
            ]),
      )

  among-IsNamed :
      (ids : List ℕ) (f : ApiKey → ApiKey) (keys : List ApiKey)
      → IsNamed names keys
      → IsSameKey f
      → IsNamed names (update_where (λ k. member k.id ids) f keys)
  among-IsNamed ids f keys named same =
      All-update_where (λ k. k.lookup_prefix ≡ names k.id) (λ k. k.lookup_prefix ≡ names k.id)
        (λ k. member k.id ids) f keys
        (λ k h. elim (Bool-cases (member k.id ids)) [
          | inl e ↦ rw (e, same.same_id k, same.same_lookup k) h
          | inr e ↦ rw e h
        ])
        named

  -- The rows of some keys are changed, and each of those keys is invalidated.
  pub among-Good :
      (ids : List ℕ) (f : ApiKey → ApiKey) (keys : List ApiKey) (s : c.Store)
      → Good keys s
      → IsSameKey f
      → Good
          (update_where (λ k. member k.id ids) f keys)
          (invalidate_each c (keys_among ids (update_where (λ k. member k.id ids) f keys)) s)
  among-Good ids f keys s (named, fresh) same =
      let new = update_where (λ (k : ApiKey). member k.id ids) f keys in
      (
        among-IsNamed ids f keys named same,
        IsFresh-change c keys new s _ fresh (invalidate_each-IsLess c (keys_among ids new) s) (λ q.
            elim (Bool-cases (any (with_lookup q) (keys_among ids new))) [
              | inl e ↦ inl (invalidate_each-IsGone c q (keys_among ids new) s e)
              | inr e ↦ inr (
                  find-update_where (λ k. member k.id ids) f q keys same e
                    (λ k. ap (λ i. member i ids) (same.same_id k)))
            ]),
      )

  pub added-Good :
      (keys : List ApiKey) (s s1 : c.Store) (key : ApiKey)
      → Good keys s
      → IsOf key
      → IsLess c s1 s
      → IsGone c key.lookup_prefix s1
      → Good (keys ++ (key ∷ [])) s1
  added-Good keys s s1 key (named, fresh) own less gone = (
    All-append _ keys (key ∷ []) named (own, tt),
    IsFresh-change c keys _ s s1 fresh less (λ q. elim (Bool-cases (text_eq key.lookup_prefix q)) [
      | inl e ↦ inl (subst (λ l. IsGone c l s1) (text_eq→eq _ q e) gone)
      | inr e ↦ inr (find-append_other q keys key e)
    ]),
  )

  -- The signals of a saved key and of its new allowlist.
  pub after_save-IsLess :
      (old new : List ℕ) (key : ApiKey) (s : c.Store)
      → IsLess c (after_set c old new key (invalidate_api_key_cache c key s)) s
  after_save-IsLess old new key s later j w h =
      delete-IsLess c _ s later j w (after_set-IsLess c old new key _ later j w h)

  pub after_save-IsGone :
      (old new : List ℕ) (key : ApiKey) (s : c.Store) (lookup : Text)
      → key.lookup_prefix ≡ lookup
      → IsGone c lookup (after_set c old new key (invalidate_api_key_cache c key s))
  after_save-IsGone old new key s lookup e =
      IsGone-IsLess c lookup _ (invalidate_api_key_cache c key s) (after_set-IsLess c old new key _)
        (rw⁻¹ e (λ later. c.get_delete later _ s))
