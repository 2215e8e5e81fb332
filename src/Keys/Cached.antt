-- ===== src/Keys/Cached.antt =====
-- A verification through a fresh cache answers as the tables do: `verify_token` of
-- apps/api_keys/services.py.
use osir_ai.Prelude.{
  ℕ, ◌≡◌, refl, inl, inr, List, Option, none, some, find, Text, text_eq, if◌then◌else◌, Bool-cases,
  Option-cases,
}
use osir_ai.Keys.{ApiKey, Vault, is_active}
use osir_ai.Keys.Token.{ParsedToken, parse_token}
use osir_ai.Keys.Issue.{with_lookup}
use osir_ai.Keys.Cache.{Cache}
use osir_ai.Keys.Verify.{
  active_cache_key, revocation_cache_ttl, verify_token, verify_parsed, direct_lookup, direct_parsed,
  judge, remembered, issuer_still_authorized, passes,
}
use osir_ai.Keys.Fresh.{IsFresh, delete-IsLess, IsFresh-change, IsFresh-set}

module _ (make_lookup hmac_hex : Text → Text) (c : Cache ApiKey) where
  pub judge-passes :
      (now : ℕ) (p : ParsedToken) (v : Vault) (key : ApiKey) (s : c.Store)
      → (judge make_lookup hmac_hex c now p v key s).0
        ≡ (if passes make_lookup hmac_hex c now p v key then some key else none)
  judge-passes now p v key s = elim (Bool-cases (is_active now key)) [
    | inr e ↦ rw e refl
    | inl e ↦ elim (Bool-cases (text_eq (hmac_hex p.random_part) key.token_hash)) [
      | inr f ↦ rw (e, f) refl
      | inl f ↦ elim (Bool-cases (issuer_still_authorized v key)) [
        | inr g ↦ rw (e, f, g) refl
        | inl g ↦ rw (e, f, g) refl
      ]
    ]
  ]

  verify_parsed-direct :
      (now : ℕ) (p : Option ParsedToken) (v : Vault) (s : c.Store)
      → IsFresh c v.keys s
      → (verify_parsed make_lookup hmac_hex c now p v s).0
        ≡ direct_parsed make_lookup hmac_hex c now p v
  verify_parsed-direct now none v s fresh = refl
  verify_parsed-direct now (some p) v s fresh =
      elim (Option-cases (c.get now (active_cache_key p.lookup_prefix) s)) [
        | inr (key, e) ↦ rw (e, fresh now p.lookup_prefix key e) (judge-passes now p v key s)
        | inl e ↦ elim (Option-cases (find (with_lookup p.lookup_prefix) v.keys)) [
          | inl f ↦ rw (e, f) refl
          | inr (key, f) ↦ rw (e, f) (judge-passes now p v key _)
        ]
      ]

  -- When each entry of the cache is the row of the tables, a verification with the cache answers
  -- just as the checks of the row in the tables, whatever the token and the time.
  pub verify_token-direct_lookup :
      (now : ℕ) (raw : Text) (v : Vault) (s : c.Store)
      → IsFresh c v.keys s
      → (verify_token make_lookup hmac_hex c now raw v s).0
        ≡ direct_lookup make_lookup hmac_hex c now raw v
  unfolding verify_token direct_lookup
  verify_token-direct_lookup now raw v s fresh =
      verify_parsed-direct now (parse_token make_lookup raw) v s fresh

  IsFresh-delete :
      (keys : List ApiKey) (k : Text) (s : c.Store)
      → IsFresh c keys s
      → IsFresh c keys (c.delete k s)
  IsFresh-delete keys k s fresh =
      IsFresh-change c keys keys s (c.delete k s) fresh (delete-IsLess c k s) (λ q. inr refl)

  judge-IsFresh :
      (now : ℕ) (p : ParsedToken) (v : Vault) (key : ApiKey) (s : c.Store)
      → IsFresh c v.keys s
      → IsFresh c v.keys (judge make_lookup hmac_hex c now p v key s).1
  judge-IsFresh now p v key s fresh =
      let gone = IsFresh-delete v.keys (active_cache_key p.lookup_prefix) s fresh in
      elim (Bool-cases (is_active now key)) [
        | inr e ↦ rw e gone
        | inl e ↦ elim (Bool-cases (text_eq (hmac_hex p.random_part) key.token_hash)) [
          | inr f ↦ rw (e, f) fresh
          | inl f ↦ elim (Bool-cases (issuer_still_authorized v key)) [
            | inr g ↦ rw (e, f, g) gone
            | inl g ↦ rw (e, f, g) fresh
          ]
        ]
      ]

  remembered-IsFresh :
      (now : ℕ) (q : Text) (key : ApiKey) (keys : List ApiKey) (s : c.Store)
      → IsFresh c keys s
      → find (with_lookup q) keys ≡ some key
      → IsFresh c keys (remembered make_lookup hmac_hex c now q s key)
  remembered-IsFresh now q key keys s fresh found = elim (Bool-cases (is_active now key)) [
    | inl e ↦ rw e (IsFresh-set c keys now revocation_cache_ttl q key s fresh found)
    | inr e ↦ rw e fresh
  ]

  verify_parsed-IsFresh :
      (now : ℕ) (p : Option ParsedToken) (v : Vault) (s : c.Store)
      → IsFresh c v.keys s
      → IsFresh c v.keys (verify_parsed make_lookup hmac_hex c now p v s).1
  verify_parsed-IsFresh now none v s fresh = fresh
  verify_parsed-IsFresh now (some p) v s fresh =
      elim (Option-cases (c.get now (active_cache_key p.lookup_prefix) s)) [
        | inr (key, e) ↦ rw e (judge-IsFresh now p v key s fresh)
        | inl e ↦ elim (Option-cases (find (with_lookup p.lookup_prefix) v.keys)) [
          | inl f ↦ rw (e, f) fresh
          | inr (key, f) ↦
              rw (e, f)
                (judge-IsFresh now p v key _
                  (remembered-IsFresh now p.lookup_prefix key v.keys s fresh f))
        ]
      ]

  pub verify_token-IsFresh :
      (now : ℕ) (raw : Text) (v : Vault) (s : c.Store)
      → IsFresh c v.keys s
      → IsFresh c v.keys (verify_token make_lookup hmac_hex c now raw v s).1
  unfolding verify_token
  verify_token-IsFresh now raw v s fresh =
      verify_parsed-IsFresh now (parse_token make_lookup raw) v s fresh
