-- ===== src/Api/Admitted.antt =====
-- What a request that is let in has shown, and that a request refused from an address that is not
-- blocked is counted: `authenticate` of apps/api/auth.py.
use osir_ai.Prelude.{
  ℕ, ◌≡◌, refl, sym, ap, ◌∙◌, true, false, ◌&&◌, ◌||◌, not, inl, inr, Option, none, some, Text,
  text_eq→eq, Bool-cases, arith, find,
}
use osir_ai.Keys.{ApiKey, Vault, is_active}
use osir_ai.Keys.Issue.{with_lookup}
use osir_ai.Keys.Token.{ParsedToken, parse_token}
use osir_ai.Keys.Names.{elem}
use osir_ai.Keys.Cache.{Cache}
use osir_ai.Keys.Verify.{
  verify_token, accept, direct_parsed, direct_lookup, passes, issuer_still_authorized,
}
use osir_ai.Keys.Fresh.{IsFresh}
use osir_ai.Keys.Cached.{verify_token-direct_lookup}
use osir_ai.Api.Throttle.{Counters, is_failed_auth_ip_blocked, record_failed_auth}
use osir_ai.Api.Auth.{
  AuthRequest, Settings, Server, Authenticated, ip_of, admitted, authenticate, pre_auth_reject,
  resolve_effective_permissions, allows, held_by, issuer_membership,
  resolve_effective_permissions-allows,
}

module _ (make_lookup hmac_hex : Text → Text) (c : Cache ApiKey) where
  accept-some :
      (now : ℕ) (p : ParsedToken) (v : Vault) (o : Option ApiKey) (key : ApiKey)
      → accept make_lookup hmac_hex c now p v o ≡ some key
      → (o ≡ some key) × (passes make_lookup hmac_hex c now p v key ≡ true)
  accept-some now p v none key h = absurd (cc)
  accept-some now p v (some row) key h =
      elim (Bool-cases (passes make_lookup hmac_hex c now p v row)) [
        | inl e ↦ let same : row ≡ key = let h' = rw e at h in cc in rw⁻¹ same (refl, e)
        | inr e ↦ absurd (let h' = rw e at h in cc)
      ]

  direct_parsed-some :
      (now : ℕ) (o : Option ParsedToken) (v : Vault) (key : ApiKey)
      → direct_parsed make_lookup hmac_hex c now o v ≡ some key
      → (p : ParsedToken) × (o ≡ some p)
        × (find (with_lookup p.lookup_prefix) v.keys ≡ some key)
        × (passes make_lookup hmac_hex c now p v key ≡ true)
  direct_parsed-some now none v key h = absurd (cc)
  direct_parsed-some now (some p) v key h =
      let (row, good) = accept-some now p v _ key h in (p, refl, row, good)

  -- Where each entry of the cache is the row of the tables, a key that is given back is the row of
  -- the token's lookup, is active and has the hash of the token's random part, and its issuer is
  -- still in its workspace.
  verify_token-some :
      (now : ℕ) (raw : Text) (v : Vault) (s : c.Store) (key : ApiKey)
      → IsFresh c v.keys s
      → (verify_token make_lookup hmac_hex c now raw v s).0 ≡ some key
      → (p : ParsedToken) × (parse_token make_lookup raw ≡ some p)
        × (find (with_lookup p.lookup_prefix) v.keys ≡ some key)
        × (passes make_lookup hmac_hex c now p v key ≡ true)
  unfolding direct_lookup
  verify_token-some now raw v s key fresh h =
      direct_parsed-some now (parse_token make_lookup raw) v key
        (sym (verify_token-direct_lookup make_lookup hmac_hex c now raw v s fresh) ∙ h)

module _ (make_lookup hmac_hex : Text → Text) (pk_text : ℕ → Text) (c : Cache ApiKey)
    (d : Counters) where
  -- What a request that is let in has shown.
  pub record IsAdmitted (now : ℕ) (st : Settings) (r : AuthRequest) (token : Text)
      (s : Server make_lookup hmac_hex pk_text c d) (a : Authenticated) : Type 0 where
    pub unblocked : is_failed_auth_ip_blocked d now (ip_of st r) s.counters ≡ false
    pub encrypted : (r.is_secure || st.debug) ≡ true
    pub parsed : ParsedToken
    pub parses : parse_token make_lookup token ≡ some parsed
    pub current : find (with_lookup parsed.lookup_prefix) s.vault.keys ≡ some a.api_key
    pub active : is_active now a.api_key ≡ true
    pub hashed : hmac_hex parsed.random_part ≡ a.api_key.token_hash
    pub employed : issuer_still_authorized s.vault a.api_key ≡ true
    pub permitted :
        (k : Text)
        → allows a.permissions k ≡ (
            elem k a.api_key.permissions
            && held_by (issuer_membership a.api_key.issued_by a.api_key s.vault) k)

  admitted-some :
      (now : ℕ) (st : Settings) (r : AuthRequest) (s : Server make_lookup hmac_hex pk_text c d)
      (o : Option ApiKey) (a : Authenticated)
      → (admitted make_lookup hmac_hex pk_text c d now st r s o).0 ≡ some a
      → (o ≡ some a.api_key) × (a.permissions ≡ resolve_effective_permissions s.vault a.api_key)
  admitted-some now st r s none a h = absurd (cc)
  admitted-some now st r s (some key) a h =
      let same : record { api_key = key; permissions = resolve_effective_permissions s.vault key }
          ≡ a =
        cc in
      rw⁻¹ same (refl, refl)

  -- Where each entry of the cache is the row of the tables, a request is let in only from an address
  -- that is not blocked, over HTTPS unless in debugging, with a token that parses and whose hash is
  -- that of the row that the tables hold now for its lookup; that row is active and its issuer still
  -- in its workspace; and the permissions that the request gets are those that the row grants and
  -- the issuer holds now.
  pub authenticate-IsAdmitted :
      (now : ℕ) (st : Settings) (r : AuthRequest) (token : Text)
      (s : Server make_lookup hmac_hex pk_text c d) (a : Authenticated)
      → IsFresh c s.vault.keys s.cached
      → (authenticate make_lookup hmac_hex pk_text c d now st r token s).0 ≡ some a
      → IsAdmitted now st r token s a
  unfolding authenticate pre_auth_reject
  authenticate-IsAdmitted now st r token s a fresh h =
      elim (Bool-cases (is_failed_auth_ip_blocked d now (ip_of st r) s.counters)) [
        | inl e ↦ let bad : none ≡ some a = sym (rw e refl) ∙ h in absurd (cc)
        | inr e ↦ elim (Bool-cases (not r.is_secure && not st.debug)) [
          | inl f ↦ let bad : none ≡ some a = sym (rw (e, f) refl) ∙ h in absurd (cc)
          | inr f ↦
              let found = verify_token make_lookup hmac_hex c now token s.vault s.cached in
              let this : (admitted make_lookup hmac_hex pk_text c d now st r
                    (record s { cached = found.1 }) found.0).0
                  ≡ some a =
                sym (rw (e, f) refl) ∙ h in
              let (is_key, dict) = admitted-some now st r _ found.0 a this in
              let (p, parses, current, good) =
                verify_token-some make_lookup hmac_hex c now token s.vault s.cached a.api_key fresh
                  is_key in
              record {
                unblocked = e;
                encrypted = ground arith;
                parsed = p;
                parses = parses;
                current = current;
                active = ground arith;
                hashed = text_eq→eq _ _ (ground arith);
                employed = ground arith;
                permitted = λ k.
                    ap (λ ps. allows ps k) dict
                    ∙ resolve_effective_permissions-allows s.vault a.api_key k;
              }
        ]
      ]

  admitted-none :
      (now : ℕ) (st : Settings) (r : AuthRequest) (s : Server make_lookup hmac_hex pk_text c d)
      (o : Option ApiKey)
      → (admitted make_lookup hmac_hex pk_text c d now st r s o).0 ≡ none
      → (admitted make_lookup hmac_hex pk_text c d now st r s o).1.counters
        ≡ record_failed_auth d now now (ip_of st r) s.counters
  admitted-none now st r s none h = refl
  admitted-none now st r s (some key) h = absurd (cc)

  -- A request that is refused from an address that is not blocked is counted against the address,
  -- for whatever reason it is refused.
  pub authenticate-record_failed_auth :
      (now : ℕ) (st : Settings) (r : AuthRequest) (token : Text)
      (s : Server make_lookup hmac_hex pk_text c d)
      → is_failed_auth_ip_blocked d now (ip_of st r) s.counters ≡ false
      → (authenticate make_lookup hmac_hex pk_text c d now st r token s).0 ≡ none
      → (authenticate make_lookup hmac_hex pk_text c d now st r token s).1.counters
        ≡ record_failed_auth d now now (ip_of st r) s.counters
  unfolding authenticate pre_auth_reject
  authenticate-record_failed_auth now st r token s e h =
      elim (Bool-cases (not r.is_secure && not st.debug)) [
        | inl f ↦ rw (e, f) refl
        | inr f ↦
            let found = verify_token make_lookup hmac_hex c now token s.vault s.cached in
            let this = admitted-none now st r (record s { cached = found.1 }) found.0 in
            rw (e, f) (this (sym (rw (e, f) refl) ∙ h))
      ]
