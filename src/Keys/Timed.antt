-- ===== src/Keys/Timed.antt =====
-- A revoked key passes no verification once the time to live has gone by: `verify_token` and
-- `revoke_api_key` of apps/api_keys/services.py.
use osir_ai.Prelude.{
  ℕ, ◌≡◌, ◌≤◌, ◌<◌, ◌+◌, sym, ap, ◌∙◌, arith, true, false, inl, inr, List, Option, none, some, find,
  Text, text_eq, text_eq→eq, subst, Bool-cases, Option-cases,
}
use osir_ai.Keys.{ApiKey, Vault, is_active}
use osir_ai.Keys.Token.{ParsedToken}
use osir_ai.Keys.Issue.{with_lookup}
use osir_ai.Keys.Cache.{Cache}
use osir_ai.Keys.Verify.{
  active_cache_key, revocation_cache_ttl, verify_parsed, judge, remembered, issuer_still_authorized,
}
use osir_ai.Keys.Fresh.{IsLess, delete-IsLess}
use osir_ai.Keys.Workers.{KeepsRevocations, unrevoked}

abbrev revocation : Option ApiKey → Option ℕ
revocation none = none
revocation (some k) = k.revoked_at

module _ (make_lookup hmac_hex : Text → Text) (c : Cache ApiKey) where
  -- How long an entry lives: until the time to live from now has passed, and, when the key of the
  -- tables is revoked, no longer than that from its revocation.
  pub record IsTimed (now : ℕ) (keys : List ApiKey) (s : c.Store) : Type 0 where
    pub lives :
        (later : ℕ) (q : Text) (r : ApiKey)
        → c.get later (active_cache_key q) s ≡ some r
        → later < now + 30
    pub dies :
        (later : ℕ) (q : Text) (r row : ApiKey) (at_ : ℕ)
        → c.get later (active_cache_key q) s ≡ some r
        → find (with_lookup q) keys ≡ some row
        → row.revoked_at ≡ some at_
        → later < at_ + 30

  pub IsTimed-less :
      (now : ℕ) (old new : List ApiKey) (s s1 : c.Store)
      → IsTimed now old s
      → KeepsRevocations old new
      → IsLess c s1 s
      → IsTimed now new s1
  IsTimed-less now old new s s1 t keeps less = record {
    lives = λ later q r h. t.lives later q r (less later _ r h);
    dies = λ later q r row at_ h found revoked_.
        let (before, was, at_then) = keeps q row at_ found revoked_ in
        t.dies later q r before at_ (less later _ r h) was at_then;
  }

  pub IsTimed-later :
      (now later : ℕ) (keys : List ApiKey) (s : c.Store)
      → now ≤ later
      → IsTimed now keys s
      → IsTimed later keys s
  IsTimed-later now later keys s le t = record {
    lives = λ l q r h. let k = t.lives l q r h in omega arith;
    dies = t.dies;
  }

  pub unchanged : (keys : List ApiKey) → KeepsRevocations keys keys
  unchanged keys q row at_ found h = (row, found, h)

  -- An entry after a write is the one written, or was there before.
  set_own :
      (now later : ℕ) (q j : Text) (key r : ApiKey) (s : c.Store)
      → c.get later (active_cache_key j) (c.set now (active_cache_key q) key revocation_cache_ttl s)
        ≡ some r
      → text_eq q j ≡ true
      → later < now + 30
  set_own now later q j key r s h e =
      (c.get_set now later revocation_cache_ttl (active_cache_key q) key r s (
        subst
          (λ i.
            c.get later (active_cache_key i)
              (c.set now (active_cache_key q) key revocation_cache_ttl s)
            ≡ some r)
          (sym (text_eq→eq q j e)) h)).1

  set_old :
      (now later : ℕ) (q j : Text) (key r : ApiKey) (s : c.Store)
      → c.get later (active_cache_key j) (c.set now (active_cache_key q) key revocation_cache_ttl s)
        ≡ some r
      → text_eq q j ≡ false
      → c.get later (active_cache_key j) s ≡ some r
  set_old now later q j key r s h e =
      c.get_set_other now later revocation_cache_ttl (active_cache_key q) (active_cache_key j) key r
        s e h

  set-IsTimed :
      (now : ℕ) (q : Text) (key : ApiKey) (keys : List ApiKey) (s : c.Store)
      → IsTimed now keys s
      → find (with_lookup q) keys ≡ some key
      → is_active now key ≡ true
      → IsTimed now keys (c.set now (active_cache_key q) key revocation_cache_ttl s)
  set-IsTimed now q key keys s t found active = record {
    lives = λ later j r h. elim (Bool-cases (text_eq q j)) [
      | inl e ↦ set_own now later q j key r s h e
      | inr e ↦ t.lives later j r (set_old now later q j key r s h e)
    ];
    dies = λ later j r row at_ h is_row gone. elim (Bool-cases (text_eq q j)) [
      | inl e ↦
          let here : find (with_lookup q) keys ≡ some row = rw (text_eq→eq q j e) is_row in
          let this : some key ≡ some row = sym found ∙ here in
          let key_gone : key.revoked_at ≡ some at_ = ap revocation this ∙ gone in
          let bad : true ≡ false = sym active ∙ unrevoked now key at_ key_gone in absurd (cc)
      | inr e ↦ t.dies later j r row at_ (set_old now later q j key r s h e) is_row gone
    ];
  }

  remembered-IsTimed :
      (now : ℕ) (q : Text) (key : ApiKey) (keys : List ApiKey) (s : c.Store)
      → IsTimed now keys s
      → find (with_lookup q) keys ≡ some key
      → IsTimed now keys (remembered make_lookup hmac_hex c now q s key)
  remembered-IsTimed now q key keys s t found = elim (Bool-cases (is_active now key)) [
    | inl e ↦ rw e (set-IsTimed now q key keys s t found e)
    | inr e ↦ rw e t
  ]

  judge-IsLess :
      (now : ℕ) (p : ParsedToken) (v : Vault) (key : ApiKey) (s : c.Store)
      → IsLess c (judge make_lookup hmac_hex c now p v key s).1 s
  judge-IsLess now p v key s = elim (Bool-cases (is_active now key)) [
    | inr e ↦ rw e (delete-IsLess c _ s)
    | inl e ↦ elim (Bool-cases (text_eq (hmac_hex p.random_part) key.token_hash)) [
      | inr f ↦ rw (e, f) (λ later k w h. h)
      | inl f ↦ elim (Bool-cases (issuer_still_authorized v key)) [
        | inr g ↦ rw (e, f, g) (delete-IsLess c _ s)
        | inl g ↦ rw (e, f, g) (λ later k w h. h)
      ]
    ]
  ]

  pub verify_parsed-IsTimed :
      (now : ℕ) (p : Option ParsedToken) (v : Vault) (s : c.Store)
      → IsTimed now v.keys s
      → IsTimed now v.keys (verify_parsed make_lookup hmac_hex c now p v s).1
  verify_parsed-IsTimed now none v s t = t
  verify_parsed-IsTimed now (some p) v s t =
      elim (Option-cases (c.get now (active_cache_key p.lookup_prefix) s)) [
        | inr (key, e) ↦
            rw e
              (IsTimed-less now v.keys v.keys s _ t (unchanged v.keys) (judge-IsLess now p v key s))
        | inl e ↦ elim (Option-cases (find (with_lookup p.lookup_prefix) v.keys)) [
          | inl f ↦ rw (e, f) t
          | inr (key, f) ↦
              rw (e, f)
                (IsTimed-less now v.keys v.keys _ _
                  (remembered-IsTimed now p.lookup_prefix key v.keys s t f) (unchanged v.keys)
                  (judge-IsLess now p v key _))
        ]
      ]
