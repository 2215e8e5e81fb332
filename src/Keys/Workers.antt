-- ===== src/Keys/Workers.antt =====
-- Workers with a cache each, and how long a revoked key can still pass on one of them:
-- `verify_token` and `revoke_api_key` of apps/api_keys/services.py.
use osir_ai.Prelude.{
  ℕ, ◌≡◌, ◌≤◌, ◌⊎◌, refl, sym, ap, ◌∙◌, Bool, true, false, inl, inr, List, [], ◌∷◌, some, ◌==◌,
  if◌then◌else◌, find, update_where, Text, text_eq, Bool-cases, ◌++◌, none,
}
use osir_ai.Keys.{ApiKey, Vault, is_active}
use osir_ai.Keys.Issue.{with_lookup}
use osir_ai.Keys.Cache.{Cache}
use osir_ai.Keys.Verify.{verify_token}
use osir_ai.Keys.Signals.{revoke_signalled}
use osir_ai.Keys.Fresh.{IsLess}

-- One family changed at one worker.
abbrev pub put {ℓ} : {A : Type ℓ} → ℕ → A → (ℕ → A) → ℕ → A
put w a f i = if i == w then a else f i

-- A key that is found after a change of the tables and revoked was found and revoked before, at
-- the same time.
abbrev pub KeepsRevocations : List ApiKey → List ApiKey → Type 0
KeepsRevocations old new =
    (q : Text) (row : ApiKey) (at_ : ℕ)
    → find (with_lookup q) new ≡ some row
    → row.revoked_at ≡ some at_
    → (before : ApiKey) × (find (with_lookup q) old ≡ some before) × (before.revoked_at ≡ some at_)

pub find-update_back :
    (p : ApiKey → Bool) (f : ApiKey → ApiKey) (q : Text) (keys : List ApiKey) (row : ApiKey)
    → ((k : ApiKey) → (f k).lookup_prefix ≡ k.lookup_prefix)
    → find (with_lookup q) (update_where p f keys) ≡ some row
    → (before : ApiKey) × (find (with_lookup q) keys ≡ some before)
      × ((row ≡ f before) ⊎ (row ≡ before))
find-update_back p f q [] row same h = cc
find-update_back p f q (k ∷ ks) row same h = elim (Bool-cases (with_lookup q k)) [
  | inl e ↦ elim (Bool-cases (p k)) [
    | inl g ↦
        let still : with_lookup q (f k) ≡ true = ap (λ l. text_eq l q) (same k) ∙ e in
        let this : some (f k) ≡ some row = sym (rw (g, still) refl) ∙ h in (k, rw e refl, inl (cc))
    | inr g ↦ let this : some k ≡ some row = sym (rw (g, e) refl) ∙ h in (k, rw e refl, inr (cc))
  ]
  | inr e ↦
      let other : with_lookup q (if p k then f k else k) ≡ false = elim (Bool-cases (p k)) [
        | inl g ↦ rw g (ap (λ l. text_eq l q) (same k) ∙ e)
        | inr g ↦ rw g e
      ] in
      let rest : find (with_lookup q) (update_where p f ks) ≡ some row = sym (rw other refl) ∙ h in
      let (before, found, which) = find-update_back p f q ks row same rest in
      (before, rw e found, which)
]

-- An edit of rows that keeps their lookup and their revocation is such a change,
pub update_where-KeepsRevocations :
    (p : ApiKey → Bool) (f : ApiKey → ApiKey) (keys : List ApiKey)
    → ((k : ApiKey) → (f k).lookup_prefix ≡ k.lookup_prefix)
    → ((k : ApiKey) → (f k).revoked_at ≡ k.revoked_at)
    → KeepsRevocations keys (update_where p f keys)
update_where-KeepsRevocations p f keys same kept q row at_ found gone =
    let (before, was, which) = find-update_back p f q keys row same found in
    elim which [
      | inl e ↦ (before, was, sym (kept before) ∙ sym (ap (λ k. k.revoked_at) e) ∙ gone)
      | inr e ↦ (before, was, sym (ap (λ k. k.revoked_at) e) ∙ gone)
    ]

-- and so is a new row that is not revoked.
pub append-KeepsRevocations :
    (keys : List ApiKey) (key : ApiKey)
    → key.revoked_at ≡ none
    → KeepsRevocations keys (keys ++ (key ∷ []))
append-KeepsRevocations [] key fresh q row at_ found gone = elim (Bool-cases (with_lookup q key)) [
  | inl e ↦
      let this : some key ≡ some row = sym (rw e refl) ∙ found in
      let same : key ≡ row = cc in
      let bad : none ≡ some at_ = sym fresh ∙ ap (λ k. k.revoked_at) same ∙ gone in absurd (cc)
  | inr e ↦ let bad : none ≡ some row = sym (rw e refl) ∙ found in absurd (cc)
]
append-KeepsRevocations (k ∷ ks) key fresh q row at_ found gone =
    elim (Bool-cases (with_lookup q k)) [
      | inl e ↦
          let this : some k ≡ some row = sym (rw e refl) ∙ found in
          let same : k ≡ row = cc in (k, rw e refl, ap (λ r. r.revoked_at) same ∙ gone)
      | inr e ↦
          let (before, was, at_then) =
            append-KeepsRevocations ks key fresh q row at_ (sym (rw e refl) ∙ found) gone in
          (before, rw e was, at_then)
    ]

pub unrevoked :
    (now : ℕ) (key : ApiKey) (at_ : ℕ) → key.revoked_at ≡ some at_ → is_active now key ≡ false
unfolding is_active
unrevoked now key at_ h = rw h refl

module _ (make_lookup hmac_hex : Text → Text) (c : Cache ApiKey) where
  -- The clock, the tables and the caches: time passes, a worker verifies a token or revokes a
  -- key, or some other change of the tables, on any worker, leaves revocations as they are and adds
  -- nothing to its cache.
  pub data Turns : ℕ → Vault → (ℕ → c.Store) → Type 0 where
    begin : {now : ℕ} {v : Vault} → Turns now v (λ w. c.empty)
    wait :
        {now : ℕ} {v : Vault} {cs : ℕ → c.Store}
        → Turns now v cs
        → (later : ℕ) → now ≤ later
        → Turns later v cs
    verifies :
        {now : ℕ} {v : Vault} {cs : ℕ → c.Store}
        → Turns now v cs
        → (w : ℕ) (raw : Text)
        → Turns now v (put w (verify_token make_lookup hmac_hex c now raw v (cs w)).1 cs)
    revokes :
        {now : ℕ} {v : Vault} {cs : ℕ → c.Store}
        → Turns now v cs
        → (w : ℕ) (key : ApiKey)
        → Turns now
            (revoke_signalled c now key v (cs w)).0
            (put w (revoke_signalled c now key v (cs w)).1 cs)
    changes :
        {now : ℕ} {v : Vault} {cs : ℕ → c.Store}
        → Turns now v cs
        → (w : ℕ) (v1 : Vault) (s1 : c.Store) → KeepsRevocations v.keys v1.keys
        → IsLess c s1 (cs w)
        → Turns now v1 (put w s1 cs)
