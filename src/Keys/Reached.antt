-- ===== src/Keys/Reached.antt =====
-- Every verification answers as the tables do, after any sequence of the services' calls, saves and
-- changes of allowlists: apps/api_keys/services.py and apps/api_keys/signals.py.
use osir_ai.Prelude.{
  ℕ, ◌≡◌, refl, sym, ap, ◌∙◌, arith, Bool, true, false, inl, inr, List, [], ◌∷◌, ◌++◌, ◌==◌, find,
  any, keep, update_where, All, Text, text_eq, text_eq→eq, subst, Bool-cases, ||-false,
}
use osir_ai.Keys.{ApiKey}
use osir_ai.Keys.Issue.{with_lookup}
use osir_ai.Keys.Cache.{Cache}
use osir_ai.Keys.Signals.{invalidate_api_key_cache, invalidate_each, after_set, lacks}
use osir_ai.Keys.Fresh.{IsLess, IsGone, delete-IsLess, IsGone-IsLess}

-- A change of rows that keeps their identity and their lookup.
pub record IsSameKey (f : ApiKey → ApiKey) : Type 0 where
  pub same_id : (k : ApiKey) → (f k).id ≡ k.id
  pub same_lookup : (k : ApiKey) → (f k).lookup_prefix ≡ k.lookup_prefix

-- Rows with another lookup are not found by this one, before or after a change.
pub find-update_where :
    (p : ApiKey → Bool) (f : ApiKey → ApiKey) (q : Text) (keys : List ApiKey)
    → IsSameKey f
    → any (with_lookup q) (keep p (update_where p f keys)) ≡ false
    → ((k : ApiKey) → p (f k) ≡ p k)
    → find (with_lookup q) (update_where p f keys) ≡ find (with_lookup q) keys
find-update_where p f q [] same h stable = refl
find-update_where p f q (k ∷ ks) same h stable = elim (Bool-cases (p k)) [
  | inl e ↦
      let still : p (f k) ≡ true = stable k ∙ e in
      let shown : any (with_lookup q) (f k ∷ keep p (update_where p f ks)) ≡ false =
        sym (rw (e, still) refl) ∙ h in
      let (here, rest) = ||-false (with_lookup q (f k)) _ shown in
      let before : with_lookup q k ≡ false =
        sym (ap (λ l. text_eq l q) (same.same_lookup k)) ∙ here in
      rw (e, here, before) (find-update_where p f q ks same rest stable)
  | inr e ↦
      let rest : any (with_lookup q) (keep p (update_where p f ks)) ≡ false =
        sym (rw (e, e) refl) ∙ h in
      let ih = find-update_where p f q ks same rest stable in rw (e, ih) refl
]

pub find-append_other :
    (q : Text) (keys : List ApiKey) (key : ApiKey)
    → with_lookup q key ≡ false
    → find (with_lookup q) (keys ++ (key ∷ [])) ≡ find (with_lookup q) keys
find-append_other q [] key h = rw h refl
find-append_other q (k ∷ ks) key h = rw (find-append_other q ks key h) refl

-- The lookup of a key is the one that goes with its primary key.
abbrev pub IsNamed : (ℕ → Text) → List ApiKey → Type 0
IsNamed names keys = All (λ k. k.lookup_prefix ≡ names k.id) keys

pub keep_id_named :
    (names : ℕ → Text) (id : ℕ) (q : Text) (keys : List ApiKey)
    → IsNamed names keys
    → text_eq (names id) q ≡ false
    → any (with_lookup q) (keep (λ k. k.id == id) keys) ≡ false
keep_id_named names id q [] named h = refl
keep_id_named names id q (k ∷ ks) named h = elim (Bool-cases (k.id == id)) [
  | inl e ↦
      let own : k.id ≡ id = ground arith in
      let other : with_lookup q k ≡ false = rw (named.0, own) h in
      rw (e, other) (keep_id_named names id q ks named.1 h)
  | inr e ↦ rw e (keep_id_named names id q ks named.1 h)
]

module _ (c : Cache ApiKey) where
  IsLess-trans : (s2 s1 s : c.Store) → IsLess c s2 s1 → IsLess c s1 s → IsLess c s2 s
  IsLess-trans s2 s1 s h k later j w e = k later j w (h later j w e)

  pub invalidate_each-IsLess :
      (ks : List ApiKey) (s : c.Store) → IsLess c (invalidate_each c ks s) s
  invalidate_each-IsLess [] s later j w h = h
  invalidate_each-IsLess (k ∷ ks) s later j w h =
      delete-IsLess c _ s later j w (invalidate_each-IsLess ks _ later j w h)

  pub invalidate_each-IsGone :
      (q : Text) (ks : List ApiKey) (s : c.Store)
      → any (with_lookup q) ks ≡ true
      → IsGone c q (invalidate_each c ks s)
  invalidate_each-IsGone q [] s h = cc
  invalidate_each-IsGone q (k ∷ ks) s h = elim (Bool-cases (with_lookup q k)) [
    | inl e ↦ IsGone-IsLess c q _ (invalidate_api_key_cache c k s) (invalidate_each-IsLess ks _) (
        subst (λ l. IsGone c l (invalidate_api_key_cache c k s)) (text_eq→eq k.lookup_prefix q e)
          (λ later. c.get_delete later _ s))
    | inr e ↦ invalidate_each-IsGone q ks _ (sym (rw e refl) ∙ h)
  ]

  pub after_set-IsLess :
      (old new : List ℕ) (key : ApiKey) (s : c.Store) → IsLess c (after_set c old new key s) s
  after_set-IsLess old new key s = elim (Bool-cases (lacks old new)) [
    | inl e ↦ elim (Bool-cases (lacks new old)) [
      | inl f ↦ rw (e, f) (IsLess-trans _ _ s (delete-IsLess c _ _) (delete-IsLess c _ s))
      | inr f ↦ rw (e, f) (delete-IsLess c _ s)
    ]
    | inr e ↦ elim (Bool-cases (lacks new old)) [
      | inl f ↦ rw (e, f) (delete-IsLess c _ s)
      | inr f ↦ rw (e, f) (λ later k w h. h)
    ]
  ]
