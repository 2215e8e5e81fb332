-- ===== src/Keys/Fresh.antt =====
-- The cache of keys holds the rows of the tables: the reads of `verify_token` and the signals of
-- apps/api_keys/signals.py keep it so.
use osir_ai.Prelude.{
  ℕ, ◌≡◌, ◌⊎◌, refl, sym, ◌∙◌, arith, inl, inr, List, [], ◌∷◌, none, some, ◌==◌, find, Text,
  text_eq, text_eq→eq, Bool-cases, Option-cases, subst,
}
use osir_ai.Keys.{ApiKey}
use osir_ai.Keys.Issue.{with_lookup}
use osir_ai.Keys.Cache.{Cache}
use osir_ai.Keys.Verify.{active_cache_key}

pub text_eq_sym : (s t : Text) → text_eq s t ≡ text_eq t s
text_eq_sym [] [] = refl
text_eq_sym [] (d ∷ t) = refl
text_eq_sym (c ∷ s) [] = refl
text_eq_sym (c ∷ s) (d ∷ t) =
    let e : (c == d) ≡ (d == c) = ground arith in rw (e, text_eq_sym s t) refl

module _ (c : Cache ApiKey) where
  -- The entries of one cache are among those of another; a lookup has no entry.
  abbrev pub IsLess : c.Store → c.Store → Type 0
  IsLess s1 s =
      (later : ℕ) (k : Text) (w : ApiKey) → c.get later k s1 ≡ some w → c.get later k s ≡ some w

  abbrev pub IsGone : Text → c.Store → Type 0
  IsGone q s = (later : ℕ) → c.get later (active_cache_key q) s ≡ none

  -- Every entry is the row that the tables hold under its lookup.
  abbrev pub IsFresh : List ApiKey → c.Store → Type 0
  IsFresh keys s =
      (later : ℕ) (q : Text) (w : ApiKey)
      → c.get later (active_cache_key q) s ≡ some w
      → find (with_lookup q) keys ≡ some w

  pub delete-IsLess : (k : Text) (s : c.Store) → IsLess (c.delete k s) s
  delete-IsLess k s later j w h = elim (Bool-cases (text_eq k j)) [
    | inl e ↦
        let same = text_eq→eq k j e in
        let bad : some w ≡ none =
          sym h ∙ subst (λ i. c.get later i (c.delete k s) ≡ none) same (c.get_delete later k s) in
        absurd (cc)
    | inr e ↦ c.get_delete_other later k j w s e h
  ]

  pub IsGone-IsLess : (q : Text) (s1 s : c.Store) → IsLess s1 s → IsGone q s → IsGone q s1
  IsGone-IsLess q s1 s less gone later = elim (Option-cases (c.get later (active_cache_key q) s1)) [
    | inl e ↦ e
    | inr (w, e) ↦ let bad : some w ≡ none = sym (less later _ w e) ∙ gone later in absurd (cc)
  ]

  -- A change of the rows keeps the cache fresh when each lookup is gone or still has its row.
  pub IsFresh-change :
      (keys new : List ApiKey) (s s1 : c.Store)
      → IsFresh keys s
      → IsLess s1 s
      → ((q : Text) → IsGone q s1 ⊎ (find (with_lookup q) new ≡ find (with_lookup q) keys))
      → IsFresh new s1
  IsFresh-change keys new s s1 fresh less each later q w h = elim (each q) [
    | inl gone ↦ let bad : some w ≡ none = sym h ∙ gone later in absurd (cc)
    | inr same ↦ same ∙ fresh later q w (less later _ w h)
  ]

  pub IsFresh-set :
      (keys : List ApiKey) (now ttl : ℕ) (q : Text) (row : ApiKey) (s : c.Store)
      → IsFresh keys s
      → find (with_lookup q) keys ≡ some row
      → IsFresh keys (c.set now (active_cache_key q) row ttl s)
  IsFresh-set keys now ttl q row s fresh found later j w h = elim (Bool-cases (text_eq q j)) [
    | inl e ↦
        let same = text_eq→eq q j e in
        let here : c.get later (active_cache_key q) (c.set now (active_cache_key q) row ttl s)
            ≡ some w =
          subst
            (λ i.
              c.get later (active_cache_key i) (c.set now (active_cache_key q) row ttl s) ≡ some w)
            (sym same) h in
        let (is_row, _) = c.get_set now later ttl (active_cache_key q) row w s here in
        rw⁻¹ same (rw is_row found)
    | inr e ↦
        fresh later j w
          (c.get_set_other now later ttl (active_cache_key q) (active_cache_key j) row w s e h)
  ]
