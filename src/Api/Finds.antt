-- ===== src/Api/Finds.antt =====
-- The first row of a kind after a row is added, after a filter and after an update: the tables of
-- apps/api/middleware.py.
use osir_ai.Prelude.{
  ◌≡◌, refl, sym, ap, ◌∙◌, Bool, true, false, inl, inr, List, [], ◌∷◌, ◌++◌, none, some,
  if◌then◌else◌, find, keep, update_where, Bool-cases,
}

module _ {ℓ} {A : Type ℓ} where
  pub find-append_found :
      (p : A → Bool) (xs ys : List A) (a : A) → find p xs ≡ some a → find p (xs ++ ys) ≡ some a
  find-append_found p [] ys a h = cc
  find-append_found p (x ∷ xs) ys a h = elim (Bool-cases (p x)) [
    | inl e ↦ rw e (sym (rw e refl) ∙ h)
    | inr e ↦ rw e (find-append_found p xs ys a (sym (rw e refl) ∙ h))
  ]

  pub find-append_last :
      (p : A → Bool) (xs : List A) (a : A)
      → find p xs ≡ none
      → p a ≡ true
      → find p (xs ++ (a ∷ [])) ≡ some a
  find-append_last p [] a h own = rw own refl
  find-append_last p (x ∷ xs) a h own = elim (Bool-cases (p x)) [
    | inl e ↦ let bad : some x ≡ none = sym (rw e refl) ∙ h in absurd (cc)
    | inr e ↦ rw e (find-append_last p xs a (sym (rw e refl) ∙ h) own)
  ]

  -- A row that a filter keeps is still the first of its kind.
  pub find-keep_kept :
      (p q : A → Bool) (xs : List A) (a : A)
      → find p xs ≡ some a
      → q a ≡ true
      → find p (keep q xs) ≡ some a
  find-keep_kept p q [] a h own = cc
  find-keep_kept p q (x ∷ xs) a h own = elim (Bool-cases (p x)) [
    | inl e ↦
        let this : some x ≡ some a = sym (rw e refl) ∙ h in
        let same : x ≡ a = cc in let kept : q x ≡ true = rw same own in rw (kept, e) this
    | inr e ↦
        let rest : find p (keep q xs) ≡ some a =
          find-keep_kept p q xs a (sym (rw e refl) ∙ h) own in
        elim (Bool-cases (q x)) [ inl f ↦ rw (f, e) rest | inr f ↦ rw f rest ]
  ]

  pub find-update_first :
      (p q : A → Bool) (f : A → A) (xs : List A) (a : A)
      → ((x : A) → p (f x) ≡ p x)
      → find p xs ≡ some a
      → find p (update_where q f xs) ≡ some (if q a then f a else a)
  find-update_first p q f [] a same h = absurd (cc)
  find-update_first p q f (x ∷ xs) a same h = elim (Bool-cases (p x)) [
    | inl e ↦
        let this : some x ≡ some a = sym (rw e refl) ∙ h in
        let is_a : x ≡ a = cc in
        let still : p (if q x then f x else x) ≡ true = elim (Bool-cases (q x)) [
          | inl g ↦ rw g (same x ∙ e)
          | inr g ↦ rw g e
        ] in
        rw still (ap (λ y. some (if q y then f y else y)) is_a)
    | inr e ↦
        let still : p (if q x then f x else x) ≡ false = elim (Bool-cases (q x)) [
          | inl g ↦ rw g (same x ∙ e)
          | inr g ↦ rw g e
        ] in
        rw still (find-update_first p q f xs a same (sym (rw e refl) ∙ h))
  ]
