-- ===== src/Approvals/Found.antt =====
-- The reminder of a post at a stage, before and after one is written: the table of
-- apps/approvals/tasks.py.
use osir_ai.Prelude.{
  ℕ, ◌≡◌, refl, sym, subst, ◌∙◌, ap, arith, Bool, true, false, ◌&&◌, inl, inr, List, [], ◌∷◌, ◌++◌,
  some, ◌==◌, find, update_where, Bool-cases, Option-cases,
}
use osir_ai.Workflow.{Status, same}
use osir_ai.Workflow.Lowest.{same→eq}
use osir_ai.Api.Finds.{find-append_last}
use osir_ai.Approvals.Effects.{Reminder}
use osir_ai.Approvals.Tasks.{found_reminder, with_reminder}

-- Rows of a table where one of a key is replaced, or added.
module _ {A : Type 0} (p q : A → Bool) where
  find-replaced :
      (xs : List A) (r : A) {old : A}
      → find p xs ≡ some old
      → p r ≡ true
      → find p (update_where p (λ _. r) xs) ≡ some r
  find-replaced [] r h own = absurd (cc)
  find-replaced (x ∷ xs) r h own = elim (Bool-cases (p x)) [
    | inl e ↦ rw (e, own) refl
    | inr e ↦ rw (e, e) (find-replaced xs r (sym (rw e refl) ∙ h) own)
  ]

  find-other :
      (xs : List A) (r : A)
      → ((x : A) → p x ≡ true → q x ≡ false)
      → q r ≡ false
      → find q (update_where p (λ _. r) xs) ≡ find q xs
  find-other [] r apart other = refl
  find-other (x ∷ xs) r apart other = elim (Bool-cases (p x)) [
    | inl e ↦ rw (e, other, apart x e) (find-other xs r apart other)
    | inr e ↦ elim (Bool-cases (q x)) [
      | inl f ↦ rw (e, f) refl
      | inr f ↦ rw (e, f) (find-other xs r apart other)
    ]
  ]

  find-added_other : (xs : List A) (r : A) → q r ≡ false → find q (xs ++ (r ∷ [])) ≡ find q xs
  find-added_other [] r other = rw other refl
  find-added_other (x ∷ xs) r other = elim (Bool-cases (q x)) [
    | inl e ↦ rw e refl
    | inr e ↦ rw e (find-added_other xs r other)
  ]

  find-holds : (xs : List A) {a : A} → find p xs ≡ some a → p a ≡ true
  find-holds [] h = absurd (cc)
  find-holds (x ∷ xs) {a} h = elim (Bool-cases (p x)) [
    | inl e ↦
        let this : some x ≡ some a = sym (rw e refl) ∙ h in
        let same_row : x ≡ a = cc in rw⁻¹ same_row e
    | inr e ↦ find-holds xs (sym (rw e refl) ∙ h)
  ]

abbrev pub is_at : ℕ → Status → Reminder → Bool
is_at post stage r = r.post == post && same r.stage stage

pub found-post :
    (about : ℕ) (stage : Status) (rs : List Reminder)
    → ((found_reminder (find (is_at about stage) rs) about stage).post ≡ about)
      × ((found_reminder (find (is_at about stage) rs) about stage).stage ≡ stage)
found-post about stage rs = elim (Option-cases (find (is_at about stage) rs)) [
  | inl e ↦ rw e (refl, refl)
  | inr (r, e) ↦
      let own = find-holds (is_at about stage) (is_at about stage) rs e in
      rw e (ground arith, same→eq r.stage stage (ground arith))
]

own_key : (about : ℕ) (stage : Status) → (about == about && same stage stage) ≡ true
own_key about stage = ground arith

same_key :
    (about : ℕ) (stage : Status) (after : Reminder)
    → after.post ≡ about
    → after.stage ≡ stage
    → is_at after.post after.stage ≡ is_at about stage
same_key about stage after p s = ap (λ n. is_at n after.stage) p ∙ ap (λ t. is_at about t) s

pub find-own :
    (about : ℕ) (stage : Status) (after : Reminder) (rs : List Reminder)
    → after.post ≡ about
    → after.stage ≡ stage
    → find (is_at about stage) (with_reminder (find (is_at about stage) rs) after rs) ≡ some after
find-own about stage after rs p s =
    let own : is_at about stage after ≡ true = rw (p, s) (own_key about stage) in
    elim (Option-cases (find (is_at about stage) rs)) [
      | inl e ↦ rw e (find-append_last (is_at about stage) rs after e own)
      | inr (r, e) ↦ rw e (
          subst (λ t. find (is_at about stage) (update_where t (λ _. after) rs) ≡ some after)
            (sym (same_key about stage after p s))
            (find-replaced (is_at about stage) (is_at about stage) rs after e own))
    ]

pub find-elsewhere :
    (post about : ℕ) (other stage : Status) (after : Reminder) (rs : List Reminder)
    → after.post ≡ about
    → after.stage ≡ stage
    → (about == post && same stage other) ≡ false
    → find (is_at post other) (with_reminder (find (is_at about stage) rs) after rs)
      ≡ find (is_at post other) rs
find-elsewhere post about other stage after rs p s differ =
    let away : is_at post other after ≡ false = rw (p, s) differ in
    elim (Option-cases (find (is_at about stage) rs)) [
      | inl e ↦ rw e (find-added_other (is_at post other) (is_at post other) rs after away)
      | inr (r, e) ↦ rw e (
          subst
            (λ t.
              find (is_at post other) (update_where t (λ _. after) rs) ≡ find (is_at post other) rs)
            (sym (same_key about stage after p s))
            (find-other (is_at about stage) (is_at post other) rs after
              (λ x h.
                let here : x.post ≡ about = ground arith in
                let there : x.stage ≡ stage = same→eq x.stage stage (ground arith) in
                rw (here, there) differ)
              away))
    ]
