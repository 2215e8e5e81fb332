-- ===== src/Calendar/Spared.antt =====
-- The platform posts that `bulk_platform_action` of apps/calendar/services.py leaves alone.
use osir_ai.Prelude.{
  ℕ, ◌≡◌, refl, sym, subst, ◌∙◌, ap, arith, Bool, true, false, ◌&&◌, ◌||◌, not, inl, inr, List, [],
  ◌∷◌, ◌==◌, keep, any, All, All-map, All-every, Bool-cases, ||-false,
}
use osir_ai.Workflow.{draft, failed, scheduled, same, can_transition_to}
use osir_ai.Records.{PlatformPost, update_platform_post}
use osir_ai.Calendar.{is_protected}
use osir_ai.Calendar.Bulk.{
  BulkAction, to_draft, delete, publish, Touched, drafted_rows, staggered, retried, deletable,
  saved_fields, bulk_save, act, write_rows,
}

module _ {A : Type 0} (P Q : A → Type 0) where
  pub All-zip : (xs : List A) → All P xs → All Q xs → All (λ x. P x × Q x) xs
  All-zip [] h k = tt
  All-zip (x ∷ xs) (p, h) (q, k) = ((p, q), All-zip xs h k)

module _ (reach : ℕ → ℕ → Bool) where
  -- A row out of reach, by its key and its post, or protected.
  abbrev pub is_spared : PlatformPost → Bool
  is_spared r = not (reach r.id r.post) || is_protected r

  -- A row that an action may write: within reach and not protected.
  abbrev pub IsOpen : PlatformPost → Type 0
  IsOpen r = (reach r.id r.post ≡ true) × (is_protected r ≡ false)

  -- All rows with a key are open.
  abbrev pub AllOpen : List PlatformPost → ℕ → Type 0
  AllOpen rs id = All (λ r. (r.id == id) ≡ true → IsOpen r) rs

  -- What was touched comes from open rows, and is not protected.
  abbrev pub IsTouch : List PlatformPost → Touched → Type 0
  IsTouch rs t = AllOpen rs t.child.id × (is_protected t.child ≡ false)

  save-AllOpen :
      (c : PlatformPost) (id : ℕ) (rs : List PlatformPost)
      → is_protected c ≡ false
      → AllOpen rs c.id
      → AllOpen rs id
      → AllOpen (update_platform_post c.id (saved_fields c) rs) id
  save-AllOpen c id [] free own h = tt
  save-AllOpen c id (r ∷ rs) free (o, own) (k, h) = elim (Bool-cases (r.id == c.id)) [
    | inl e ↦ rw e ((λ same_id. ((o e).0, free)), save-AllOpen c id rs free own h)
    | inr e ↦ rw e (k, save-AllOpen c id rs free own h)
  ]

  save-spared :
      (c : PlatformPost) (rs : List PlatformPost)
      → is_protected c ≡ false
      → AllOpen rs c.id
      → keep is_spared (update_platform_post c.id (saved_fields c) rs) ≡ keep is_spared rs
  save-spared c [] free own = refl
  save-spared c (r ∷ rs) free (o, own) = elim (Bool-cases (r.id == c.id)) [
    | inl e ↦
        let (within, open_row) = o e in rw (e, within, free, open_row) (save-spared c rs free own)
    | inr e ↦ elim (Bool-cases (is_spared r)) [
      | inl k ↦ rw (e, k) (ap (λ x. r ∷ x) (save-spared c rs free own))
      | inr k ↦ rw (e, k) (save-spared c rs free own)
    ]
  ]

  bulk_save-spared :
      (ts : List Touched) (rs : List PlatformPost)
      → All (IsTouch rs) ts
      → keep is_spared (bulk_save ts rs) ≡ keep is_spared rs
  unfolding bulk_save
  bulk_save-spared [] rs h = refl
  bulk_save-spared (t ∷ ts) rs ((own, free), h) =
      bulk_save-spared ts (update_platform_post t.child.id (saved_fields t.child) rs)
        (All-map _ _ ts (λ u k. (save-AllOpen t.child u.child.id rs free own k.0, k.1)) h)
      ∙ save-spared t.child rs free own

  -- Deleting open rows leaves the others.
  deleted-spared :
      (ts : List Touched) (rs : List PlatformPost)
      → All (λ r. any (λ t. t.child.id == r.id) ts ≡ true → IsOpen r) rs
      → keep is_spared (keep (λ r. not (any (λ t. t.child.id == r.id) ts)) rs) ≡ keep is_spared rs
  deleted-spared ts [] h = refl
  deleted-spared ts (r ∷ rs) (k, h) = elim (Bool-cases (any (λ t. t.child.id == r.id) ts)) [
    | inl e ↦ let (within, open_row) = k e in rw (e, within, open_row) (deleted-spared ts rs h)
    | inr e ↦ elim (Bool-cases (is_spared r)) [
      | inl p ↦ rw (e, p) (ap (λ x. r ∷ x) (deleted-spared ts rs h))
      | inr p ↦ rw (e, p) (deleted-spared ts rs h)
    ]
  ]

  -- The open rows of a list all of whose rows are within reach.
  abbrev pub IsIn : List PlatformPost → PlatformPost → Type 0
  IsIn rs r = is_protected r ≡ false → AllOpen rs r.id

  drafted_rows-IsTouch :
      (table rs : List PlatformPost) → All (IsIn table) rs → All (IsTouch table) (drafted_rows rs)
  unfolding drafted_rows
  drafted_rows-IsTouch table [] h = tt
  drafted_rows-IsTouch table (r ∷ rs) (k, h) =
      elim (Bool-cases (is_protected r || same r.status draft)) [
        | inl e ↦ rw e (drafted_rows-IsTouch table rs h)
        | inr e ↦
            let (free, _) = ||-false (is_protected r) (same r.status draft) e in
            elim (Bool-cases (not (can_transition_to r.status draft))) [
              | inl a ↦ rw (e, a) (drafted_rows-IsTouch table rs h)
              | inr a ↦ rw (e, a) ((k free, refl), drafted_rows-IsTouch table rs h)
            ]
      ]

  deletable-IsTouch :
      (table rs : List PlatformPost) → All (IsIn table) rs → All (IsTouch table) (deletable rs)
  unfolding deletable
  deletable-IsTouch table [] h = tt
  deletable-IsTouch table (r ∷ rs) (k, h) = elim (Bool-cases (is_protected r)) [
    | inl e ↦ rw e (deletable-IsTouch table rs h)
    | inr e ↦ rw e ((k e, e), deletable-IsTouch table rs h)
  ]

  staggered-IsTouch :
      (now : ℕ) (accounts : List ℕ) (table rs : List PlatformPost)
      → All (IsIn table) rs
      → All (IsTouch table) (staggered now accounts rs)
  unfolding staggered
  staggered-IsTouch now accounts table [] h = tt
  staggered-IsTouch now accounts table (r ∷ rs) (k, h) = elim (Bool-cases (is_protected r)) [
    | inl e ↦ rw e (staggered-IsTouch now accounts table rs h)
    | inr e ↦
        elim (Bool-cases
          (not (same r.status scheduled) && not (can_transition_to r.status scheduled))) [
            | inl a ↦ rw (e, a) (staggered-IsTouch now accounts table rs h)
            | inr a ↦
                rw (e, a)
                  (
                    (subst (AllOpen table) (sym (id-retried r)) (k e), refl),
                    staggered-IsTouch now (r.account ∷ accounts) table rs h,
                  )
          ]
  ]
    where
      id-retried : (r : PlatformPost) → (retried r).id ≡ r.id
      id-retried r = elim (Bool-cases (same r.status failed)) [
        | inl e ↦ rw e refl
        | inr e ↦ rw e refl
      ]

  deleted-IsOpen :
      (table : List PlatformPost) (ts : List Touched)
      → All (IsTouch table) ts
      → All (λ r. any (λ t. t.child.id == r.id) ts ≡ true → IsOpen r) table
  deleted-IsOpen table [] h = All-every _ table (λ r e. absurd (let clash = e in cc))
  deleted-IsOpen table (t ∷ ts) ((own, free), h) =
      All-map _ _ table
        (λ r both e. elim (Bool-cases (t.child.id == r.id)) [
          | inl k ↦ both.0 (ground (arith, k))
          | inr k ↦ both.1 (sym (rw k refl) ∙ e)
        ])
        (All-zip _ _ table own (deleted-IsOpen table ts h))

  pub write_rows-spared :
      (now : ℕ) (action : BulkAction) (table rs : List PlatformPost)
      → All (IsIn table) rs
      → keep is_spared (write_rows action (act now action rs) table) ≡ keep is_spared table
  write_rows-spared now to_draft table rs h =
      bulk_save-spared (drafted_rows rs) table (drafted_rows-IsTouch table rs h)
  write_rows-spared now delete table rs h =
      deleted-spared (deletable rs) table
        (deleted-IsOpen table (deletable rs) (deletable-IsTouch table rs h))
  write_rows-spared now publish table rs h =
      bulk_save-spared (staggered now [] rs) table (staggered-IsTouch now [] table rs h)
