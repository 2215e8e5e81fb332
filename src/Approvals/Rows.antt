-- ===== src/Approvals/Rows.antt =====
-- A loop that saves one row for each of its targets changes exactly those rows.
use osir_ai.Prelude.{
  ℕ, ◌≡◌, ◌≢◌, refl, ◌∙◌, ap, Bool, true, false, List, [], ◌∷◌, map, arith, ◌==◌, All, keep,
  All-keep_sub, Bool-cases, inl, inr, if◌then◌else◌,
}
use osir_ai.Records.{PlatformPost, update_platform_post}

-- No key stands twice.
abbrev pub DistinctIds : List PlatformPost → Type 0
DistinctIds [] = Unit
DistinctIds (r ∷ rs) = All (λ x. x.id ≢ r.id) rs × DistinctIds rs

-- `h pp` is what the save of `pp` does to a row.
module _ (h : PlatformPost → PlatformPost → PlatformPost) where
  unfoldable pub save_each : List PlatformPost → List PlatformPost → List PlatformPost
  save_each [] rows = rows
  save_each (pp ∷ pps) rows = save_each pps (update_platform_post pp.id (h pp) rows)

  update_elsewhere :
      (id : ℕ) (f : PlatformPost → PlatformPost) (rows : List PlatformPost)
      → All (λ x. x.id ≢ id) rows
      → update_platform_post id f rows ≡ rows
  update_elsewhere id f [] k = refl
  update_elsewhere id f (r ∷ rs) k =
      let e : (r.id == id) ≡ false = let ne = k.0 in ground arith in
      rw (e, update_elsewhere id f rs k.1)

  save_each-cons :
      (pps : List PlatformPost) (x : PlatformPost) (rows : List PlatformPost)
      → All (λ pp. pp.id ≢ x.id) pps
      → save_each pps (x ∷ rows) ≡ x ∷ save_each pps rows
  unfolding save_each
  save_each-cons [] x rows k = refl
  save_each-cons (pp ∷ pps) x rows k =
      let e : (x.id == pp.id) ≡ false = let ne = k.0 in ground arith in
      rw e (save_each-cons pps x (update_platform_post pp.id (h pp) rows) k.1)

  save_each-head :
      (r : PlatformPost) (pps rows : List PlatformPost)
      → All (λ x. x.id ≢ r.id) rows
      → save_each (r ∷ pps) (r ∷ rows) ≡ save_each pps (h r r ∷ rows)
  unfolding save_each
  save_each-head r pps rows k =
      let self : (r.id == r.id) ≡ true = ground arith in
      rw (self, update_elsewhere r.id (h r) rows k)

  -- Saving the rows that a test picks is one pass over the table.
  pub save_each-keep :
      (p : PlatformPost → Bool) (rows : List PlatformPost)
      → ((pp : PlatformPost) → (h pp pp).id ≡ pp.id)
      → DistinctIds rows
      → save_each (keep p rows) rows ≡ map (λ r. if p r then h r r else r) rows
  unfolding save_each
  save_each-keep p [] same_id d = refl
  save_each-keep p (r ∷ rs) same_id d =
      let others = All-keep_sub (λ x. x.id ≢ r.id) p rs d.0 in
      elim (Bool-cases (p r)) [
        | inl e ↦ rw e (
            save_each-head r (keep p rs) rs d.0
            ∙ save_each-cons (keep p rs) (h r r) rs (rw (same_id r) others)
            ∙ ap (◌∷◌ (h r r)) (save_each-keep p rs same_id d.1))
        | inr e ↦
            rw e (
              save_each-cons (keep p rs) r rs others ∙ ap (◌∷◌ r) (save_each-keep p rs same_id d.1))
      ]
