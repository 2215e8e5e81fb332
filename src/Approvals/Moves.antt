-- ===== src/Approvals/Moves.antt =====
-- What the loops do to the table of platform posts.
use osir_ai.Prelude.{
  ℕ, ◌≡◌, ◌≢◌, refl, sym, ◌∙◌, ap, Bool, true, false, ◌&&◌, List, [], ◌∷◌, ◌++◌, map, arith, ◌==◌,
  keep, keep-keep, Bool-cases, inl, inr, if◌then◌else◌,
}
use osir_ai.Workflow.{
  Status, approved, pending_review, pending_client, published, same, can_transition_to,
}
use osir_ai.Records.{PlatformPost, update_platform_post}
use osir_ai.Workflow.Lowest.{same→eq}
use osir_ai.Approvals.Loop.{
  Tally, moved_to, save_status, transition_or_skip, move_one, approve_one, for_each,
}
use osir_ai.Approvals.Rows.{DistinctIds, save_each, save_each-keep}

-- What `_transition_or_skip` does to a row.
unfoldable pub row_after : Status → ℕ → PlatformPost → PlatformPost → PlatformPost
row_after status now pp =
    if same pp.status status
    then (λ r. r)
    else if can_transition_to pp.status status
    then save_status (moved_to status now pp)
    else (λ r. r)

update_same : (id : ℕ) (rows : List PlatformPost) → update_platform_post id (λ r. r) rows ≡ rows
update_same id [] = refl
update_same id (r ∷ rs) = elim (Bool-cases (r.id == id)) [
  | inl e ↦ rw (e, update_same id rs)
  | inr e ↦ rw (e, update_same id rs)
]

update_twice :
    (id : ℕ) (f g : PlatformPost → PlatformPost) (rows : List PlatformPost)
    → ((r : PlatformPost) → (f r).id ≡ r.id)
    → update_platform_post id g (update_platform_post id f rows)
      ≡ update_platform_post id (λ r. g (f r)) rows
update_twice id f g [] k = refl
update_twice id f g (r ∷ rs) k = elim (Bool-cases (r.id == id)) [
  | inl e ↦ rw (e, k r, e, update_twice id f g rs k)
  | inr e ↦ rw (e, e, update_twice id f g rs k)
]

transition_or_skip-rows :
    (status : Status) (now : ℕ) (pp : PlatformPost) (rows : List PlatformPost)
    → (transition_or_skip status now pp rows).rows
      ≡ update_platform_post pp.id (row_after status now pp) rows
unfolding transition_or_skip row_after
transition_or_skip-rows status now pp rows = elim (Bool-cases (same pp.status status)) [
  | inl e ↦ rw (e, update_same pp.id rows)
  | inr e ↦ elim (Bool-cases (can_transition_to pp.status status)) [
    | inl may ↦ rw (e, may)
    | inr not_may ↦ rw (e, not_may, update_same pp.id rows)
  ]
]

transition_or_skip-skipped :
    (status : Status) (now : ℕ) (pp : PlatformPost) (rows : List PlatformPost)
    → (transition_or_skip status now pp rows).done ≡ false
    → (transition_or_skip status now pp rows).rows ≡ rows
unfolding transition_or_skip
transition_or_skip-skipped status now pp rows h = ground arith

pub move_one-rows :
    (status : Status) (now : ℕ) (pp : PlatformPost) (t : Tally)
    → (move_one status now pp t).rows ≡ update_platform_post pp.id (row_after status now pp) t.rows
unfolding move_one
move_one-rows status now pp t = elim (Bool-cases (transition_or_skip status now pp t.rows).done) [
  | inl e ↦ rw e (transition_or_skip-rows status now pp t.rows)
  | inr e ↦ rw e (
      sym (transition_or_skip-skipped status now pp t.rows e)
      ∙ transition_or_skip-rows status now pp t.rows)
]

-- A body that appends to `moved` whenever it changes the table.
abbrev pub Records : (PlatformPost → Tally → Tally) → Type 0
Records body =
    (pp : PlatformPost) (t : Tally)
    → (body pp t).moved ≡ []
    → (t.moved ≡ []) × ((body pp t).rows ≡ t.rows)

append_not_nil : (xs : List PlatformPost) (x : PlatformPost) → (xs ++ (x ∷ [])) ≢ []
append_not_nil [] x h = cc
append_not_nil (y ∷ ys) x h = cc

pub move_one-Records : (status : Status) (now : ℕ) → Records (move_one status now)
unfolding move_one
move_one-Records status now pp t h =
    elim (Bool-cases (transition_or_skip status now pp t.rows).done) [
      | inl e ↦ absurd (append_not_nil t.moved _ (rw e at h))
      | inr e ↦ rw e (rw e at h, refl)
    ]

pub for_each-unmoved :
    (body : PlatformPost → Tally → Tally) (pps : List PlatformPost) (t : Tally)
    → Records body
    → (for_each body pps t).moved ≡ []
    → (t.moved ≡ []) × ((for_each body pps t).rows ≡ t.rows)
unfolding for_each
for_each-unmoved body [] t r h = (h, refl)
for_each-unmoved body (pp ∷ pps) t r h =
    let (moved, rows) = for_each-unmoved body pps (body pp t) r h in
    let (before, same_rows) = r pp t moved in (before, rows ∙ same_rows)

pub for_each-rows :
    (body : PlatformPost → Tally → Tally) (h : PlatformPost → PlatformPost → PlatformPost)
    (pps : List PlatformPost) (t : Tally)
    → ((pp : PlatformPost) (t : Tally)
        → (body pp t).rows ≡ update_platform_post pp.id (h pp) t.rows)
    → (for_each body pps t).rows ≡ save_each h pps t.rows
unfolding for_each save_each
for_each-rows body h [] t k = refl
for_each-rows body h (pp ∷ pps) t k =
    for_each-rows body h pps (body pp t) k ∙ ap (save_each h pps) (k pp t)

-- What a round of `approve_post` does to a row.
unfoldable pub row_approved : Bool → ℕ → PlatformPost → PlatformPost → PlatformPost
row_approved two_stage now pp =
    if two_stage && same pp.status pending_review
    then (λ r.
        row_after pending_client now (moved_to approved now pp) (row_after approved now pp r))
    else row_after approved now pp

pub row_after-id :
    (status : Status) (now : ℕ) (pp r : PlatformPost) → (row_after status now pp r).id ≡ r.id
unfolding row_after save_status
row_after-id status now pp r = elim (Bool-cases (same pp.status status)) [
  | inl e ↦ rw e
  | inr e ↦ elim (Bool-cases (can_transition_to pp.status status)) [
    | inl may ↦ rw (e, may)
    | inr not_may ↦ rw (e, not_may)
  ]
]

moved_to-id : (status : Status) (now : ℕ) (pp : PlatformPost) → (moved_to status now pp).id ≡ pp.id
unfolding moved_to
moved_to-id status now pp = elim (Bool-cases (same status published)) [
  | inl e ↦ rw e
  | inr e ↦ rw e
]

-- In review, the first transition of a round always succeeds.
in_review_moves :
    (now : ℕ) (pp : PlatformPost) (rows : List PlatformPost)
    → same pp.status pending_review ≡ true
    → ((transition_or_skip approved now pp rows).done ≡ true)
      × ((transition_or_skip approved now pp rows).pp ≡ moved_to approved now pp)
unfolding transition_or_skip can_transition_to
in_review_moves now pp rows h = let e = same→eq pp.status pending_review h in rw e (refl, refl)

pub approve_one-rows :
    (two_stage : Bool) (now : ℕ) (pp : PlatformPost) (t : Tally)
    → (approve_one two_stage now pp t).rows
      ≡ update_platform_post pp.id (row_approved two_stage now pp) t.rows
unfolding approve_one row_approved moved_to
approve_one-rows two_stage now pp t =
    elim (Bool-cases (two_stage && same pp.status pending_review)) [
      | inl both ↦
          let (done, object) = in_review_moves now pp t.rows (ground arith) in
          rw (both, done)
            (transition_or_skip-rows pending_client now
                (transition_or_skip approved now pp t.rows).pp
                (transition_or_skip approved now pp t.rows).rows
              ∙ rw
                  (
                    object,
                    transition_or_skip-rows approved now pp t.rows,
                    moved_to-id approved now pp,
                  )
                  (update_twice pp.id (row_after approved now pp)
                    (row_after pending_client now (moved_to approved now pp)) t.rows
                    (row_after-id approved now pp)))
      | inr one ↦ elim (Bool-cases (transition_or_skip approved now pp t.rows).done) [
        | inl done ↦ rw (one, done) (transition_or_skip-rows approved now pp t.rows)
        | inr skipped ↦
            rw (one, skipped)
              (sym (transition_or_skip-skipped approved now pp t.rows skipped)
                ∙ transition_or_skip-rows approved now pp t.rows)
      ]
    ]

pub approve_one-Records : (two_stage : Bool) (now : ℕ) → Records (approve_one two_stage now)
unfolding approve_one
approve_one-Records two_stage now pp t h =
    elim (Bool-cases (transition_or_skip approved now pp t.rows).done) [
      | inl done ↦ elim (Bool-cases (two_stage && same pp.status pending_review)) [
        | inl both ↦ absurd (append_not_nil t.moved _ (rw (done, both) at h))
        | inr one ↦ absurd (append_not_nil t.moved _ (rw (done, one) at h))
      ]
      | inr skipped ↦ rw skipped (rw skipped at h, refl)
    ]

pub row_approved-id :
    (two_stage : Bool) (now : ℕ) (pp r : PlatformPost) → (row_approved two_stage now pp r).id ≡ r.id
unfolding row_approved
row_approved-id two_stage now pp r =
    elim (Bool-cases (two_stage && same pp.status pending_review)) [
      | inl both ↦
          rw
            (
              both,
              row_after-id pending_client now (moved_to approved now pp)
                  (row_after approved now pp r),
            )
            (row_after-id approved now pp r)
      | inr one ↦ rw one (row_after-id approved now pp r)
    ]

-- The table after a loop over the eligible children of a post, given that no key stands twice.
pub loop-rows :
    (body : PlatformPost → Tally → Tally) (h : PlatformPost → PlatformPost → PlatformPost)
    (p q : PlatformPost → Bool) (rows moved : List PlatformPost) (advanced : Bool)
    → ((pp : PlatformPost) (t : Tally)
        → (body pp t).rows ≡ update_platform_post pp.id (h pp) t.rows)
    → ((pp r : PlatformPost) → (h pp r).id ≡ r.id)
    → DistinctIds rows
    → (for_each body
        (keep q (keep p rows))
        (record { rows = rows; moved = moved; advanced = advanced })).rows
      ≡ map (λ r. if p r && q r then h r r else r) rows
loop-rows body h p q rows moved advanced k same_id d = rw (keep-keep p q rows) (
    for_each-rows body h (keep (λ r. p r && q r) rows)
      (record { rows = rows; moved = moved; advanced = advanced }) k
    ∙ save_each-keep h (λ r. p r && q r) rows (λ pp. same_id pp pp) d)
