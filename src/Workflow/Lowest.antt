-- ===== src/Workflow/Lowest.antt =====
-- What the aggregate means: it is decided by which statuses occur.
use osir_ai.Prelude.{
  ◌⊎◌, ◌≤◌, ◌<◌, ◌≡◌, refl, ◌∙◌, ap, fun_ext, Bool, true, false, ◌&&◌, ◌||◌, List, [], ◌∷◌, arith,
  ltb, if◌then◌else◌, Bool-cases, inl, inr, all,
}
use osir_ai.Workflow.{
  Status, draft, pending_review, pending_client, approved, changes_requested, rejected, scheduled,
  publishing, published, failed, on_hold, partially_published, same, status_in,
}
use osir_ai.Workflow.Aggregate.{
  rank, lower, distinct, min_by_rank, is_terminal, combine, derive_from, derive_post_status,
}

-- The first status of the workflow order that occurs, `failed` behind all of them.
unfoldable pub lowest : (Status → Bool) → Status
lowest m =
    let first_of_two = λ (s t : Status). if m s then s else t in
    first_of_two draft (
      first_of_two changes_requested (
        first_of_two rejected (
          first_of_two on_hold (
            first_of_two pending_review (
              first_of_two pending_client (
                first_of_two approved (
                  first_of_two scheduled (
                    first_of_two publishing (
                      first_of_two partially_published
                        (first_of_two published (first_of_two failed draft)))))))))))

-- The aggregate as a function of which statuses occur.
unfoldable pub aggregate : (Status → Bool) → Status
aggregate m =
    let low = lowest m in
    if (same low published && m failed) || (same low on_hold && m published)
    then partially_published
    else low

pub lowest_mem : (m : Status → Bool) (s : Status) → m s ≡ true → m (lowest m) ≡ true
unfolding lowest
lowest_mem m draft h = ground arith
lowest_mem m s h = ground arith

pub lowest_least : (m : Status → Bool) (s : Status) → m s ≡ true → rank (lowest m) ≤ rank s
unfolding lowest rank
lowest_least m draft h = ground arith
lowest_least m s h = ground arith

pub rank_injective : (s t : Status) → rank s ≡ rank t → s ≡ t
unfolding rank
rank_injective s t h = ground arith

pub same→eq : (s t : Status) → same s t ≡ true → s ≡ t
same→eq draft t h = ground arith
same→eq s t h = ground arith

pub same_refl : (s : Status) → same s s ≡ true
same_refl draft = refl
same_refl s = refl

pub status_in-distinct :
    (t : Status) (ss : List Status) → status_in t (distinct ss) ≡ status_in t ss
unfolding distinct
status_in-distinct t [] = refl
status_in-distinct t (s ∷ ss) = elim (Bool-cases (status_in s ss)) [
  | inl again ↦ rw again (elim (Bool-cases (same t s)) [
    | inl e ↦ rw (e, status_in-distinct t ss, same→eq t s e) again
    | inr e ↦ rw (e, status_in-distinct t ss)
  ])
  | inr new ↦ rw (new, status_in-distinct t ss)
]

lower-cases : (s t : Status) → (lower s t ≡ s) ⊎ (lower s t ≡ t)
unfolding lower
lower-cases s t = ground arith

lower_le : (s t : Status) → (rank (lower s t) ≤ rank s) × (rank (lower s t) ≤ rank t)
unfolding lower
lower_le s t = elim (Bool-cases (ltb (rank t) (rank s))) [
  | inl e ↦ rw e (ground arith)
  | inr e ↦ rw e (ground arith)
]

status_in_widen :
    (r u s t : Status) (ts : List Status)
    → (u ≡ s) ⊎ (u ≡ t)
    → status_in r (u ∷ ts) ≡ true
    → status_in r (s ∷ t ∷ ts) ≡ true
status_in_widen r u s t ts (inl e) h =
    let h' : status_in r (s ∷ ts) ≡ true = rw (← e) h in ground arith
status_in_widen r u s t ts (inr e) h =
    let h' : status_in r (t ∷ ts) ≡ true = rw (← e) h in ground arith

min_by_rank_mem : (s : Status) (ss : List Status) → status_in (min_by_rank s ss) (s ∷ ss) ≡ true
unfolding min_by_rank
min_by_rank_mem s [] = rw (same_refl s)
min_by_rank_mem s (t ∷ ts) =
    status_in_widen (min_by_rank (lower s t) ts) (lower s t) s t ts (lower-cases s t)
      (min_by_rank_mem (lower s t) ts)

min_by_rank_head : (s : Status) (ss : List Status) → rank (min_by_rank s ss) ≤ rank s
unfolding min_by_rank
min_by_rank_head s [] = omega arith
min_by_rank_head s (t ∷ ts) = omega (arith, min_by_rank_head (lower s t) ts, lower_le s t)

min_by_rank_least :
    (s : Status) (ss : List Status) (t : Status)
    → status_in t (s ∷ ss) ≡ true
    → rank (min_by_rank s ss) ≤ rank t
unfolding min_by_rank
min_by_rank_least s [] t h = rw (same→eq t s (ground arith)) (omega arith)
min_by_rank_least s (u ∷ us) t h = elim (Bool-cases (status_in t us)) [
  | inl rest ↦ min_by_rank_least (lower s u) us t (rw rest (ground arith))
  | inr no_rest ↦ elim (Bool-cases (same t s)) [
    | inl e ↦ rw (same→eq t s e) (omega (arith, min_by_rank_head (lower s u) us, lower_le s u))
    | inr e ↦
        rw (same→eq t u (ground arith))
          (omega (arith, min_by_rank_head (lower s u) us, lower_le s u))
  ]
]

-- The code's minimum is the lowest status that occurs.
pub min_by_rank-lowest :
    (s : Status) (ss : List Status) → min_by_rank s ss ≡ lowest (λ t. status_in t (s ∷ ss))
min_by_rank-lowest s ss =
    let m = λ (t : Status). status_in t (s ∷ ss) in
    let here = min_by_rank_mem s ss in
    let there = lowest_mem m s (rw (same_refl s)) in
    rank_injective (min_by_rank s ss) (lowest m) (
      omega
        (arith, lowest_least m (min_by_rank s ss) here, min_by_rank_least s ss (lowest m) there))

all_terminal_mem :
    (ss : List Status) (t : Status)
    → all is_terminal ss ≡ true
    → status_in t ss ≡ true
    → is_terminal t ≡ true
all_terminal_mem [] t a h = cc
all_terminal_mem (s ∷ ss) t a h = elim (Bool-cases (same t s)) [
  | inl e ↦ rw (same→eq t s e) (ground arith)
  | inr e ↦ all_terminal_mem ss t (ground arith) (ground arith)
]

non_terminal_mem :
    (ss : List Status)
    → all is_terminal ss ≡ false
    → (t : Status) × (status_in t ss ≡ true) × (is_terminal t ≡ false)
non_terminal_mem [] a = cc
non_terminal_mem (s ∷ ss) a = elim (Bool-cases (is_terminal s)) [
  | inl e ↦
      let (t, here, open_ended) = non_terminal_mem ss (ground arith) in
      (t, ground arith, open_ended)
  | inr e ↦ (s, rw (same_refl s), e)
]

rank_of_non_terminal : (t : Status) → is_terminal t ≡ false → rank t < rank published
unfolding rank
rank_of_non_terminal draft h = omega arith
rank_of_non_terminal t h = ground arith

all_published-not_failed :
    (ss : List Status) → all (λ u. same u published) ss ≡ true → status_in failed ss ≡ false
all_published-not_failed [] a = refl
all_published-not_failed (s ∷ ss) a = ground (arith, all_published-not_failed ss)

-- The two ways of combining several statuses, told by what is known of the lowest of them.
module _ (us : List Status) (low : Status) where
  combine_terminal :
      is_terminal low ≡ true
      → (status_in low us ≡ true)
      → (status_in published us ≡ true → rank low ≤ rank published)
      → ((status_in failed us ≡ true) ⊎ (all (λ u. same u published) us ≡ true))
      → (all (λ u. same u published) us ≡ true → status_in failed us ≡ false)
      → (if status_in published us && status_in failed us
          then partially_published
          else if all (λ u. same u published) us
          then published
          else failed)
        ≡ (if (same low published && status_in failed us)
              || (same low on_hold && status_in published us)
            then partially_published
            else low)
  unfolding rank
  combine_terminal a b c d e = ground arith

not_all_published :
    (ss : List Status)
    → all is_terminal ss ≡ true
    → (status_in failed ss ≡ true) ⊎ (all (λ u. same u published) ss ≡ true)
not_all_published [] a = inr refl
not_all_published (s ∷ ss) a = ground (arith, not_all_published ss)

not_published_low : (low : Status) → rank low < rank published → same low published ≡ false
unfolding rank
not_published_low draft h = refl
not_published_low low h = ground arith

combine-aggregate :
    (s : Status) (ss : List Status) → combine s ss ≡ aggregate (λ t. status_in t (s ∷ ss))
unfolding combine aggregate
combine-aggregate s ss = elim (Bool-cases (all is_terminal (s ∷ ss))) [
  | inl done ↦ rw (← min_by_rank-lowest s ss) (
      rw done (
        combine_terminal (s ∷ ss) (min_by_rank s ss)
          (all_terminal_mem (s ∷ ss) (min_by_rank s ss) done (min_by_rank_mem s ss))
          (min_by_rank_mem s ss) (min_by_rank_least s ss published)
          (not_all_published (s ∷ ss) done) (all_published-not_failed (s ∷ ss))))
  | inr not_done ↦
      let (t, here, open_ended) = non_terminal_mem (s ∷ ss) not_done in
      let below : rank (min_by_rank s ss) < rank published =
        omega (arith, min_by_rank_least s ss t here, rank_of_non_terminal t open_ended) in
      rw (← min_by_rank-lowest s ss) (rw (not_done, not_published_low (min_by_rank s ss) below))
]

single-aggregate : (s : Status) → s ≡ aggregate (λ t. status_in t (s ∷ []))
unfolding aggregate lowest
single-aggregate draft = refl
single-aggregate s = refl

derive_from-aggregate :
    (first : Status) (us : List Status)
    → status_in first us ≡ true
    → derive_from first us ≡ aggregate (λ t. status_in t us)
unfolding derive_from
derive_from-aggregate first [] h = cc
derive_from-aggregate first (u ∷ []) h = rw (same→eq first u (ground arith)) (single-aggregate u)
derive_from-aggregate first (u ∷ v ∷ us) h = combine-aggregate u (v ∷ us)

-- The status of a post is decided by which statuses occur among its platform posts: none gives
-- `draft`; otherwise it is the earliest one in the workflow order, `failed` behind all others,
-- except that `published` with only `failed` beside it, and an earliest `on_hold` with `published`
-- beside it, give `partially_published`.
pub derive_post_status-aggregate :
    (ss : List Status) → derive_post_status ss ≡ aggregate (λ t. status_in t ss)
unfolding derive_post_status
derive_post_status-aggregate [] = unfold aggregate lowest in refl
derive_post_status-aggregate (s ∷ ss) =
    let here : status_in s (distinct (s ∷ ss)) ≡ true = rw status_in-distinct (rw (same_refl s)) in
    derive_from-aggregate s (distinct (s ∷ ss)) here
    ∙ ap aggregate (fun_ext (λ t. status_in-distinct t (s ∷ ss)))
