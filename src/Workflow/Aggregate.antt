-- ===== src/Workflow/Aggregate.antt =====
-- The status of a post, aggregated over its platform posts: apps/composer/status.py.
use osir_ai.Prelude.{ℕ, suc, Bool, ◌&&◌, List, [], ◌∷◌, all, ltb, if◌then◌else◌}
use osir_ai.Workflow.{
  Status, draft, pending_review, pending_client, approved, changes_requested, rejected, scheduled,
  publishing, published, failed, on_hold, partially_published, same, status_in,
}

abbrev pub workflow_order : List Status
workflow_order =
    draft ∷ changes_requested ∷ rejected ∷ on_hold ∷ pending_review ∷ pending_client ∷ approved
    ∷ scheduled ∷ publishing ∷ partially_published ∷ published ∷ []

-- `list.index`, or the length of the list where that raises.
abbrev pub index_or_length : Status → List Status → ℕ
index_or_length s [] = 0
index_or_length s (t ∷ ts) = if same s t then 0 else suc (index_or_length s ts)

unfoldable pub rank : Status → ℕ
rank s = index_or_length s workflow_order

-- `set(values)`, as a list with no value twice.
unfoldable pub distinct : List Status → List Status
distinct [] = []
distinct (s ∷ ss) = let rest = distinct ss in if status_in s ss then rest else s ∷ rest

unfoldable pub lower : Status → Status → Status
unfolding rank
lower s t = if ltb (rank t) (rank s) then t else s

-- `min(unique, key=_rank)` with the first element in hand.
unfoldable pub min_by_rank : Status → List Status → Status
unfolding lower
min_by_rank s [] = s
min_by_rank s (t ∷ ts) = min_by_rank (lower s t) ts

abbrev pub is_terminal : Status → Bool
is_terminal s = status_in s (published ∷ failed ∷ [])

-- The branches below the test for a single value. `s ∷ ss` are the distinct values.
unfoldable pub combine : Status → List Status → Status
unfolding min_by_rank
combine s ss =
    let unique = s ∷ ss in
    let result = min_by_rank s ss in
    if all is_terminal unique
    then if status_in published unique && status_in failed unique
      then partially_published
      else if all (λ u. same u published) unique
      then published
      else failed
    else if same result on_hold && status_in published unique
    then partially_published
    else result

-- The case split of `derive_post_status` on its distinct values; `first` is `values[0]`.
unfoldable pub derive_from : Status → List Status → Status
unfolding combine
derive_from first [] = draft
derive_from first (u ∷ []) = first
derive_from first (u ∷ v ∷ us) = combine u (v ∷ us)

-- A status is never the empty string, so the filter on the values keeps them all.
unfoldable pub derive_post_status : List Status → Status
unfolding derive_from distinct
derive_post_status [] = draft
derive_post_status (s ∷ ss) = derive_from s (distinct (s ∷ ss))
