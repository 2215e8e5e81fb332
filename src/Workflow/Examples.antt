-- ===== src/Workflow/Examples.antt =====
-- Runs of the state machine and of the aggregate on concrete statuses.
use osir_ai.Prelude.{◌≡◌, refl, true, List, [], ◌∷◌}
use osir_ai.Workflow.{
  Status, approved, scheduled, publishing, published, failed, on_hold, partially_published,
  status_in, can_transition_to,
}
use osir_ai.Workflow.Aggregate.{
  derive_post_status, derive_from, combine, min_by_rank, lower, rank, distinct,
}
use osir_ai.Workflow.Lowest.{aggregate, derive_post_status-aggregate}
use osir_ai.Workflow.Mixed.{derive_post_status-publishing}
use osir_ai.Workflow.Runs.{Run, start, move}

abbrev held_and_out : List Status
held_and_out = published ∷ on_hold ∷ scheduled ∷ []

derive_post_status-aggregate_example :
    derive_post_status held_and_out ≡ aggregate (λ t. status_in t held_and_out)
derive_post_status-aggregate_example = derive_post_status-aggregate held_and_out

-- A hold beside a published platform post shows as partially published.
held_and_out_test : derive_post_status held_and_out ≡ partially_published
unfolding derive_post_status derive_from combine min_by_rank lower rank distinct
held_and_out_test = refl

abbrev going_out : List Status
going_out = failed ∷ publishing ∷ []

going_out_test : derive_post_status going_out ≡ publishing
unfolding derive_post_status derive_from combine min_by_rank lower rank distinct
going_out_test = refl

-- A failure beside a platform post that is still scheduled does not show as publishing.
failed_and_scheduled_test : derive_post_status (failed ∷ scheduled ∷ []) ≡ scheduled
unfolding derive_post_status derive_from combine min_by_rank lower rank distinct
failed_and_scheduled_test = refl

released-Run : Run on_hold (publishing ∷ approved ∷ []) publishing
unfolding can_transition_to
released-Run = move (move start approved refl) publishing refl

derive_post_status-publishing_example : status_in publishing going_out ≡ true
derive_post_status-publishing_example = derive_post_status-publishing going_out going_out_test
