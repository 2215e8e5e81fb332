-- ===== src/Workflow/Mixed.antt =====
-- Mixed children: a hold, and a failure beside children still in flight.
use osir_ai.Prelude.{◌≡◌, true, false, List, arith, if◌then◌else◌}
use osir_ai.Workflow.{
  Status, draft, changes_requested, rejected, publishing, published, on_hold, partially_published,
  status_in,
}
use osir_ai.Workflow.Aggregate.{derive_post_status}
use osir_ai.Workflow.Lowest.{lowest, aggregate, derive_post_status-aggregate}

-- Where a platform post is on hold and none is a draft, has changes requested or is rejected, the
-- post shows as on hold, or as partially published if a platform post is published already.
pub derive_post_status-on_hold :
    (ss : List Status)
    → status_in on_hold ss ≡ true
    → status_in draft ss ≡ false
    → status_in changes_requested ss ≡ false
    → status_in rejected ss ≡ false
    → derive_post_status ss ≡ (if status_in published ss then partially_published else on_hold)
unfolding aggregate lowest
derive_post_status-on_hold ss h d c r = ground (arith, derive_post_status-aggregate ss)

-- A post shows as publishing only while one of its platform posts is publishing.
pub derive_post_status-publishing :
    (ss : List Status) → derive_post_status ss ≡ publishing → status_in publishing ss ≡ true
unfolding aggregate lowest
derive_post_status-publishing ss h = ground (arith, derive_post_status-aggregate ss)
