-- ===== src/Approvals/Loop.antt =====
-- The loops of the approval services over their targets.
use osir_ai.Prelude.{ℕ, Bool, true, false, ◌&&◌, ◌||◌, List, [], ◌∷◌, ◌++◌, some, if◌then◌else◌}
use osir_ai.Workflow.{
  Status, approved, pending_review, pending_client, published, same, can_transition_to,
}
use osir_ai.Records.{PlatformPost, update_platform_post}

-- What `_transition_or_skip` leaves: the object, the table, and whether it succeeded.
pub record Outcome : Type 0 where
  pub pp : PlatformPost
  pub rows : List PlatformPost
  pub done : Bool

-- The object after `transition_to`.
unfoldable pub moved_to : Status → ℕ → PlatformPost → PlatformPost
moved_to status now pp =
    if same status published
    then record pp { status = status; published_at = some now }
    else record pp { status = status }

-- `pp.save(update_fields=["status", "published_at", "updated_at"])`
unfoldable pub save_status : PlatformPost → PlatformPost → PlatformPost
save_status pp row = record row { status = pp.status; published_at = pp.published_at }

unfoldable pub transition_or_skip : Status → ℕ → PlatformPost → List PlatformPost → Outcome
transition_or_skip status now pp rows =
    if same pp.status status
    then record { pp = pp; rows = rows; done = true }
    else if can_transition_to pp.status status
    then record {
      pp = moved_to status now pp;
      rows = update_platform_post pp.id (save_status (moved_to status now pp)) rows;
      done = true;
    }
    else record { pp = pp; rows = rows; done = false }

-- The table, `moved`, and `advanced_to_client`.
pub record Tally : Type 0 where
  pub rows : List PlatformPost
  pub moved : List PlatformPost
  pub advanced : Bool

unfoldable pub move_one : Status → ℕ → PlatformPost → Tally → Tally
move_one status now pp t =
    let o = transition_or_skip status now pp t.rows in
    if o.done then record t { rows = o.rows; moved = t.moved ++ (o.pp ∷ []) } else t

unfoldable pub approve_one : Bool → ℕ → PlatformPost → Tally → Tally
approve_one two_stage now pp t =
    let first = transition_or_skip approved now pp t.rows in
    let second = transition_or_skip pending_client now first.pp first.rows in
    if first.done
    then if two_stage && same pp.status pending_review
      then record {
        rows = second.rows;
        moved = t.moved ++ (second.pp ∷ []);
        advanced = t.advanced || second.done;
      }
      else record t { rows = first.rows; moved = t.moved ++ (first.pp ∷ []) }
    else t

-- `for pp in targets: ...`
unfoldable pub for_each : (PlatformPost → Tally → Tally) → List PlatformPost → Tally → Tally
for_each body [] t = t
for_each body (pp ∷ pps) t = for_each body pps (body pp t)
