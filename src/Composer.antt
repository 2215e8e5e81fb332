-- ===== src/Composer.antt =====
-- The service layer of the composer: apps/composer/services.py.
pub mod Sync
pub mod Create
pub mod Clone
pub mod Earliest
pub mod Transitions
pub mod Assets
pub mod Creation
pub mod Copies
pub mod Examples
use osir_ai.Prelude.{
  ℕ, suc, ◌+◌, Bool, true, false, ◌&&◌, not, List, [], ◌∷◌, ◌++◌, map, Option, none, some, ◌==◌,
  if◌then◌else◌, Text, text, truthy, Result, ok, err, Error, ◌>>=◌, ◌>>◌, raise_if,
  bad_initial_status, schedule_time_required, wrong_workspace, needs_reconnect, approval_required,
  media_not_found, invalid_transition, any, find, keep, is_some, update_where,
}
use osir_ai.Workflow.{Status, draft, scheduled, published, same, status_in, can_transition_to}
use osir_ai.Records.{
  Post, PlatformPost, PostMedia, Queue, QueueEntry, Store, ApprovalMode, no_approval,
  required_internal, required_internal_and_client, Workspace, MediaAsset, CommentStatus,
  not_requested, children, update_platform_post,
}
use osir_ai.Composer.Sync.{sync_post_scheduled_at}

-- `_APPROVAL_MODES_BLOCKING_DIRECT_SCHEDULE`
abbrev pub blocks_direct_schedule : ApprovalMode → Bool
blocks_direct_schedule required_internal = true
blocks_direct_schedule required_internal_and_client = true
blocks_direct_schedule _ = false

-- `post.workspace.approval_workflow_mode`, or the `getattr` default
unfoldable pub workspace_mode : ℕ → Store → ApprovalMode
workspace_mode workspace s = elim (find (λ w. w.id == workspace) s.workspaces) [
  | none ↦ no_approval
  | some w ↦ w.approval_mode
]

unfoldable pub post_mode : ℕ → Store → ApprovalMode
unfolding workspace_mode
post_mode post s = elim (find (λ p. p.id == post) s.posts) [
  | none ↦ no_approval
  | some p ↦ workspace_mode p.workspace s
]

-- `_require_approval_gate_passes`
abbrev pub require_approval_gate_passes : ApprovalMode → Result (Unit {0})
require_approval_gate_passes mode = raise_if (blocks_direct_schedule mode) approval_required

-- `if status == "scheduled": _require_approval_gate_passes(workspace)`
abbrev pub gate_schedule : Status → ApprovalMode → Result (Unit {0})
gate_schedule target mode =
    if same target scheduled then require_approval_gate_passes mode else ok tt

-- `PlatformPost.transition_to`, on the object in memory
unfoldable pub transition_to : Status → ℕ → PlatformPost → Result PlatformPost
transition_to target now pp =
    if can_transition_to pp.status target
    then ok (
        if same target published
        then record pp { status = target; published_at = some now }
        else record pp { status = target })
    else err invalid_transition

-- `queue__social_account=account` for an entry
abbrev pub on_channel : ℕ → List Queue → QueueEntry → Bool
on_channel account queues e = any (λ q. q.id == e.queue && q.account == account) queues

-- `QueueEntry.objects.filter(post=..., queue__social_account=...).delete()`
abbrev pub drop_entries : ℕ → ℕ → Store → Store
drop_entries post account s = record s {
  entries = keep (λ e. not (e.post == post && on_channel account s.queues e)) s.entries;
}

-- The fields that `transition_platform_post` saves, for an object whose own time is `own`: a time
-- that the object does not have is not cleared.
unfoldable pub transition_fields : Status → Option ℕ → Option ℕ → ℕ → PlatformPost → PlatformPost
transition_fields scheduled own (some t) now row = record row {
  status = scheduled;
  scheduled_at = some t;
}
transition_fields draft (some t) at now row = record row { status = draft; scheduled_at = none }
transition_fields published own at now row = record row {
  status = published;
  published_at = some now;
}
transition_fields target own at now row = record row { status = target }

unfoldable pub transition_platform_post :
    PlatformPost → Status → Option ℕ → ℕ → Store → Result Store
unfolding transition_to transition_fields post_mode
transition_platform_post pp target at now s = do
  gate_schedule target (post_mode pp.post s)
  moved ← transition_to target now pp
  let saved = record s {
    platform_posts =
        update_platform_post pp.id (transition_fields target pp.scheduled_at at now)
          s.platform_posts;
  }
  let freed = if same target draft then drop_entries pp.post pp.account saved else saved
  ok (sync_post_scheduled_at pp.post freed)
