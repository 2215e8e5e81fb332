-- ===== src/Approvals/Tasks.antt =====
-- The reminders of stalled approvals: apps/approvals/tasks.py. The last change of a post is a
-- parameter, and the members are those of the posts' workspace.
use osir_ai.Prelude.{
  ℕ, ◌+◌, ◌*◌, Bool, true, false, ◌&&◌, List, [], ◌∷◌, ◌++◌, Option, none, some, ◌==◌, leb, ltb,
  if◌then◌else◌, find, keep, map, any, update_where,
}
use osir_ai.Workflow.{Status, pending_review, pending_client, same}
use osir_ai.Records.{PlatformPost}
use osir_ai.Members.{
  WorkspaceMembership, manager, client, approve_posts, ws_role_level, effective_permissions,
}
use osir_ai.Approvals.Effects.{Reminder}

-- What the processing of one post sends.
pub data Sent : Type 0 where
  nothing reminded escalated_to_managers : Sent

-- One call of `notify`, to a user, of a post.
pub record Nudge : Type 0 where
  pub user : ℕ
  pub kind : Sent
  pub post : ℕ

pub record Watch : Type 0 where
  pub posts : List ℕ
  pub rows : List PlatformPost
  pub members : List WorkspaceMembership
  pub reminders : List Reminder
  pub nudges : List Nudge

-- `MAX_REMINDERS`
abbrev pub max_reminders : ℕ
max_reminders = 2

-- `last_reminder_at` is set and not old enough
abbrev pub is_cooling : ℕ → ℕ → Option ℕ → Bool
is_cooling now hours none = false
is_cooling now hours (some last) = ltb now (last + hours * 3600)

-- The body of the loop, for the reminder of a post.
unfoldable pub process_reminder : ℕ → ℕ → Reminder → Reminder × Sent
process_reminder now hours r =
    if leb max_reminders r.reminder_count
    then (if r.escalated
        then (r, nothing)
        else (record r { escalated = true }, escalated_to_managers))
    else if is_cooling now hours r.last_reminder_at
    then (r, nothing)
    else (record r { reminder_count = r.reminder_count + 1; last_reminder_at = some now }, reminded)

abbrev pub new_reminder : ℕ → Status → Reminder
new_reminder post stage = record {
  post = post;
  stage = stage;
  reminder_count = 0;
  last_reminder_at = none;
  escalated = false;
}

-- Who is told: reviewers, clients, or owners and managers.
unfoldable pub recipients : Status → Sent → List WorkspaceMembership → List ℕ
recipients stage nothing ms = []
recipients stage reminded ms =
    map (λ (m : WorkspaceMembership). m.user)
      (if same stage pending_review
        then keep (λ m. effective_permissions m approve_posts) ms
        else keep (λ m. ws_role_level m.role == ws_role_level client) ms)
recipients stage escalated_to_managers ms =
    map (λ (m : WorkspaceMembership). m.user)
      (keep (λ m. leb (ws_role_level manager) (ws_role_level m.role)) ms)

-- `get_or_create`, with the rest of the table
abbrev pub found_reminder : Option Reminder → ℕ → Status → Reminder
found_reminder none post stage = new_reminder post stage
found_reminder (some r) post stage = r

abbrev pub with_reminder : Option Reminder → Reminder → List Reminder → List Reminder
with_reminder none r rs = rs ++ (r ∷ [])
with_reminder (some old) r rs =
    update_where (λ x. x.post == r.post && same x.stage r.stage) (λ _. r) rs

unfoldable pub process_post : ℕ → ℕ → Status → ℕ → Watch → Watch
process_post now hours stage post w =
    let found = find (λ r. r.post == post && same r.stage stage) w.reminders in
    let (after, sent) = process_reminder now hours (found_reminder found post stage) in
    record w {
      reminders = with_reminder found after w.reminders;
      nudges =
          w.nudges
          ++ map (λ user. record { user = user; kind = sent; post = post })
              (recipients stage sent w.members);
    }

unfoldable pub process_posts : ℕ → ℕ → Status → List ℕ → Watch → Watch
process_posts now hours stage [] w = w
process_posts now hours stage (post ∷ posts) w =
    process_posts now hours stage posts (process_post now hours stage post w)

module _ (updated_at : ℕ → ℕ) where
  -- A post with a child at the stage and no change since the threshold.
  abbrev pub is_stalled : ℕ → ℕ → Status → List PlatformPost → ℕ → Bool
  is_stalled now hours stage rows post =
      any (λ r. r.post == post && same r.status stage) rows
      && leb (updated_at post + hours * 3600) now

  unfoldable pub process_stage : ℕ → ℕ → Status → Watch → Watch
  process_stage now hours stage w =
      process_posts now hours stage (keep (is_stalled now hours stage w.rows) w.posts) w

  unfoldable pub check_approval_reminders : ℕ → Watch → Watch
  check_approval_reminders now w =
      process_stage now 48 pending_client (process_stage now 24 pending_review w)
