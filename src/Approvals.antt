-- ===== src/Approvals.antt =====
-- The approval workflow: apps/approvals/services.py. A target is a post, with all its platform
-- posts, or one platform post. What a call writes beside the rows is kept in lists: the audit
-- trail, the reminders, and the notifications that it hands on (their wording is left out).
pub mod Effects
pub mod Loop
pub mod Rows
pub mod Moves
pub mod Decisions
pub mod Comments
pub mod Tasks
pub mod Tells
pub mod Found
pub mod Turns
pub mod Nudges
pub mod Examples
use osir_ai.Prelude.{
  ℕ, Bool, true, false, ◌&&◌, ◌||◌, not, List, [], ◌∷◌, ◌++◌, Option, none, some, ◌==◌,
  if◌then◌else◌, keep, find, map, Text, text, truthy, strip, Result, ok, err, ◌>>=◌, ◌>>◌, raise_if,
  comment_required, any,
}
use osir_ai.Workflow.{
  Status, draft, pending_review, pending_client, approved, changes_requested, rejected, on_hold,
  same, status_in,
}
use osir_ai.Records.{
  PlatformPost, Post, Workspace, required_internal_and_client, ApprovalMode, children,
}
use osir_ai.Approvals.Effects.{
  ActionType, submitted, approval, changes_asked, rejection, resubmitted, held, Action, Reminder,
  EventType, post_submitted, post_approved, post_changes_requested, post_rejected,
  approval_hold_requested, client_approval_requested, Notice, Membership, Desk, Target, whole,
  single, target_post, resolve_targets, record_actions, reset_reminder, notify_reviewers,
  notify_clients, notify_author,
}
use osir_ai.Approvals.Loop.{Tally, move_one, approve_one, for_each}

-- `if not moved: return moved`, and otherwise the desk that the rest leaves
abbrev pub unless_empty : List PlatformPost → Desk → Desk → Bool × Desk
unless_empty [] d d' = (false, d)
unless_empty (m ∷ ms) d d' = (true, d')

-- What is common to the services: the eligible targets are moved, and if one has moved, the action
-- is recorded. The result says whether one has.
unfoldable pub move_and_record :
    List Status → Status → ActionType → Text → Target → ℕ → ℕ → Desk → Bool × Desk
move_and_record eligible status action comment target user now d =
    let t =
      for_each (move_one status now) (resolve_targets target eligible d.rows)
        (record { rows = d.rows; moved = []; advanced = false }) in
    unless_empty t.moved d
      (record_actions target t.moved user action comment (record d { rows = t.rows }))

-- `then` on the desk of a call that has moved something
abbrev pub if_moved : (Desk → Desk) → Bool × Desk → Bool × Desk
if_moved f (true, d) = (true, f d)
if_moved f (false, d) = (false, d)

unfoldable pub submit_for_review : Target → ℕ → ℕ → Desk → Bool × Desk
submit_for_review target user now d =
    if_moved
      (λ d'.
        notify_reviewers (target_post target) user post_submitted
          (reset_reminder (target_post target) pending_review d'))
      (move_and_record (draft ∷ changes_requested ∷ rejected ∷ []) pending_review submitted []
        target user now d)

unfoldable pub resubmit_post : Target → ℕ → ℕ → Desk → Bool × Desk
resubmit_post target user now d =
    if_moved
      (λ d'.
        notify_reviewers (target_post target) user post_submitted
          (reset_reminder (target_post target) pending_review d'))
      (move_and_record (changes_requested ∷ rejected ∷ approved ∷ []) pending_review resubmitted []
        target user now d)

-- `if not comment.strip(): raise ValueError(...)`
abbrev pub require_comment : Text → Result (Unit {0})
require_comment comment = raise_if (not (truthy (strip comment))) comment_required

unfoldable pub request_changes : Target → ℕ → Text → ℕ → Desk → Result (Bool × Desk)
request_changes target user comment now d = do
  require_comment comment
  ok (
      if_moved (notify_author (target_post target) user post_changes_requested) (
        move_and_record (pending_review ∷ pending_client ∷ []) changes_requested changes_asked
          comment target user now d))

unfoldable pub reject_post : Target → ℕ → Text → ℕ → Desk → Result (Bool × Desk)
reject_post target user comment now d = do
  require_comment comment
  ok (
      if_moved (notify_author (target_post target) user post_rejected) (
        move_and_record (pending_review ∷ pending_client ∷ []) rejected rejection comment target
          user now d))

unfoldable pub request_hold : Target → ℕ → Text → ℕ → Desk → Result (Bool × Desk)
request_hold target user comment now d = do
  require_comment comment
  ok (
      if_moved (notify_reviewers (target_post target) user approval_hold_requested)
        (move_and_record (approved ∷ []) on_hold held comment target user now d))

unfoldable pub resume_hold : Target → ℕ → ℕ → Desk → Bool × Desk
resume_hold target user now d =
    move_and_record (on_hold ∷ []) approved approval (text "Hold lifted.") target user now d

-- `workspace.approval_workflow_mode == "required_internal_and_client"`
abbrev pub is_two_stage : ApprovalMode → Bool
is_two_stage required_internal_and_client = true
is_two_stage _ = false

abbrev pub approvable : List Status
approvable = pending_review ∷ pending_client ∷ draft ∷ rejected ∷ changes_requested ∷ []

unfoldable pub approve_post : Target → ℕ → Text → ApprovalMode → ℕ → Desk → Bool × Desk
approve_post target user comment mode now d =
    let t =
      for_each (approve_one (is_two_stage mode) now) (resolve_targets target approvable d.rows)
        (record { rows = d.rows; moved = []; advanced = false }) in
    let d' = record_actions target t.moved user approval comment (record d { rows = t.rows }) in
    unless_empty t.moved d (
      if t.advanced
      then notify_clients (target_post target)
          (reset_reminder (target_post target) pending_client d')
      else notify_author (target_post target) user post_approved d')

-- A post that `bulk_approve` and `bulk_reject` select, of the given posts of the workspace: one with
-- a child in review.
abbrev pub in_review : Desk → ℕ → Bool
in_review d post =
    any (λ pp. pp.post == post && status_in pp.status (pending_review ∷ pending_client ∷ [])) d.rows

-- The loop of `bulk_approve`: for each post, whether something moved.
unfoldable pub approve_each : List ℕ → ℕ → ApprovalMode → ℕ → Desk → List (ℕ × Bool) × Desk
approve_each [] user mode now d = ([], d)
approve_each (post ∷ posts) user mode now d =
    let (moved, d') = approve_post (whole post) user [] mode now d in
    let (results, last) = approve_each posts user mode now d' in ((post, moved) ∷ results, last)

unfoldable pub bulk_approve : List ℕ → ℕ → ApprovalMode → ℕ → Desk → List (ℕ × Bool) × Desk
bulk_approve posts user mode now d = approve_each (keep (in_review d) posts) user mode now d

-- `except ValueError`
abbrev or_unmoved : Desk → Result (Bool × Desk) → Bool × Desk
or_unmoved d (ok outcome) = outcome
or_unmoved d (err e) = (false, d)

-- The loop of `bulk_reject`: a rejection that raises is reported as not moved.
unfoldable pub reject_each : List ℕ → ℕ → Text → ℕ → Desk → List (ℕ × Bool) × Desk
reject_each [] user comment now d = ([], d)
reject_each (post ∷ posts) user comment now d =
    let (moved, d') = or_unmoved d (reject_post (whole post) user comment now d) in
    let (results, last) = reject_each posts user comment now d' in ((post, moved) ∷ results, last)

unfoldable pub bulk_reject : List ℕ → ℕ → Text → ℕ → Desk → Result (List (ℕ × Bool) × Desk)
bulk_reject posts user comment now d = do
  require_comment comment
  ok (reject_each (keep (in_review d) posts) user comment now d)
