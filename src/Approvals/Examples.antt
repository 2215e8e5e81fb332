-- ===== src/Approvals/Examples.antt =====
-- The approval services on one post with two platform posts.
use osir_ai.Prelude.{
  ℕ, ◌+◌, ◌≤◌, ◌≡◌, refl, true, false, List, [], ◌∷◌, none, some, map, arith, Text, text, ok,
  if◌then◌else◌, ◌&&◌,
}
use osir_ai.Members.{manager}
use osir_ai.Approvals.Tasks.{Watch, reminded}
use osir_ai.Approvals.Tells.{told, cap, seats}
use osir_ai.Approvals.Turns.{times}
use osir_ai.Approvals.Nudges.{Round, rounds, rounds_bounded}
use osir_ai.Workflow.{
  Status, draft, approved, pending_review, pending_client, on_hold, same, can_transition_to,
}
use osir_ai.Records.{PlatformPost, not_requested, required_internal_and_client}
use osir_ai.Approvals.{approve_post, resume_hold, request_hold, is_two_stage, move_and_record}
use osir_ai.Approvals.Effects.{
  Reminder, held, approval_hold_requested, Desk, whole, record_actions, notify_reviewers,
  resolve_targets,
}
use osir_ai.Approvals.Loop.{for_each, move_one, transition_or_skip, moved_to, save_status}
use osir_ai.Approvals.Rows.{DistinctIds}
use osir_ai.Approvals.Decisions.{child_in, approve_post-rows}
use osir_ai.Approvals.Comments.{resume_hold-request_hold}

abbrev row : ℕ → Status → PlatformPost
row id status = record {
  id = id;
  post = 1;
  account = 7;
  specific_title = none;
  specific_caption = none;
  specific_media = none;
  specific_first_comment = none;
  extra = [];
  status = status;
  platform_post_id = [];
  publish_error = [];
  published_at = none;
  comment_status = not_requested;
  comment_id = [];
  comment_error = [];
  comment_retries = 0;
  comment_posted_at = none;
  scheduled_at = none;
  retry_count = 0;
  next_retry_at = none;
}

abbrev desk : Status → Status → Desk
desk first second = record {
  rows = row 2 first ∷ row 3 second ∷ [];
  authors = λ _. some 9;
  members = record { user = 8; approve_posts = true; is_client = false } ∷ [];
  actions = [];
  reminders = [];
  notices = [];
}

desk-DistinctIds : (first second : Status) → DistinctIds (desk first second).rows
desk-DistinctIds first second = ((omega arith, tt), (tt, tt))

abbrev later_please : Text
later_please = text "later"

approve_post-rows_example :
    (approve_post
      (whole 1)
      8
      []
      required_internal_and_client
      50
      (desk pending_review pending_client)).1.rows
    ≡ map
        (λ r.
          if child_in 1 (pending_review ∷ pending_client ∷ []) r
          then record r {
            status =
                if is_two_stage required_internal_and_client && same r.status pending_review
                then pending_client
                else approved;
          }
          else r)
        (desk pending_review pending_client).rows
approve_post-rows_example =
    approve_post-rows 1 8 [] required_internal_and_client 50 (desk pending_review pending_client)
      (desk-DistinctIds pending_review pending_client)

abbrev approved_desk : Desk
approved_desk = desk approved draft

abbrev held_desk : Desk
held_desk = record (desk on_hold draft) {
  actions =
      record { post = 1; platform_post = none; user = 9; action = held; comment = later_please }
      ∷ [];
  notices = record { user = 8; event = approval_hold_requested; post = 1 } ∷ [];
}

hold_approved : request_hold (whole 1) 9 later_please 50 approved_desk ≡ ok (true, held_desk)
unfolding request_hold move_and_record for_each move_one transition_or_skip moved_to save_status
    resolve_targets record_actions notify_reviewers can_transition_to
hold_approved = refl

resume_hold-request_hold_example :
    (resume_hold (whole 1) 8 60 held_desk).1.rows ≡ approved_desk.rows
resume_hold-request_hold_example =
    resume_hold-request_hold 1 9 8 later_please 50 60 approved_desk (true, held_desk)
      (desk-DistinctIds approved draft) (refl, (refl, tt)) hold_approved

abbrev fresh_reminder : Reminder
fresh_reminder = record {
  post = 1;
  stage = pending_review;
  reminder_count = 0;
  last_reminder_at = none;
  escalated = false;
}

-- A post that waits for a review, and a reviewer.
abbrev stalled : Watch
stalled = record {
  posts = [];
  rows = [];
  members = record { user = 8; workspace = 1; role = manager; custom_role = none } ∷ [];
  reminders = fresh_reminder ∷ [];
  nudges = [];
}

abbrev round_at : ℕ → Round
round_at now = record {
  now = now;
  posts = 1 ∷ [];
  rows = (desk pending_review pending_review).rows;
  updated_at = λ p. 0;
}

-- Three runs, a day and more apart.
abbrev three_rounds : List Round
three_rounds = round_at 100000 ∷ round_at 200000 ∷ round_at 300000 ∷ []

rounds_bounded_example :
    told reminded 8 1 (rounds three_rounds stalled).nudges
    ≤ told reminded 8 1 stalled.nudges
      + times (cap reminded + cap reminded) (seats 8 stalled.members)
rounds_bounded_example = rounds_bounded reminded 8 1 three_rounds stalled (omega arith, omega arith)
