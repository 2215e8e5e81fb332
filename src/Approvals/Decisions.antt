-- ===== src/Approvals/Decisions.antt =====
-- What each approval decision on a whole post does to its platform posts.
use osir_ai.Prelude.{
  ℕ, ◌≡◌, refl, sym, ◌∙◌, ap, fun_ext, Bool, true, false, ◌&&◌, List, [], ◌∷◌, map, arith, ◌==◌,
  keep, Text, text, ◌⊎◌, Option-cases, Bool-cases, inl, inr, if◌then◌else◌,
}
use osir_ai.Workflow.{
  Status, draft, pending_review, pending_client, approved, changes_requested, rejected, on_hold,
  same, status_in, can_transition_to,
}
use osir_ai.Records.{PlatformPost, ApprovalMode}
use osir_ai.Approvals.{
  move_and_record, unless_empty, if_moved, submit_for_review, resume_hold, approve_post, approvable,
  is_two_stage,
}
use osir_ai.Approvals.Effects.{
  ActionType, submitted, approval, EventType, post_submitted, post_approved, Desk, Target, whole,
  resolve_targets, record_actions, reset_reminder, notify_reviewers, notify_clients, notify_author,
}
use osir_ai.Approvals.Loop.{Tally, moved_to, save_status, move_one, approve_one, for_each}
use osir_ai.Approvals.Rows.{DistinctIds}
use osir_ai.Approvals.Moves.{
  row_after, row_approved, loop-rows, for_each-unmoved, move_one-rows, move_one-Records,
  row_after-id, approve_one-rows, approve_one-Records, row_approved-id,
}

-- A table in which the picked rows have a new status and all others are as before.
abbrev pub with_status : (PlatformPost → Bool) → Status → List PlatformPost → List PlatformPost
with_status p status = map (λ r. if p r then record r { status = status } else r)

-- The platform posts of a post in one of some statuses.
abbrev pub child_in : ℕ → List Status → PlatformPost → Bool
child_in post eligible r = r.post == post && status_in r.status eligible

map_ext :
    (f g : PlatformPost → PlatformPost) (rows : List PlatformPost)
    → ((r : PlatformPost) → f r ≡ g r)
    → map f rows ≡ map g rows
map_ext f g rows h = ap (λ (k : PlatformPost → PlatformPost). map k rows) (fun_ext h)

-- A status is allowed from each of the eligible ones.
abbrev pub Allowed : List Status → Status → Type 0
Allowed eligible status =
    (s : Status)
    → status_in s eligible ≡ true
    → (can_transition_to s status ≡ true) × (same s status ≡ false)

row_after_self :
    (status : Status) (now : ℕ) (r : PlatformPost)
    → can_transition_to r.status status ≡ true
    → same r.status status ≡ false
    → same status osir_ai.Workflow.published ≡ false
    → row_after status now r r ≡ record r { status = status }
unfolding row_after save_status moved_to
row_after_self status now r may ne open_ended = rw (ne, may, open_ended)

record_actions-rows :
    (target : Target) (moved : List PlatformPost) (user : ℕ) (action : ActionType) (comment : Text)
    (d : Desk)
    → (record_actions target moved user action comment d).rows ≡ d.rows
unfolding record_actions
record_actions-rows (whole post) moved user action comment d = refl
record_actions-rows target moved user action comment d = refl

eligible_row :
    (eligible : List Status) (status : Status) (now post : ℕ) (r : PlatformPost)
    → same status osir_ai.Workflow.published ≡ false
    → Allowed eligible status
    → (if child_in post eligible r then row_after status now r r else r)
      ≡ (if child_in post eligible r then record r { status = status } else r)
eligible_row eligible status now post r open_ended allowed =
    elim (Bool-cases (child_in post eligible r)) [
      | inl e ↦
          let (may, ne) = allowed r.status (ground arith) in
          rw e (row_after_self status now r may ne open_ended)
      | inr e ↦ rw e
    ]

unless_empty-rows :
    (moved : List PlatformPost) (d d' : Desk) {rows : List PlatformPost}
    → (moved ≡ [] → d.rows ≡ rows)
    → d'.rows ≡ rows
    → (unless_empty moved d d').1.rows ≡ rows
unless_empty-rows [] d d' h k = h refl
unless_empty-rows (m ∷ ms) d d' h k = k

pub move_and_record-rows :
    (eligible : List Status) (status : Status) (action : ActionType) (comment : Text)
    (post user now : ℕ) (d : Desk)
    → same status osir_ai.Workflow.published ≡ false
    → Allowed eligible status
    → DistinctIds d.rows
    → (move_and_record eligible status action comment (whole post) user now d).1.rows
      ≡ with_status (child_in post eligible) status d.rows
unfolding move_and_record resolve_targets
move_and_record-rows eligible status action comment post user now d open_ended allowed distinct =
    let t0 : Tally = record { rows = d.rows; moved = []; advanced = false } in
    let targets =
      keep (λ (pp : PlatformPost). status_in pp.status eligible)
        (keep (λ (pp : PlatformPost). pp.post == post) d.rows) in
    let rows : (for_each (move_one status now) targets t0).rows
        ≡ with_status (child_in post eligible) status d.rows =
      loop-rows (move_one status now) (row_after status now) (λ r. r.post == post)
        (λ r. status_in r.status eligible) d.rows [] false (move_one-rows status now)
        (row_after-id status now) distinct
      ∙ map_ext _ _ d.rows (λ r. eligible_row eligible status now post r open_ended allowed) in
    unless_empty-rows (for_each (move_one status now) targets t0).moved d _
      (λ none_moved.
        sym
          (for_each-unmoved (move_one status now) targets t0 (move_one-Records status now)
            none_moved).1
        ∙ rows)
      (record_actions-rows (whole post) _ user action comment _ ∙ rows)

pub if_moved-rows :
    (f : Desk → Desk) (out : Bool × Desk)
    → ((d : Desk) → (f d).rows ≡ d.rows)
    → (if_moved f out).1.rows ≡ out.1.rows
if_moved-rows f (true, d) h = h d
if_moved-rows f (false, d) h = refl

ask_reviewers-rows :
    (post user : ℕ) (stage : Status) (event : EventType) (d : Desk)
    → (notify_reviewers post user event (reset_reminder post stage d)).rows ≡ d.rows
unfolding notify_reviewers reset_reminder
ask_reviewers-rows post user stage event d = refl

pub notify_reviewers-rows :
    (post user : ℕ) (event : EventType) (d : Desk)
    → (notify_reviewers post user event d).rows ≡ d.rows
unfolding notify_reviewers
notify_reviewers-rows post user event d = refl

pub notify_author-rows :
    (post user : ℕ) (event : EventType) (d : Desk) → (notify_author post user event d).rows ≡ d.rows
unfolding notify_author
notify_author-rows post user event d = elim (Option-cases (d.authors post)) [
  | inl e ↦ rw (e, notify_author)
  | inr (a, e) ↦ elim (Bool-cases (a == user)) [
    | inl own ↦ rw (e, notify_author, own)
    | inr other ↦ rw (e, notify_author, other)
  ]
]

notify_clients-rows :
    (post : ℕ) (stage : Status) (d : Desk)
    → (notify_clients post (reset_reminder post stage d)).rows ≡ d.rows
unfolding notify_clients reset_reminder
notify_clients-rows post stage d = refl

abbrev pub submittable : List Status
submittable = draft ∷ changes_requested ∷ rejected ∷ []

submittable-Allowed : Allowed submittable pending_review
unfolding can_transition_to
submittable-Allowed draft h = (refl, refl)
submittable-Allowed s h = ground arith

-- Submitting a post puts into review exactly its platform posts that are drafts, have changes
-- requested or are rejected, and touches no other row, where no key stands twice.
pub submit_for_review-rows :
    (post user now : ℕ) (d : Desk)
    → DistinctIds d.rows
    → (submit_for_review (whole post) user now d).1.rows
      ≡ with_status
          (child_in post (draft ∷ changes_requested ∷ rejected ∷ []))
          pending_review
          d.rows
unfolding submit_for_review
submit_for_review-rows post user now d distinct =
    if_moved-rows _
      (move_and_record submittable pending_review submitted [] (whole post) user now d)
      (ask_reviewers-rows post user pending_review post_submitted)
    ∙ move_and_record-rows submittable pending_review submitted [] post user now d refl
        submittable-Allowed distinct

pub held-Allowed : Allowed (approved ∷ []) on_hold
unfolding can_transition_to
held-Allowed draft h = absurd (cc)
held-Allowed s h = ground arith

resumed-Allowed : Allowed (on_hold ∷ []) approved
unfolding can_transition_to
resumed-Allowed draft h = absurd (cc)
resumed-Allowed s h = ground arith

-- Lifting a hold approves exactly the platform posts of the post that are on hold, and touches no
-- other row, where no key stands twice.
pub resume_hold-rows :
    (post user now : ℕ) (d : Desk)
    → DistinctIds d.rows
    → (resume_hold (whole post) user now d).1.rows
      ≡ with_status (child_in post (on_hold ∷ [])) approved d.rows
unfolding resume_hold
resume_hold-rows post user now d distinct =
    move_and_record-rows (on_hold ∷ []) approved approval (text "Hold lifted.") post user now d refl
      resumed-Allowed distinct

pub reviewed-Allowed :
    (status : Status)
    → (status ≡ rejected) ⊎ (status ≡ changes_requested)
    → Allowed (pending_review ∷ pending_client ∷ []) status
unfolding can_transition_to
reviewed-Allowed status which s h = ground arith

approved_row :
    (two_stage : Bool) (now post : ℕ) (r : PlatformPost)
    → (if child_in post approvable r then row_approved two_stage now r r else r) ≡ (
        if child_in post (pending_review ∷ pending_client ∷ []) r
        then record r {
          status = if two_stage && same r.status pending_review then pending_client else approved;
        }
        else r)
unfolding row_approved row_after save_status moved_to can_transition_to
approved_row two_stage now post r = ground arith

approve_tail-rows :
    (post user : ℕ) (advanced : Bool) (d : Desk)
    → (if advanced
        then notify_clients post (reset_reminder post pending_client d)
        else notify_author post user post_approved d).rows
      ≡ d.rows
approve_tail-rows post user true d = notify_clients-rows post pending_client d
approve_tail-rows post user false d = notify_author-rows post user post_approved d

-- Approving a post approves exactly its platform posts that are in review or with the client,
-- and touches no other row, where no key stands twice; in the two-stage mode one that is in review
-- goes on to the client instead.
pub approve_post-rows :
    (post user : ℕ) (comment : Text) (mode : ApprovalMode) (now : ℕ) (d : Desk)
    → DistinctIds d.rows
    → (approve_post (whole post) user comment mode now d).1.rows
      ≡ map
          (λ r.
            if child_in post (pending_review ∷ pending_client ∷ []) r
            then record r {
              status =
                  if is_two_stage mode && same r.status pending_review
                  then pending_client
                  else approved;
            }
            else r)
          d.rows
unfolding approve_post resolve_targets
approve_post-rows post user comment mode now d distinct =
    let two_stage = is_two_stage mode in
    let t0 : Tally = record { rows = d.rows; moved = []; advanced = false } in
    let targets =
      keep (λ (pp : PlatformPost). status_in pp.status approvable)
        (keep (λ (pp : PlatformPost). pp.post == post) d.rows) in
    let t = for_each (approve_one two_stage now) targets t0 in
    let rows =
      loop-rows (approve_one two_stage now) (row_approved two_stage now) (λ r. r.post == post)
        (λ r. status_in r.status approvable) d.rows [] false (approve_one-rows two_stage now)
        (row_approved-id two_stage now) distinct
      ∙ map_ext _ _ d.rows (approved_row two_stage now post) in
    unless_empty-rows t.moved d _
      (λ none_moved.
        sym
          (for_each-unmoved (approve_one two_stage now) targets t0
            (approve_one-Records two_stage now) none_moved).1
        ∙ rows)
      (approve_tail-rows post user t.advanced _
        ∙ (record_actions-rows (whole post) _ user approval comment _ ∙ rows))
