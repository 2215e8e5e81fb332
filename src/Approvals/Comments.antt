-- ===== src/Approvals/Comments.antt =====
-- The decisions that want a comment, and the hold that can be lifted again.
use mathlib.Core.List.{reverse, reverse-cons}
use osir_ai.Prelude.{
  ℕ, ◌≡◌, refl, sym, ◌∙◌, ap, Bool, true, false, ◌&&◌, not, List, [], ◌∷◌, ◌++◌, all, arith, Text,
  is_space, truthy, strip, strip_left, ok, err, comment_required, >>-err, >>-ok, ok_injective, All,
  ◌≢◌, Bool-cases, inl, inr, if◌then◌else◌,
}
use osir_ai.Workflow.{
  Status, pending_review, pending_client, approved, changes_requested, rejected, on_hold,
}
use osir_ai.Records.{PlatformPost}
use osir_ai.Approvals.{
  move_and_record, require_comment, request_changes, reject_post, request_hold, resume_hold,
}
use osir_ai.Approvals.Effects.{
  Desk, Target, whole, rejection, changes_asked, held, post_rejected, post_changes_requested,
  approval_hold_requested,
}
use osir_ai.Approvals.Rows.{DistinctIds}
use osir_ai.Approvals.Decisions.{
  with_status, child_in, resume_hold-rows, if_moved-rows, notify_author-rows, notify_reviewers-rows,
  move_and_record-rows, reviewed-Allowed, held-Allowed,
}

-- A comment of white space only, the empty one included.
abbrev pub is_blank : Text → Bool
is_blank = all is_space

all-append : (p : ℕ → Bool) (xs ys : Text) → all p (xs ++ ys) ≡ (all p xs && all p ys)
all-append p [] ys = refl
all-append p (x ∷ xs) ys = ground (arith, all-append p xs ys)

all-reverse : (p : ℕ → Bool) (xs : Text) → all p (reverse xs) ≡ all p xs
all-reverse p [] = refl
all-reverse p (x ∷ xs) =
    rw reverse-cons (all-append p (reverse xs) (x ∷ []) ∙ rw (all-reverse p xs) (ground arith))

strip_left-truthy : (s : Text) → truthy (strip_left s) ≡ not (is_blank s)
strip_left-truthy [] = refl
strip_left-truthy (c ∷ s) = elim (Bool-cases (is_space c)) [
  | inl e ↦ rw e (strip_left-truthy s)
  | inr e ↦ rw e
]

strip_left-blank : (s : Text) → is_blank (strip_left s) ≡ is_blank s
strip_left-blank [] = refl
strip_left-blank (c ∷ s) = elim (Bool-cases (is_space c)) [
  | inl e ↦ rw e (strip_left-blank s)
  | inr e ↦ rw e (rw e)
]

truthy-append_last : (xs : Text) (x : ℕ) → truthy (xs ++ (x ∷ [])) ≡ true
truthy-append_last [] x = refl
truthy-append_last (y ∷ ys) x = refl

truthy-reverse : (s : Text) → truthy (reverse s) ≡ truthy s
truthy-reverse [] = refl
truthy-reverse (x ∷ xs) = rw reverse-cons (truthy-append_last (reverse xs) x)

pub strip-truthy : (s : Text) → truthy (strip s) ≡ not (is_blank s)
strip-truthy s =
    truthy-reverse (strip_left (reverse (strip_left s)))
    ∙ (strip_left-truthy (reverse (strip_left s))
        ∙ ap not (all-reverse is_space (strip_left s) ∙ strip_left-blank s))

-- A comment is accepted exactly where it has a character that is not white space.
require_comment-blank :
    (comment : Text) → is_blank comment ≡ true → require_comment comment ≡ err comment_required
require_comment-blank comment h = rw (strip-truthy comment, h)

require_comment-ok : (comment : Text) → is_blank comment ≡ false → require_comment comment ≡ ok tt
require_comment-ok comment h = rw (strip-truthy comment, h)

-- Requesting changes, rejecting and holding all refuse a comment of white space only.
pub blank_comment_refused :
    (target : Target) (user : ℕ) (comment : Text) (now : ℕ) (d : Desk)
    → is_blank comment ≡ true
    → (request_changes target user comment now d ≡ err comment_required)
      × (reject_post target user comment now d ≡ err comment_required)
      × (request_hold target user comment now d ≡ err comment_required)
unfolding request_changes reject_post request_hold
blank_comment_refused target user comment now d h =
    let refused = require_comment-blank comment h in
    (
      >>-err (require_comment comment) _ refused,
      >>-err (require_comment comment) _ refused,
      >>-err (require_comment comment) _ refused,
    )

abbrev in_review : List Status
in_review = pending_review ∷ pending_client ∷ []

-- With a comment that is not blank a rejection succeeds: it rejects exactly the platform posts of
-- the post that are in review or with the client, and touches no other row, where no key stands
-- twice.
pub reject_post-rows :
    (post user : ℕ) (comment : Text) (now : ℕ) (d : Desk)
    → is_blank comment ≡ false
    → DistinctIds d.rows
    → (out : Bool × Desk) × (reject_post (whole post) user comment now d ≡ ok out)
      × (out.1.rows
          ≡ with_status (child_in post (pending_review ∷ pending_client ∷ [])) rejected d.rows)
unfolding reject_post
reject_post-rows post user comment now d h distinct = (
  _,
  >>-ok (require_comment comment) _ (require_comment-ok comment h),
  if_moved-rows _ (move_and_record in_review rejected rejection comment (whole post) user now d)
        (notify_author-rows post user post_rejected)
      ∙ move_and_record-rows in_review rejected rejection comment post user now d refl
          (reviewed-Allowed rejected (inl refl)) distinct,
)

-- With a comment that is not blank a request of changes succeeds: it asks for changes of exactly
-- the platform posts of the post that are in review or with the client, and touches no other row,
-- where no key stands twice.
pub request_changes-rows :
    (post user : ℕ) (comment : Text) (now : ℕ) (d : Desk)
    → is_blank comment ≡ false
    → DistinctIds d.rows
    → (out : Bool × Desk) × (request_changes (whole post) user comment now d ≡ ok out)
      × (out.1.rows
          ≡ with_status
              (child_in post (pending_review ∷ pending_client ∷ []))
              changes_requested
              d.rows)
unfolding request_changes
request_changes-rows post user comment now d h distinct = (
  _,
  >>-ok (require_comment comment) _ (require_comment-ok comment h),
  if_moved-rows _
        (move_and_record in_review changes_requested changes_asked comment (whole post) user now d)
        (notify_author-rows post user post_changes_requested)
      ∙ move_and_record-rows in_review changes_requested changes_asked comment post user now d refl
          (reviewed-Allowed changes_requested (inr refl)) distinct,
)

-- With a comment that is not blank a hold succeeds: it parks exactly the approved platform posts of
-- the post, and touches no other row, where no key stands twice.
pub request_hold-rows :
    (post user : ℕ) (comment : Text) (now : ℕ) (d : Desk)
    → is_blank comment ≡ false
    → DistinctIds d.rows
    → (out : Bool × Desk) × (request_hold (whole post) user comment now d ≡ ok out)
      × (out.1.rows ≡ with_status (child_in post (approved ∷ [])) on_hold d.rows)
unfolding request_hold
request_hold-rows post user comment now d h distinct = (
  _,
  >>-ok (require_comment comment) _ (require_comment-ok comment h),
  if_moved-rows _ (move_and_record (approved ∷ []) on_hold held comment (whole post) user now d)
        (notify_reviewers-rows post user approval_hold_requested)
      ∙ move_and_record-rows (approved ∷ []) on_hold held comment post user now d refl held-Allowed
          distinct,
)

with_status-ids :
    (p : PlatformPost → Bool) (status : Status) (id : ℕ) (rows : List PlatformPost)
    → All (λ x. x.id ≢ id) rows
    → All (λ x. x.id ≢ id) (with_status p status rows)
with_status-ids p status id [] h = tt
with_status-ids p status id (r ∷ rs) h = elim (Bool-cases (p r)) [
  | inl e ↦ rw e (h.0, with_status-ids p status id rs h.1)
  | inr e ↦ rw e (h.0, with_status-ids p status id rs h.1)
]

with_status-DistinctIds :
    (p : PlatformPost → Bool) (status : Status) (rows : List PlatformPost)
    → DistinctIds rows
    → DistinctIds (with_status p status rows)
with_status-DistinctIds p status [] h = tt
with_status-DistinctIds p status (r ∷ rs) h = elim (Bool-cases (p r)) [
  | inl e ↦ rw e (with_status-ids p status r.id rs h.0, with_status-DistinctIds p status rs h.1)
  | inr e ↦ rw e (with_status-ids p status r.id rs h.0, with_status-DistinctIds p status rs h.1)
]

hold_and_back_row :
    (post : ℕ) (r : PlatformPost)
    → child_in post (on_hold ∷ []) r ≡ false
    → let r' = if child_in post (approved ∷ []) r then record r { status = on_hold } else r in
      (if child_in post (on_hold ∷ []) r' then record r' { status = approved } else r') ≡ r
hold_and_back_row post r h = ground arith

hold_and_back :
    (post : ℕ) (rows : List PlatformPost)
    → All (λ r. child_in post (on_hold ∷ []) r ≡ false) rows
    → with_status
        (child_in post (on_hold ∷ []))
        approved
        (with_status (child_in post (approved ∷ [])) on_hold rows)
      ≡ rows
hold_and_back post [] h = refl
hold_and_back post (r ∷ rs) h =
    let rest =
      with_status (child_in post (on_hold ∷ [])) approved
        (with_status (child_in post (approved ∷ [])) on_hold rs) in
    ap (λ (x : PlatformPost). x ∷ rest) (hold_and_back_row post r h.0)
    ∙ ap (◌∷◌ r) (hold_and_back post rs h.1)

-- A hold that is lifted again leaves the platform posts as they were, where none of the post was
-- on hold before and no key stands twice.
pub resume_hold-request_hold :
    (post client reviewer : ℕ) (comment : Text) (now later : ℕ) (d : Desk) (out : Bool × Desk)
    → DistinctIds d.rows
    → All (λ r. child_in post (on_hold ∷ []) r ≡ false) d.rows
    → request_hold (whole post) client comment now d ≡ ok out
    → (resume_hold (whole post) reviewer later out.1).1.rows ≡ d.rows
resume_hold-request_hold post client reviewer comment now later d out distinct none_held h =
    elim (Bool-cases (is_blank comment)) [
      | inl blank ↦
          absurd (let e = (blank_comment_refused (whole post) client comment now d blank).2 in cc)
      | inr full ↦
          let (out', done, rows) = request_hold-rows post client comment now d full distinct in
          let same_out : out' ≡ out = ok_injective (sym done ∙ h) in
          let rows' : out.1.rows ≡ with_status (child_in post (approved ∷ [])) on_hold d.rows =
            rw (← same_out) rows in
          resume_hold-rows post reviewer later out.1 (
            rw rows'
              (with_status-DistinctIds (child_in post (approved ∷ [])) on_hold d.rows distinct))
          ∙ (ap (with_status (child_in post (on_hold ∷ [])) approved) rows'
              ∙ hold_and_back post d.rows none_held)
    ]
