-- ===== src/Publisher/Settled.antt =====
-- What one run of `_post_first_comment_task` of apps/publisher/engine.py records.
use osir_ai.Prelude.{
  ℕ, ◌≤◌, ◌≡◌, ◌≢◌, refl, sym, subst, arith, Bool, true, false, ◌||◌, not, inl, inr, Option, none,
  some, ◌==◌, leb, if◌then◌else◌, find, Text, truthy, Bool-cases,
}
use osir_ai.Records.{PlatformPost, CommentStatus, not_requested, pending, posted, comment_failed}
use osir_ai.Publisher.{first_comment_text}
use osir_ai.Publisher.Tables.{World}
use osir_ai.Publisher.Comment.{
  Failure, Lookup, no_lookup, answered, broken, Answer, no_comments, commented, refused, Exchange,
  CommentMessages, Ending, skipped, failure, on_platform, is_posted, before_publish, after_publish,
  after_lookup, after_connection, ending, finish_comment, record_first_comment_failure,
  mark_first_comment_posted, post_first_comment_task, max_comment_retries, or_backoff,
  comment_backoff,
}
use osir_ai.Publisher.Requests.{find-update_platform_post}
use osir_ai.Publisher.Once.{waiting, waiting-queue, find-id, task-row}

-- The row is closed, or it is pending and a run of it is queued.
abbrev pub IsSettled : CommentStatus → ℕ → Type 0
IsSettled posted waits = Unit
IsSettled comment_failed waits = Unit
IsSettled pending waits = 1 ≤ waits
IsSettled not_requested waits = ⊥

abbrev Settled : ℕ → World → Type 0
Settled id w =
    (pp : PlatformPost) × (find (λ r. r.id == id) w.rows ≡ some pp)
    × IsSettled pp.comment_status (waiting id w.tasks)

abbrev records : Ending → Bool
records skipped = false
records _ = true

finish_comment-Settled :
    (m : CommentMessages) (now : ℕ) (e : Ending) (pp : PlatformPost) (w : World)
    → find (λ r. r.id == pp.id) w.rows ≡ some pp
    → records e ≡ true
    → Settled pp.id (finish_comment m now e pp w)
unfolding mark_first_comment_posted record_first_comment_failure
finish_comment-Settled m now skipped pp w row h = absurd (let clash = h in cc)
finish_comment-Settled m now (on_platform id) pp w row h =
    (_, find-update_platform_post _ pp w.rows (λ r. refl) row, tt)
finish_comment-Settled m now (failure retry message after) pp w row h =
    elim (Bool-cases (not retry || leb max_comment_retries pp.comment_retries)) [
      | inl e ↦ rw e (_, find-update_platform_post _ pp w.rows (λ r. refl) row, tt)
      | inr e ↦
          let own : (pp.id == pp.id) ≡ true = ground arith in
          let more =
            waiting-queue pp.id
              (record {
                platform_post = pp.id;
                delay = or_backoff after (comment_backoff pp.comment_retries);
              })
              w.tasks own in
          rw e (_, find-update_platform_post _ pp w.rows (λ r. refl) row, rw more (omega arith))
    ]

after_publish-records :
    (reconciles : Bool) (answer : Answer)
    → answer ≢ no_comments
    → records (after_publish reconciles answer) ≡ true
unfolding after_publish
after_publish-records reconciles no_comments h = absurd (h refl)
after_publish-records reconciles (commented id) h = refl
after_publish-records reconciles (refused f) h = refl

task-records :
    (m : CommentMessages) (reconciles : Bool) (comment : Text) (pp : PlatformPost) (x : Exchange)
    → truthy comment ≡ true
    → is_posted pp.comment_status ≡ false
    → x.answer ≢ no_comments
    → records (ending (before_publish m comment pp x) reconciles x.answer) ≡ true
unfolding before_publish
task-records m reconciles comment pp x some_text open_row supported =
    rw (open_row, some_text) (rest x.unreachable (truthy pp.platform_post_id))
  where
    looked : (found : Lookup) → records (ending (after_lookup found) reconciles x.answer) ≡ true
    looked no_lookup = after_publish-records reconciles x.answer supported
    looked (broken f) = refl
    looked (answered id) = elim (Bool-cases (truthy id)) [
      | inl e ↦ rw e
      | inr e ↦ rw e (after_publish-records reconciles x.answer supported)
    ]

    rest :
        (o : Option Failure) (has_id : Bool)
        → records (
            ending
              (if not has_id
                then some (failure false m.no_id none)
                else after_connection o pp x.lookup)
              reconciles
              x.answer)
          ≡ true
    rest o false = refl
    rest (some f) true = refl
    rest none true = elim (Bool-cases (pp.comment_retries == 0)) [
      | inl e ↦ rw e (after_publish-records reconciles x.answer supported)
      | inr e ↦ rw e (looked x.lookup)
    ]

posted-IsSettled : (s : CommentStatus) (waits : ℕ) → is_posted s ≡ true → IsSettled s waits
posted-IsSettled not_requested waits h = cc
posted-IsSettled pending waits h = cc
posted-IsSettled posted waits h = tt
posted-IsSettled comment_failed waits h = cc

task-Settled :
    (m : CommentMessages) (now id : ℕ) (reconciles : Bool) (x : Exchange) (pp : PlatformPost)
    (w : World)
    → find (λ r. r.id == id) w.rows ≡ some pp
    → truthy (first_comment_text w pp) ≡ true
    → x.answer ≢ no_comments
    → Settled id (
        finish_comment m now
          (ending (before_publish m (first_comment_text w pp) pp x) reconciles x.answer)
          pp
          w)
unfolding before_publish
task-Settled m now id reconciles x pp w row some_text supported =
    elim (Bool-cases (is_posted pp.comment_status)) [
      | inl e ↦ rw e (pp, row, posted-IsSettled pp.comment_status (waiting id w.tasks) e)
      | inr e ↦
          let same_id = find-id id pp w.rows row in
          subst
            (λ k. Settled k (
              finish_comment m now
                (ending (before_publish m (first_comment_text w pp) pp x) reconciles x.answer) pp
                w))
            same_id
            (finish_comment-Settled m now
              (ending (before_publish m (first_comment_text w pp) pp x) reconciles x.answer) pp w
              (subst (λ k. find (λ r. r.id == k) w.rows ≡ some pp) (sym same_id) row)
              (task-records m reconciles (first_comment_text w pp) pp x some_text e supported))
    ]

-- A run for a row that has a comment text, on a channel that takes comments, leaves the row POSTED or
-- FAILED, or PENDING with another run queued.
pub post_first_comment_task-settles :
    (m : CommentMessages) (now id : ℕ) (reconciles : Bool) (x : Exchange) (pp : PlatformPost)
    (w : World)
    → find (λ r. r.id == id) w.rows ≡ some pp
    → truthy (first_comment_text w pp) ≡ true
    → x.answer ≢ no_comments
    → (after : PlatformPost) × (find
          (λ r. r.id == id)
          (post_first_comment_task m now reconciles id x w).rows
        ≡ some after)
      × IsSettled after.comment_status
          (waiting id (post_first_comment_task m now reconciles id x w).tasks)
post_first_comment_task-settles m now id reconciles x pp w row some_text supported =
    subst (Settled id) (sym (task-row m reconciles now id x pp w row))
      (task-Settled m now id reconciles x pp w row some_text supported)
