-- ===== src/Publisher/Backoff.antt =====
-- When a row that is to be retried is due: the two queries of apps/publisher/engine.py.
use osir_ai.Prelude.{
  ℕ, zero, suc, ◌+◌, ◌≤◌, ◌≡◌, refl, Bool, true, false, ◌&&◌, ◌||◌, ◌<◌, inl, inr, List, [], ◌∷◌,
  Option, none, some, ◌==◌, leb, arith, Text, Bool-cases, ||-false, ||-none, &&-no,
}
use osir_ai.Workflow.{scheduled, on_hold, same}
use osir_ai.Records.{PlatformPost, update_platform_post}
use osir_ai.Publisher.{is_due, is_due_at}
use osir_ai.Publisher.Tables.{World, effective_at, post_on_hold}
use osir_ai.Publisher.Attempt.{
  Reply, delivered, declined, raised, Messages, max_retries, retry_backoff, schedule_retry,
  row_after_reply, row_after_attempt, publish_platform_post, rate_limited,
}
use osir_ai.Publisher.Retries.{IsRetried}
use osir_ai.Publisher.Written.{
  row_after_attempt-IsSameRow, attempted, rows-publish_platform_post, posts-publish_platform_post,
}

-- What the engine takes for a failure that may pass.
abbrev pub may_pass : Reply → Bool
may_pass (delivered _ _ _ _) = false
may_pass (declined _ _) = true
may_pass (raised retryable _ _) = retryable

-- A row that is not on hold, put in the place of others, holds no post.
post_on_hold-update :
    (post id : ℕ) (new : PlatformPost) (rows : List PlatformPost)
    → same new.status on_hold ≡ false
    → post_on_hold post rows ≡ false
    → post_on_hold post (update_platform_post id (λ _. new) rows) ≡ false
unfolding post_on_hold
post_on_hold-update post id new [] h k = refl
post_on_hold-update post id new (r ∷ rs) h k =
    let parts = ||-false (r.post == post && same r.status on_hold) (post_on_hold post rs) k in
    elim (Bool-cases (r.id == id)) [
      | inl e ↦
          rw e (||-none (&&-no (new.post == post) h) (post_on_hold-update post id new rs h parts.1))
      | inr e ↦ rw e (||-none parts.0 (post_on_hold-update post id new rs h parts.1))
    ]

schedule_retry-IsRetried :
    (m : Messages) (now : ℕ) (message : Text) (pp : PlatformPost)
    → pp.retry_count < max_retries
    → IsRetried now pp (schedule_retry m now message pp)
unfolding schedule_retry
schedule_retry-IsRetried m now message pp left =
    let e : leb max_retries pp.retry_count ≡ false = ground arith in
    let bound : pp.retry_count + 1 ≤ 3 = omega (arith, left) in
    rw e (record { is_scheduled = refl; counted = refl; bounded = bound; backoff = refl })

row_after_attempt-IsRetried :
    (m : Messages) (now : ℕ) (limited : Bool) (reply : Reply) (pp : PlatformPost)
    → (limited || may_pass reply) ≡ true
    → pp.retry_count < max_retries
    → IsRetried now pp (row_after_attempt m now limited reply pp)
unfolding row_after_attempt row_after_reply
row_after_attempt-IsRetried m now true reply pp may left =
    schedule_retry-IsRetried m now m.rate_limit pp left
row_after_attempt-IsRetried m now false (delivered id extra rest resets) pp may left = ground arith
row_after_attempt-IsRetried m now false (declined error code) pp may left =
    schedule_retry-IsRetried m now m.generic pp left
row_after_attempt-IsRetried m now false (raised true error friendly) pp may left =
    schedule_retry-IsRetried m now friendly pp left
row_after_attempt-IsRetried m now false (raised false error friendly) pp may left = ground arith

retry_backoff-minute : (n : ℕ) → 60 ≤ retry_backoff n
unfolding retry_backoff
retry_backoff-minute zero = omega arith
retry_backoff-minute (suc zero) = omega arith
retry_backoff-minute (suc (suc n)) = omega arith

is_due_at-later :
    (o : Option ℕ) (now t : ℕ) → is_due_at o now ≡ true → now ≤ t → is_due_at o t ≡ true
is_due_at-later none now t h le = h
is_due_at-later (some a) now t h le = ground arith

module _ (m : Messages) (dispatch : ℕ → PlatformPost → Reply) where
  -- A try that may pass, of a row that has retries left, and is not on hold, leaves the row due at
  -- every later time for the query of scheduled rows, although its next retry lies at least a
  -- minute ahead.
  pub retry_due_at_once :
      (now t : ℕ) (pp : PlatformPost) (w : World)
      → (rate_limited now pp.account w || may_pass (dispatch now pp)) ≡ true
      → pp.retry_count < max_retries
      → post_on_hold pp.post w.rows ≡ false
      → is_due_at (effective_at w pp) now ≡ true
      → now ≤ t
      → (is_due t (publish_platform_post m dispatch now pp w) (attempted m dispatch now pp w)
          ≡ true)
        × ((attempted m dispatch now pp w).next_retry_at
            ≡ some (now + retry_backoff pp.retry_count))
        × (60 ≤ retry_backoff pp.retry_count)
  unfolding is_due effective_at
  retry_due_at_once now t pp w may left free due later =
      let limited = rate_limited now pp.account w in
      let reply = dispatch now pp in
      let retried = row_after_attempt-IsRetried m now limited reply pp may left in
      let kept = row_after_attempt-IsSameRow m now limited reply pp in
      let status : same (attempted m dispatch now pp w).status scheduled ≡ true =
        rw retried.is_scheduled refl in
      let unheld : same (attempted m dispatch now pp w).status on_hold ≡ false =
        rw retried.is_scheduled refl in
      let free' =
        post_on_hold-update pp.post pp.id (attempted m dispatch now pp w) w.rows unheld free in
      (
        rw (
          status,
          kept.time,
          kept.post,
          posts-publish_platform_post m dispatch now pp w,
          rows-publish_platform_post m dispatch now pp w,
          is_due_at-later _ now t due later,
          free',
        ),
        retried.backoff,
        retry_backoff-minute pp.retry_count,
      )
