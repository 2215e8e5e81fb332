-- ===== src/Publisher.antt =====
-- The publishing engine: `PublishEngine` of apps/publisher/engine.py. The world is the table of
-- platform posts and what the engine reads and writes beside it. Its pools of threads work on
-- different rows, and are run here one row after the other.
pub mod Tables
pub mod Attempt
pub mod Written
pub mod Retries
pub mod Backoff
pub mod Kept
pub mod Holds
pub mod Requests
pub mod Comment
pub mod Ends
pub mod Once
pub mod Settled
pub mod CommentExamples
pub mod Examples
use osir_ai.Prelude.{
  ℕ, ◌+◌, Bool, true, false, ◌&&◌, ◌||◌, not, List, [], ◌∷◌, ◌++◌, Option, none, some, ◌==◌, leb,
  ltb, if◌then◌else◌, keep, any, find, take, map, length, member, update_where, Text, truthy,
}
use osir_ai.Workflow.{Status, scheduled, publishing, published, on_hold, same}
use osir_ai.Records.{
  PlatformPost, Post, children, update_platform_post, pending, posted, CommentStatus, effective,
}
use osir_ai.Publisher.Tables.{
  World, CommentTask, effective_at, post_on_hold, sync_parent_published_at,
}
use osir_ai.Publisher.Attempt.{
  Reply, Messages, max_retries, publish_platform_post, rate_limited, delivered,
}

-- `MAX_CONCURRENT_PUBLISHES`, by default
abbrev pub max_concurrent_publishes : ℕ
max_concurrent_publishes = 10

-- `effective_at__lte=now`; SQL's NULL is never due.
abbrev pub is_due_at : Option ℕ → ℕ → Bool
is_due_at none now = false
is_due_at (some t) now = leb t now

-- The filter of `_get_due_platform_posts`
unfoldable pub is_due : ℕ → World → PlatformPost → Bool
is_due now w pp =
    same pp.status scheduled
    && is_due_at (effective_at w pp) now
    && not (post_on_hold pp.post w.rows)

abbrev pub earlier : Option ℕ → Option ℕ → Bool
earlier (some a) (some b) = ltb a b
earlier _ _ = false

-- `order_by("effective_at")`: each row goes in behind those of an equal time.
unfoldable pub insert_by_time : World → PlatformPost → List PlatformPost → List PlatformPost
insert_by_time w pp [] = pp ∷ []
insert_by_time w pp (q ∷ qs) =
    let rest = insert_by_time w pp qs in
    if earlier (effective_at w pp) (effective_at w q) then pp ∷ q ∷ qs else q ∷ rest

unfoldable pub sort_by_time : World → List PlatformPost → List PlatformPost → List PlatformPost
sort_by_time w sorted [] = sorted
sort_by_time w sorted (pp ∷ pps) = sort_by_time w (insert_by_time w pp sorted) pps

unfoldable pub get_due_platform_posts : ℕ → World → List PlatformPost
get_due_platform_posts now w =
    take max_concurrent_publishes (sort_by_time w [] (keep (is_due now w) w.rows))

-- The posts of the due rows, each once, in the order of their first row: the keys of `groups`.
unfoldable pub group_keys : List ℕ → List PlatformPost → List ℕ
group_keys seen [] = seen
group_keys seen (pp ∷ pps) =
    group_keys (if member pp.post seen then seen else seen ++ (pp.post ∷ [])) pps

abbrev base_comment : Option Post → Text
base_comment none = []
base_comment (some p) = p.first_comment

-- `pp.effective_first_comment`
unfoldable pub first_comment_text : World → PlatformPost → Text
first_comment_text w pp =
    effective pp.specific_first_comment (base_comment (find (λ p. p.id == pp.post) w.posts))

abbrev pub is_queued_or_posted : CommentStatus → Bool
is_queued_or_posted pending = true
is_queued_or_posted posted = true
is_queued_or_posted _ = false

abbrev pub or_stale : PlatformPost → Option PlatformPost → PlatformPost
or_stale pp none = pp
or_stale pp (some r) = r

-- `pp.refresh_from_db()`
abbrev pub refresh : PlatformPost → World → PlatformPost
refresh pp w = or_stale pp (find (λ r. r.id == pp.id) w.rows)

abbrev is_delivered : Reply → Bool
is_delivered (delivered _ _ _ _) = true
is_delivered _ = false

-- The rows of the post that are due and still scheduled, under the lock.
unfoldable pub ready : ℕ → List PlatformPost → World → List PlatformPost
ready post due w =
    keep (λ pp. any (λ d. d.id == pp.id) due && same pp.status scheduled) (children post w.rows)

unfoldable pub mark_publishing : List PlatformPost → World → World
mark_publishing pps w = record w {
  rows =
      update_where (λ r. any (λ d. d.id == r.id) pps) (λ r. record r { status = publishing })
        w.rows;
}

-- The filter of `_process_retries`
unfoldable pub is_retry : ℕ → World → PlatformPost → Bool
is_retry now w pp =
    same pp.status scheduled
    && ltb 0 pp.retry_count
    && leb pp.retry_count max_retries
    && is_due_at pp.next_retry_at now
    && not (post_on_hold pp.post w.rows)

module _ (m : Messages) (dispatch : ℕ → PlatformPost → Reply) (supports : ℕ → Bool)
    (delay : ℕ → ℕ) where
  -- The four early returns of `_maybe_schedule_first_comment`
  unfoldable pub wants_first_comment : PlatformPost → World → Bool
  wants_first_comment pp w =
      same pp.status published
      && supports pp.account
      && truthy (first_comment_text w pp)
      && not (is_queued_or_posted pp.comment_status)

  unfoldable pub maybe_schedule_first_comment : PlatformPost → World → World
  maybe_schedule_first_comment pp w =
      if wants_first_comment pp w
      then record w {
        tasks = w.tasks ++ (record { platform_post = pp.id; delay = delay pp.post } ∷ []);
        rows = update_platform_post pp.id (λ r. record r { comment_status = pending }) w.rows;
      }
      else w

  unfoldable pub publish_each : ℕ → List PlatformPost → World → World
  publish_each now [] w = w
  publish_each now (pp ∷ pps) w = publish_each now pps (publish_platform_post m dispatch now pp w)

  unfoldable pub comment_each : List PlatformPost → World → World
  comment_each [] w = w
  comment_each (pp ∷ pps) w = comment_each pps (maybe_schedule_first_comment (refresh pp w) w)

  unfoldable pub publish_ready : ℕ → ℕ → List PlatformPost → World → World
  publish_ready now post [] w = w
  publish_ready now post (pp ∷ pps) w =
      comment_each (pp ∷ pps)
        (sync_parent_published_at post (publish_each now (pp ∷ pps) (mark_publishing (pp ∷ pps) w)))

  unfoldable pub publish_post_group : ℕ → ℕ → List PlatformPost → World → World
  publish_post_group now post due w =
      if post_on_hold post w.rows then w else publish_ready now post (ready post due w) w

  unfoldable pub publish_groups : ℕ → List PlatformPost → List ℕ → World → World
  publish_groups now due [] w = w
  publish_groups now due (post ∷ posts) w =
      publish_groups now due posts
        (publish_post_group now post (keep (λ pp. pp.post == post) due) w)

  -- `result.get("success")`
  abbrev pub succeeded : ℕ → PlatformPost → World → Bool
  succeeded now pp w = not (rate_limited now pp.account w) && is_delivered (dispatch now pp)

  -- What follows the attempt of `_process_retries`, on the object after it
  unfoldable pub after_retry : Bool → PlatformPost → World → World
  after_retry false pp w = w
  after_retry true pp w =
      maybe_schedule_first_comment (refresh pp w) (sync_parent_published_at pp.post w)

  unfoldable pub retry_one : ℕ → PlatformPost → World → World
  retry_one now pp w =
      let started = record pp { status = publishing } in
      let w1 = record w {
        rows = update_platform_post pp.id (λ r. record r { status = publishing }) w.rows;
      } in
      if post_on_hold pp.post w.rows
      then w
      else after_retry (succeeded now started w1) pp
          (publish_platform_post m dispatch now started w1)

  -- The loop of `_process_retries` over the rows of its query
  unfoldable pub retry_each : ℕ → List PlatformPost → World → World
  retry_each now [] w = w
  retry_each now (pp ∷ pps) w = retry_each now pps (retry_one now pp w)

  unfoldable pub process_retries : ℕ → World → World
  process_retries now w = retry_each now (keep (is_retry now w) w.rows) w

  -- The world after one poll. No group raises here, so its count is that of the groups.
  unfoldable pub poll_and_publish : ℕ → World → ℕ × World
  poll_and_publish now w =
      let due = get_due_platform_posts now w in
      let groups = group_keys [] due in
      (length groups, process_retries now (publish_groups now due groups w))
