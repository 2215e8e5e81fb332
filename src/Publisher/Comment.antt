-- ===== src/Publisher/Comment.antt =====
-- The first comment of a published post: `_post_first_comment_task` of apps/publisher/engine.py and
-- what it calls.
use osir_ai.Prelude.{
  ℕ, zero, suc, ◌+◌, Bool, true, false, ◌&&◌, ◌||◌, not, [], ◌∷◌, ◌++◌, Option, none, some, ◌==◌,
  leb, if◌then◌else◌, find, take, Text, truthy,
}
use osir_ai.Records.{
  PlatformPost, CommentStatus, pending, posted, comment_failed, update_platform_post,
}
use osir_ai.Publisher.{first_comment_text}
use osir_ai.Publisher.Tables.{World}

-- An exception, with the attributes that the task reads (`retryable` is True where it is missing)
-- and the sentence that `friendly_first_comment_error` has for it.
pub record Failure : Type 0 where
  pub retryable : Bool
  pub is_rate_limit : Bool
  pub status_code : Option ℕ
  pub retry_after : Option ℕ
  pub friendly : Text

-- What `find_own_comment` comes back with; no comment found is the empty text.
pub data Lookup : Type 0 where
  no_lookup : Lookup
  answered : Text → Lookup
  broken : Failure → Lookup

-- What `publish_comment` comes back with: `NotImplementedError`, the id of the comment, or another
-- exception.
pub data Answer : Type 0 where
  no_comments : Answer
  commented : Text → Answer
  refused : Failure → Answer

-- What the provider would do in one run: the failure of `_provider_and_access_token`, if it fails,
-- and the two calls.
pub record Exchange : Type 0 where
  pub unreachable : Option Failure
  pub lookup : Lookup
  pub answer : Answer

-- `FIRST_COMMENT_MAX_RETRIES`
abbrev pub max_comment_retries : ℕ
max_comment_retries = 3

-- `FIRST_COMMENT_RETRY_BACKOFF[min(count, len(...) - 1)]`
abbrev pub comment_backoff : ℕ → ℕ
comment_backoff zero = 120
comment_backoff (suc zero) = 600
comment_backoff (suc (suc n)) = 1800

-- `retry_after or backoff`
abbrev pub or_backoff : Option ℕ → ℕ → ℕ
or_backoff none backoff = backoff
or_backoff (some zero) backoff = backoff
or_backoff (some (suc n)) backoff = suc n

-- `status is None or status >= 500`
abbrev is_unknown_or_5xx : Option ℕ → Bool
is_unknown_or_5xx none = true
is_unknown_or_5xx (some status) = leb 500 status

abbrev is_401 : Option ℕ → Bool
is_401 none = false
is_401 (some status) = status == 401

-- `_is_ambiguous_submission_failure`
unfoldable pub is_ambiguous : Failure → Bool
is_ambiguous f = if f.is_rate_limit then false else is_unknown_or_5xx f.status_code

-- `_is_retryable_first_comment_failure`
unfoldable pub is_retryable : Failure → Bool
is_retryable f =
    if not f.retryable
    then false
    else if f.is_rate_limit
    then true
    else if is_unknown_or_5xx f.status_code
    then true
    else is_401 f.status_code

-- How a run ends: the early returns, a failure to record, and a comment that is on the platform.
pub data Ending : Type 0 where
  skipped : Ending
  failure : Bool → Text → Option ℕ → Ending
  on_platform : Text → Ending

-- The sentences of the engine.
pub record CommentMessages : Type 0 where
  pub generic : Text
  pub no_id : Text

-- The lookup before a retry; `none` where the task goes on.
abbrev pub after_lookup : Lookup → Option Ending
after_lookup no_lookup = none
after_lookup (answered id) = if truthy id then some (on_platform id) else none
after_lookup (broken f) = some (failure true f.friendly none)

abbrev pub after_connection : Option Failure → PlatformPost → Lookup → Option Ending
after_connection (some f) pp found = some (failure f.retryable f.friendly none)
after_connection none pp found = if not (pp.comment_retries == 0) then after_lookup found else none

abbrev pub is_posted : CommentStatus → Bool
is_posted posted = true
is_posted _ = false

-- The task up to the call of `publish_comment`.
unfoldable pub before_publish : CommentMessages → Text → PlatformPost → Exchange → Option Ending
before_publish m comment pp x =
    if is_posted pp.comment_status
    then some skipped
    else if not (truthy comment)
    then some skipped
    else if not (truthy pp.platform_post_id)
    then some (failure false m.no_id none)
    else after_connection x.unreachable pp x.lookup

-- The task from that call on; `reconciles` is `_can_reconcile_comments(provider)`.
unfoldable pub after_publish : Bool → Answer → Ending
after_publish reconciles no_comments = skipped
after_publish reconciles (commented id) = on_platform id
after_publish reconciles (refused f) =
    failure (is_retryable f && not (is_ambiguous f && not reconciles)) f.friendly f.retry_after

abbrev pub shown_comment : CommentMessages → Text → Text
shown_comment m message = take 2000 (if truthy message then message else m.generic)

-- `_mark_first_comment_posted`
unfoldable pub mark_first_comment_posted : ℕ → Text → PlatformPost → World → World
mark_first_comment_posted now id pp w = record w {
  rows =
      update_platform_post pp.id
        (λ r. record r {
          comment_status = posted;
          comment_id = take 255 id;
          comment_error = [];
          comment_posted_at = some now;
        })
        w.rows;
}

-- `_record_first_comment_failure`
unfoldable pub record_first_comment_failure :
    CommentMessages → Bool → Text → Option ℕ → PlatformPost → World → World
record_first_comment_failure m retryable message retry_after pp w =
    if not retryable || leb max_comment_retries pp.comment_retries
    then record w {
      rows =
          update_platform_post pp.id
            (λ r. record r {
              comment_status = comment_failed;
              comment_error = shown_comment m message;
            })
            w.rows;
    }
    else record w {
      rows =
          update_platform_post pp.id
            (λ r. record r {
              comment_status = pending;
              comment_error = shown_comment m message;
              comment_retries = r.comment_retries + 1;
            })
            w.rows;
      tasks =
          w.tasks
          ++ (record {
            platform_post = pp.id;
            delay = or_backoff retry_after (comment_backoff pp.comment_retries);
          }
              ∷ []);
    }

abbrev pub finish_comment : CommentMessages → ℕ → Ending → PlatformPost → World → World
finish_comment m now skipped pp w = w
finish_comment m now (failure retryable message retry_after) pp w =
    record_first_comment_failure m retryable message retry_after pp w
finish_comment m now (on_platform id) pp w = mark_first_comment_posted now id pp w

abbrev pub ending : Option Ending → Bool → Answer → Ending
ending none reconciles answer = after_publish reconciles answer
ending (some early) reconciles answer = early

-- `_post_first_comment_task`
unfoldable pub post_first_comment_task : CommentMessages → ℕ → Bool → ℕ → Exchange → World → World
unfolding after_publish
post_first_comment_task m now reconciles id x w = elim (find (λ r. r.id == id) w.rows) [
  | none ↦ w
  | some pp ↦
      finish_comment m now
        (ending (before_publish m (first_comment_text w pp) pp x) reconciles x.answer) pp w
]
