-- ===== src/Publisher/Attempt.antt =====
-- One attempt to publish a platform post: `_publish_platform_post` and what it calls.
use osir_ai.Prelude.{
  ℕ, zero, suc, ◌+◌, Bool, true, false, ◌&&◌, not, List, [], ◌∷◌, ◌++◌, Option, none, some, ◌==◌,
  leb, if◌then◌else◌, any, keep, take, Text, truthy, text_eq,
}
use osir_ai.Workflow.{scheduled, published, failed}
use osir_ai.Records.{PlatformPost, Json}
use osir_ai.Publisher.Tables.{World, is_rate_limited, save}

-- What `_dispatch_to_provider` comes back with: a result that says success, with the response's
-- extra fields and rate limit; one that says failure; or an exception, with its `retryable`, its
-- text, and the sentence that `friendly_publish_error` has for it.
pub data Reply : Type 0 where
  delivered : Text → List (Text × Json) → Option ℕ → Option ℕ → Reply
  declined : Text → Option ℕ → Reply
  raised : Bool → Text → Text → Reply

abbrev pub max_retries : ℕ
max_retries = 3

-- `RETRY_BACKOFF[min(retry_count, len(RETRY_BACKOFF) - 1)]`
unfoldable pub retry_backoff : ℕ → ℕ
retry_backoff zero = 60
retry_backoff (suc zero) = 300
retry_backoff (suc (suc n)) = 1800

-- The sentences of apps/social_accounts/error_messages.py that the engine stores itself.
pub record Messages : Type 0 where
  pub generic : Text
  pub rate_limit : Text
  pub exhausted : Text

-- `(user_message or PUBLISH_GENERIC_MESSAGE)[:2000]`
abbrev pub shown : Messages → Text → Text
shown m message = take 2000 (if truthy message then message else m.generic)

-- `_fail_permanently`, on the object
unfoldable pub fail_permanently : Messages → Text → PlatformPost → PlatformPost
fail_permanently m message pp = record pp { status = failed; publish_error = shown m message }

-- `_schedule_retry`, on the object
unfoldable pub schedule_retry : Messages → ℕ → Text → PlatformPost → PlatformPost
unfolding fail_permanently retry_backoff
schedule_retry m now message pp =
    if leb max_retries pp.retry_count then fail_permanently m m.exhausted pp else record pp {
      retry_count = pp.retry_count + 1;
      next_retry_at = some (now + retry_backoff pp.retry_count);
      status = scheduled;
      publish_error = shown m message;
    }

-- `d[key] = value`
abbrev set_key : Text → Json → List (Text × Json) → List (Text × Json)
set_key k v [] = (k, v) ∷ []
set_key k v ((j, u) ∷ d) =
    let rest = set_key k v d in if text_eq k j then (k, v) ∷ d else (j, u) ∷ rest

-- `{**old, **new}`
abbrev pub merge : List (Text × Json) → List (Text × Json) → List (Text × Json)
merge old [] = old
merge old ((k, v) ∷ new) = merge (set_key k v old) new

abbrev pub log_attempt : PlatformPost → Option ℕ → Text → World → World
log_attempt pp code message w = record w {
  logs =
      w.logs
      ++ (record {
        platform_post = pp.id;
        attempt_number = pp.retry_count + 1;
        status_code = code;
        error_message = message;
      }
          ∷ []);
}

-- The queue entries that held the channel's slot for the post are dropped.
abbrev pub leave_queue : PlatformPost → World → World
leave_queue pp w = record w {
  entries =
      keep
        (λ e.
          not (e.post == pp.post && any (λ q. q.id == e.queue && q.account == pp.account) w.queues))
        w.entries;
}

-- `_update_rate_limit`
abbrev pub update_rate_limit : ℕ → Option ℕ → Option ℕ → World → World
update_rate_limit account none resets w = w
update_rate_limit account (some left) resets w = record w {
  rates =
      record { account = account; requests_remaining = some left; window_resets_at = resets }
      ∷ keep (λ r. not (r.account == account)) w.rates;
}

-- The object after a publish that succeeded.
unfoldable pub delivered_row : ℕ → Text → List (Text × Json) → PlatformPost → PlatformPost
delivered_row now id extra pp = record pp {
  platform_post_id = id;
  extra = merge pp.extra extra;
  status = published;
  published_at = some now;
}

-- The object after an attempt that reached the provider.
unfoldable pub row_after_reply : Messages → ℕ → Reply → PlatformPost → PlatformPost
unfolding delivered_row schedule_retry fail_permanently
row_after_reply m now (delivered id extra left resets) pp = delivered_row now id extra pp
row_after_reply m now (declined error code) pp = schedule_retry m now m.generic pp
row_after_reply m now (raised true error friendly) pp = schedule_retry m now friendly pp
row_after_reply m now (raised false error friendly) pp = fail_permanently m friendly pp

-- What is written beside the row.
abbrev pub beside_reply : PlatformPost → Reply → World → World
beside_reply pp (delivered id extra left resets) w =
    update_rate_limit pp.account left resets (log_attempt pp (some 200) [] (leave_queue pp w))
beside_reply pp (declined error code) w = log_attempt pp code error w
beside_reply pp (raised retryable error friendly) w = log_attempt pp none error w

-- `rate_state and rate_state.is_rate_limited`
abbrev pub rate_limited : ℕ → ℕ → World → Bool
rate_limited now account w = any (λ r. r.account == account && is_rate_limited now r) w.rates

-- The object after `_publish_platform_post`.
unfoldable pub row_after_attempt : Messages → ℕ → Bool → Reply → PlatformPost → PlatformPost
unfolding row_after_reply schedule_retry
row_after_attempt m now limited reply pp =
    if limited then schedule_retry m now m.rate_limit pp else row_after_reply m now reply pp

module _ (m : Messages) (dispatch : ℕ → PlatformPost → Reply) where
  unfoldable pub publish_platform_post : ℕ → PlatformPost → World → World
  unfolding row_after_attempt save
  publish_platform_post now pp w =
      let limited = rate_limited now pp.account w in
      let reply = dispatch now pp in
      let after = save (row_after_attempt m now limited reply pp) w in
      if limited then after else beside_reply pp reply after
