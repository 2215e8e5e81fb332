-- ===== src/Notify/Deliver.antt =====
-- One attempt at a delivery and the sweep that retries: `_dispatch`, `_dispatch_webhook` and
-- `retry_failed_deliveries` of apps/notifications/engine.py.
use osir_ai.Prelude.{
  ℕ, suc, ◌+◌, ◌-◌, min, Bool, true, false, ◌&&◌, List, [], ◌∷◌, Option, none, some, ◌==◌, leb, ltb,
  if◌then◌else◌, keep, take, update_where, length, get_elem?, Text, truthy,
}
use osir_ai.Notify.{
  Channel, in_app, email, webhook, other_channel, DeliveryStatus, pending, delivered, failed,
  Delivery,
}

-- `MAX_RETRY_ATTEMPTS`, `RETRY_BACKOFF_MINUTES` in seconds, `RETRY_BATCH_LIMIT`
abbrev pub max_retry_attempts : ℕ
max_retry_attempts = 3

abbrev pub retry_backoffs : List ℕ
retry_backoffs = 60 ∷ 300 ∷ 1800 ∷ []

abbrev pub retry_batch_limit : ℕ
retry_batch_limit = 200

-- What a channel does: it returns, or raises with a text.
pub data SendResult : Type 0 where
  returned : SendResult
  raised : Text → SendResult

-- What `httpx.post` gives: the status of a response, or an exception.
pub data Posted : Type 0 where
  response : ℕ → Posted
  unreachable : Text → Posted

-- The texts of the exceptions that the webhook raises.
pub record WebhookErrors : Type 0 where
  pub rejected : Text
  pub redirect : ℕ → Text
  pub http : ℕ → Text

-- The mail backend, the check of an address and the HTTP client are parameters.
pub record Transports : Type 0 where
  pub send_mail : ℕ → Delivery → SendResult
  pub is_safe_url : Text → Bool
  pub post : ℕ → Text → Delivery → Posted
  pub errors : WebhookErrors

abbrev pub reply_of : WebhookErrors → Posted → SendResult
reply_of m (unreachable error) = raised error
reply_of m (response status) =
    if leb 300 status && ltb status 400
    then raised (m.redirect status)
    else if leb 400 status
    then raised (m.http status)
    else returned

abbrev pub post_to : Transports → ℕ → Delivery → Text → SendResult
post_to t now d url =
    if truthy url
    then if t.is_safe_url url
      then reply_of t.errors (t.post now url d)
      else raised t.errors.rejected
    else returned

abbrev pub webhook_of : Transports → ℕ → Delivery → Option Text → SendResult
webhook_of t now d none = returned
webhook_of t now d (some url) = post_to t now d url

unfoldable pub dispatch_webhook : Transports → ℕ → Delivery → SendResult
dispatch_webhook t now d = webhook_of t now d d.notice.webhook_url

-- What the channel of a delivery does; another channel is passed over.
abbrev pub through : Transports → ℕ → Delivery → Channel → Option SendResult
through t now d in_app = some returned
through t now d email = some (t.send_mail now d)
through t now d webhook = some (dispatch_webhook t now d)
through t now d (other_channel name) = none

-- `RETRY_BACKOFF_MINUTES[min(attempts - 1, len - 1)]`
abbrev pub or_zero : Option ℕ → ℕ
or_zero none = 0
or_zero (some n) = n

unfoldable pub backoff : ℕ → ℕ
backoff attempts =
    or_zero (get_elem? retry_backoffs (min (attempts - 1) (length retry_backoffs - 1)))

abbrev pub tried : Delivery → Delivery
tried d = record d { attempts = d.attempts + 1 }

unfoldable pub after_error : ℕ → Text → Delivery → Delivery
after_error now error d =
    if leb max_retry_attempts d.attempts
    then record d { error_message = take 500 error; status = failed }
    else record d {
      error_message = take 500 error;
      status = pending;
      next_retry_at = some (now + backoff d.attempts);
    }

abbrev pub after_sent : ℕ → Delivery → Option SendResult → Delivery
after_sent now d none = d
after_sent now d (some returned) = record d { status = delivered; delivered_at = some now }
after_sent now d (some (raised error)) = after_error now error d

-- `_dispatch`: the row as the call leaves it
unfoldable pub dispatch : Transports → ℕ → Delivery → Delivery
dispatch t now d = after_sent now (tried d) (through t now (tried d) d.channel)

-- The rows of the sweep: those that are due, the earliest first, a batch of them.
abbrev pub still_pending : DeliveryStatus → Bool
still_pending pending = true
still_pending s = false

abbrev pub due_by : ℕ → Option ℕ → Bool
due_by now none = false
due_by now (some t) = leb t now

unfoldable pub is_due_again : ℕ → Delivery → Bool
is_due_again now d =
    still_pending d.status && (due_by now d.next_retry_at && ltb d.attempts max_retry_attempts)

abbrev pub insert_by_retry : Delivery → List Delivery → List Delivery
insert_by_retry d [] = d ∷ []
insert_by_retry d (e ∷ es) =
    let rest = insert_by_retry d es in
    if leb (or_zero d.next_retry_at) (or_zero e.next_retry_at) then d ∷ e ∷ es else e ∷ rest

abbrev pub sort_by_retry : List Delivery → List Delivery
sort_by_retry [] = []
sort_by_retry (d ∷ ds) = insert_by_retry d (sort_by_retry ds)

unfoldable pub retry_batch : ℕ → List Delivery → List Delivery
retry_batch now rows = take retry_batch_limit (sort_by_retry (keep (is_due_again now) rows))

-- `save(update_fields=...)` writes the row with the key.
abbrev pub save_delivery : Delivery → List Delivery → List Delivery
save_delivery d rows = update_where (λ r. r.id == d.id) (λ r. d) rows

abbrev pub dispatch_each : Transports → ℕ → List Delivery → List Delivery → ℕ × List Delivery
dispatch_each t now [] rows = (0, rows)
dispatch_each t now (d ∷ ds) rows =
    let rest = dispatch_each t now ds (save_delivery (dispatch t now d) rows) in
    (suc rest.0, rest.1)

-- `retry_failed_deliveries`: the count, and the rows
unfoldable pub retry_failed_deliveries : Transports → ℕ → List Delivery → ℕ × List Delivery
retry_failed_deliveries t now rows = dispatch_each t now (retry_batch now rows) rows
