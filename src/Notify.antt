-- ===== src/Notify.antt =====
-- Notifications and their deliveries: apps/notifications/models.py, and who is told what:
-- `notify`, `_resolve_channels` and `_is_in_quiet_hours` of apps/notifications/engine.py.
pub mod Deliver
pub mod Send
pub mod Sound
pub mod Told
pub mod Ends
mod Examples
use osir_ai.Prelude.{
  ℕ, suc, ◌+◌, Bool, true, false, ◌&&◌, ◌||◌, not, List, [], ◌∷◌, ◌++◌, Option, none, some, ◌==◌,
  leb, if◌then◌else◌, keep, Text,
}

-- `EventType`
pub data NotifyEvent : Type 0 where
  post_submitted post_approved post_changes_requested post_rejected : NotifyEvent
  post_published post_failed new_inbox_message inbox_sla_overdue : NotifyEvent
  client_approval_requested team_member_invited social_account_disconnected : NotifyEvent
  report_generated engagement_alert comment_mention approval_reminder : NotifyEvent
  approval_stalled approval_hold_requested client_connected_accounts : NotifyEvent
  agent_decision_needed agent_digest : NotifyEvent

-- `Channel`; a row can hold another text.
pub data Channel : Type 0 where
  in_app email webhook : Channel
  other_channel : Text → Channel

-- `DeliveryStatus`
pub data DeliveryStatus : Type 0 where
  pending delivered failed : DeliveryStatus

-- `Notification`; of its data, the address of a webhook.
pub record NotificationRow : Type 0 where
  pub id : ℕ
  pub user : ℕ
  pub event : NotifyEvent
  pub title : Text
  pub body : Text
  pub webhook_url : Option Text

-- `NotificationDelivery`
pub record Delivery : Type 0 where
  pub id : ℕ
  pub notice : NotificationRow
  pub channel : Channel
  pub status : DeliveryStatus
  pub error_message : Text
  pub delivered_at : Option ℕ
  pub attempts : ℕ
  pub next_retry_at : Option ℕ

-- The tables.
pub record Outbox : Type 0 where
  pub notices : List NotificationRow
  pub deliveries : List Delivery
  pub next_id : ℕ

-- `DEFAULT_CHANNELS`, with false for what has no entry
abbrev pub both : Channel → Bool
both in_app = true
both email = true
both c = false

abbrev pub only_in_app : Channel → Bool
only_in_app in_app = true
only_in_app c = false

abbrev pub only_email : Channel → Bool
only_email email = true
only_email c = false

unfoldable pub default_channels : NotifyEvent → Channel → Bool
default_channels post_approved c = only_in_app c
default_channels post_published c = only_in_app c
default_channels new_inbox_message c = only_in_app c
default_channels client_approval_requested c = only_email c
default_channels team_member_invited c = only_email c
default_channels agent_decision_needed c = false
default_channels agent_digest c = false
default_channels e c = both c

-- `NON_CRITICAL_EVENTS`
unfoldable pub non_critical : NotifyEvent → Bool
non_critical post_published = true
non_critical report_generated = true
non_critical engagement_alert = true
non_critical agent_digest = true
non_critical e = false

-- `QuietHours`; times are seconds of the day.
pub record QuietHours : Type 0 where
  pub is_enabled : Bool
  pub start_time : Option ℕ
  pub end_time : Option ℕ
  pub timezone : Text

-- A user with what the engine reads beside it: the preferences by event and channel.
pub record Recipient : Type 0 where
  pub id : ℕ
  pub is_active : Bool
  pub preference : NotifyEvent → Channel → Option Bool
  pub quiet_hours : Option QuietHours

-- A time in the range, which can go over midnight.
unfoldable pub in_range : ℕ → ℕ → ℕ → Bool
in_range start end now =
    if leb start end then leb start now && leb now end else leb start now || leb now end

-- The local time of an instant in a zone that is named, or in UTC, is a parameter.
abbrev pub in_hours : ℕ → Option ℕ → Option ℕ → Bool
in_hours now none end = false
in_hours now (some start) none = false
in_hours now (some start) (some end) = in_range start end now

abbrev pub quiet_at : (Text → ℕ → ℕ) → ℕ → Option QuietHours → Bool
quiet_at local_time now none = false
quiet_at local_time now (some q) =
    if q.is_enabled then in_hours (local_time q.timezone now) q.start_time q.end_time else false

unfoldable pub is_in_quiet_hours : (Text → ℕ → ℕ) → ℕ → Recipient → Bool
is_in_quiet_hours local_time now user = quiet_at local_time now user.quiet_hours

-- `_resolve_channels`
abbrev pub preferred : Option Bool → Bool → Bool
preferred none by_default = by_default
preferred (some enabled) by_default = enabled

abbrev pub is_enabled_for : Recipient → NotifyEvent → Channel → Bool
is_enabled_for user e c = preferred (user.preference e c) (default_channels e c)

abbrev pub channels : List Channel
channels = in_app ∷ email ∷ webhook ∷ []

unfoldable pub resolve_channels : Recipient → NotifyEvent → List Channel
resolve_channels user e = keep (is_enabled_for user e) channels

abbrev pub is_in_app : Channel → Bool
is_in_app in_app = true
is_in_app c = false

unfoldable pub channels_to_dispatch : (Text → ℕ → ℕ) → ℕ → Recipient → NotifyEvent → List Channel
channels_to_dispatch local_time now user e =
    if is_in_quiet_hours local_time now user && non_critical e
    then keep is_in_app (resolve_channels user e)
    else resolve_channels user e
