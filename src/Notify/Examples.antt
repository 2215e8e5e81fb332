-- ===== src/Notify/Examples.antt =====
-- Notices to one user with quiet hours at night, and instances of the theorems.
use osir_ai.Prelude.{
  ℕ, ◌≡◌, ◌≤◌, refl, true, false, [], ◌∷◌, ◌++◌, none, some, keep, All, Text, text, arith,
}
use osir_ai.Notify.{
  post_failed, post_published, in_app, email, NotificationRow, Delivery, Outbox, Recipient,
  channels, channels_to_dispatch, resolve_channels, is_in_quiet_hours, in_range, non_critical,
  default_channels,
}
use osir_ai.Notify.Deliver.{
  Transports, raised, response, dispatch, retry_failed_deliveries, retry_batch_limit, after_error,
  still_pending,
}
use osir_ai.Notify.Send.{new_delivery, new_notice, notify}
use osir_ai.Notify.Sound.{IsSound, retry_failed_deliveries-IsSound}
use osir_ai.Notify.Told.{is_told, sent_from, notify-sent_from}
use osir_ai.Notify.Ends.{Waits, dispatch-Waits, delivery_attempts, delivery_attempts-finished}

-- Mail always fails, and webhooks answer 503.
abbrev down : Transports
down = record {
  send_mail = λ now d. raised (text "no mail");
  is_safe_url = λ url. true;
  post = λ now url d. response 503;
  errors = record { rejected = []; redirect = λ s. []; http = λ s. text "HTTP" };
}

abbrev same_time : Text → ℕ → ℕ
same_time zone now = now

-- Quiet from 22:00 to 07:00.
abbrev user : Recipient
user = record {
  id = 3;
  is_active = true;
  preference = λ e c. none;
  quiet_hours = some (record {
    is_enabled = true;
    start_time = some 79200;
    end_time = some 25200;
    timezone = text "UTC";
  });
}

abbrev outbox : Outbox
outbox = record { notices = []; deliveries = []; next_id = 1 }

abbrev notice : NotificationRow
notice = new_notice down same_time 1 user post_failed (text "Failed") [] none

notify-sent_from_example :
    (notify down same_time 100 user (some post_failed) (text "Failed") [] none outbox).1.deliveries
    ≡ []
      ++ sent_from down same_time 100 notice 2
          (keep (is_told down same_time 100 user post_failed) channels)
notify-sent_from_example =
    notify-sent_from down same_time 100 user post_failed (text "Failed") [] none outbox refl

-- A test: at night a failure goes out on both channels, a publication in-app only.
night_test : channels_to_dispatch same_time 100 user post_failed ≡ (in_app ∷ email ∷ [])
unfolding channels_to_dispatch resolve_channels is_in_quiet_hours in_range non_critical
    default_channels
night_test = refl

quiet_test : channels_to_dispatch same_time 100 user post_published ≡ (in_app ∷ [])
unfolding channels_to_dispatch resolve_channels is_in_quiet_hours in_range non_critical
    default_channels
quiet_test = refl

abbrev mailed : Delivery
mailed = record (new_delivery 3 notice email) { attempts = 1; next_retry_at = some 160 }

mailed-IsSound : IsSound mailed
mailed-IsSound = record {
  few = omega arith;
  exhausted = λ h. absurd (cc);
  left = λ k h. omega arith;
  planned = λ k h n. refl;
  dated = λ h. absurd (cc);
}

retry_failed_deliveries-IsSound_example :
    All IsSound (retry_failed_deliveries down 200 (mailed ∷ [])).1
    × ((retry_failed_deliveries down 200 (mailed ∷ [])).0 ≤ retry_batch_limit)
retry_failed_deliveries-IsSound_example =
    retry_failed_deliveries-IsSound down 200 (mailed ∷ []) (mailed-IsSound, tt)

dispatch-Waits_example : Waits 200 mailed (dispatch down 200 mailed)
unfolding dispatch after_error
dispatch-Waits_example = dispatch-Waits down 200 mailed refl refl

delivery_attempts-finished_example :
    still_pending (delivery_attempts down (200 ∷ 600 ∷ []) mailed).status ≡ false
delivery_attempts-finished_example =
    delivery_attempts-finished down (200 ∷ 600 ∷ []) mailed mailed-IsSound refl (omega arith)
