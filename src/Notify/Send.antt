-- ===== src/Notify/Send.antt =====
-- The entry point: `notify` of apps/notifications/engine.py.
use osir_ai.Prelude.{ℕ, suc, List, [], ◌∷◌, ◌++◌, Option, none, some, if◌then◌else◌, Text}
use osir_ai.Notify.{
  NotifyEvent, Channel, pending, NotificationRow, Delivery, Outbox, Recipient, channels_to_dispatch,
}
use osir_ai.Notify.Deliver.{Transports, dispatch}

-- A delivery as it is created.
abbrev pub new_delivery : ℕ → NotificationRow → Channel → Delivery
new_delivery id notice c = record {
  id = id;
  notice = notice;
  channel = c;
  status = pending;
  error_message = [];
  delivered_at = none;
  attempts = 0;
  next_retry_at = none;
}

module _ (t : Transports) (local_time : Text → ℕ → ℕ) where
  -- The loop over the channels: a delivery is created and dispatched, which saves it.
  unfoldable pub send_each : ℕ → NotificationRow → List Channel → Outbox → Outbox
  send_each now notice [] o = o
  send_each now notice (c ∷ cs) o = send_each now notice cs (record o {
    deliveries = o.deliveries ++ (dispatch t now (new_delivery o.next_id notice c) ∷ []);
    next_id = suc o.next_id;
  })

  abbrev pub new_notice : ℕ → Recipient → NotifyEvent → Text → Text → Option Text → NotificationRow
  new_notice id user e title body url = record {
    id = id;
    user = user.id;
    event = e;
    title = title;
    body = body;
    webhook_url = url;
  }

  abbrev pub notify_of :
      ℕ
      → Recipient
      → NotifyEvent
      → Text
      → Text
      → Option Text
      → Outbox
      → Option NotificationRow × Outbox
  notify_of now user e title body url o =
      let notice = new_notice o.next_id user e title body url in
      (
        some notice,
        send_each now notice (channels_to_dispatch local_time now user e)
            (record o { notices = o.notices ++ (notice ∷ []); next_id = suc o.next_id }),
      )

  -- An event that is no `EventType` is `none`.
  abbrev pub notify_event :
      ℕ
      → Recipient
      → Option NotifyEvent
      → Text
      → Text
      → Option Text
      → Outbox
      → Option NotificationRow × Outbox
  notify_event now user none title body url o = (none, o)
  notify_event now user (some e) title body url o = notify_of now user e title body url o

  unfoldable pub notify :
      ℕ
      → Recipient
      → Option NotifyEvent
      → Text
      → Text
      → Option Text
      → Outbox
      → Option NotificationRow × Outbox
  notify now user event title body url o =
      if user.is_active then notify_event now user event title body url o else (none, o)
