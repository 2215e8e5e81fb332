-- ===== src/Notify/Told.antt =====
-- Which deliveries a notice makes, and that they are sound: `notify` of apps/notifications/engine.py.
use osir_ai.Prelude.{
  ℕ, suc, ◌≡◌, refl, sym, ap, ◌∙◌, arith, Bool, true, false, ◌&&◌, ◌||◌, not, inl, inr, List, [],
  ◌∷◌, ◌++◌, Option, none, some, if◌then◌else◌, keep, Text, Bool-cases, Option-cases, keep-keep,
  leb, ltb, All, All-append,
}
use mathlib.Core.List.{append_assoc, append-nil}
use osir_ai.Notify.{
  NotifyEvent, Channel, NotificationRow, Delivery, Outbox, Recipient, channels,
  channels_to_dispatch, is_in_quiet_hours, non_critical, resolve_channels, is_enabled_for,
  is_in_app, QuietHours, default_channels, quiet_at, in_range,
}
use osir_ai.Notify.Deliver.{Transports, dispatch}
use osir_ai.Notify.Sound.{IsSound, dispatch-IsSound}
use osir_ai.Notify.Send.{new_delivery, send_each, new_notice, notify_of, notify}

module _ (t : Transports) (local_time : Text → ℕ → ℕ) where
  -- Quiet hours that are switched on have both times, and the local time is in their range, which
  -- can go over midnight.
  abbrev pub is_quiet : ℕ → Option QuietHours → Bool
  is_quiet now none = false
  is_quiet now (some q) = q.is_enabled && elim q.start_time [
    | none ↦ false
    | some start ↦ elim q.end_time [
      | none ↦ false
      | some end ↦
          leb start (local_time q.timezone now) && leb (local_time q.timezone now) end
          || ltb end start
            && (leb start (local_time q.timezone now) || leb (local_time q.timezone now) end)
    ]
  ]

  -- Whether a user is told of an event on a channel: the preference says so, or the default where
  -- there is none, and at quiet hours only what is critical leaves the application.
  abbrev pub is_told : ℕ → Recipient → NotifyEvent → Channel → Bool
  is_told now user e c =
      elim (user.preference e c) [ some enabled ↦ enabled | none ↦ default_channels e c ]
      && (not (is_quiet now user.quiet_hours && non_critical e) || is_in_app c)

  enabled_by_preference :
      (user : Recipient) (e : NotifyEvent) (c : Channel)
      → is_enabled_for user e c
        ≡ elim (user.preference e c) [ some enabled ↦ enabled | none ↦ default_channels e c ]
  enabled_by_preference user e c = elim (Option-cases (user.preference e c)) [
    | inl f ↦ rw f refl
    | inr (b, f) ↦ rw f refl
  ]

  quiet_same : (now : ℕ) (o : Option QuietHours) → quiet_at local_time now o ≡ is_quiet now o
  unfolding in_range
  quiet_same now none = refl
  quiet_same now (some q) = elim (Option-cases q.start_time) [
    | inl e ↦ rw e (ground arith)
    | inr (start, e) ↦ elim (Option-cases q.end_time) [
      | inl f ↦ rw (e, f) (ground arith)
      | inr (end, f) ↦ rw (e, f) (ground arith)
    ]
  ]

  -- New deliveries, each after one attempt, with keys that count up.
  abbrev pub sent_from : ℕ → NotificationRow → ℕ → List Channel → List Delivery
  sent_from now notice id [] = []
  sent_from now notice id (c ∷ cs) =
      dispatch t now (new_delivery id notice c) ∷ sent_from now notice (suc id) cs

  send_each-deliveries :
      (now : ℕ) (notice : NotificationRow) (cs : List Channel) (o : Outbox)
      → (send_each t local_time now notice cs o).deliveries
        ≡ o.deliveries ++ sent_from now notice o.next_id cs
  unfolding send_each
  send_each-deliveries now notice [] o = sym (append-nil o.deliveries)
  send_each-deliveries now notice (c ∷ cs) o =
      send_each-deliveries now notice cs _
      ∙ append_assoc o.deliveries (dispatch t now (new_delivery o.next_id notice c) ∷ [])
          (sent_from now notice (suc o.next_id) cs)

  keep_same :
      (p q : Channel → Bool) (cs : List Channel)
      → ((c : Channel) → p c ≡ q c)
      → keep p cs ≡ keep q cs
  keep_same p q [] h = refl
  keep_same p q (c ∷ cs) h = elim (Bool-cases (q c)) [
    | inl e ↦ rw (h c, e, keep_same p q cs h) refl
    | inr e ↦ rw (h c, e, keep_same p q cs h) refl
  ]

  quieted :
      (quiet : Bool) (p : Channel → Bool) (cs : List Channel)
      → (if quiet then keep is_in_app (keep p cs) else keep p cs)
        ≡ keep (λ c. p c && (not quiet || is_in_app c)) cs
  quieted true p cs = keep-keep p is_in_app cs
  quieted false p cs = keep_same p (λ c. p c && (not false || is_in_app c)) cs (λ c. ground arith)

  channels_to_dispatch-is_told :
      (now : ℕ) (user : Recipient) (e : NotifyEvent)
      → channels_to_dispatch local_time now user e ≡ keep (is_told now user e) channels
  unfolding channels_to_dispatch resolve_channels is_in_quiet_hours
  channels_to_dispatch-is_told now user e =
      quieted (is_in_quiet_hours local_time now user && non_critical e) (is_enabled_for user e)
        channels
      ∙ keep_same
          (λ c.
            is_enabled_for user e c
            && (not (quiet_at local_time now user.quiet_hours && non_critical e) || is_in_app c))
          (is_told now user e) channels
          (λ c. rw (quiet_same now user.quiet_hours, enabled_by_preference user e c) refl)

  -- For an active user and a known event the new deliveries are, in the order in-app, e-mail,
  -- webhook, one for each channel on which the user is told: the preference of the user enables it,
  -- or else the default of the event, and in quiet hours an event that is not critical goes
  -- in-app only. Each has had its first attempt; nothing else of the deliveries changes.
  pub notify-sent_from :
      (now : ℕ) (user : Recipient) (e : NotifyEvent) (title body : Text) (url : Option Text)
      (o : Outbox)
      → user.is_active ≡ true
      → (notify t local_time now user (some e) title body url o).1.deliveries
        ≡ o.deliveries
          ++ sent_from now
              (new_notice t local_time o.next_id user e title body url)
              (suc o.next_id)
              (keep (is_told now user e) channels)
  unfolding notify
  notify-sent_from now user e title body url o active =
      let notice = new_notice t local_time o.next_id user e title body url in
      ap
        (λ b.
          (if b
            then notify_of t local_time now user e title body url o
            else (none, o)).1.deliveries)
        active
      ∙ send_each-deliveries now notice (channels_to_dispatch local_time now user e) _
      ∙ ap (λ cs. o.deliveries ++ sent_from now notice (suc o.next_id) cs)
          (channels_to_dispatch-is_told now user e)

  sent_from-IsSound :
      (now : ℕ) (notice : NotificationRow) (id : ℕ) (cs : List Channel)
      → All IsSound (sent_from now notice id cs)
  sent_from-IsSound now notice id [] = tt
  sent_from-IsSound now notice id (c ∷ cs) = (
    dispatch-IsSound t now (new_delivery id notice c) refl (omega arith),
    sent_from-IsSound now notice (suc id) cs,
  )

  send_each-IsSound :
      (now : ℕ) (notice : NotificationRow) (cs : List Channel) (o : Outbox)
      → All IsSound o.deliveries
      → All IsSound (send_each t local_time now notice cs o).deliveries
  send_each-IsSound now notice cs o h = rw (send_each-deliveries now notice cs o) (
      All-append IsSound o.deliveries (sent_from now notice o.next_id cs) h
        (sent_from-IsSound now notice o.next_id cs))

  either-IsSound :
      (b : Bool) (x y : Option NotificationRow × Outbox)
      → All IsSound x.1.deliveries
      → All IsSound y.1.deliveries
      → All IsSound (if b then x else y).1.deliveries
  either-IsSound true x y h k = h
  either-IsSound false x y h k = k

  -- A call of `notify` keeps the deliveries sound, whoever the user and whatever the event.
  pub notify-IsSound :
      (now : ℕ) (user : Recipient) (event : Option NotifyEvent) (title body : Text)
      (url : Option Text) (o : Outbox)
      → All IsSound o.deliveries
      → All IsSound (notify t local_time now user event title body url o).1.deliveries
  unfolding notify
  notify-IsSound now user none title body url o h =
      either-IsSound user.is_active (none, o) (none, o) h h
  notify-IsSound now user (some e) title body url o h =
      either-IsSound user.is_active (notify_of t local_time now user e title body url o) (none, o)
        (send_each-IsSound now (new_notice t local_time o.next_id user e title body url)
          (channels_to_dispatch local_time now user e) _ h)
        h
