-- ===== src/Notify/Ends.antt =====
-- How long a delivery waits, and in how many attempts it ends: `_dispatch` of
-- apps/notifications/engine.py.
use osir_ai.Prelude.{
  ℕ, ◌+◌, ◌≤◌, ◌≡◌, ◌⊎◌, refl, sym, ap, ◌∙◌, arith, true, false, inl, inr, List, [], ◌∷◌, Option,
  none, some, leb, if◌then◌else◌, length, Text, Bool-cases,
}
use osir_ai.Notify.{Channel, in_app, email, webhook, other_channel, Delivery}
use osir_ai.Notify.Deliver.{
  Transports, SendResult, returned, raised, dispatch, tried, through, after_sent, after_error,
  backoff, dispatch_webhook, still_pending, max_retry_attempts,
}
use osir_ai.Notify.Sound.{is_known, IsSound, dispatch-IsSound}

-- The two waits of a delivery, by the attempts before this one.
abbrev pub Waits : ℕ → Delivery → Delivery → Type 0
Waits now d new =
    ((d.attempts ≡ 0) × (new.next_retry_at ≡ some (now + 60)))
    ⊎ ((d.attempts ≡ 1) × (new.next_retry_at ≡ some (now + 300)))

after_error-Waits :
    (now : ℕ) (error : Text) (d : Delivery)
    → still_pending (after_error now error (tried d)).status ≡ true
    → Waits now d (after_error now error (tried d))
unfolding after_error backoff
after_error-Waits now error d h = elim (Bool-cases (leb max_retry_attempts (d.attempts + 1))) [
  | inl e ↦ let bad : false ≡ true = sym (rw e refl) ∙ h in absurd (cc)
  | inr e ↦ elim (Bool-cases (leb 1 d.attempts)) [
    | inl f ↦ let one : d.attempts ≡ 1 = ground arith in rw (e, one) (inr (refl, refl))
    | inr f ↦ let none_yet : d.attempts ≡ 0 = ground arith in rw (e, none_yet) (inl (refl, refl))
  ]
]

after_sent-Waits :
    (now : ℕ) (d : Delivery) (s : SendResult)
    → still_pending (after_sent now (tried d) (some s)).status ≡ true
    → Waits now d (after_sent now (tried d) (some s))
after_sent-Waits now d returned h = absurd (cc)
after_sent-Waits now d (raised error) h = after_error-Waits now error d h

through-known :
    (t : Transports) (now : ℕ) (d : Delivery) (c : Channel)
    → is_known c ≡ true
    → (s : SendResult) × (through t now d c ≡ some s)
through-known t now d in_app h = (returned, refl)
through-known t now d email h = (t.send_mail now d, refl)
through-known t now d webhook h = (dispatch_webhook t now d, refl)
through-known t now d (other_channel name) h = absurd (cc)

-- A delivery on a known channel that still waits after an attempt had one or no attempt before it,
-- and is tried again after one minute, or after five.
pub dispatch-Waits :
    (t : Transports) (now : ℕ) (d : Delivery)
    → is_known d.channel ≡ true
    → still_pending (dispatch t now d).status ≡ true
    → Waits now d (dispatch t now d)
unfolding dispatch
dispatch-Waits t now d known h =
    let (s, e) = through-known t now (tried d) d.channel known in
    rw e (after_sent-Waits now d s (sym (rw e refl) ∙ h))

-- The attempts at one delivery, at the given times, for as long as it waits.
unfoldable pub delivery_attempts : Transports → List ℕ → Delivery → Delivery
delivery_attempts t [] d = d
delivery_attempts t (now ∷ ts) d =
    let rest = delivery_attempts t ts (dispatch t now d) in
    if still_pending d.status then rest else d

-- An attempt is counted, and the delivery stays on its channel.
abbrev IsTried : Delivery → Delivery → Type 0
IsTried d new = (new.attempts ≡ d.attempts + 1) × (new.channel ≡ d.channel)

after_sent-IsTried :
    (now : ℕ) (d : Delivery) (o : Option SendResult) → IsTried d (after_sent now (tried d) o)
unfolding after_error
after_sent-IsTried now d none = (refl, refl)
after_sent-IsTried now d (some returned) = (refl, refl)
after_sent-IsTried now d (some (raised error)) =
    elim (Bool-cases (leb max_retry_attempts (d.attempts + 1))) [
      | inl e ↦ rw e (refl, refl)
      | inr e ↦ rw e (refl, refl)
    ]

dispatch-IsTried : (t : Transports) (now : ℕ) (d : Delivery) → IsTried d (dispatch t now d)
unfolding dispatch
dispatch-IsTried t now d = after_sent-IsTried now d (through t now (tried d) d.channel)

-- A sound delivery on a known channel no longer waits once its attempts and those that follow are
-- three together, whatever mail and webhooks answer: it is delivered or has failed.
pub delivery_attempts-finished :
    (t : Transports) (ts : List ℕ) (d : Delivery)
    → IsSound d
    → is_known d.channel ≡ true
    → 3 ≤ d.attempts + length ts
    → still_pending (delivery_attempts t ts d).status ≡ false
unfolding delivery_attempts
delivery_attempts-finished t [] d sound known enough = elim (Bool-cases (still_pending d.status)) [
  | inl e ↦ let few = sound.left known e in absurd (omega arith)
  | inr e ↦ e
]
delivery_attempts-finished t (now ∷ ts) d sound known enough =
    elim (Bool-cases (still_pending d.status)) [
      | inr e ↦ rw e e
      | inl e ↦
          let few = sound.left known e in
          let (counted, stays) = dispatch-IsTried t now d in
          rw e (
            delivery_attempts-finished t ts (dispatch t now d) (dispatch-IsSound t now d e few)
              (ap is_known stays ∙ known) (omega (arith, counted, enough)))
    ]
