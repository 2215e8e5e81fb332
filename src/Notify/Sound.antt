-- ===== src/Notify/Sound.antt =====
-- What holds of every delivery, and is kept by the attempts and the sweep of
-- apps/notifications/engine.py.
use osir_ai.Prelude.{
  ℕ, zero, suc, ◌≤◌, ◌<◌, ◌≡◌, refl, sym, ap, ◌∙◌, arith, Bool, true, false, inl, inr, List, [],
  ◌∷◌, Option, none, some, ◌==◌, leb, keep, take, length, is_some, All, All-map, All-keep,
  All-update_where, Text, Bool-cases,
}
use osir_ai.Notify.{
  Channel, in_app, email, webhook, other_channel, DeliveryStatus, pending, delivered, failed,
  Delivery,
}
use osir_ai.Notify.Deliver.{
  Transports, SendResult, returned, raised, dispatch, tried, through, after_sent, after_error,
  still_pending, is_due_again, or_zero, insert_by_retry, sort_by_retry, retry_batch,
  retry_batch_limit, dispatch_each, retry_failed_deliveries, max_retry_attempts,
}

abbrev pub is_known : Channel → Bool
is_known (other_channel name) = false
is_known c = true

abbrev pub is_failed : DeliveryStatus → Bool
is_failed failed = true
is_failed s = false

abbrev pub is_done : DeliveryStatus → Bool
is_done delivered = true
is_done s = false

-- At most three attempts; a failure only after the third; a delivery that waits on one of the
-- three channels has attempts left, and a time for the next one once it was tried.
pub record IsSound (d : Delivery) : Type 0 where
  pub few : d.attempts ≤ 3
  pub exhausted : is_failed d.status ≡ true → d.attempts ≡ 3
  pub left : is_known d.channel ≡ true → still_pending d.status ≡ true → d.attempts < 3
  pub planned :
      is_known d.channel ≡ true
      → still_pending d.status ≡ true
      → 1 ≤ d.attempts
      → is_some d.next_retry_at ≡ true
  pub dated : is_done d.status ≡ true → is_some d.delivered_at ≡ true

after_error-IsSound :
    (now : ℕ) (error : Text) (d : Delivery) → d.attempts ≤ 3 → IsSound (after_error now error d)
unfolding after_error
after_error-IsSound now error d few = elim (Bool-cases (leb max_retry_attempts d.attempts)) [
  | inl e ↦ rw e (record {
    few = few;
    exhausted = λ h. let all_three : d.attempts ≡ 3 = ground arith in all_three;
    left = λ k h. absurd (cc);
    planned = λ k h n. absurd (cc);
    dated = λ h. absurd (cc);
  })
  | inr e ↦ rw e (record {
    few = few;
    exhausted = λ h. absurd (cc);
    left = λ k h. ground arith;
    planned = λ k h n. refl;
    dated = λ h. absurd (cc);
  })
]

only_pending :
    (s : DeliveryStatus) → still_pending s ≡ true → (is_failed s ≡ false) × (is_done s ≡ false)
only_pending pending h = (refl, refl)
only_pending delivered h = absurd (cc)
only_pending failed h = absurd (cc)

after_sent-IsSound :
    (now : ℕ) (d : Delivery) (o : Option SendResult)
    → d.attempts ≤ 3
    → (o ≡ none → (is_known d.channel ≡ false) × (still_pending d.status ≡ true))
    → IsSound (after_sent now d o)
after_sent-IsSound now d none few other =
    let (foreign, waits) = other refl in
    record {
      few = few;
      exhausted =
          λ h. let bad : true ≡ false = sym h ∙ (only_pending d.status waits).0 in absurd (cc);
      left = λ k h. let bad : true ≡ false = sym k ∙ foreign in absurd (cc);
      planned = λ k h n. let bad : true ≡ false = sym k ∙ foreign in absurd (cc);
      dated = λ h. let bad : true ≡ false = sym h ∙ (only_pending d.status waits).1 in absurd (cc);
    }
after_sent-IsSound now d (some returned) few other = record {
  few = few;
  exhausted = λ h. absurd (cc);
  left = λ k h. absurd (cc);
  planned = λ k h n. absurd (cc);
  dated = λ h. refl;
}
after_sent-IsSound now d (some (raised error)) few other = after_error-IsSound now error d few

through-is_known :
    (t : Transports) (now : ℕ) (d : Delivery) (c : Channel)
    → through t now d c ≡ none
    → is_known c ≡ false
through-is_known t now d in_app h = cc
through-is_known t now d email h = cc
through-is_known t now d webhook h = cc
through-is_known t now d (other_channel name) h = refl

-- An attempt at a delivery that waits and has attempts left.
pub dispatch-IsSound :
    (t : Transports) (now : ℕ) (d : Delivery)
    → still_pending d.status ≡ true
    → d.attempts < 3
    → IsSound (dispatch t now d)
unfolding dispatch
dispatch-IsSound t now d waits few =
    after_sent-IsSound now (tried d) (through t now (tried d) d.channel) (omega arith)
      (λ h. (through-is_known t now (tried d) d.channel h, waits))

All-insert_by_retry :
    (P : Delivery → Type 0) (d : Delivery) (ds : List Delivery)
    → P d
    → All P ds
    → All P (insert_by_retry d ds)
All-insert_by_retry P d [] p h = (p, tt)
All-insert_by_retry P d (e ∷ es) p (first, h) =
    elim (Bool-cases (leb (or_zero d.next_retry_at) (or_zero e.next_retry_at))) [
      | inl f ↦ rw f (p, (first, h))
      | inr f ↦ rw f (first, All-insert_by_retry P d es p h)
    ]

All-sort_by_retry :
    (P : Delivery → Type 0) (ds : List Delivery) → All P ds → All P (sort_by_retry ds)
All-sort_by_retry P [] h = tt
All-sort_by_retry P (d ∷ ds) (first, h) =
    All-insert_by_retry P d (sort_by_retry ds) first (All-sort_by_retry P ds h)

All-take : (P : Delivery → Type 0) (n : ℕ) (ds : List Delivery) → All P ds → All P (take n ds)
All-take P zero ds h = tt
All-take P (suc n) [] h = tt
All-take P (suc n) (d ∷ ds) (first, h) = (first, All-take P n ds h)

length-take : (n : ℕ) (ds : List Delivery) → length (take n ds) ≤ n
length-take zero ds = omega arith
length-take (suc n) [] = omega arith
length-take (suc n) (d ∷ ds) = let rest = length-take n ds in omega arith

-- What the sweep takes of a row.
abbrev Ready : Delivery → Type 0
Ready d = (still_pending d.status ≡ true) × (d.attempts < 3)

keep-Ready : (now : ℕ) (rows : List Delivery) → All Ready (keep (is_due_again now) rows)
unfolding is_due_again
keep-Ready now rows =
    All-map Ready (λ d. is_due_again now d ≡ true) (keep (is_due_again now) rows)
      (λ d h. (ground arith, ground arith)) (All-keep (is_due_again now) rows)

dispatch_each-IsSound :
    (t : Transports) (now : ℕ) (ds rows : List Delivery)
    → All Ready ds
    → All IsSound rows
    → All IsSound (dispatch_each t now ds rows).1
dispatch_each-IsSound t now [] rows ready h = h
dispatch_each-IsSound t now (d ∷ ds) rows ((waits, few), ready) h =
    dispatch_each-IsSound t now ds _ ready (
      All-update_where IsSound IsSound (λ r. r.id == (dispatch t now d).id) (λ r. dispatch t now d)
        rows
        (λ r sound. elim (Bool-cases (r.id == (dispatch t now d).id)) [
          | inl e ↦ rw e (dispatch-IsSound t now d waits few)
          | inr e ↦ rw e sound
        ])
        h)

dispatch_each-length :
    (t : Transports) (now : ℕ) (ds rows : List Delivery)
    → (dispatch_each t now ds rows).0 ≡ length ds
dispatch_each-length t now [] rows = refl
dispatch_each-length t now (d ∷ ds) rows = ap suc (dispatch_each-length t now ds _)

-- A sweep keeps the deliveries sound, whatever mail and webhooks answer: none is tried more than
-- three times, one fails only after the third attempt, and one that waits on a known channel has
-- attempts left and, once tried, a time for the next. It handles at most two hundred.
pub retry_failed_deliveries-IsSound :
    (t : Transports) (now : ℕ) (rows : List Delivery)
    → All IsSound rows
    → All IsSound (retry_failed_deliveries t now rows).1
      × ((retry_failed_deliveries t now rows).0 ≤ retry_batch_limit)
unfolding retry_failed_deliveries retry_batch
retry_failed_deliveries-IsSound t now rows h =
    let sorted_rows = sort_by_retry (keep (is_due_again now) rows) in
    let counted = dispatch_each-length t now (retry_batch now rows) rows in
    let bound = length-take retry_batch_limit sorted_rows in
    (
      dispatch_each-IsSound t now (retry_batch now rows) rows
          (All-take Ready retry_batch_limit sorted_rows
            (All-sort_by_retry Ready (keep (is_due_again now) rows) (keep-Ready now rows)))
          h,
      rw counted bound,
    )
