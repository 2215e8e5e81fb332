-- ===== src/Publisher/Retries.antt =====
-- How an attempt can end, and how often a row is tried: `_schedule_retry` and `_fail_permanently`
-- of apps/publisher/engine.py.
use osir_ai.Prelude.{
  ℕ, ◌+◌, ◌≤◌, ◌≡◌, refl, Bool, true, false, ◌⊎◌, inl, inr, List, [], ◌∷◌, some, leb, arith, length,
  Text, if◌then◌else◌, Bool-cases,
}
use osir_ai.Workflow.{scheduled, published, failed, same}
use osir_ai.Records.{PlatformPost}
use osir_ai.Publisher.Attempt.{
  Reply, delivered, declined, raised, Messages, max_retries, retry_backoff, schedule_retry,
  fail_permanently, delivered_row, row_after_reply, row_after_attempt,
}

-- Back in the schedule, one retry further, for the time that the backoff names.
pub record IsRetried (now : ℕ) (old new : PlatformPost) : Type 0 where
  pub is_scheduled : new.status ≡ scheduled
  pub counted : new.retry_count ≡ old.retry_count + 1
  pub bounded : new.retry_count ≤ max_retries
  pub backoff : new.next_retry_at ≡ some (now + retry_backoff old.retry_count)

-- The three ways for an attempt to end.
abbrev pub AttemptEnd : ℕ → PlatformPost → PlatformPost → Type 0
AttemptEnd now old new = (new.status ≡ published) ⊎ ((new.status ≡ failed) ⊎ IsRetried now old new)

schedule_retry-end :
    (m : Messages) (now : ℕ) (message : Text) (pp : PlatformPost)
    → AttemptEnd now pp (schedule_retry m now message pp)
unfolding schedule_retry fail_permanently
schedule_retry-end m now message pp = elim (Bool-cases (leb max_retries pp.retry_count)) [
  | inl e ↦ rw e (inr (inl refl))
  | inr e ↦
      let bound : pp.retry_count + 1 ≤ 3 = ground arith in
      rw e (
        inr (inr (record { is_scheduled = refl; counted = refl; bounded = bound; backoff = refl })))
]

-- However an attempt goes, a rate limit, any reply of the provider or an exception, the row ends
-- as published, as failed, or scheduled again: then its count is one higher and at most the
-- bound on retries, and its next retry is the backoff of the old count after this attempt.
pub row_after_attempt-end :
    (m : Messages) (now : ℕ) (limited : Bool) (reply : Reply) (pp : PlatformPost)
    → AttemptEnd now pp (row_after_attempt m now limited reply pp)
unfolding row_after_attempt row_after_reply delivered_row fail_permanently
row_after_attempt-end m now true reply pp = schedule_retry-end m now m.rate_limit pp
row_after_attempt-end m now false (delivered id extra left resets) pp = inl refl
row_after_attempt-end m now false (declined error code) pp = schedule_retry-end m now m.generic pp
row_after_attempt-end m now false (raised true error friendly) pp =
    schedule_retry-end m now friendly pp
row_after_attempt-end m now false (raised false error friendly) pp = inr (inl refl)

-- One attempt: its time, whether the account is rate limited, and the provider's reply.
abbrev pub Attempted : Type 0
Attempted = ℕ × (Bool × Reply)

-- Attempts are made while the row is scheduled.
unfoldable pub attempts : Messages → List Attempted → PlatformPost → PlatformPost
attempts m [] pp = pp
attempts m ((now, (limited, reply)) ∷ ts) pp =
    let rest = attempts m ts (row_after_attempt m now limited reply pp) in
    if same pp.status scheduled then rest else pp

attempts-stop :
    (m : Messages) (ts : List Attempted) (pp : PlatformPost)
    → same pp.status scheduled ≡ false
    → attempts m ts pp ≡ pp
unfolding attempts
attempts-stop m [] pp h = refl
attempts-stop m ((now, (limited, reply)) ∷ ts) pp h = rw h

attempts-ended :
    (m : Messages) (ts : List Attempted) (pp : PlatformPost)
    → same pp.status scheduled ≡ false
    → same (attempts m ts pp).status scheduled ≡ false
attempts-ended m ts pp h = rw (attempts-stop m ts pp h) h

-- For a row that has had no more retries than the bound: once those and the attempts that follow
-- are together more than the bound, it is no longer scheduled, whatever the provider replied.
pub attempts-finished :
    (m : Messages) (ts : List Attempted) (pp : PlatformPost)
    → max_retries + 1 ≤ pp.retry_count + length ts
    → pp.retry_count ≤ max_retries
    → same (attempts m ts pp).status scheduled ≡ false
unfolding attempts
attempts-finished m [] pp enough bound = ground arith
attempts-finished m ((now, (limited, reply)) ∷ ts) pp enough bound =
    elim (Bool-cases (same pp.status scheduled)) [
      | inr e ↦ rw e e
      | inl e ↦
          let next = row_after_attempt m now limited reply pp in
          rw e (elim (row_after_attempt-end m now limited reply pp) [
            | inl p ↦ attempts-ended m ts next (rw p refl)
            | inr (inl p) ↦ attempts-ended m ts next (rw p refl)
            | inr (inr r) ↦
                let count = r.counted in
                attempts-finished m ts next (omega (arith, count, enough)) r.bounded
          ])
    ]
