-- ===== src/Workflow/Runs.antt =====
-- Sequences of transitions of the state machine of `PlatformPost`.
use osir_ai.Prelude.{◌≡◌, ◌≢◌, refl, Bool, true, ◌||◌, List, [], ◌∷◌, arith, ◌⊎◌, inl, inr}
use osir_ai.Workflow.{
  Status, draft, pending_review, pending_client, approved, changes_requested, rejected, scheduled,
  publishing, published, on_hold, partially_published, status_in, can_transition_to,
}

-- The statuses that a platform post goes through after `s`, the latest first, and the last one.
pub data Run (s : Status) : List Status → Status → Type 0 where
  start : Run s [] s
  move :
      {seen : List Status} {t : Status}
      → Run s seen t
      → (u : Status) → can_transition_to t u ≡ true
      → Run s (u ∷ seen) u

-- A published platform post stays published: no transition leaves that status.
pub published_final : (seen : List Status) (t : Status) → Run published seen t → t ≡ published
unfolding can_transition_to
published_final seen t start = refl
published_final seen t (move {seen = before} {t = u} r t' h) =
    ground (arith, published_final before u r)

released : List Status → Bool
released seen = status_in approved seen || status_in draft seen

abbrev is_parked : Status → Bool
is_parked s = status_in s (on_hold ∷ changes_requested ∷ pending_review ∷ rejected ∷ [])

parked_step :
    (t u : Status) (seen : List Status)
    → can_transition_to t u ≡ true
    → (released seen ≡ true) ⊎ (is_parked t ≡ true)
    → (released (u ∷ seen) ≡ true) ⊎ (is_parked u ≡ true)
unfolding can_transition_to released
parked_step t u seen h (inl r) = inl (ground arith)
parked_step draft u seen h (inr p) = cc
parked_step t u seen h (inr p) = ground arith

parked_until_released :
    (seen : List Status) (t : Status)
    → Run on_hold seen t
    → (released seen ≡ true) ⊎ (is_parked t ≡ true)
parked_until_released seen t start = inr refl
parked_until_released seen t (move {seen = before} {t = u} r t' h) =
    parked_step u t before h (parked_until_released before u r)

-- A platform post on hold is not published, and does not start publishing, before it has been
-- back in `approved` or in `draft`.
pub held_until_released :
    (seen : List Status) (t : Status)
    → Run on_hold seen t
    → (t ≡ publishing) ⊎ (t ≡ published) ⊎ (t ≡ scheduled)
    → (status_in approved seen ≡ true) ⊎ (status_in draft seen ≡ true)
unfolding released
held_until_released seen t r e = ground (arith, parked_until_released seen t r)

-- Every platform post can still get published: from each status that one can have there is a
-- sequence of transitions to `published`.
pub publishable :
    (s : Status) → s ≢ partially_published → (seen : List Status) × Run s seen published
unfolding can_transition_to
publishable partially_published h = absurd (h refl)
publishable published h = ([], start)
publishable publishing h = (_, move start published refl)
publishable pending_review h =
    (_, move (move (move start approved refl) publishing refl) published refl)
publishable pending_client h =
    (_, move (move (move start approved refl) publishing refl) published refl)
publishable on_hold h = (_, move (move (move start approved refl) publishing refl) published refl)
publishable rejected h = (_, move (move (move start draft refl) publishing refl) published refl)
publishable changes_requested h =
    (_, move (move (move start draft refl) publishing refl) published refl)
publishable s h = (_, move (move start publishing refl) published refl)
