-- ===== src/Api/Once.antt =====
-- One claim wins, and its response is replayed: apps/api/middleware.py.
use osir_ai.Prelude.{
  ℕ, ◌≡◌, refl, ◌∙◌, true, false, List, some, ◌==◌, if◌then◌else◌, find, All, Text, truthy, text_eq,
  text_eq_refl, arith,
}
use osir_ai.Api.Finds.{find-update_first}
use osir_ai.Api.Idempotency.{
  claimed, in_flight, replay, reused_key, pending_status, in_slot, claim_row, decide,
  claim_idempotency_slot, finalized, finalize_idempotent_response, Call, perform_all,
}
use osir_ai.Api.Replayed.{Row, Spares, perform_all-found, claim-found, claimed-found}

module _ (Body : Type 0) (no_body : Body) where
  -- When a claim is won, any later claim of the slot is told that the first is in flight, or that
  -- the key is reused for another request: as long as what comes between neither finalizes nor
  -- releases the slot, nor sweeps a row of that age, whatever else other workers do.
  pub claim_idempotency_slot-once :
      (now later api_key : ℕ) (key fingerprint again : Text) (rows : List (Row Body no_body))
      (calls : List (Call Body no_body))
      → truthy key ≡ true
      → (claim_idempotency_slot Body no_body now (some api_key) (some key) fingerprint rows).0
        ≡ claimed
      → All (Spares Body no_body (claim_row Body no_body now api_key key fingerprint)) calls
      → (claim_idempotency_slot Body no_body later (some api_key) (some key) again (
          perform_all Body no_body calls
            (claim_idempotency_slot Body no_body now
              (some api_key)
              (some key)
              fingerprint
              rows).1)).0
        ≡ (if text_eq fingerprint again then in_flight else reused_key)
  unfolding decide
  claim_idempotency_slot-once now later api_key key fingerprint again rows calls real won spares =
      claim-found Body no_body later api_key key again _ _ real (
        perform_all-found Body no_body api_key key calls _ _
          (claimed-found Body no_body now api_key key fingerprint rows real won) spares)

  abbrev pub answered : ℕ → ℕ → Text → Text → ℕ → Body → Row Body no_body
  answered now api_key key fingerprint status body =
      finalized Body no_body status body (claim_row Body no_body now api_key key fingerprint)

  -- The tables after a claim, other calls, and the response of the request.
  abbrev pub after_response :
      ℕ
      → ℕ
      → Text
      → Text
      → ℕ
      → Body
      → List (Call Body no_body)
      → List (Row Body no_body)
      → List (Row Body no_body)
  after_response now api_key key fingerprint status body calls rows =
      finalize_idempotent_response Body no_body api_key (some key) status body (
        perform_all Body no_body calls
          (claim_idempotency_slot Body no_body now (some api_key) (some key) fingerprint rows).1)

  finalized-found :
      (api_key : ℕ) (key : Text) (status : ℕ) (body : Body) (rows : List (Row Body no_body))
      (r : Row Body no_body)
      → truthy key ≡ true
      → in_slot Body no_body api_key key r ≡ true
      → find (in_slot Body no_body api_key key) rows ≡ some r
      → find
          (in_slot Body no_body api_key key)
          (finalize_idempotent_response Body no_body api_key (some key) status body rows)
        ≡ some (finalized Body no_body status body r)
  unfolding finalize_idempotent_response
  finalized-found api_key key status body rows r real own h = rw real (
      find-update_first (in_slot Body no_body api_key key) (in_slot Body no_body api_key key)
        (finalized Body no_body status body) rows r (λ x. refl) h
      ∙ rw own refl)

  -- The response of a claim that was won is replayed, status and body, to each later claim with the
  -- same fingerprint, whatever other workers do before and after it is there, so long as they do
  -- not finalize or release the slot while it is pending nor finalize it again, and no sweep
  -- finds its row too old. The status is that of a response, not the sentinel.
  pub finalize_idempotent_response-replay :
      (now later api_key : ℕ) (key fingerprint : Text) (status : ℕ) (body : Body)
      (rows : List (Row Body no_body)) (before after : List (Call Body no_body))
      → truthy key ≡ true
      → (status == pending_status) ≡ false
      → (claim_idempotency_slot Body no_body now (some api_key) (some key) fingerprint rows).0
        ≡ claimed
      → All (Spares Body no_body (claim_row Body no_body now api_key key fingerprint)) before
      → All (Spares Body no_body (answered now api_key key fingerprint status body)) after
      → (claim_idempotency_slot Body no_body later (some api_key) (some key) fingerprint (
          perform_all Body no_body after
            (after_response now api_key key fingerprint status body before rows))).0
        ≡ replay status body
  unfolding decide
  finalize_idempotent_response-replay now later api_key key fingerprint status body rows before
        after real real_status won spared spares =
      let own : (api_key == api_key) ≡ true = ground arith in
      let row =
        perform_all-found Body no_body api_key key before _ _
          (claimed-found Body no_body now api_key key fingerprint rows real won) spared in
      let held =
        finalized-found api_key key status body _ _ real (rw (own, text_eq_refl key) refl) row in
      claim-found Body no_body later api_key key fingerprint _ _ real
        (perform_all-found Body no_body api_key key after _ _ held spares)
      ∙ rw (text_eq_refl fingerprint, real_status) refl
