-- ===== src/Api/Replayed.antt =====
-- A slot is claimed once, and its response replayed: apps/api/middleware.py.
use osir_ai.Prelude.{
  ℕ, ◌+◌, ltb, ◌≡◌, refl, sym, ◌∙◌, Bool, true, false, ◌&&◌, not, inl, inr, List, [], ◌∷◌, Option,
  none, some, ◌==◌, find, All, Text, truthy, text_eq, text_eq_refl, Bool-cases, Option-cases, arith,
}
use osir_ai.Api.Finds.{find-append_found, find-append_last, find-keep_kept, find-update_first}
use osir_ai.Api.Idempotency.{
  IdempotencyRecord, Disposition, claimed, in_flight, replay, reused_key, pending_status, in_slot,
  claim_row, decide, take_slot, claim_of, given, text_of, claim_idempotency_slot, finalized,
  finalize_idempotent_response, held_open, release_idempotent_claim, is_expired_row,
  sweep_stale_idempotency_records, Call, claim, finalize, release, sweep, perform, perform_all,
}

module _ (Body : Type 0) (no_body : Body) where
  abbrev pub Row : Type 0
  Row = IdempotencyRecord Body no_body

  -- The row is that of a key of a client.
  abbrev pub is_of : ℕ → Option Text → Row → Bool
  is_of api_key none r = false
  is_of api_key (some key) r = truthy key && (r.api_key == api_key && text_eq r.key key)

  -- The calls that leave a row as it is: every claim; what finalizes or releases another slot, or
  -- releases a slot whose response is there; and a sweep for which the row is not too old.
  abbrev pub Spares : Row → Call Body no_body → Type 0
  Spares r (claim now api_key key fingerprint) = Unit
  Spares r (finalize api_key key status body) = is_of api_key key r ≡ false
  Spares r (release api_key key) = (is_of api_key key r && r.status == 0) ≡ false
  Spares r (sweep now) = ltb (r.created_at + 86400) now ≡ false

  not_finalized :
      (api_key : ℕ) (slot : Option Text) (r : Row)
      → is_of api_key slot r ≡ false
      → given Body no_body slot ≡ true
      → in_slot Body no_body api_key (text_of Body no_body slot) r ≡ false
  not_finalized api_key none r h real = cc
  not_finalized api_key (some key) r h real = sym (rw real refl) ∙ h

  not_released :
      (api_key : ℕ) (slot : Option Text) (r : Row)
      → (is_of api_key slot r && r.status == 0) ≡ false
      → given Body no_body slot ≡ true
      → held_open Body no_body api_key (text_of Body no_body slot) r ≡ false
  not_released api_key none r h real = cc
  not_released api_key (some key) r h real = sym (rw real refl) ∙ h

  take_slot-found :
      (now api_key actor : ℕ) (key slot fingerprint : Text) (rows : List Row) (r : Row)
      → find (in_slot Body no_body api_key key) rows ≡ some r
      → find
          (in_slot Body no_body api_key key)
          (take_slot Body no_body now actor slot fingerprint rows
            (find (in_slot Body no_body actor slot) rows)).1
        ≡ some r
  take_slot-found now api_key actor key slot fingerprint rows r h =
      elim (Option-cases (find (in_slot Body no_body actor slot) rows)) [
        | inl e ↦ rw e (find-append_found (in_slot Body no_body api_key key) rows _ r h)
        | inr (other, e) ↦ rw e h
      ]

  claim_of-found :
      (now api_key : ℕ) (actor : Option ℕ) (key slot fingerprint : Text) (rows : List Row) (r : Row)
      → find (in_slot Body no_body api_key key) rows ≡ some r
      → find
          (in_slot Body no_body api_key key)
          (claim_of Body no_body now actor slot fingerprint rows).1
        ≡ some r
  claim_of-found now api_key none key slot fingerprint rows r h = h
  claim_of-found now api_key (some actor) key slot fingerprint rows r h =
      take_slot-found now api_key actor key slot fingerprint rows r h

  claim-kept :
      (now api_key : ℕ) (actor : Option ℕ) (key : Text) (slot : Option Text) (fingerprint : Text)
      (rows : List Row) (r : Row)
      → find (in_slot Body no_body api_key key) rows ≡ some r
      → find
          (in_slot Body no_body api_key key)
          (claim_idempotency_slot Body no_body now actor slot fingerprint rows).1
        ≡ some r
  unfolding claim_idempotency_slot
  claim-kept now api_key actor key slot fingerprint rows r h =
      elim (Bool-cases (given Body no_body slot)) [
        | inl e ↦
            rw e (
              claim_of-found now api_key actor key (text_of Body no_body slot) fingerprint rows r h)
        | inr e ↦ rw e h
      ]

  perform-found :
      (api_key : ℕ) (key : Text) (call : Call Body no_body) (rows : List Row) (r : Row)
      → find (in_slot Body no_body api_key key) rows ≡ some r
      → Spares r call
      → find (in_slot Body no_body api_key key) (perform Body no_body call rows) ≡ some r
  unfolding perform claim_idempotency_slot finalize_idempotent_response release_idempotent_claim
      sweep_stale_idempotency_records
  perform-found api_key key (claim now actor slot fingerprint) rows r h spares =
      claim-kept now api_key actor key slot fingerprint rows r h
  perform-found api_key key (finalize actor slot status body) rows r h spares =
      elim (Bool-cases (given Body no_body slot)) [
        | inl e ↦
            let other = not_finalized actor slot r spares e in
            rw e (
              find-update_first (in_slot Body no_body api_key key)
                (in_slot Body no_body actor (text_of Body no_body slot))
                (finalized Body no_body status body) rows r (λ x. refl) h
              ∙ rw other refl)
        | inr e ↦ rw e h
      ]
  perform-found api_key key (release actor slot) rows r h spares =
      elim (Bool-cases (given Body no_body slot)) [
        | inl e ↦
            let other = not_released actor slot r spares e in
            rw e (
              find-keep_kept (in_slot Body no_body api_key key)
                (λ x. not (held_open Body no_body actor (text_of Body no_body slot) x)) rows r h
                (rw other refl))
        | inr e ↦ rw e h
      ]
  perform-found api_key key (sweep now) rows r h spares =
      find-keep_kept (in_slot Body no_body api_key key)
        (λ x. not (is_expired_row Body no_body now x)) rows r h (rw spares refl)

  pub perform_all-found :
      (api_key : ℕ) (key : Text) (calls : List (Call Body no_body)) (rows : List Row) (r : Row)
      → find (in_slot Body no_body api_key key) rows ≡ some r
      → All (Spares r) calls
      → find (in_slot Body no_body api_key key) (perform_all Body no_body calls rows) ≡ some r
  unfolding perform_all
  perform_all-found api_key key [] rows r h spares = h
  perform_all-found api_key key (call ∷ calls) rows r h (first, spares) =
      perform_all-found api_key key calls _ r (perform-found api_key key call rows r h first) spares

  -- A claim whose slot has a row is decided by that row.
  pub claim-found :
      (now api_key : ℕ) (key fingerprint : Text) (rows : List Row) (r : Row)
      → truthy key ≡ true
      → find (in_slot Body no_body api_key key) rows ≡ some r
      → (claim_idempotency_slot Body no_body now (some api_key) (some key) fingerprint rows).0
        ≡ decide Body no_body fingerprint r
  unfolding claim_idempotency_slot
  claim-found now api_key key fingerprint rows r real h = rw (real, h) refl

  abbrev SameFate : Disposition Body no_body → Disposition Body no_body → Type 0
  SameFate a b = a ≡ b

  take_slot-claimed :
      (now api_key : ℕ) (key fingerprint : Text) (rows : List Row) (o : Option Row)
      → (take_slot Body no_body now api_key key fingerprint rows o).0 ≡ claimed
      → o ≡ none
  unfolding decide
  take_slot-claimed now api_key key fingerprint rows none h = refl
  take_slot-claimed now api_key key fingerprint rows (some r) h =
      elim (Bool-cases (text_eq r.fingerprint fingerprint)) [
        | inr e ↦ let bad : SameFate reused_key claimed = sym (rw e refl) ∙ h in absurd (cc)
        | inl e ↦ elim (Bool-cases (r.status == pending_status)) [
          | inl f ↦ let bad : SameFate in_flight claimed = sym (rw (e, f) refl) ∙ h in absurd (cc)
          | inr f ↦
              let bad : SameFate (replay r.status r.body) claimed = sym (rw (e, f) refl) ∙ h in
              absurd (cc)
        ]
      ]

  pub claimed-found :
      (now api_key : ℕ) (key fingerprint : Text) (rows : List Row)
      → truthy key ≡ true
      → (claim_idempotency_slot Body no_body now (some api_key) (some key) fingerprint rows).0
        ≡ claimed
      → find
          (in_slot Body no_body api_key key)
          (claim_idempotency_slot Body no_body now (some api_key) (some key) fingerprint rows).1
        ≡ some (claim_row Body no_body now api_key key fingerprint)
  unfolding claim_idempotency_slot
  claimed-found now api_key key fingerprint rows real h =
      let absent : find (in_slot Body no_body api_key key) rows ≡ none =
        take_slot-claimed now api_key key fingerprint rows _ (sym (rw real refl) ∙ h) in
      let own : (api_key == api_key) ≡ true = ground arith in
      rw (real, absent)
        (find-append_last (in_slot Body no_body api_key key) rows _ absent
          (rw (own, text_eq_refl key) refl))
