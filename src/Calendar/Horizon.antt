-- ===== src/Calendar/Horizon.antt =====
-- The walk over the days of `_next_slot_datetimes` in apps/calendar/services.py.
use osir_ai.Prelude.{
  ℕ, zero, suc, ◌≤◌, ◌<◌, ◌≡◌, refl, sym, ap, ◌∙◌, List, [], ◌∷◌, ◌++◌, leb, inl, inr,
  if◌then◌else◌, length, length-append, take, arith, Bool-cases,
}
use mathlib.Core.List.{append_assoc, append-nil}
use osir_ai.Calendar.{
  PostingSlot, Walk, returned, going, active_slots, lookahead_days, is_candidate, walk_slots,
  walk_days, next_slot_datetimes,
}

take-length : (n : ℕ) (xs ys : List ℕ) → length xs ≡ n → take n (xs ++ ys) ≡ xs
take-length zero [] ys h = refl
take-length zero (x ∷ xs) ys h = absurd (omega (arith, h))
take-length (suc n) [] ys h = absurd (omega (arith, h))
take-length (suc n) (x ∷ xs) ys h = ap (◌∷◌ x) (take-length n xs ys (omega (arith, h)))

take_all : (n : ℕ) (xs : List ℕ) → length xs ≤ n → take n xs ≡ xs
take_all zero [] h = refl
take_all zero (x ∷ xs) h = absurd (omega (arith, h))
take_all (suc n) [] h = refl
take_all (suc n) (x ∷ xs) h = ap (◌∷◌ x) (take_all n xs (omega (arith, h)))

module _ (weekday : ℕ → ℕ) (instant : ℕ → ℕ → ℕ) where
  -- The instants of the slots of a date that lie after the start, in the order of the slots.
  abbrev pub day_times : ℕ → ℕ → List PostingSlot → List ℕ
  day_times after date [] = []
  day_times after date (slot ∷ slots) =
      let rest = day_times after date slots in
      if is_candidate weekday instant after date slot then instant date slot.time ∷ rest else rest

  -- Those of all the dates of the lookahead.
  unfoldable pub horizon_from : ℕ → List PostingSlot → ℕ → ℕ → List ℕ
  horizon_from after slots zero date = []
  horizon_from after slots (suc days) date =
      day_times after date slots ++ horizon_from after slots days (suc date)

  abbrev pub horizon : (ℕ → ℕ) → List PostingSlot → ℕ → ℕ → List ℕ
  horizon local_date slots account after =
      horizon_from after (active_slots account slots) lookahead_days (local_date after)

  -- What the inner loop leaves: all that it returns is wanted, or all of the day was taken in.
  abbrev Walked : ℕ → List ℕ → Walk → Type 0
  Walked count all (returned found) = (rest : List ℕ) → found ≡ take count (all ++ rest)
  Walked count all (going found) = (found ≡ all) × (length found < count)

  walk_slots-Walked :
      (after count date : ℕ) (slots : List PostingSlot) (results : List ℕ)
      → length results < count
      → Walked count
          (results ++ day_times after date slots)
          (walk_slots weekday instant after count date slots results)
  unfolding walk_slots
  walk_slots-Walked after count date [] results h = (sym (append-nil results), h)
  walk_slots-Walked after count date (slot ∷ slots) results h =
      elim (Bool-cases (is_candidate weekday instant after date slot)) [
        | inr e ↦ rw (walk_slots, e) (walk_slots-Walked after count date slots results h)
        | inl e ↦
            let more = results ++ (instant date slot.time ∷ []) in
            let tail = day_times after date slots in
            let split = append_assoc results (instant date slot.time ∷ []) tail in
            let size = length-append results (instant date slot.time ∷ []) in
            rw (walk_slots, e, sym split)
              (elim (Bool-cases (leb count (length more))) [
                | inl full ↦
                    let exact : length more ≡ count = ground (arith, size) in
                    rw full (λ rest.
                      sym (take-length count more (tail ++ rest) exact)
                      ∙ ap (take count) (sym (append_assoc more tail rest)))
                | inr room ↦
                    let below : length more < count = ground arith in
                    rw room (walk_slots-Walked after count date slots more below)
              ])
      ]

  -- The rest of the walk, after the inner loop of one day.
  walk_days-next :
      (after count : ℕ) (slots : List PostingSlot) (days date : ℕ) (results : List ℕ) (walk : Walk)
      → Walked count (results ++ day_times after date slots) walk
      → ((found : List ℕ)
          → length found < count
          → walk_days weekday instant after count slots days (suc date) found
            ≡ take count (found ++ horizon_from after slots days (suc date)))
      → elim walk as (λ _. List ℕ) [
        | returned found ↦ found
        | going found ↦ walk_days weekday instant after count slots days (suc date) found
      ]
        ≡ take count
            (results ++ (day_times after date slots ++ horizon_from after slots days (suc date)))
  walk_days-next after count slots days date results (returned found) k rest =
      k (horizon_from after slots days (suc date))
      ∙ ap (take count) (append_assoc results (day_times after date slots) _)
  walk_days-next after count slots days date results (going found) k rest =
      rest found k.1
      ∙ ap (λ x. take count (x ++ horizon_from after slots days (suc date))) k.0
      ∙ ap (take count) (append_assoc results (day_times after date slots) _)

  walk_days-horizon :
      (after count : ℕ) (slots : List PostingSlot) (days date : ℕ) (results : List ℕ)
      → length results < count
      → walk_days weekday instant after count slots days date results
        ≡ take count (results ++ horizon_from after slots days date)
  unfolding walk_days horizon_from
  walk_days-horizon after count slots zero date results h =
      let e = append-nil results in rw e (sym (take_all count results (omega (arith, h))))
  walk_days-horizon after count slots (suc days) date results h =
      walk_days-next after count slots days date results
        (walk_slots weekday instant after count date slots results)
        (walk_slots-Walked after count date slots results h)
        (λ found k. walk_days-horizon after count slots days (suc date) found k)

  -- Asked for at least one, the walk gives the first slots of the lookahead's days that lie after
  -- the start, as many as asked for or all there are.
  pub next_slot_datetimes-horizon :
      (local_date : ℕ → ℕ) (slots : List PostingSlot) (account after count : ℕ)
      → 1 ≤ count
      → next_slot_datetimes weekday instant local_date slots account after count
        ≡ take count (horizon local_date slots account after)
  unfolding next_slot_datetimes
  next_slot_datetimes-horizon local_date slots account after count h =
      walk_days-horizon after count (active_slots account slots) lookahead_days (local_date after)
        [] (omega (arith, h))
