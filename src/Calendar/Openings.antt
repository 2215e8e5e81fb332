-- ===== src/Calendar/Openings.antt =====
-- The free slot that `_next_available_slot` of apps/calendar/services.py finds.
use osir_ai.Prelude.{
  ℕ, zero, suc, ◌+◌, ◌≤◌, ◌<◌, ◌≡◌, refl, sym, ap, ◌∙◌, Bool, true, false, ◌||◌, not, List, [], ◌∷◌,
  ◌==◌, inl, inr, keep, find, length, take, member, All, All-map, arith, Bool-cases,
}
use osir_ai.Records.{PlatformPost}
use osir_ai.Calendar.{PostingSlot, occupied_datetimes, next_available_slot}
use osir_ai.Calendar.Horizon.{horizon, next_slot_datetimes-horizon}

-- No time stands twice.
abbrev pub Distinct : List ℕ → Type 0
Distinct [] = Unit
Distinct (t ∷ ts) = All (λ u. (u == t) ≡ false) ts × Distinct ts

-- What is left of a list without a time.
abbrev without : ℕ → List ℕ → List ℕ
without t = keep (λ u. not (u == t))

length-without : (t : ℕ) (ts : List ℕ) → length (without t ts) ≤ length ts
length-without t [] = omega arith
length-without t (u ∷ us) =
    let rest = length-without t us in
    elim (Bool-cases (u == t)) [
      | inl e ↦ rw e (omega (arith, rest))
      | inr e ↦ rw e (omega (arith, rest))
    ]

length-without-member :
    (t : ℕ) (ts : List ℕ) → member t ts ≡ true → length (without t ts) < length ts
length-without-member t [] h = ground arith
length-without-member t (u ∷ us) h = elim (Bool-cases (u == t)) [
  | inl e ↦ let rest = length-without t us in rw e (omega (arith, rest))
  | inr e ↦
      let other : (t == u) ≡ false = ground arith in
      let rest = length-without-member t us (sym (rw other refl) ∙ h) in rw e (omega (arith, rest))
]

member-without : (t u : ℕ) (ts : List ℕ) → (u == t) ≡ false → member u (without t ts) ≡ member u ts
member-without t u [] h = refl
member-without t u (x ∷ xs) h = elim (Bool-cases (x == t)) [
  | inl e ↦ let other : (u == x) ≡ false = ground arith in rw (e, other) (member-without t u xs h)
  | inr e ↦ rw e (ap (λ b. u == x || b) (member-without t u xs h))
]

find_cong : (p q : ℕ → Bool) (ts : List ℕ) → All (λ t. p t ≡ q t) ts → find p ts ≡ find q ts
find_cong p q [] h = refl
find_cong p q (t ∷ ts) h = elim (Bool-cases (q t)) [
  | inl e ↦ rw (h.0, e)
  | inr e ↦ rw (h.0, e) (find_cong p q ts h.1)
]

pub All-take : (P : ℕ → Type 0) (n : ℕ) (ts : List ℕ) → All P ts → All P (take n ts)
All-take P zero ts h = tt
All-take P (suc n) [] h = tt
All-take P (suc n) (t ∷ ts) h = (h.0, All-take P n ts h.1)

abbrev is_free : List ℕ → ℕ → Bool
is_free taken t = not (member t taken)

-- A search through distinct times for one that is not taken may stop after one more than the
-- number of those taken.
find-take :
    (n : ℕ) (taken ts : List ℕ)
    → Distinct ts
    → length taken < n
    → find (is_free taken) (take n ts) ≡ find (is_free taken) ts
find-take zero taken ts d h = absurd (omega (arith, h))
find-take (suc n) taken [] d h = refl
find-take (suc n) taken (t ∷ ts) d h = elim (Bool-cases (member t taken)) [
  | inr e ↦ rw e
  | inl e ↦
      let fewer = length-without-member t taken e in
      let same_free : All (λ u. is_free taken u ≡ is_free (without t taken) u) ts =
        All-map _ _ ts (λ u ne. ap not (sym (member-without t u taken ne))) d.0 in
      rw e (
        find_cong _ _ (take n ts) (All-take _ n ts same_free)
        ∙ find-take n (without t taken) ts d.1 (omega (arith, fewer, h))
        ∙ sym (find_cong _ _ ts same_free))
]

module _ (weekday : ℕ → ℕ) (instant : ℕ → ℕ → ℕ) (local_date : ℕ → ℕ) where
  -- When the instants of the lookahead are distinct, the search finds the first of all of them
  -- that no row of the channel occupies, and finds none only where every one is occupied, though
  -- it asks for only one more than the occupied ones.
  pub next_available_slot-first :
      (slots : List PostingSlot) (now account : ℕ) (exclude : List ℕ) (pps : List PlatformPost)
      → Distinct (horizon weekday instant local_date slots account now)
      → next_available_slot weekday instant local_date slots now account exclude pps
        ≡ find
            (λ t. not (member t (occupied_datetimes now account exclude pps)))
            (horizon weekday instant local_date slots account now)
  unfolding next_available_slot
  next_available_slot-first slots now account exclude pps d =
      let occupied = occupied_datetimes now account exclude pps in
      rw
        (next_slot_datetimes-horizon weekday instant local_date slots account now
          (length occupied + 1) (omega arith))
        (find-take (length occupied + 1) occupied
          (horizon weekday instant local_date slots account now) d (omega arith))
