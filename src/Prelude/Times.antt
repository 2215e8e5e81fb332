-- ===== src/Prelude/Times.antt =====
-- Collections of times in which only the number of each one matters.
use osir_ai.Prelude.Tests.{◌==◌, leb, if◌then◌else◌, Bool-cases}
use osir_ai.Prelude.Lists.{length, All, All-map}
use Prim.Native.Nat.{ℕ, suc, ◌+◌, ◌≤◌}
use mathlib.Core.Path.{◌≡◌, refl, ap, ◌∙◌}
use mathlib.Core.Logic.{inl, inr}
use mathlib.Core.List.{List, [], ◌∷◌}
use mathlib.Core.Quot.{Quot}
use native.Mathlib.Omega.{arith}

-- One where the two are the same.
abbrev pub hit : ℕ → ℕ → ℕ
hit t u = if t == u then 1 else 0

-- How many times `t` stands in a list.
abbrev pub tally : ℕ → List ℕ → ℕ
tally t [] = 0
tally t (u ∷ us) = hit t u + tally t us

abbrev pub SameTally : List ℕ → List ℕ → Type 0
SameTally ts us = (t : ℕ) → tally t ts ≡ tally t us

-- The times without their order.
abbrev pub Booked : Type 0
Booked = Quot SameTally

abbrev pub booked : List ℕ → Booked
booked = Quot.mk

-- `sorted(times)`
abbrev pub insert : ℕ → List ℕ → List ℕ
insert t [] = t ∷ []
insert t (u ∷ us) = let rest = insert t us in if leb t u then t ∷ u ∷ us else u ∷ rest

abbrev pub sorted : List ℕ → List ℕ
sorted [] = []
sorted (t ∷ ts) = insert t (sorted ts)

pub tally-insert : (t u : ℕ) (us : List ℕ) → tally t (insert u us) ≡ hit t u + tally t us
tally-insert t u [] = refl
tally-insert t u (v ∷ vs) = elim (Bool-cases (leb u v)) [
  | inl e ↦ rw e refl
  | inr e ↦ let ih = tally-insert t u vs in rw e (omega arith)
]

pub tally-sorted : (t : ℕ) (ts : List ℕ) → tally t (sorted ts) ≡ tally t ts
tally-sorted t [] = refl
tally-sorted t (u ∷ us) =
    let step = tally-insert t u (sorted us) in let ih = tally-sorted t us in omega arith

length-insert : (u : ℕ) (us : List ℕ) → length (insert u us) ≡ suc (length us)
length-insert u [] = refl
length-insert u (v ∷ vs) = elim (Bool-cases (leb u v)) [
  | inl e ↦ rw e refl
  | inr e ↦ rw e (ap suc (length-insert u vs))
]

pub length-sorted : (ts : List ℕ) → length (sorted ts) ≡ length ts
length-sorted [] = refl
length-sorted (t ∷ ts) = length-insert t (sorted ts) ∙ ap suc (length-sorted ts)

-- No time is later than one that follows.
abbrev pub Ascending : List ℕ → Type 0
Ascending [] = Unit
Ascending (t ∷ ts) = All (λ u. t ≤ u) ts × Ascending ts

All-insert : (P : ℕ → Type 0) (t : ℕ) (us : List ℕ) → P t → All P us → All P (insert t us)
All-insert P t [] p h = (p, tt)
All-insert P t (u ∷ us) p (first, h) = elim (Bool-cases (leb t u)) [
  | inl e ↦ rw e (p, (first, h))
  | inr e ↦ rw e (first, All-insert P t us p h)
]

insert-Ascending : (t : ℕ) (us : List ℕ) → Ascending us → Ascending (insert t us)
insert-Ascending t [] h = (tt, tt)
insert-Ascending t (u ∷ us) (first, h) = elim (Bool-cases (leb t u)) [
  | inl e ↦
      let low : t ≤ u = ground arith in
      rw e ((low, All-map _ _ us (λ v k. omega (arith, k, low)) first), (first, h))
  | inr e ↦
      let low : u ≤ t = ground arith in
      rw e (All-insert (λ v. u ≤ v) t us low first, insert-Ascending t us h)
]

pub sorted-Ascending : (ts : List ℕ) → Ascending (sorted ts)
sorted-Ascending [] = tt
sorted-Ascending (t ∷ ts) = insert-Ascending t (sorted ts) (sorted-Ascending ts)
