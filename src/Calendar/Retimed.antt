-- ===== src/Calendar/Retimed.antt =====
-- Writing the times of platform posts: what `reorder_queue` of apps/calendar/services.py reads and
-- how one write changes the times of the table.
use osir_ai.Prelude.{
  ℕ, suc, ◌+◌, ◌≤◌, ◌≡◌, refl, sym, subst, ◌∙◌, ap, arith, Bool, true, false, ◌&&◌, inl, inr, List,
  [], ◌∷◌, Option, none, some, ◌==◌, if◌then◌else◌, find, keep, map, length, All, Bool-cases, hit,
  tally,
}
use osir_ai.Records.{PlatformPost, QueueEntry, Queue, Store, update_platform_post}
use osir_ai.Composer.Sync.{add_time}
use osir_ai.Calendar.{any_protected, platform_post_for}
use osir_ai.Calendar.Reorder.{
  Placed, Slotted, add_placed, ordered_entries, add_slotted, add_if_slotted, slotted,
}

-- The times of the platform posts that have one.
abbrev pub times_of : List PlatformPost → List ℕ
times_of [] = []
times_of (r ∷ rs) = add_time r.scheduled_at (times_of rs)

-- The time of the row with a key.
abbrev pub time_in : Option PlatformPost → Option ℕ
time_in none = none
time_in (some r) = r.scheduled_at

abbrev pub time_of : List PlatformPost → ℕ → Option ℕ
time_of rs id = time_in (find (λ r. r.id == id) rs)

abbrev pub set_time : ℕ → PlatformPost → PlatformPost
set_time t r = record r { scheduled_at = some t }

-- The platform post stands in one row of the table, with the time that was read.
abbrev pub IsRead : List PlatformPost → Slotted → Type 0
IsRead rs x =
    (keep (λ r. r.id == x.child.id) rs ≡ x.child ∷ []) × (x.child.scheduled_at ≡ some x.time)

pub tally-add_time :
    (t : ℕ) (o : Option ℕ) (ts : List ℕ)
    → tally t (add_time o ts) ≡ tally t (add_time o []) + tally t ts
tally-add_time t none ts = omega arith
tally-add_time t (some u) ts = omega arith

pub tally-absent :
    (t id new : ℕ) (rs : List PlatformPost)
    → keep (λ r. r.id == id) rs ≡ []
    → tally t (times_of (update_platform_post id (set_time new) rs)) ≡ tally t (times_of rs)
tally-absent t id new [] h = refl
tally-absent t id new (r ∷ rs) h = elim (Bool-cases (r.id == id)) [
  | inl e ↦ absurd (let clash : r ∷ keep (λ x. x.id == id) rs ≡ [] = sym (rw e refl) ∙ h in cc)
  | inr e ↦
      let ih = tally-absent t id new rs (sym (rw e refl) ∙ h) in
      let a = tally-add_time t r.scheduled_at (times_of rs) in
      let b =
        tally-add_time t r.scheduled_at (times_of (update_platform_post id (set_time new) rs)) in
      rw e (omega arith)
]

-- One row's time is written: the old one goes, the new one comes.
pub tally-update :
    (t id old new : ℕ) (pp : PlatformPost) (rs : List PlatformPost)
    → keep (λ r. r.id == id) rs ≡ pp ∷ []
    → pp.scheduled_at ≡ some old
    → tally t (times_of (update_platform_post id (set_time new) rs)) + hit t old
      ≡ tally t (times_of rs) + hit t new
tally-update t id old new pp [] h k = cc
tally-update t id old new pp (r ∷ rs) h k = elim (Bool-cases (r.id == id)) [
  | inl e ↦
      let only : r ∷ keep (λ x. x.id == id) rs ≡ pp ∷ [] = sym (rw e refl) ∙ h in
      let this : r ≡ pp = cc in
      let others : keep (λ x. x.id == id) rs ≡ [] = cc in
      let same_rest = tally-absent t id new rs others in rw (e, this, k) (omega arith)
  | inr e ↦
      let ih = tally-update t id old new pp rs (sym (rw e refl) ∙ h) k in
      let a = tally-add_time t r.scheduled_at (times_of rs) in
      let b =
        tally-add_time t r.scheduled_at (times_of (update_platform_post id (set_time new) rs)) in
      rw e (omega arith)
]

pub keep-update_other :
    (j id new : ℕ) (rs : List PlatformPost)
    → (j == id) ≡ false
    → keep (λ r. r.id == j) (update_platform_post id (set_time new) rs) ≡ keep (λ r. r.id == j) rs
keep-update_other j id new [] h = refl
keep-update_other j id new (r ∷ rs) h = elim (Bool-cases (r.id == id)) [
  | inl e ↦
      let away : (r.id == j) ≡ false = ground arith in
      rw (e, away) (keep-update_other j id new rs h)
  | inr e ↦ elim (Bool-cases (r.id == j)) [
    | inl k ↦ rw (e, k) (ap (λ x. r ∷ x) (keep-update_other j id new rs h))
    | inr k ↦ rw (e, k) (keep-update_other j id new rs h)
  ]
]

pub find-keep :
    (id : ℕ) (pp : PlatformPost) (rs : List PlatformPost)
    → keep (λ r. r.id == id) rs ≡ pp ∷ []
    → find (λ r. r.id == id) rs ≡ some pp
find-keep id pp [] h = cc
find-keep id pp (r ∷ rs) h = elim (Bool-cases (r.id == id)) [
  | inl e ↦
      let only : r ∷ keep (λ x. x.id == id) rs ≡ pp ∷ [] = sym (rw e refl) ∙ h in
      let this : r ≡ pp = cc in rw (e, this) refl
  | inr e ↦ rw e (find-keep id pp rs (sym (rw e refl) ∙ h))
]

pub keep-update_own :
    (id new : ℕ) (pp : PlatformPost) (rs : List PlatformPost)
    → keep (λ r. r.id == id) rs ≡ pp ∷ []
    → keep (λ r. r.id == id) (update_platform_post id (set_time new) rs) ≡ set_time new pp ∷ []
keep-update_own id new pp rs h = kept rs ∙ ap (map (set_time new)) h
  where
    kept :
        (xs : List PlatformPost)
        → keep (λ r. r.id == id) (update_platform_post id (set_time new) xs)
          ≡ map (set_time new) (keep (λ r. r.id == id) xs)
    kept [] = refl
    kept (r ∷ xs) = elim (Bool-cases (r.id == id)) [
      | inl e ↦ rw (e, e) (ap (λ x. set_time new r ∷ x) (kept xs))
      | inr e ↦ rw (e, e) (kept xs)
    ]

-- The platform post is not one of those that follow.
abbrev pub NoneTwice : List Slotted → Type 0
NoneTwice [] = Unit
NoneTwice (x ∷ xs) = All (λ y. (y.child.id == x.child.id) ≡ false) xs × NoneTwice xs

pub still-IsRead :
    (x : Slotted) (xs : List Slotted) (slot : ℕ) (rs : List PlatformPost)
    → All (λ y. (y.child.id == x.child.id) ≡ false) xs
    → All (IsRead rs) xs
    → All (IsRead (update_platform_post x.child.id (set_time slot) rs)) xs
still-IsRead x [] slot rs others h = tt
still-IsRead x (y ∷ xs) slot rs (away, others) ((row, time), h) = (
  (keep-update_other y.child.id x.child.id slot rs away ∙ row, time),
  still-IsRead x xs slot rs others h,
)

pub empty_of : (rs : List PlatformPost) → length rs ≤ 0 → rs ≡ []
empty_of [] h = refl
empty_of (r ∷ rs) h = absurd (omega (arith, h))

-- A row that is found is the only one with its key.
pub keep-find :
    (p : PlatformPost → Bool) (pp : PlatformPost) (rs : List PlatformPost)
    → length (keep (λ r. r.id == pp.id) rs) ≤ 1
    → find p rs ≡ some pp
    → keep (λ r. r.id == pp.id) rs ≡ pp ∷ []
keep-find p pp [] one h = cc
keep-find p pp (r ∷ rs) one h = elim (Bool-cases (p r)) [
  | inl e ↦
      let this : some r ≡ some pp = sym (rw e refl) ∙ h in
      let here : r ≡ pp = cc in
      let own : (r.id == pp.id) ≡ true =
        rw here (let self : (pp.id == pp.id) ≡ true = ground arith in self) in
      let bound : suc (length (keep (λ x. x.id == pp.id) rs)) ≤ 1 =
        subst
          (λ b.
            length (if b then r ∷ keep (λ x. x.id == pp.id) rs else keep (λ x. x.id == pp.id) rs)
            ≤ 1)
          own one in
      let others = empty_of (keep (λ x. x.id == pp.id) rs) (omega (arith, bound)) in
      rw (own, others) (ap (λ x. x ∷ []) here)
  | inr e ↦
      let later : find p rs ≡ some pp = sym (rw e refl) ∙ h in
      elim (Bool-cases (r.id == pp.id)) [
        | inr k ↦
            let bound : length (keep (λ x. x.id == pp.id) rs) ≤ 1 =
              subst
                (λ b.
                  length
                    (if b then r ∷ keep (λ x. x.id == pp.id) rs else keep (λ x. x.id == pp.id) rs)
                  ≤ 1)
                k one in
            rw k (keep-find p pp rs bound later)
        | inl k ↦
            let bound : suc (length (keep (λ x. x.id == pp.id) rs)) ≤ 1 =
              subst
                (λ b.
                  length
                    (if b then r ∷ keep (λ x. x.id == pp.id) rs else keep (λ x. x.id == pp.id) rs)
                  ≤ 1)
                k one in
            let found = keep-find p pp rs (omega (arith, bound)) later in
            let size : length (keep (λ x. x.id == pp.id) rs) ≡ 1 = ap length found in
            absurd (omega (arith, size, bound))
      ]
]

-- A table has at most one row of a key.
abbrev pub IsKeyed : List PlatformPost → Type 0
IsKeyed rs = (id : ℕ) → length (keep (λ r. r.id == id) rs) ≤ 1

pub time-IsRead :
    (rs : List PlatformPost) (e : QueueEntry) (pp : PlatformPost) (o : Option ℕ) (xs : List Slotted)
    → keep (λ r. r.id == pp.id) rs ≡ pp ∷ []
    → pp.scheduled_at ≡ o
    → All (IsRead rs) xs
    → All (IsRead rs) (add_slotted e pp o xs)
time-IsRead rs e pp none xs row time h = h
time-IsRead rs e pp (some t) xs row time h = ((row, time), h)

pub child-IsRead :
    (p : PlatformPost → Bool) (rs : List PlatformPost) (e : QueueEntry) (o : Option PlatformPost)
    (xs : List Slotted)
    → IsKeyed rs
    → find p rs ≡ o
    → All (IsRead rs) xs
    → All (IsRead rs) (add_if_slotted e o xs)
child-IsRead p rs e none xs keyed found h = h
child-IsRead p rs e (some pp) xs keyed found h =
    time-IsRead rs e pp pp.scheduled_at xs (keep-find p pp rs (keyed pp.id) found) refl h

pub placed-IsRead :
    (queue : Queue) (s : Store) (o : Option QueueEntry) (rest : List Placed)
    → IsKeyed s.platform_posts
    → All (IsRead s.platform_posts) (slotted rest)
    → All (IsRead s.platform_posts) (slotted (add_placed o queue s rest))
unfolding slotted
placed-IsRead queue s none rest keyed h = h
placed-IsRead queue s (some e) rest keyed h =
    elim (Bool-cases (any_protected (platform_post_for e.post queue.account s.platform_posts))) [
      | inl k ↦ rw k h
      | inr k ↦ rw k (
          child-IsRead _ s.platform_posts e
            (platform_post_for e.post queue.account s.platform_posts) (slotted rest) keyed refl h)
    ]

pub slotted-IsRead :
    (queue : Queue) (s : Store) (ids : List ℕ)
    → IsKeyed s.platform_posts
    → All (IsRead s.platform_posts) (slotted (ordered_entries queue s ids))
unfolding slotted ordered_entries
slotted-IsRead queue s [] keyed = tt
slotted-IsRead queue s (id ∷ ids) keyed =
    placed-IsRead queue s (find (λ e. e.queue == queue.id && e.id == id) s.entries)
      (ordered_entries queue s ids) keyed (slotted-IsRead queue s ids keyed)
