-- ===== src/Calendar/Placing.antt =====
-- Where `add_post_next_available` of apps/calendar/services.py puts a post.
use osir_ai.Prelude.{
  ℕ, zero, suc, ◌+◌, ◌<◌, ◌≡◌, ◌≢◌, refl, sym, ap, ◌∙◌, Bool, true, false, ◌&&◌, ◌||◌, not, List,
  [], ◌∷◌, ◌++◌, ◌==◌, ltb, inl, inr, Option, none, some, find, length, member, All, All-map,
  All-append, arith, Bool-cases, Option-cases, ==_iff, ltb→lt, ok, ok_injective,
}
use mathlib.Core.Option.{some-injective}
use osir_ai.Records.{PlatformPost, Queue, Store, update_platform_post}
use osir_ai.Calendar.{
  PostingSlot, set_of, future_time, is_protected, occupied_times, occupied_datetimes,
  next_slot_datetimes, next_available_slot, platform_post_for, add_post_next_available, place,
  ensure_entry, write_slot, is_candidate, active_slots, find_entry,
}
use osir_ai.Calendar.Horizon.{horizon_from, day_times, next_slot_datetimes-horizon}
use osir_ai.Calendar.Openings.{All-take}
use osir_ai.Composer.Sync.{sync_post_scheduled_at}

or_true : (b : Bool) → (b || true) ≡ true
or_true true = refl
or_true false = refl

member-append : (t : ℕ) (xs ys : List ℕ) → member t (xs ++ ys) ≡ (member t xs || member t ys)
member-append t [] ys = refl
member-append t (x ∷ xs) ys = elim (Bool-cases (t == x)) [
  | inl e ↦ rw e
  | inr e ↦ rw (e, member-append t xs ys)
]

member-set_of : (t : ℕ) (ts : List ℕ) → member t (set_of ts) ≡ member t ts
unfolding set_of
member-set_of t [] = refl
member-set_of t (x ∷ xs) = elim (Bool-cases (member x xs)) [
  | inl e ↦ elim (Bool-cases (t == x)) [
    | inl k ↦ let here : t ≡ x = (==_iff t x).0 k in rw (e, k, member-set_of t xs, here, e)
    | inr k ↦ rw (e, k, member-set_of t xs)
  ]
  | inr e ↦ rw (e, member-set_of t xs)
]

-- A row of the channel that could clash: not protected, not left out, and due at a time ahead.
record IsRival (now account : ℕ) (exclude : List ℕ) (t : ℕ) (r : PlatformPost) : Type 0 where
  on_channel : (r.account == account) ≡ true
  movable : is_protected r ≡ false
  counted : member r.id exclude ≡ false
  at : r.scheduled_at ≡ some t
  ahead : ltb now t ≡ true

rival_first :
    (now account : ℕ) (exclude : List ℕ) (t : ℕ) (pp : PlatformPost) (pps : List PlatformPost)
    → IsRival now account exclude t pp
    → member t (occupied_times now account exclude (pp ∷ pps)) ≡ true
unfolding occupied_times
rival_first now account exclude t pp pps rival =
    let self : (t == t) ≡ true = ground arith in
    rw (rival.on_channel, rival.movable, rival.counted, rival.at, rival.ahead, self)

occupied_later :
    (now account : ℕ) (exclude : List ℕ) (t : ℕ) (pp : PlatformPost) (pps : List PlatformPost)
    → member t (occupied_times now account exclude pps) ≡ true
    → member t (occupied_times now account exclude (pp ∷ pps)) ≡ true
unfolding occupied_times
occupied_later now account exclude t pp pps h =
    elim (Bool-cases
      (pp.account == account && not (is_protected pp) && not (member pp.id exclude))) [
        | inl e ↦
            rw
              (
                e,
                member-append t (future_time now pp.scheduled_at)
                    (occupied_times now account exclude pps),
                h,
              )
              (or_true _)
        | inr e ↦ rw e h
      ]

member-occupied_times :
    (now account : ℕ) (exclude : List ℕ) (t : ℕ) (pps : List PlatformPost)
    → All
        (λ r.
          IsRival now account exclude t r
          → member t (occupied_times now account exclude pps) ≡ true)
        pps
member-occupied_times now account exclude t [] = tt
member-occupied_times now account exclude t (pp ∷ pps) = (
  rival_first now account exclude t pp pps,
  All-map _ _ pps (λ r k rival. occupied_later now account exclude t pp pps (k rival))
      (member-occupied_times now account exclude t pps),
)

find_holds : (p : ℕ → Bool) (ts : List ℕ) {t : ℕ} → find p ts ≡ some t → p t ≡ true
find_holds p [] h = grind arith
find_holds p (u ∷ us) h = elim (Bool-cases (p u)) [
  | inl e ↦ rw⁻¹ (some-injective u _ (sym (rw e refl) ∙ h)) e
  | inr e ↦ find_holds p us (sym (rw e refl) ∙ h)
]

find_All :
    (P : ℕ → Type 0) (p : ℕ → Bool) (ts : List ℕ) {t : ℕ} → All P ts → find p ts ≡ some t → P t
find_All P p [] a h = grind arith
find_All P p (u ∷ us) a h = elim (Bool-cases (p u)) [
  | inl e ↦ rw⁻¹ (some-injective u _ (sym (rw e refl) ∙ h)) a.0
  | inr e ↦ find_All P p us a.1 (sym (rw e refl) ∙ h)
]

module _ (weekday : ℕ → ℕ) (instant : ℕ → ℕ → ℕ) where
  day_times_ahead :
      (after date : ℕ) (slots : List PostingSlot)
      → All (λ t. ltb after t ≡ true) (day_times weekday instant after date slots)
  unfolding is_candidate
  day_times_ahead after date [] = tt
  day_times_ahead after date (slot ∷ slots) =
      let rest = day_times_ahead after date slots in
      elim (Bool-cases (is_candidate weekday instant after date slot)) [
        | inr e ↦ rw e rest
        | inl e ↦ rw e (ground arith, rest)
      ]

  horizon_ahead :
      (after : ℕ) (slots : List PostingSlot) (days date : ℕ)
      → All (λ t. ltb after t ≡ true) (horizon_from weekday instant after slots days date)
  unfolding horizon_from
  horizon_ahead after slots zero date = tt
  horizon_ahead after slots (suc days) date =
      All-append _ (day_times weekday instant after date slots) _ (day_times_ahead after date slots)
        (horizon_ahead after slots days (suc date))

platform_posts-ensure_entry :
    (post queue : ℕ) (s : Store) → (ensure_entry post queue s).1.platform_posts ≡ s.platform_posts
unfolding ensure_entry
platform_posts-ensure_entry post queue s = elim (Option-cases (find_entry post queue s.entries)) [
  | inl e ↦ rw (ensure_entry, e)
  | inr (x, e) ↦ rw (ensure_entry, e)
]

-- A placing that succeeds gives the child of the post the slot, and touches no other child.
place-ok :
    (post : ℕ) (queue : Queue) (pp : PlatformPost) (found : Option ℕ) (s : Store) {s' : Store}
    → place post queue (some pp) found s ≡ ok s'
    → (slot : ℕ) × (found ≡ some slot)
      × (s'.platform_posts
          ≡ update_platform_post pp.id
              (λ r. record r { scheduled_at = some slot })
              s.platform_posts)
unfolding write_slot sync_post_scheduled_at
place-ok post queue pp none s h = cc
place-ok post queue pp (some slot) s h = (
  slot,
  refl,
  ap (λ x. x.platform_posts) (sym (ok_injective h))
      ∙ ap (update_platform_post pp.id (λ r. record r { scheduled_at = some slot }))
          (platform_posts-ensure_entry post queue.id s),
)

module _ (weekday : ℕ → ℕ) (instant : ℕ → ℕ → ℕ) (local_date : ℕ → ℕ) where
  next_available_slot-free :
      (slots : List PostingSlot) (now account : ℕ) (exclude : List ℕ) (pps : List PlatformPost)
      {t : ℕ}
      → next_available_slot weekday instant local_date slots now account exclude pps ≡ some t
      → (ltb now t ≡ true) × (member t (occupied_times now account exclude pps) ≡ false)
  unfolding next_available_slot occupied_datetimes
  next_available_slot-free slots now account exclude pps {t} h =
      let occupied = occupied_datetimes now account exclude pps in
      let free = find_holds (λ u. not (member u occupied)) _ h in
      let count = length occupied + 1 in
      let found =
        next_slot_datetimes-horizon weekday instant local_date slots account now count
          (omega arith) in
      let ahead =
        All-take _ count _
          (horizon_ahead weekday instant now (active_slots account slots) 60 (local_date now)) in
      (
        find_All (λ u. ltb now u ≡ true) (λ u. not (member u occupied))
            (next_slot_datetimes weekday instant local_date slots account now count)
            (rw found ahead) h,
        not_member free,
      )
    where
      not_member :
          not (member t (set_of (occupied_times now account exclude pps))) ≡ true
          → member t (occupied_times now account exclude pps) ≡ false
      not_member e = rw⁻¹ (member-set_of t (occupied_times now account exclude pps)) (ground arith)

  -- Where the post has a child on the channel that is not yet published or being published, a call
  -- that succeeds gives that child a time ahead that no other such child on the channel has, and
  -- leaves every other child as it was.
  pub add_post_next_available-free :
      (slots : List PostingSlot) (now post : ℕ) (queue : Queue) (s : Store) (pp : PlatformPost)
      {s' : Store}
      → platform_post_for post queue.account s.platform_posts ≡ some pp
      → is_protected pp ≡ false
      → add_post_next_available weekday instant local_date slots now post queue s ≡ ok s'
      → (slot : ℕ) × (now < slot)
        × (s'.platform_posts
            ≡ update_platform_post pp.id
                (λ r. record r { scheduled_at = some slot })
                s.platform_posts)
        × All
            (λ r.
              r.account ≡ queue.account
              → is_protected r ≡ false
              → r.id ≢ pp.id
              → r.scheduled_at ≢ some slot)
            s.platform_posts
  unfolding add_post_next_available
  add_post_next_available-free slots now post queue s pp {s'} child movable h =
      let found =
        next_available_slot weekday instant local_date slots now queue.account (pp.id ∷ [])
          s.platform_posts in
      let placed : place post queue (some pp) found s ≡ ok s' =
        sym (rw (child, movable) refl) ∙ h in
      let (slot, is_slot, rows) = place-ok post queue pp found s placed in
      let (ahead, free) =
        next_available_slot-free slots now queue.account (pp.id ∷ []) s.platform_posts is_slot in
      (
        slot,
        ltb→lt now slot ahead,
        rows,
        All-map _ _ s.platform_posts
            (λ r taken channel unlocked other at.
              let key : (r.id == pp.id) ≡ false = ground arith in
              let same_channel : (r.account == queue.account) ≡ true = ground arith in
              let rival : IsRival now queue.account (pp.id ∷ []) slot r = record {
                on_channel = same_channel;
                movable = unlocked;
                counted = rw key refl;
                at = at;
                ahead = ahead;
              } in
              grind (arith, taken rival, free))
            (member-occupied_times now queue.account (pp.id ∷ []) slot s.platform_posts),
      )
