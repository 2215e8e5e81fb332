-- ===== src/Calendar/Reordered.antt =====
-- What `reorder_queue` of apps/calendar/services.py does to the times of the platform posts.
use osir_ai.Prelude.{
  ℕ, suc, ◌+◌, ◌≡◌, refl, sym, subst, ◌∙◌, ap, arith, Bool, true, false, List, [], ◌∷◌, some, ◌==◌,
  if◌then◌else◌, keep, map, length, update_where, All, tally, booked, sorted, Ascending,
  tally-sorted, length-sorted, sorted-Ascending,
}
use mathlib.Core.Quot
use osir_ai.Records.{PlatformPost, QueueEntry, Queue, Store, update_platform_post}
use osir_ai.Composer.Sync.{sync_post_scheduled_at}
use osir_ai.Calendar.{write_slot}
use osir_ai.Calendar.Reorder.{
  Placed, Slotted, ordered_entries, slotted, slot_times, write_slots, write_positions,
  reorder_queue,
}
use osir_ai.Calendar.Retimed.{
  times_of, time_of, set_time, IsRead, tally-update, keep-update_other, find-keep, keep-update_own,
  NoneTwice, still-IsRead, IsKeyed, slotted-IsRead,
}

platform_posts-write_positions :
    (index : ℕ) (xs : List Placed) (s : Store)
    → (write_positions index xs s).platform_posts ≡ s.platform_posts
unfolding write_positions
platform_posts-write_positions index [] s = refl
platform_posts-write_positions index (x ∷ xs) s =
    platform_posts-write_positions (index + 1) xs _ ∙ untouched (x.entry.position == index)
  where
    untouched :
        (b : Bool)
        → (if b then s else record s {
          entries =
              update_where (λ e. e.id == x.entry.id) (λ e. record e { position = index }) s.entries;
        }).platform_posts
          ≡ s.platform_posts
    untouched true = refl
    untouched false = refl

platform_posts-write_slot :
    (e : QueueEntry) (pp : PlatformPost) (slot : ℕ) (s : Store)
    → (write_slot e (some pp) slot s).platform_posts
      ≡ update_platform_post pp.id (set_time slot) s.platform_posts
unfolding write_slot sync_post_scheduled_at
platform_posts-write_slot e pp slot s = refl

-- The writes take the old times of the entries away and put the slots in.
write_slots-tally :
    (t : ℕ) (xs : List Slotted) (slots : List ℕ) (s : Store)
    → length slots ≡ length xs
    → NoneTwice xs
    → All (IsRead s.platform_posts) xs
    → tally t (times_of (write_slots xs slots s).platform_posts) + tally t (slot_times xs)
      ≡ tally t (times_of s.platform_posts) + tally t slots
unfolding write_slots
write_slots-tally t [] [] s long once read = refl
write_slots-tally t [] (slot ∷ slots) s long once read = absurd (omega (arith, long))
write_slots-tally t (x ∷ xs) [] s long once read = absurd (omega (arith, long))
write_slots-tally t (x ∷ xs) (slot ∷ slots) s long (others, once) ((row, time), read) =
    let s1 = write_slot x.entry (some x.child) slot s in
    let rows1 = platform_posts-write_slot x.entry x.child slot s in
    let ih = write_slots-tally t xs slots s1 (omega (arith, long)) once (
      subst (λ rs. All (IsRead rs) xs) (sym rows1)
        (still-IsRead x xs slot s.platform_posts others read)) in
    let first = ap (λ rs. tally t (times_of rs)) rows1 in
    let one = tally-update t x.child.id x.time slot x.child s.platform_posts row time in
    omega (arith, ih, first, one)

keep-write_slots_other :
    (j : ℕ) (xs : List Slotted) (slots : List ℕ) (s : Store)
    → All (λ y. (y.child.id == j) ≡ false) xs
    → keep (λ r. r.id == j) (write_slots xs slots s).platform_posts
      ≡ keep (λ r. r.id == j) s.platform_posts
unfolding write_slots
keep-write_slots_other j [] slots s others = refl
keep-write_slots_other j (x ∷ xs) [] s others = refl
keep-write_slots_other j (x ∷ xs) (slot ∷ slots) s (away, others) =
    let apart : (j == x.child.id) ≡ false = ground arith in
    keep-write_slots_other j xs slots (write_slot x.entry (some x.child) slot s) others
    ∙ ap (keep (λ r. r.id == j)) (platform_posts-write_slot x.entry x.child slot s)
    ∙ keep-update_other j x.child.id slot s.platform_posts apart

-- Each entry comes out with its slot.
write_slots-times :
    (xs : List Slotted) (slots : List ℕ) (s : Store)
    → length slots ≡ length xs
    → NoneTwice xs
    → All (IsRead s.platform_posts) xs
    → map (λ (x : Slotted). time_of (write_slots xs slots s).platform_posts x.child.id) xs
      ≡ map some slots
unfolding write_slots
write_slots-times [] [] s long once read = refl
write_slots-times [] (slot ∷ slots) s long once read = absurd (omega (arith, long))
write_slots-times (x ∷ xs) [] s long once read = absurd (omega (arith, long))
write_slots-times (x ∷ xs) (slot ∷ slots) s long (others, once) ((row, time), read) =
    let s1 = write_slot x.entry (some x.child) slot s in
    let rows1 = platform_posts-write_slot x.entry x.child slot s in
    let ih = write_slots-times xs slots s1 (omega (arith, long)) once (
      subst (λ rs. All (IsRead rs) xs) (sym rows1)
        (still-IsRead x xs slot s.platform_posts others read)) in
    let kept =
      keep-write_slots_other x.child.id xs slots s1 others
      ∙ ap (keep (λ r. r.id == x.child.id)) rows1
      ∙ keep-update_own x.child.id slot x.child s.platform_posts row in
    let mine =
      find-keep x.child.id (set_time slot x.child) (write_slots xs slots s1).platform_posts kept in
    rw (mine, ih) refl

length-slot_times : (xs : List Slotted) → length (slot_times xs) ≡ length xs
length-slot_times [] = refl
length-slot_times (x ∷ xs) = ap suc (length-slot_times xs)

-- Reordering neither invents nor drops a time: where the keys are unique and no platform post is
-- named twice, the times of all platform posts are, but for their order, those from before.
pub reorder_queue-booked :
    (queue : Queue) (ids : List ℕ) (s : Store)
    → IsKeyed s.platform_posts
    → NoneTwice (slotted (ordered_entries queue s ids))
    → booked (times_of (reorder_queue queue ids s).platform_posts)
      ≡ booked (times_of s.platform_posts)
unfolding reorder_queue
reorder_queue-booked queue ids s keyed once =
    let ordered = ordered_entries queue s ids in
    let xs = slotted ordered in
    let slots = sorted (slot_times xs) in
    let long = length-sorted (slot_times xs) ∙ length-slot_times xs in
    let read = slotted-IsRead queue s ids keyed in
    let rows = platform_posts-write_positions 0 ordered (write_slots xs slots s) in
    ap (λ rs. booked (times_of rs)) rows
    ∙ Quot.sound (λ t.
      let moved = write_slots-tally t xs slots s long once read in
      let same_slots = tally-sorted t (slot_times xs) in omega (arith, moved, same_slots))

-- Under the same conditions, the entries that hold a time come out ascending in the order in which
-- they are named, and hold the times they held, but for their order.
pub reorder_queue-Ascending :
    (queue : Queue) (ids : List ℕ) (s : Store)
    → IsKeyed s.platform_posts
    → NoneTwice (slotted (ordered_entries queue s ids))
    → (slots : List ℕ) × (map
          (λ (x : Slotted). time_of (reorder_queue queue ids s).platform_posts x.child.id)
          (slotted (ordered_entries queue s ids))
        ≡ map some slots)
      × Ascending slots
      × (booked slots ≡ booked (slot_times (slotted (ordered_entries queue s ids))))
unfolding reorder_queue
reorder_queue-Ascending queue ids s keyed once =
    let ordered = ordered_entries queue s ids in
    let xs = slotted ordered in
    let slots = sorted (slot_times xs) in
    let long = length-sorted (slot_times xs) ∙ length-slot_times xs in
    let rows = platform_posts-write_positions 0 ordered (write_slots xs slots s) in
    (
      slots,
      ap (λ rs. map (λ (x : Slotted). time_of rs x.child.id) xs) rows
          ∙ write_slots-times xs slots s long once (slotted-IsRead queue s ids keyed),
      sorted-Ascending (slot_times xs),
      Quot.sound (λ t. tally-sorted t (slot_times xs)),
    )
