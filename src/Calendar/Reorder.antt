-- ===== src/Calendar/Reorder.antt =====
-- `reorder_queue` and the two dispatchers of apps/calendar/services.py.
use osir_ai.Prelude.{
  ℕ, ◌+◌, ◌&&◌, List, [], ◌∷◌, Option, none, some, ◌==◌, if◌then◌else◌, find, map, update_where,
  sorted,
}
use osir_ai.Records.{PlatformPost, QueueEntry, Queue, Store}
use osir_ai.Calendar.{platform_post_for, any_protected, write_slot}

-- An entry, and the platform post of its post on the queue's channel.
pub record Placed : Type 0 where
  pub entry : QueueEntry
  pub child : Option PlatformPost

-- One that holds a slot, and the time of it.
pub record Slotted : Type 0 where
  pub entry : QueueEntry
  pub child : PlatformPost
  pub time : ℕ

abbrev pub add_placed : Option QueueEntry → Queue → Store → List Placed → List Placed
add_placed none queue s rest = rest
add_placed (some e) queue s rest =
    let p = platform_post_for e.post queue.account s.platform_posts in
    if any_protected p then rest else record { entry = e; child = p } ∷ rest

-- The loop over the ids: the entries of the queue that can be moved, in the given order.
unfoldable pub ordered_entries : Queue → Store → List ℕ → List Placed
ordered_entries queue s [] = []
ordered_entries queue s (id ∷ ids) =
    add_placed (find (λ e. e.queue == queue.id && e.id == id) s.entries) queue s
      (ordered_entries queue s ids)

abbrev pub add_slotted : QueueEntry → PlatformPost → Option ℕ → List Slotted → List Slotted
add_slotted e p none rest = rest
add_slotted e p (some t) rest = record { entry = e; child = p; time = t } ∷ rest

abbrev pub add_if_slotted : QueueEntry → Option PlatformPost → List Slotted → List Slotted
add_if_slotted e none rest = rest
add_if_slotted e (some p) rest = add_slotted e p p.scheduled_at rest

-- `[(e, p) for e, p in ordered if p is not None and p.scheduled_at is not None]`
unfoldable pub slotted : List Placed → List Slotted
slotted [] = []
slotted (x ∷ xs) = add_if_slotted x.entry x.child (slotted xs)

abbrev pub slot_times : List Slotted → List ℕ
slot_times = map (λ (x : Slotted). x.time)

-- The loop that writes the slots, which are as many as the entries.
unfoldable pub write_slots : List Slotted → List ℕ → Store → Store
write_slots [] slots s = s
write_slots (x ∷ xs) [] s = s
write_slots (x ∷ xs) (slot ∷ slots) s =
    write_slots xs slots (write_slot x.entry (some x.child) slot s)

-- The loop that writes the positions.
unfoldable pub write_positions : ℕ → List Placed → Store → Store
write_positions index [] s = s
write_positions index (x ∷ xs) s = write_positions (index + 1) xs (
    if x.entry.position == index then s else record s {
      entries =
          update_where (λ e. e.id == x.entry.id) (λ e. record e { position = index }) s.entries;
    })

-- `reorder_queue`
unfoldable pub reorder_queue : Queue → List ℕ → Store → Store
reorder_queue queue ids s =
    let ordered = ordered_entries queue s ids in
    let holders = slotted ordered in
    write_positions 0 ordered (write_slots holders (sorted (slot_times holders)) s)
