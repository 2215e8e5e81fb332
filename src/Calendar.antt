-- ===== src/Calendar.antt =====
-- The queue's slots: apps/calendar/services.py, and `PostingSlot` of apps/calendar/models.py. The
-- calendar itself is the parameter: the weekday of a date, the instant of a date and a wall-clock
-- time in the workspace's zone, and the local date of an instant. A table stands in its query's
-- order.
pub mod Horizon
pub mod Openings
pub mod Placing
pub mod Removal
pub mod Drag
pub mod Dragged
pub mod Reorder
pub mod Retimed
pub mod Reordered
pub mod Repair
pub mod Pinned
pub mod Repaired
pub mod Rerun
pub mod Bulk
pub mod Spared
pub mod Reach
pub mod Bulked
pub mod MoveExamples
pub mod Examples
use osir_ai.Prelude.{
  ℕ, zero, suc, ◌+◌, Bool, true, false, ◌&&◌, ◌||◌, not, List, [], ◌∷◌, ◌++◌, Option, none, some,
  ◌==◌, leb, ltb, max, if◌then◌else◌, keep, find, length, member, update_where, Result, ok, err,
  ◌>>=◌, queue_full,
}
use osir_ai.Workflow.{draft, can_transition_to, Status, protected_statuses, status_in}
use osir_ai.Composer.{transition_platform_post}
use osir_ai.Records.{PlatformPost, QueueEntry, Queue, Store, children, update_platform_post}
use osir_ai.Composer.Sync.{sync_post_scheduled_at}

-- A time is a wall-clock time, in minutes.
pub record PostingSlot : Type 0 where
  pub account : ℕ
  pub day_of_week : ℕ
  pub time : ℕ
  pub is_active : Bool

-- Where the walk over the slots of a day ends: at a `return`, or after the last slot.
pub data Walk : Type 0 where
  returned going : List ℕ → Walk

abbrev pub lookahead_days : ℕ
lookahead_days = 60

abbrev pub active_slots : ℕ → List PostingSlot → List PostingSlot
active_slots account = keep (λ s. s.account == account && s.is_active)

-- `set(values)`
unfoldable pub set_of : List ℕ → List ℕ
set_of [] = []
set_of (t ∷ ts) = let rest = set_of ts in if member t ts then rest else t ∷ rest

-- `scheduled_at` is set and lies ahead
abbrev pub future_time : ℕ → Option ℕ → List ℕ
future_time now none = []
future_time now (some t) = if ltb now t then t ∷ [] else []

abbrev pub is_protected : PlatformPost → Bool
is_protected pp = status_in pp.status protected_statuses

unfoldable pub occupied_times : ℕ → ℕ → List ℕ → List PlatformPost → List ℕ
occupied_times now account exclude [] = []
occupied_times now account exclude (pp ∷ pps) =
    let rest = occupied_times now account exclude pps in
    if pp.account == account && not (is_protected pp) && not (member pp.id exclude)
    then future_time now pp.scheduled_at ++ rest
    else rest

-- `_occupied_datetimes`
unfoldable pub occupied_datetimes : ℕ → ℕ → List ℕ → List PlatformPost → List ℕ
unfolding set_of occupied_times
occupied_datetimes now account exclude pps = set_of (occupied_times now account exclude pps)

-- `_platform_post_for`
abbrev pub platform_post_for : ℕ → ℕ → List PlatformPost → Option PlatformPost
platform_post_for post account pps = find (λ pp. pp.post == post && pp.account == account) pps

-- `aggregate(Max("position"))["m"] or 0`
unfoldable pub max_position : List QueueEntry → ℕ
max_position [] = 0
max_position (e ∷ es) = max e.position (max_position es)

abbrev pub find_entry : ℕ → ℕ → List QueueEntry → Option QueueEntry
find_entry post queue es = find (λ e. e.queue == queue && e.post == post) es

-- `_ensure_entry`
unfoldable pub ensure_entry : ℕ → ℕ → Store → QueueEntry × Store
ensure_entry post queue s = elim (find_entry post queue s.entries) [
  | some e ↦ (e, s)
  | none ↦
      let e : QueueEntry = record {
        id = s.next_id;
        queue = queue;
        post = post;
        position = max_position (keep (λ x. x.queue == queue) s.entries) + 1;
        assigned_slot = none;
      } in
      (e, record s { entries = s.entries ++ (e ∷ []); next_id = suc s.next_id })
]

-- What `_write_slot` does when the post has a child on the channel.
abbrev pub write_time : Option PlatformPost → ℕ → Store → Store
write_time none slot s = s
write_time (some pp) slot s = sync_post_scheduled_at pp.post (record s {
  platform_posts =
      update_platform_post pp.id (λ r. record r { scheduled_at = some slot }) s.platform_posts;
})

-- `_write_slot`
unfoldable pub write_slot : QueueEntry → Option PlatformPost → ℕ → Store → Store
write_slot e pp slot s = write_time pp slot (record s {
  entries =
      update_where (λ x. x.id == e.id) (λ x. record x { assigned_slot = some slot }) s.entries;
})

abbrev pub own_id : Option PlatformPost → List ℕ
own_id none = []
own_id (some pp) = pp.id ∷ []

abbrev pub place : ℕ → Queue → Option PlatformPost → Option ℕ → Store → Result Store
place post queue pp none s = err queue_full
place post queue pp (some slot) s =
    let (entry, s1) = ensure_entry post queue.id s in ok (write_slot entry pp slot s1)

abbrev pub any_protected : Option PlatformPost → Bool
any_protected none = false
any_protected (some pp) = is_protected pp

-- The child is drafted where that is allowed.
unfoldable pub unschedule : ℕ → Option PlatformPost → Store → Result Store
unschedule now none s = ok s
unschedule now (some pp) s =
    if not (is_protected pp) && can_transition_to pp.status draft
    then transition_platform_post pp draft none now s
    else ok s

-- `entry.delete()`
unfoldable pub delete_entry : ℕ → Store → Store
delete_entry id s = record s { entries = keep (λ e. not (e.id == id)) s.entries }

-- `remove_from_queue`, of an entry of the queue
unfoldable pub remove_from_queue : ℕ → QueueEntry → Queue → Store → Result Store
remove_from_queue now entry queue s = do
  s1 ← unschedule now (platform_post_for entry.post queue.account s.platform_posts) s
  ok (sync_post_scheduled_at entry.post (delete_entry entry.id s1))

module _ (weekday : ℕ → ℕ) (instant : ℕ → ℕ → ℕ) where
  -- The tests of the inner loop that do not `continue`.
  unfoldable pub is_candidate : ℕ → ℕ → PostingSlot → Bool
  is_candidate after date slot =
      slot.day_of_week == weekday date && ltb after (instant date slot.time)

  -- The inner loop of `_next_slot_datetimes`
  unfoldable pub walk_slots : ℕ → ℕ → ℕ → List PostingSlot → List ℕ → Walk
  walk_slots after count date [] results = going results
  walk_slots after count date (slot ∷ slots) results =
      let more = results ++ (instant date slot.time ∷ []) in
      elim (is_candidate after date slot) [
        | false ↦ walk_slots after count date slots results
        | true ↦ elim (leb count (length more)) [
          | true ↦ returned more
          | false ↦ walk_slots after count date slots more
        ]
      ]

  -- The outer loop, for the days that are left.
  unfoldable pub walk_days : ℕ → ℕ → List PostingSlot → ℕ → ℕ → List ℕ → List ℕ
  walk_days after count slots zero date results = results
  walk_days after count slots (suc days) date results =
      elim (walk_slots after count date slots results) [
        | returned found ↦ found
        | going found ↦ walk_days after count slots days (suc date) found
      ]

  module _ (local_date : ℕ → ℕ) where
    -- `_next_slot_datetimes`; with no slot both loops find none.
    unfoldable pub next_slot_datetimes : List PostingSlot → ℕ → ℕ → ℕ → List ℕ
    unfolding walk_days
    next_slot_datetimes slots account after count =
        walk_days after count (active_slots account slots) lookahead_days (local_date after) []

    -- `_next_available_slot`, from now on
    unfoldable pub next_available_slot :
        List PostingSlot → ℕ → ℕ → List ℕ → List PlatformPost → Option ℕ
    next_available_slot slots now account exclude pps =
        let occupied = occupied_datetimes now account exclude pps in
        find (λ t. not (member t occupied))
          (next_slot_datetimes slots account now (length occupied + 1))

    unfoldable pub add_post_next_available : List PostingSlot → ℕ → ℕ → Queue → Store → Result Store
    add_post_next_available slots now post queue s =
        let pp = platform_post_for post queue.account s.platform_posts in
        let slot = next_available_slot slots now queue.account (own_id pp) s.platform_posts in
        if any_protected pp then ok s else place post queue pp slot s
