-- ===== src/Calendar/Examples.antt =====
-- The queue of a channel with a slot on each of the first two days of the week.
use osir_ai.Prelude.{
  ◌⊎◌, ◌||◌, ℕ, ◌≡◌, ◌≢◌, sym, ◌∙◌, ◌==◌, ◌&&◌, all, Bool-cases, inl, inr, ◌<◌, ◌*◌, ◌+◌, ◌/◌, ◌%◌,
  refl, Bool, true, false, List, [], ◌∷◌, Option, some, none, arith, find, not, member, take, All,
  ok,
}
use osir_ai.Workflow.{status_in, reschedulable_statuses, scheduled, draft, can_transition_to}
use osir_ai.Composer.Earliest.{Synced}
use osir_ai.Calendar.Drag.{
  Caller, is_author, rescheduled, reschedule_fields, reschedule_platform_post,
}
use osir_ai.Calendar.Dragged.{reschedule_platform_post-ok}
use osir_ai.Records.{QueueEntry, PlatformPost, Queue, Store, not_requested, update_platform_post}
use osir_ai.Composer.Sync.{sync_post_scheduled_at, sync_row, child_times, least}
use osir_ai.Calendar.{
  PostingSlot, next_slot_datetimes, next_available_slot, occupied_datetimes, occupied_times, set_of,
  add_post_next_available, is_protected, walk_days, walk_slots, is_candidate, ensure_entry,
  max_position, write_slot,
}
use osir_ai.Calendar.Horizon.{horizon, horizon_from, next_slot_datetimes-horizon}
use osir_ai.Calendar.Openings.{Distinct, next_available_slot-first}
use osir_ai.Calendar.Placing.{add_post_next_available-free}

-- Dates are numbered from a Monday, an instant is the number of its minute.
abbrev weekday : ℕ → ℕ
weekday date = date % 7

abbrev instant : ℕ → ℕ → ℕ
instant date time = date * 1440 + time

abbrev local_date : ℕ → ℕ
local_date t = t / 1440

abbrev slots : List PostingSlot
slots =
    record { account = 7; day_of_week = 0; time = 600; is_active = true }
    ∷ record { account = 7; day_of_week = 1; time = 700; is_active = true }
    ∷ []

next_slot_datetimes-horizon_example :
    next_slot_datetimes weekday instant local_date slots 7 650 3
    ≡ take 3 (horizon weekday instant local_date slots 7 650)
next_slot_datetimes-horizon_example =
    next_slot_datetimes-horizon weekday instant local_date slots 7 650 3 (omega arith)

first_three_test :
    next_slot_datetimes weekday instant local_date slots 7 650 3 ≡ (2140 ∷ 10680 ∷ 12220 ∷ [])
unfolding next_slot_datetimes walk_days walk_slots is_candidate
first_three_test = refl

abbrev row : ℕ → ℕ → Option ℕ → PlatformPost
row id post at = record {
  id = id;
  post = post;
  account = 7;
  specific_title = none;
  specific_caption = none;
  specific_media = none;
  specific_first_comment = none;
  extra = [];
  status = scheduled;
  platform_post_id = [];
  publish_error = [];
  published_at = none;
  comment_status = not_requested;
  comment_id = [];
  comment_error = [];
  comment_retries = 0;
  comment_posted_at = none;
  scheduled_at = at;
  retry_count = 0;
  next_retry_at = none;
}

abbrev rows : List PlatformPost
rows = row 11 1 (some 2140) ∷ row 12 2 none ∷ []

abbrev all_differ : List ℕ → Bool
all_differ [] = true
all_differ (t ∷ ts) = all (λ u. not (u == t)) ts && all_differ ts

all-All : (t : ℕ) (ts : List ℕ) → all (λ u. not (u == t)) ts ≡ true → All (λ u. (u == t) ≡ false) ts
all-All t [] h = tt
all-All t (u ∷ us) h = elim (Bool-cases (u == t)) [
  | inl e ↦ absurd (ground (arith, h, e))
  | inr e ↦ (e, all-All t us (sym (rw e refl) ∙ h))
]

all_differ-Distinct : (ts : List ℕ) → all_differ ts ≡ true → Distinct ts
all_differ-Distinct [] h = tt
all_differ-Distinct (t ∷ ts) h = elim (Bool-cases (all (λ u. not (u == t)) ts)) [
  | inl e ↦ (all-All t ts e, all_differ-Distinct ts (sym (rw e refl) ∙ h))
  | inr e ↦ absurd (ground (arith, h, e))
]

slots-Distinct : Distinct (horizon weekday instant local_date slots 7 650)
unfolding horizon_from is_candidate
slots-Distinct = all_differ-Distinct (horizon weekday instant local_date slots 7 650) refl

next_available_slot-first_example :
    next_available_slot weekday instant local_date slots 650 7 [] rows
    ≡ find
        (λ t. not (member t (occupied_datetimes 650 7 [] rows)))
        (horizon weekday instant local_date slots 7 650)
next_available_slot-first_example =
    next_available_slot-first weekday instant local_date slots 650 7 [] rows slots-Distinct

abbrev queue : Queue
queue = record { id = 4; workspace = 5; account = 7 }

abbrev store : Store
store = record {
  posts = [];
  platform_posts = rows;
  media = [];
  queues = queue ∷ [];
  entries = [];
  workspaces = [];
  assets = [];
  next_id = 20;
}

-- The first free slot is the Monday after.
abbrev placed : Store
placed = record store {
  platform_posts = row 11 1 (some 2140) ∷ row 12 2 (some 10680) ∷ [];
  entries = record { id = 20; queue = 4; post = 2; position = 1; assigned_slot = some 10680 } ∷ [];
  next_id = 21;
}

second_post_placed :
    add_post_next_available weekday instant local_date slots 650 2 queue store ≡ ok placed
unfolding add_post_next_available next_available_slot next_slot_datetimes walk_days walk_slots
    is_candidate occupied_datetimes occupied_times set_of ensure_entry max_position write_slot
    sync_post_scheduled_at sync_row child_times least
second_post_placed = refl

add_post_next_available-free_example :
    (slot : ℕ) × (650 < slot)
    × (placed.platform_posts
        ≡ update_platform_post 12 (λ r. record r { scheduled_at = some slot }) store.platform_posts)
    × All
        (λ r. r.account ≡ 7 → is_protected r ≡ false → r.id ≢ 12 → r.scheduled_at ≢ some slot)
        store.platform_posts
add_post_next_available-free_example =
    add_post_next_available-free weekday instant local_date slots 650 2 queue store (row 12 2 none)
      refl refl second_post_placed

abbrev placed_entry : QueueEntry
placed_entry = record { id = 20; queue = 4; post = 2; position = 1; assigned_slot = some 10680 }

drafting_allowed :
    (not (is_protected (row 12 2 (some 10680))) && can_transition_to scheduled draft) ≡ true
unfolding can_transition_to
drafting_allowed = refl

abbrev draft_row : PlatformPost
draft_row = record (row 11 1 none) { status = draft }

abbrev drafts : Store
drafts = record store { platform_posts = draft_row ∷ row 12 2 none ∷ [] }

abbrev editor : Caller
editor = record { user = 9; edit_others_posts = true; publish_directly = true }

-- The draft is dragged to a time, and is scheduled by that.
abbrev dragged : Store
dragged = record store {
  platform_posts =
      record draft_row { status = scheduled; scheduled_at = some 5000 } ∷ row 12 2 none ∷ [];
}

draft_dragged : reschedule_platform_post editor draft_row 5000 drafts ≡ ok dragged
unfolding reschedule_platform_post rescheduled reschedule_fields can_transition_to
    sync_post_scheduled_at sync_row child_times least
draft_dragged = refl

reschedule_platform_post-ok_example :
    (status_in draft reschedulable_statuses ≡ true)
    × ((is_author 9 (find (λ p. p.id == 1) drafts.posts) || true) ≡ true)
    × All
        (λ r.
          r.id ≡ 11
          → (r.scheduled_at ≡ some 5000)
            × ((r.status ≡ draft) ⊎ ((r.status ≡ scheduled) × (true ≡ true))))
        dragged.platform_posts
    × Synced dragged
reschedule_platform_post-ok_example =
    reschedule_platform_post-ok editor draft_row 5000 drafts dragged tt
      ((λ _. refl), ((λ e. absurd (ground arith)), tt)) draft_dragged
