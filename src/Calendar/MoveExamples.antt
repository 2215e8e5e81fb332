-- ===== src/Calendar/MoveExamples.antt =====
-- A queue of three entries, the second of which is already published, named in a new order; and a
-- post whose published child was dragged past its publication, with one that waits for the post's
-- time.
use osir_ai.Prelude.{
  ℕ, ◌≡◌, refl, true, false, List, [], ◌∷◌, none, some, map, arith, booked, keep, ◌==◌, Bool-cases,
  inl, inr, length,
}
use osir_ai.Workflow.{Status, scheduled, published}
use osir_ai.Records.{PlatformPost, QueueEntry, Queue, Store, not_requested}
use osir_ai.Calendar.Reorder.{ordered_entries, slotted, reorder_queue}
use osir_ai.Calendar.Retimed.{times_of, IsKeyed}
use osir_ai.Calendar.Repair.{repair_future_published_scheduled_at}
use osir_ai.Calendar.Pinned.{due_at}
use osir_ai.Calendar.Repaired.{is_waiting, repair-due}
use osir_ai.Composer.Sync.{child_times, least}
use osir_ai.Composer.Earliest.{earliest}
use osir_ai.Calendar.Drag.{Caller}
use osir_ai.Calendar.Bulk.{
  Touched, to_draft, is_selected, by_due, act, bulk_written, bulk_platform_action,
}
use osir_ai.Calendar.Reach.{is_out}
use osir_ai.Calendar.Bulked.{bulk_platform_action-spared}
use osir_ai.Calendar.Reordered.{reorder_queue-booked}

abbrev child : ℕ → Status → ℕ → PlatformPost
child id status at = record {
  id = id;
  post = id;
  account = 7;
  specific_title = none;
  specific_caption = none;
  specific_media = none;
  specific_first_comment = none;
  extra = [];
  status = status;
  platform_post_id = [];
  publish_error = [];
  published_at = none;
  comment_status = not_requested;
  comment_id = [];
  comment_error = [];
  comment_retries = 0;
  comment_posted_at = none;
  scheduled_at = some at;
  retry_count = 0;
  next_retry_at = none;
}

abbrev slot_entry : ℕ → ℕ → QueueEntry
slot_entry id position = record {
  id = id;
  queue = 5;
  post = id;
  position = position;
  assigned_slot = none;
}

abbrev queue : Queue
queue = record { id = 5; workspace = 1; account = 7 }

abbrev store : Store
store = record {
  posts = [];
  platform_posts = child 1 scheduled 100 ∷ child 2 published 200 ∷ child 3 scheduled 300 ∷ [];
  media = [];
  queues = queue ∷ [];
  entries = slot_entry 1 1 ∷ slot_entry 2 2 ∷ slot_entry 3 3 ∷ [];
  workspaces = [];
  assets = [];
  next_id = 10;
}

store-IsKeyed : IsKeyed store.platform_posts
store-IsKeyed id = elim (Bool-cases (1 == id)) [
  | inl a ↦
      let b : (2 == id) ≡ false = ground arith in
      let c : (3 == id) ≡ false = ground arith in rw (a, b, c) (omega arith)
  | inr a ↦ elim (Bool-cases (2 == id)) [
    | inl b ↦ let c : (3 == id) ≡ false = ground arith in rw (a, b, c) (omega arith)
    | inr b ↦ elim (Bool-cases (3 == id)) [
      | inl c ↦ rw (a, b, c) (omega arith)
      | inr c ↦ rw (a, b, c) (omega arith)
    ]
  ]
]

reorder_queue-booked_example :
    booked (times_of (reorder_queue queue (3 ∷ 2 ∷ 1 ∷ []) store).platform_posts)
    ≡ booked (times_of store.platform_posts)
unfolding ordered_entries slotted
reorder_queue-booked_example =
    reorder_queue-booked queue (3 ∷ 2 ∷ 1 ∷ []) store store-IsKeyed ((refl, tt), (tt, tt))

abbrev dragged : Store
dragged = record store {
  posts =
      record {
        id = 1;
        workspace = 1;
        author = none;
        title = [];
        caption = [];
        first_comment = [];
        internal_notes = [];
        tags = [];
        category = none;
        scheduled_at = some 200;
        published_at = some 100;
        proposed_publish_at = none;
      }
      ∷ [];
  platform_posts =
      record (child 1 published 200) { published_at = some 100 }
      ∷ record (child 2 scheduled 0) { post = 1; scheduled_at = none }
      ∷ [];
}

repair-due_example :
    map
      (due_at (repair_future_published_scheduled_at none true dragged).1.posts)
      (keep is_waiting (repair_future_published_scheduled_at none true dragged).1.platform_posts)
    ≡ map (due_at dragged.posts) (keep is_waiting dragged.platform_posts)
unfolding earliest child_times least
repair-due_example = repair-due none true dragged (refl, tt)

abbrev editor_in_chief : Caller
editor_in_chief = record { user = 9; edit_others_posts = true; publish_directly = false }

abbrev acted_on : List Touched
acted_on = act 500 to_draft (
    by_due dragged.posts
      (keep (is_selected editor_in_chief 1 (1 ∷ 2 ∷ []) dragged.posts) dragged.platform_posts))

dragged-IsKeyed : IsKeyed dragged.platform_posts
dragged-IsKeyed id = elim (Bool-cases (1 == id)) [
  | inl a ↦ let b : (2 == id) ≡ false = ground arith in rw (a, b) (omega arith)
  | inr a ↦ elim (Bool-cases (2 == id)) [
    | inl b ↦ rw (a, b) (omega arith)
    | inr b ↦ rw (a, b) (omega arith)
  ]
]

bulk_platform_action-spared_example :
    keep
      (is_out editor_in_chief 1 (1 ∷ 2 ∷ []) dragged.posts)
      (bulk_written 1 to_draft 500 acted_on dragged).platform_posts
    ≡ keep (is_out editor_in_chief 1 (1 ∷ 2 ∷ []) dragged.posts) dragged.platform_posts
unfolding bulk_platform_action
bulk_platform_action-spared_example =
    bulk_platform_action-spared 1 editor_in_chief (some to_draft) (1 ∷ 2 ∷ []) 500 (length acted_on)
      dragged (bulk_written 1 to_draft 500 acted_on dragged) dragged-IsKeyed refl
