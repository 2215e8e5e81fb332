-- ===== src/Calendar/Bulk.antt =====
-- `bulk_platform_action` of apps/calendar/services.py. The table of platform posts stands in the
-- order of creation of their posts.
use osir_ai.Prelude.{
  ℕ, ◌+◌, ◌*◌, Bool, true, false, ◌&&◌, ◌||◌, not, List, [], ◌∷◌, Option, none, some, ◌==◌, leb,
  if◌then◌else◌, find, keep, any, length, member, update_where, Result, ok, err, ◌>>=◌, ◌>>◌,
  raise_if, permission_denied, bad_bulk_request,
}
use osir_ai.Workflow.{draft, failed, scheduled, same, can_transition_to}
use osir_ai.Records.{Post, PlatformPost, QueueEntry, Store, children, update_platform_post}
use osir_ai.Composer.{on_channel}
use osir_ai.Composer.Sync.{sync_post_scheduled_at}
use osir_ai.Publisher.Tables.{coalesce, post_time}
use osir_ai.Calendar.{is_protected}
use osir_ai.Calendar.Drag.{Caller, is_author}
use osir_ai.Calendar.Repair.{in_workspace}

-- `BULK_ACTIONS`
pub data BulkAction : Type 0 where
  to_draft delete publish : BulkAction

-- `F("effective_at").asc(nulls_last=True)`
abbrev pub is_first : Option ℕ → Option ℕ → Bool
is_first (some t) (some u) = leb t u
is_first (some t) none = true
is_first none (some u) = false
is_first none none = true

abbrev pub insert_due : List Post → PlatformPost → List PlatformPost → List PlatformPost
insert_due posts r [] = r ∷ []
insert_due posts r (x ∷ xs) =
    let rest = insert_due posts r xs in
    if is_first (coalesce r.scheduled_at (post_time r.post posts))
      (coalesce x.scheduled_at (post_time x.post posts))
    then r ∷ x ∷ xs
    else x ∷ rest

unfoldable pub by_due : List Post → List PlatformPost → List PlatformPost
by_due posts [] = []
by_due posts (r ∷ rs) = insert_due posts r (by_due posts rs)

-- A row that is named, in the workspace, and that the person may edit.
unfoldable pub is_selected : Caller → ℕ → List ℕ → List Post → PlatformPost → Bool
is_selected caller workspace ids posts r =
    member r.id ids
    && in_workspace (find (λ p. p.id == r.post) posts) workspace
    && (is_author caller.user (find (λ p. p.id == r.post) posts) || caller.edit_others_posts)

-- One row that was acted on, with its new slot, if it has one.
pub record Touched : Type 0 where
  pub child : PlatformPost
  pub slot : Option ℕ

-- The loop of the draft action
unfoldable pub drafted_rows : List PlatformPost → List Touched
drafted_rows [] = []
drafted_rows (r ∷ rs) =
    let rest = drafted_rows rs in
    if is_protected r || same r.status draft
    then rest
    else if not (can_transition_to r.status draft)
    then rest
    else record { child = record r { scheduled_at = none; status = draft }; slot = none } ∷ rest

-- `per_channel.get(account, 0)`
abbrev pub made_for : ℕ → List ℕ → ℕ
made_for account accounts = length (keep (λ a. a == account) accounts)

abbrev pub retried : PlatformPost → PlatformPost
retried r =
    if same r.status failed
    then record r { publish_error = []; retry_count = 0; next_retry_at = none }
    else r

-- The loop of the publish action; the accounts are those of the rows that came before.
unfoldable pub staggered : ℕ → List ℕ → List PlatformPost → List Touched
staggered now accounts [] = []
staggered now accounts (r ∷ rs) =
    let skip = staggered now accounts rs in
    let next = staggered now (r.account ∷ accounts) rs in
    let slot = now + 60 * made_for r.account accounts in
    if is_protected r
    then skip
    else if not (same r.status scheduled) && not (can_transition_to r.status scheduled)
    then skip
    else record {
      child = record (retried r) { scheduled_at = some slot; status = scheduled };
      slot = some slot;
    }
      ∷ next

-- The loop of the delete action
unfoldable pub deletable : List PlatformPost → List Touched
deletable [] = []
deletable (r ∷ rs) =
    let rest = deletable rs in
    if is_protected r then rest else record { child = r; slot = none } ∷ rest

-- The columns that `_bulk_save_platform_posts` writes
abbrev pub saved_fields : PlatformPost → PlatformPost → PlatformPost
saved_fields c r = record r {
  status = c.status;
  scheduled_at = c.scheduled_at;
  publish_error = c.publish_error;
  retry_count = c.retry_count;
  next_retry_at = c.next_retry_at;
}

-- `_bulk_save_platform_posts`
unfoldable pub bulk_save : List Touched → List PlatformPost → List PlatformPost
bulk_save [] rs = rs
bulk_save (t ∷ ts) rs = bulk_save ts (update_platform_post t.child.id (saved_fields t.child) rs)

abbrev pub entry_of : PlatformPost → Store → QueueEntry → Bool
entry_of r s e = e.post == r.post && on_channel r.account s.queues e

unfoldable pub drop_entries_of : List Touched → Store → Store
drop_entries_of [] s = s
drop_entries_of (t ∷ ts) s = drop_entries_of ts (elim t.slot [
  | none ↦ record s { entries = keep (λ e. not (entry_of t.child s e)) s.entries }
  | some at ↦ s
])

unfoldable pub move_entries_of : List Touched → Store → Store
move_entries_of [] s = s
move_entries_of (t ∷ ts) s = move_entries_of ts (elim t.slot [
  | none ↦ s
  | some at ↦ record s {
    entries =
        update_where (entry_of t.child s) (λ e. record e { assigned_slot = some at }) s.entries;
  }
])

-- `_sync_queue_entries`: the drops, then the moves.
unfoldable pub sync_queue_entries : List Touched → Store → Store
sync_queue_entries ts s = move_entries_of ts (drop_entries_of ts s)

-- `post.delete()`, with the rows that go with it
unfoldable pub delete_post : ℕ → Store → Store
delete_post id s = record s {
  posts = keep (λ p. not (p.id == id)) s.posts;
  media = keep (λ m. not (m.post == id)) s.media;
  entries = keep (λ e. not (e.post == id)) s.entries;
}

-- The last loop: a post without children goes, any other is synced.
unfoldable pub close_posts : List Post → Store → Store
close_posts [] s = s
close_posts (p ∷ ps) s = close_posts ps (
    if length (children p.id s.platform_posts) == 0
    then delete_post p.id s
    else sync_post_scheduled_at p.id s)

abbrev pub act : ℕ → BulkAction → List PlatformPost → List Touched
act now to_draft rs = drafted_rows rs
act now delete rs = deletable rs
act now publish rs = staggered now [] rs

abbrev pub write_rows : BulkAction → List Touched → List PlatformPost → List PlatformPost
write_rows delete ts rs = keep (λ r. not (any (λ t. t.child.id == r.id) ts)) rs
write_rows to_draft ts rs = bulk_save ts rs
write_rows publish ts rs = bulk_save ts rs

-- The tables after the rows in hand are acted on.
unfoldable pub bulk_written : ℕ → BulkAction → ℕ → List Touched → Store → Store
bulk_written workspace action now ts s =
    let s1 =
      sync_queue_entries ts (record s { platform_posts = write_rows action ts s.platform_posts }) in
    close_posts
      (keep (λ p. any (λ t. t.child.post == p.id) ts && p.workspace == workspace) s1.posts) s1

abbrev pub needs_publish : BulkAction → Bool
needs_publish publish = true
needs_publish _ = false

abbrev pub read_action : Option BulkAction → List ℕ → Result BulkAction
read_action none ids = err bad_bulk_request
read_action (some action) [] = err bad_bulk_request
read_action (some action) (id ∷ ids) = ok action

unfoldable pub bulk_platform_action :
    ℕ → Caller → Option BulkAction → List ℕ → ℕ → Store → Result (ℕ × Store)
bulk_platform_action workspace caller asked ids now s = do
  action ← read_action asked ids
  raise_if (needs_publish action && not caller.publish_directly) permission_denied
  let rows = by_due s.posts (keep (is_selected caller workspace ids s.posts) s.platform_posts)
  let touched = act now action rows
  ok (length touched, bulk_written workspace action now touched s)
