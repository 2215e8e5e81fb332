-- ===== src/Calendar/Repair.antt =====
-- `repair_future_published_scheduled_at` of apps/calendar/services.py.
use osir_ai.Prelude.{
  ℕ, ◌+◌, Bool, true, false, ◌&&◌, not, List, [], ◌∷◌, Option, none, some, ◌==◌, ltb, leb,
  if◌then◌else◌, find, keep, any, map, length, is_some, member, update_where,
}
use osir_ai.Workflow.{scheduled, published, same}
use osir_ai.Records.{Post, PlatformPost, QueueEntry, Store}
use osir_ai.Calendar.{set_of}
use osir_ai.Composer.Sync.{sync_post_scheduled_at}

-- `scheduled_at__gt=F("published_at")`, where both are set
abbrev pub is_after : Option ℕ → Option ℕ → Bool
is_after (some t) (some u) = ltb u t
is_after _ _ = false

abbrev pub in_workspace : Option Post → ℕ → Bool
in_workspace none w = false
in_workspace (some p) w = p.workspace == w

abbrev pub is_wanted : Option ℕ → List Post → ℕ → Bool
is_wanted none posts post = true
is_wanted (some w) posts post = in_workspace (find (λ p. p.id == post) posts) w

-- The filter of `affected`
unfoldable pub is_affected : Option ℕ → List Post → PlatformPost → Bool
is_affected workspace posts r =
    same r.status published
    && is_after r.scheduled_at r.published_at
    && is_wanted workspace posts r.post

-- `.order_by("scheduled_at")`
abbrev pub not_later : Option ℕ → Option ℕ → Bool
not_later (some t) (some u) = leb t u
not_later _ _ = true

abbrev pub insert_row : PlatformPost → List PlatformPost → List PlatformPost
insert_row r [] = r ∷ []
insert_row r (x ∷ xs) =
    let rest = insert_row r xs in
    if not_later r.scheduled_at x.scheduled_at then r ∷ x ∷ xs else x ∷ rest

unfoldable pub by_time : List PlatformPost → List PlatformPost
by_time [] = []
by_time (r ∷ rs) = insert_row r (by_time rs)

-- The posts of the affected rows.
unfoldable pub affected_posts : Option ℕ → Store → List ℕ
affected_posts workspace s =
    map (λ (r : PlatformPost). r.post) (keep (is_affected workspace s.posts) s.platform_posts)

-- A stale entry: of the row's post, in a queue of its channel, with a slot after its publication.
abbrev pub is_stale : Store → PlatformPost → QueueEntry → Bool
is_stale s r e =
    e.post == r.post
    && any (λ q. q.id == e.queue && q.account == r.account) s.queues
    && is_after e.assigned_slot r.published_at

-- The pin of one post's waiting rows to the time of the post.
abbrev pub is_pinned : ℕ → PlatformPost → Bool
is_pinned post r = r.post == post && same r.status scheduled && not (is_some r.scheduled_at)

abbrev pub pin_at : ℕ → Option ℕ → List PlatformPost → List PlatformPost
pin_at post none rs = rs
pin_at post (some t) rs = update_where (is_pinned post) (λ r. record r { scheduled_at = some t }) rs

unfoldable pub pin_each : List Post → List PlatformPost → List PlatformPost
pin_each [] rs = rs
pin_each (p ∷ ps) rs = pin_each ps (pin_at p.id p.scheduled_at rs)

-- The update of the stale entries, with the number of rows that it writes.
unfoldable pub snap_entries : List PlatformPost → Store → ℕ × Store
snap_entries [] s = (0, s)
snap_entries (r ∷ rs) s =
    let (count, s1) = snap_entries rs (record s {
      entries =
          update_where (is_stale s r) (λ e. record e { assigned_slot = r.published_at }) s.entries;
    }) in
    (length (keep (is_stale s r) s.entries) + count, s1)

unfoldable pub count_stale : List PlatformPost → Store → ℕ
count_stale [] s = 0
count_stale (r ∷ rs) s = length (keep (is_stale s r) s.entries) + count_stale rs s

unfoldable pub sync_each : List Post → Store → Store
sync_each [] s = s
sync_each (p ∷ ps) s = sync_each ps (sync_post_scheduled_at p.id s)

pub record Summary : Type 0 where
  pub rows : List PlatformPost
  pub post_count : ℕ
  pub queue_entry_count : ℕ
  pub applied : Bool

-- The platform posts after the pins and the reset.
unfoldable pub repaired_rows : Option ℕ → Store → List PlatformPost
repaired_rows workspace s =
    let posts = keep (λ p. member p.id (affected_posts workspace s)) s.posts in
    update_where (is_affected workspace s.posts) (λ r. record r { scheduled_at = r.published_at })
      (pin_each posts s.platform_posts)

-- What is written when there is something to repair.
unfoldable pub repair : Option ℕ → List PlatformPost → Store → ℕ × Store
repair workspace rows s =
    let posts = keep (λ p. member p.id (affected_posts workspace s)) s.posts in
    let (count, s1) = snap_entries rows (record s { platform_posts = repaired_rows workspace s }) in
    (count, sync_each posts s1)

unfoldable pub repair_future_published_scheduled_at : Option ℕ → Bool → Store → Summary × Store
repair_future_published_scheduled_at workspace apply s =
    let rows = by_time (keep (is_affected workspace s.posts) s.platform_posts) in
    let posts = length (set_of (affected_posts workspace s)) in
    if apply && not (length rows == 0)
    then (let (count, s1) = repair workspace rows s in
        (record { rows = rows; post_count = posts; queue_entry_count = count; applied = true }, s1))
    else (
      record {
        rows = rows;
        post_count = posts;
        queue_entry_count = count_stale rows s;
        applied = false;
      },
      s,
    )
