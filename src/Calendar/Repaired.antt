-- ===== src/Calendar/Repaired.antt =====
-- What `repair_future_published_scheduled_at` of apps/calendar/services.py keeps: the times at which
-- the rows that wait are due.
use osir_ai.Prelude.{
  ℕ, ◌≡◌, refl, ◌∙◌, ap, Bool, true, false, ◌&&◌, not, inl, inr, List, [], ◌∷◌, Option, some, ◌==◌,
  if◌then◌else◌, keep, any, map, length, member, update_where, All-keep_sub, Bool-cases,
  Option-cases,
}
use osir_ai.Workflow.{scheduled, same}
use osir_ai.Records.{Post, PlatformPost, Store}
use osir_ai.Composer.Sync.{child_times, sync_post_scheduled_at}
use osir_ai.Composer.Earliest.{Synced}
use osir_ai.Publisher.Tables.{post_time}
use osir_ai.Calendar.Repair.{
  by_time, is_affected, affected_posts, repaired_rows, snap_entries, sync_each, repair,
  repair_future_published_scheduled_at,
}
use osir_ai.Calendar.Pinned.{
  due_at, reset, pin_row, pin_each-map, pin_row-own, pin_row-waiting, status-pin_row,
  update_where-map, scheduled_published, earliest-some, affected_time, synced_at, not_there,
  any-keep, post_time-kept, post_time-sync_each,
}

abbrev pub is_waiting : PlatformPost → Bool
is_waiting r = same r.status scheduled

-- The row that the repair makes of one.
abbrev pub mended : Option ℕ → List Post → List Post → PlatformPost → PlatformPost
mended w posts ps r =
    if is_affected w posts (pin_row ps r) then reset (pin_row ps r) else pin_row ps r

abbrev pub touched : Option ℕ → Store → List Post
touched w s = keep (λ p. member p.id (affected_posts w s)) s.posts

pub repaired_rows-map :
    (w : Option ℕ) (s : Store)
    → repaired_rows w s ≡ map (mended w s.posts (touched w s)) s.platform_posts
unfolding repaired_rows
repaired_rows-map w s =
    ap (update_where (is_affected w s.posts) reset) (pin_each-map (touched w s) s.platform_posts)
    ∙ update_where-map (is_affected w s.posts) reset (pin_row (touched w s)) s.platform_posts

mended_waiting :
    (w : Option ℕ) (posts ps : List Post) (r : PlatformPost)
    → is_waiting (mended w posts ps r) ≡ is_waiting r
mended_waiting w posts ps r = elim (Bool-cases (is_affected w posts (pin_row ps r))) [
  | inl e ↦ rw e (ap (λ u. same u scheduled) (status-pin_row ps r))
  | inr e ↦ rw e (ap (λ u. same u scheduled) (status-pin_row ps r))
]

-- A row that waits is only pinned.
mended_pinned :
    (w : Option ℕ) (posts ps : List Post) (r : PlatformPost)
    → is_waiting r ≡ true
    → mended w posts ps r ≡ pin_row ps r
unfolding is_affected
mended_pinned w posts ps r h =
    let waits : same (pin_row ps r).status scheduled ≡ true =
      ap (λ u. same u scheduled) (status-pin_row ps r) ∙ h in
    let no = scheduled_published (pin_row ps r).status waits in rw no refl

module _ (w : Option ℕ) (s : Store) (synced : Synced s) (posts : List Post)
    (others : (k : ℕ)
      → any (λ p. p.id == k) (touched w s) ≡ false
      → post_time k posts ≡ post_time k s.posts) where
  due_pinned :
      (r : PlatformPost)
      → is_waiting r ≡ true
      → due_at posts (pin_row (touched w s) r) ≡ due_at s.posts r
  unfolding affected_posts
  due_pinned r waits = elim (Option-cases r.scheduled_at) [
    | inr (t, e) ↦ rw (pin_row-own (touched w s) r e, e) refl
    | inl e ↦ elim (Bool-cases (any (λ p. p.id == r.post) (touched w s))) [
      | inr away ↦
          let same_row : pin_row (touched w s) r ≡ r =
            pin_row-waiting (touched w s) r 0 waits e (not_there r.post (some 0) (touched w s) away)
            ∙ rw away refl in
          rw (same_row, e) (others r.post away)
      | inl here ↦
          let inside = any-keep r.post (affected_posts w s) s.posts here in
          let (t, first) =
            earliest-some (child_times r.post s.platform_posts)
              (affected_time w s.posts r.post s.platform_posts inside) in
          let times = synced_at r.post t s.platform_posts s.posts first synced in
          let pinned : pin_row (touched w s) r ≡ record r { scheduled_at = some t } =
            pin_row-waiting (touched w s) r t waits e (All-keep_sub _ _ s.posts times)
            ∙ rw here refl in
          let before =
            post_time-kept r.post t (λ p. member p.id (affected_posts w s)) s.posts times here in
          rw (pinned, e, before) refl
    ]
  ]

  due_mended :
      (rs : List PlatformPost)
      → map (due_at posts) (keep is_waiting (map (mended w s.posts (touched w s)) rs))
        ≡ map (due_at s.posts) (keep is_waiting rs)
  due_mended [] = refl
  due_mended (r ∷ rs) = elim (Bool-cases (is_waiting r)) [
    | inr e ↦ rw (mended_waiting w s.posts (touched w s) r, e) (due_mended rs)
    | inl e ↦
        rw (mended_waiting w s.posts (touched w s) r, e)
          (rw (mended_pinned w s.posts (touched w s) r e, due_pinned r e, due_mended rs) refl)
  ]

pub rows-sync_each :
    (ps : List Post) (s : Store) → (sync_each ps s).platform_posts ≡ s.platform_posts
unfolding sync_each sync_post_scheduled_at
rows-sync_each [] s = refl
rows-sync_each (p ∷ ps) s = rows-sync_each ps (sync_post_scheduled_at p.id s)

pub snap_entries-tables :
    (rs : List PlatformPost) (s : Store)
    → ((snap_entries rs s).1.platform_posts ≡ s.platform_posts)
      × ((snap_entries rs s).1.posts ≡ s.posts)
unfolding snap_entries
snap_entries-tables [] s = (refl, refl)
snap_entries-tables (r ∷ rs) s = snap_entries-tables rs _

repair-waiting :
    (w : Option ℕ) (rows : List PlatformPost) (s : Store)
    → Synced s
    → map (due_at (repair w rows s).1.posts) (keep is_waiting (repair w rows s).1.platform_posts)
      ≡ map (due_at s.posts) (keep is_waiting s.platform_posts)
unfolding repair
repair-waiting w rows s synced =
    let s0 : Store = record s { platform_posts = repaired_rows w s } in
    let s1 = (snap_entries rows s0).1 in
    let (same_rows, same_posts) = snap_entries-tables rows s0 in
    let table = rows-sync_each (touched w s) s1 ∙ same_rows ∙ repaired_rows-map w s in
    ap (λ rs. map (due_at (sync_each (touched w s) s1).posts) (keep is_waiting rs)) table
    ∙ due_mended w s synced (sync_each (touched w s) s1).posts
        (λ k away. post_time-sync_each k (touched w s) s1 away ∙ ap (post_time k) same_posts)
        s.platform_posts

-- No row that waits becomes due at another time, whatever the repair resets: where each post's time
-- is its earliest child's, the rows that are scheduled have, one by one, the time that they had,
-- their own or that of their post.
pub repair-due :
    (workspace : Option ℕ) (apply : Bool) (s : Store)
    → Synced s
    → map
        (due_at (repair_future_published_scheduled_at workspace apply s).1.posts)
        (keep is_waiting (repair_future_published_scheduled_at workspace apply s).1.platform_posts)
      ≡ map (due_at s.posts) (keep is_waiting s.platform_posts)
unfolding repair_future_published_scheduled_at
repair-due workspace apply s synced =
    let rows = by_time (keep (is_affected workspace s.posts) s.platform_posts) in
    elim (Bool-cases (apply && not (length rows == 0))) [
      | inl e ↦
          rw (repair_future_published_scheduled_at, e) (repair-waiting workspace rows s synced)
      | inr e ↦ rw (repair_future_published_scheduled_at, e) refl
    ]
