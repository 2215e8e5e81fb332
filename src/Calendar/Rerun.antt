-- ===== src/Calendar/Rerun.antt =====
-- A second run of `repair_future_published_scheduled_at` of apps/calendar/services.py.
use osir_ai.Prelude.{
  ℕ, suc, ◌≡◌, refl, ◌∙◌, ap, arith, Bool, true, false, inl, inr, List, [], ◌∷◌, Option, none, some,
  ◌==◌, if◌then◌else◌, keep, map, length, update_where, Bool-cases,
}
use osir_ai.Records.{Post, PlatformPost, Store}
use osir_ai.Composer.Sync.{child_times, sync_row, sync_post_scheduled_at}
use osir_ai.Calendar.Repair.{
  by_time, is_after, is_affected, affected_posts, repaired_rows, snap_entries, sync_each, repair,
  repair_future_published_scheduled_at,
}
use osir_ai.Calendar.Pinned.{reset, pin_row}
use osir_ai.Calendar.Repair.{Summary, is_wanted, count_stale, insert_row, not_later}
use osir_ai.Calendar.{set_of}
use osir_ai.Calendar.Repaired.{
  mended, touched, repaired_rows-map, rows-sync_each, snap_entries-tables,
}

kept_row :
    (b : Bool) (times : List ℕ) (p : Post)
    → ((if b then sync_row times p else p).id ≡ p.id)
      × ((if b then sync_row times p else p).workspace ≡ p.workspace)
unfolding sync_row
kept_row false times p = (refl, refl)
kept_row true [] p = (refl, refl)
kept_row true (t ∷ ts) p = (refl, refl)

is_wanted-sync :
    (w : Option ℕ) (k id : ℕ) (times : List ℕ) (ps : List Post)
    → is_wanted w (update_where (λ p. p.id == id) (sync_row times) ps) k ≡ is_wanted w ps k
unfolding sync_row
is_wanted-sync none k id times ps = refl
is_wanted-sync (some w) k id times [] = refl
is_wanted-sync (some w) k id times (p ∷ ps) =
    let (same_id, same_place) = kept_row (p.id == id) times p in
    elim (Bool-cases (p.id == k)) [
      | inl e ↦ rw (same_id, e, same_place) refl
      | inr e ↦ rw (same_id, e) (is_wanted-sync (some w) k id times ps)
    ]

is_wanted-sync_each :
    (w : Option ℕ) (k : ℕ) (ps : List Post) (s : Store)
    → is_wanted w (sync_each ps s).posts k ≡ is_wanted w s.posts k
unfolding sync_each sync_post_scheduled_at
is_wanted-sync_each w k [] s = refl
is_wanted-sync_each w k (p ∷ ps) s =
    is_wanted-sync_each w k ps (sync_post_scheduled_at p.id s)
    ∙ is_wanted-sync w k p.id (child_times p.id s.platform_posts) s.posts

not_after_itself : (o : Option ℕ) → is_after o o ≡ false
not_after_itself none = refl
not_after_itself (some t) = ground arith

is_affected-reset :
    (w : Option ℕ) (posts : List Post) (r : PlatformPost) → is_affected w posts (reset r) ≡ false
unfolding is_affected
is_affected-reset w posts r = let no = not_after_itself r.published_at in ground arith

is_affected-mended :
    (w : Option ℕ) (posts ps : List Post) (r : PlatformPost)
    → is_affected w posts (mended w posts ps r) ≡ false
is_affected-mended w posts ps r = elim (Bool-cases (is_affected w posts (pin_row ps r))) [
  | inl e ↦ rw e (is_affected-reset w posts (pin_row ps r))
  | inr e ↦ rw e e
]

is_affected-posts :
    (w : Option ℕ) (posts posts1 : List Post) (r : PlatformPost)
    → is_wanted w posts1 r.post ≡ is_wanted w posts r.post
    → is_affected w posts1 r ≡ is_affected w posts r
unfolding is_affected
is_affected-posts w posts posts1 r e = rw e refl

none_affected :
    (w : Option ℕ) (posts posts1 ps : List Post) (rs : List PlatformPost)
    → ((k : ℕ) → is_wanted w posts1 k ≡ is_wanted w posts k)
    → keep (is_affected w posts1) (map (mended w posts ps) rs) ≡ []
none_affected w posts posts1 ps [] same_wanted = refl
none_affected w posts posts1 ps (r ∷ rs) same_wanted =
    let this =
      is_affected-posts w posts posts1 (mended w posts ps r)
        (same_wanted (mended w posts ps r).post)
      ∙ is_affected-mended w posts ps r in
    rw this (none_affected w posts posts1 ps rs same_wanted)

clean_after :
    (w : Option ℕ) (rows : List PlatformPost) (s : Store)
    → keep (is_affected w (repair w rows s).1.posts) (repair w rows s).1.platform_posts ≡ []
unfolding repair
clean_after w rows s =
    let s0 : Store = record s { platform_posts = repaired_rows w s } in
    let s1 = (snap_entries rows s0).1 in
    let (same_rows, same_posts) = snap_entries-tables rows s0 in
    let table = rows-sync_each (touched w s) s1 ∙ same_rows ∙ repaired_rows-map w s in
    ap (keep (is_affected w (sync_each (touched w s) s1).posts)) table
    ∙ none_affected w s.posts (sync_each (touched w s) s1).posts (touched w s) s.platform_posts
        (λ k. is_wanted-sync_each w k (touched w s) s1 ∙ ap (λ ps. is_wanted w ps k) same_posts)

-- What a run reports when it finds nothing.
abbrev pub nothing_found : Summary
nothing_found = record { rows = []; post_count = 0; queue_entry_count = 0; applied = false }

clean_run :
    (w : Option ℕ) (apply : Bool) (s : Store)
    → keep (is_affected w s.posts) s.platform_posts ≡ []
    → repair_future_published_scheduled_at w apply s ≡ (nothing_found, s)
unfolding repair_future_published_scheduled_at affected_posts by_time set_of count_stale
clean_run w false s clean = rw (repair_future_published_scheduled_at, clean) refl
clean_run w true s clean = rw (repair_future_published_scheduled_at, clean) refl

length-insert_row :
    (r : PlatformPost) (rs : List PlatformPost) → length (insert_row r rs) ≡ suc (length rs)
length-insert_row r [] = refl
length-insert_row r (x ∷ xs) = elim (Bool-cases (not_later r.scheduled_at x.scheduled_at)) [
  | inl e ↦ rw e refl
  | inr e ↦ rw e (ap suc (length-insert_row r xs))
]

none_sorted : (rs : List PlatformPost) → length (by_time rs) ≡ 0 → rs ≡ []
unfolding by_time
none_sorted [] h = refl
none_sorted (r ∷ rs) h =
    absurd (let size = length-insert_row r (by_time rs) in omega (arith, h, size))

after_run :
    (w : Option ℕ) (s : Store)
    → (let s1 = (repair_future_published_scheduled_at w true s).1 in
        keep (is_affected w s1.posts) s1.platform_posts ≡ [])
unfolding repair_future_published_scheduled_at
after_run w s =
    let rows = by_time (keep (is_affected w s.posts) s.platform_posts) in
    elim (Bool-cases (length rows == 0)) [
      | inl e ↦
          rw (repair_future_published_scheduled_at, e)
            (none_sorted (keep (is_affected w s.posts) s.platform_posts) (ground (arith, e)))
      | inr e ↦ rw (repair_future_published_scheduled_at, e) (clean_after w rows s)
    ]

-- A run that is applied leaves nothing to repair: a second one, for the same workspace, finds no row
-- and no entry and changes no table.
pub repair-twice :
    (workspace : Option ℕ) (apply : Bool) (s : Store)
    → repair_future_published_scheduled_at workspace apply
        (repair_future_published_scheduled_at workspace true s).1
      ≡ (nothing_found, (repair_future_published_scheduled_at workspace true s).1)
repair-twice workspace apply s =
    clean_run workspace apply (repair_future_published_scheduled_at workspace true s).1
      (after_run workspace s)
