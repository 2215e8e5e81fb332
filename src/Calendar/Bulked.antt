-- ===== src/Calendar/Bulked.antt =====
-- What `bulk_platform_action` of apps/calendar/services.py leaves of the platform posts.
use osir_ai.Prelude.{
  ℕ, suc, ◌≤◌, ◌≡◌, refl, sym, subst, ◌∙◌, ap, arith, Bool, true, false, ◌&&◌, ◌||◌, not, inl, inr,
  List, [], ◌∷◌, Option, ◌==◌, if◌then◌else◌, keep, length, member, All, fun_ext, All-map,
  All-keep_sub, All-keep, Bool-cases, Option-cases, ok, ok_injective, raise_if-ok, >>=-ok,
  permission_denied,
}
use osir_ai.Records.{Post, PlatformPost, Store, children}
use osir_ai.Composer.Sync.{sync_post_scheduled_at}
use osir_ai.Calendar.{is_protected}
use osir_ai.Publisher.Tables.{coalesce, post_time}
use osir_ai.Calendar.Drag.{Caller}
use osir_ai.Calendar.Retimed.{IsKeyed}
use osir_ai.Calendar.Bulk.{
  BulkAction, by_due, insert_due, is_first, is_selected, Touched, drop_entries_of, move_entries_of,
  sync_queue_entries, delete_post, close_posts, act, write_rows, bulk_written, read_action,
  needs_publish, bulk_platform_action,
}
use osir_ai.Calendar.Reach.{may_touch, is_out, fixed-protected, selected-may_touch}
use osir_ai.Calendar.Spared.{All-zip, is_spared, IsIn, write_rows-spared}

All-insert_due :
    (P : PlatformPost → Type 0) (posts : List Post) (r : PlatformPost) (rs : List PlatformPost)
    → P r
    → All P rs
    → All P (insert_due posts r rs)
All-insert_due P posts r [] p h = (p, tt)
All-insert_due P posts r (x ∷ xs) p (q, h) =
    elim (Bool-cases (
      is_first (coalesce r.scheduled_at (post_time r.post posts))
        (coalesce x.scheduled_at (post_time x.post posts)))) [
          | inl e ↦ rw e (p, (q, h))
          | inr e ↦ rw e (q, All-insert_due P posts r xs p h)
        ]

All-by_due :
    (P : PlatformPost → Type 0) (posts : List Post) (rs : List PlatformPost)
    → All P rs
    → All P (by_due posts rs)
unfolding by_due
All-by_due P posts [] h = tt
All-by_due P posts (r ∷ rs) (p, h) =
    All-insert_due P posts r (by_due posts rs) p (All-by_due P posts rs h)

-- The row is the only one with its key.
abbrev IsAlone : List PlatformPost → PlatformPost → Type 0
IsAlone table r = All (λ x. (x.id == r.id) ≡ true → x ≡ r) table

none_kept :
    (p : PlatformPost → Bool) (rs : List PlatformPost)
    → length (keep p rs) ≤ 0
    → All (λ x. p x ≡ false) rs
none_kept p [] h = tt
none_kept p (r ∷ rs) h = elim (Bool-cases (p r)) [
  | inl e ↦
      let more : suc (length (keep p rs)) ≤ 0 =
        subst (λ b. length (if b then r ∷ keep p rs else keep p rs) ≤ 0) e h in
      absurd (omega (arith, more))
  | inr e ↦
      (e, none_kept p rs (subst (λ b. length (if b then r ∷ keep p rs else keep p rs) ≤ 0) e h))
]

keep-shorter :
    (p : PlatformPost → Bool) (r : PlatformPost) (rs : List PlatformPost)
    → length (keep p rs) ≤ length (keep p (r ∷ rs))
keep-shorter p r rs = elim (Bool-cases (p r)) [
  | inl e ↦ rw e (omega arith)
  | inr e ↦ rw e (omega arith)
]

keyed-IsAlone : (table : List PlatformPost) → IsKeyed table → All (IsAlone table) table
keyed-IsAlone [] keyed = tt
keyed-IsAlone (r ∷ rs) keyed =
    let own : (r.id == r.id) ≡ true = ground arith in
    let one : suc (length (keep (λ x. x.id == r.id) rs)) ≤ 1 =
      subst
        (λ b.
          length (if b then r ∷ keep (λ x. x.id == r.id) rs else keep (λ x. x.id == r.id) rs) ≤ 1)
        own (keyed r.id) in
    let apart = none_kept (λ x. x.id == r.id) rs (omega (arith, one)) in
    let rest =
      keyed-IsAlone rs
        (λ id. let a = keep-shorter (λ x. x.id == id) r rs in let b = keyed id in omega arith) in
    (
      (
        (λ e. refl),
        All-map _ _ rs (λ x no e. absurd (let clash : true ≡ false = sym e ∙ no in cc)) apart,
      ),
      All-map _ _ rs (λ x both. ((λ e. absurd (let no = both.0 in ground arith)), both.1))
          (All-zip _ _ rs apart rest),
    )

rows-close_posts :
    (ps : List Post) (s : Store) → (close_posts ps s).platform_posts ≡ s.platform_posts
unfolding close_posts delete_post sync_post_scheduled_at
rows-close_posts [] s = refl
rows-close_posts (p ∷ ps) s =
    rows-close_posts ps _ ∙ one (length (children p.id s.platform_posts) == 0)
  where
    one :
        (b : Bool)
        → (if b then delete_post p.id s else sync_post_scheduled_at p.id s).platform_posts
          ≡ s.platform_posts
    one true = refl
    one false = refl

rows-drop_entries_of :
    (ts : List Touched) (s : Store) → (drop_entries_of ts s).platform_posts ≡ s.platform_posts
unfolding drop_entries_of
rows-drop_entries_of [] s = refl
rows-drop_entries_of (t ∷ ts) s = elim (Option-cases t.slot) [
  | inl e ↦ rw (drop_entries_of, e) (rows-drop_entries_of ts _)
  | inr (at, e) ↦ rw (drop_entries_of, e) (rows-drop_entries_of ts s)
]

rows-move_entries_of :
    (ts : List Touched) (s : Store) → (move_entries_of ts s).platform_posts ≡ s.platform_posts
unfolding move_entries_of
rows-move_entries_of [] s = refl
rows-move_entries_of (t ∷ ts) s = elim (Option-cases t.slot) [
  | inl e ↦ rw (move_entries_of, e) (rows-move_entries_of ts s)
  | inr (at, e) ↦ rw (move_entries_of, e) (rows-move_entries_of ts _)
]

rows-bulk_written :
    (workspace : ℕ) (action : BulkAction) (now : ℕ) (ts : List Touched) (s : Store)
    → (bulk_written workspace action now ts s).platform_posts
      ≡ write_rows action ts s.platform_posts
unfolding bulk_written sync_queue_entries
rows-bulk_written workspace action now ts s =
    let s0 : Store = record s { platform_posts = write_rows action ts s.platform_posts } in
    rows-close_posts _ _
    ∙ rows-move_entries_of ts (drop_entries_of ts s0)
    ∙ rows-drop_entries_of ts s0

-- A bulk action that succeeds leaves every platform post as it was that is publishing or published,
-- not named, in another workspace, or not for the person to edit; keys are unique.
pub bulk_platform_action-spared :
    (workspace : ℕ) (caller : Caller) (asked : Option BulkAction) (ids : List ℕ) (now n : ℕ)
    (s s1 : Store)
    → IsKeyed s.platform_posts
    → bulk_platform_action workspace caller asked ids now s ≡ ok (n, s1)
    → keep (is_out caller workspace ids s.posts) s1.platform_posts
      ≡ keep (is_out caller workspace ids s.posts) s.platform_posts
unfolding bulk_platform_action
bulk_platform_action-spared workspace caller asked ids now n s s1 keyed h =
    let (action, _, h1) = >>=-ok (read_action asked ids) _ h in
    let (_, h2) =
      raise_if-ok (needs_publish action && not caller.publish_directly) permission_denied _ h1 in
    let selected = is_selected caller workspace ids s.posts in
    let reach : ℕ → ℕ → Bool =
      λ id post. member id ids && may_touch caller workspace s.posts post in
    let spared : is_out caller workspace ids s.posts ≡ is_spared reach =
      fun_ext λ r. ap (λ b. not (reach r.id r.post) || b) (fixed-protected r.status) in
    let rows = by_due s.posts (keep selected s.platform_posts) in
    let alone = All-keep_sub _ selected s.platform_posts (keyed-IsAlone s.platform_posts keyed) in
    let inside = All-by_due (IsIn reach s.platform_posts) s.posts (keep selected s.platform_posts) (
      All-map _ _ (keep selected s.platform_posts)
        (λ r both free.
          All-map _ _ s.platform_posts
            (λ x same_row e.
              subst (λ y. (reach y.id y.post ≡ true) × (is_protected y ≡ false)) (sym (same_row e))
                (sym (selected-may_touch caller workspace ids s.posts r) ∙ both.1, free))
            both.0)
        (All-zip _ _ (keep selected s.platform_posts) alone
          (All-keep selected s.platform_posts))) in
    ap (λ p. keep p s1.platform_posts) spared
    ∙ ap (λ (x : ℕ × Store). keep (is_spared reach) x.1.platform_posts) (sym (ok_injective h2))
    ∙ ap (keep (is_spared reach)) (rows-bulk_written workspace action now (act now action rows) s)
    ∙ write_rows-spared reach now action s.platform_posts rows inside
    ∙ ap (λ p. keep p s.platform_posts) (sym spared)
