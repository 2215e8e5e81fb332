-- ===== src/Calendar/Pinned.antt =====
-- The pins and the posts of `repair_future_published_scheduled_at` of apps/calendar/services.py, one
-- row at a time.
use osir_ai.Prelude.{
  ℕ, ◌≡◌, ◌≢◌, refl, sym, ◌∙◌, ap, arith, Bool, true, false, ◌&&◌, inl, inr, List, [], ◌∷◌, Option,
  none, some, ◌==◌, if◌then◌else◌, keep, any, map, member, update_where, All, All-map, Bool-cases,
  Option-cases, ||-false, &&-no,
}
use osir_ai.Workflow.{Status, scheduled, published, same}
use osir_ai.Records.{Post, PlatformPost, Store}
use osir_ai.Composer.Sync.{add_time, child_times, least, sync_row, sync_post_scheduled_at}
use osir_ai.Composer.Earliest.{earliest, sync_row_lem}
use osir_ai.Publisher.Tables.{coalesce, post_time}
use osir_ai.Calendar.Repair.{is_after, is_affected, is_pinned, pin_at, pin_each, sync_each}

-- When a row is due: its own time, or that of its post.
abbrev pub due_at : List Post → PlatformPost → Option ℕ
due_at posts r = coalesce r.scheduled_at (post_time r.post posts)

abbrev pub reset : PlatformPost → PlatformPost
reset r = record r { scheduled_at = r.published_at }

-- What the pins do to one row.
abbrev pub pin_row_at : ℕ → Option ℕ → PlatformPost → PlatformPost
pin_row_at post none r = r
pin_row_at post (some t) r = if is_pinned post r then record r { scheduled_at = some t } else r

abbrev pub pin_row : List Post → PlatformPost → PlatformPost
pin_row [] r = r
pin_row (p ∷ ps) r = pin_row ps (pin_row_at p.id p.scheduled_at r)

pub pin_at-map :
    (post : ℕ) (o : Option ℕ) (rs : List PlatformPost)
    → pin_at post o rs ≡ map (pin_row_at post o) rs
pin_at-map post none [] = refl
pin_at-map post none (r ∷ rs) = ap (λ x. r ∷ x) (pin_at-map post none rs)
pin_at-map post (some t) [] = refl
pin_at-map post (some t) (r ∷ rs) =
    ap (λ x. pin_row_at post (some t) r ∷ x) (pin_at-map post (some t) rs)

pub map-map-rows :
    (f g : PlatformPost → PlatformPost) (rs : List PlatformPost)
    → map g (map f rs) ≡ map (λ r. g (f r)) rs
map-map-rows f g [] = refl
map-map-rows f g (r ∷ rs) = ap (λ x. g (f r) ∷ x) (map-map-rows f g rs)

pub map-same : (rs : List PlatformPost) → rs ≡ map (λ r. r) rs
map-same [] = refl
map-same (r ∷ rs) = ap (λ x. r ∷ x) (map-same rs)

pub pin_each-map : (ps : List Post) (rs : List PlatformPost) → pin_each ps rs ≡ map (pin_row ps) rs
unfolding pin_each
pin_each-map [] rs = map-same rs
pin_each-map (p ∷ ps) rs =
    ap (pin_each ps) (pin_at-map p.id p.scheduled_at rs)
    ∙ pin_each-map ps (map (pin_row_at p.id p.scheduled_at) rs)
    ∙ map-map-rows (pin_row_at p.id p.scheduled_at) (pin_row ps) rs

pub not_pinned :
    (post : ℕ) (o : Option ℕ) (r : PlatformPost)
    → is_pinned post r ≡ false
    → pin_row_at post o r ≡ r
not_pinned post none r h = refl
not_pinned post (some t) r h = rw h

-- A row with a time of its own is not pinned.
pub pin_row-own :
    (ps : List Post) (r : PlatformPost) {t : ℕ} → r.scheduled_at ≡ some t → pin_row ps r ≡ r
pin_row-own [] r e = refl
pin_row-own (p ∷ ps) r {t} e =
    ap (pin_row ps) (
      not_pinned p.id p.scheduled_at r
        (rw e (&&-no (r.post == p.id && same r.status scheduled) refl)))
    ∙ pin_row-own ps r e

-- A row that waits without a time gets that of its post.
pub pin_row-waiting :
    (ps : List Post) (r : PlatformPost) (t : ℕ)
    → same r.status scheduled ≡ true
    → r.scheduled_at ≡ none
    → All (λ p. p.id ≡ r.post → p.scheduled_at ≡ some t) ps
    → pin_row ps r
      ≡ (if any (λ p. p.id == r.post) ps then record r { scheduled_at = some t } else r)
pin_row-waiting [] r t waits unset times = refl
pin_row-waiting (p ∷ ps) r t waits unset (first, times) = elim (Bool-cases (p.id == r.post)) [
  | inl e ↦
      let here : p.id ≡ r.post = ground arith in
      let mine : (r.post == p.id) ≡ true = ground arith in
      let pinned : is_pinned p.id r ≡ true = rw (mine, waits, unset) refl in
      let step : pin_row_at p.id p.scheduled_at r ≡ record r { scheduled_at = some t } =
        rw (first here) (rw pinned refl) in
      rw (step, e) (pin_row-own ps (record r { scheduled_at = some t }) refl)
  | inr e ↦
      let away : (r.post == p.id) ≡ false = ground arith in
      let free : is_pinned p.id r ≡ false = rw away refl in
      rw (not_pinned p.id p.scheduled_at r free, e) (pin_row-waiting ps r t waits unset times)
]

pub status-pin_row : (ps : List Post) (r : PlatformPost) → (pin_row ps r).status ≡ r.status
status-pin_row [] r = refl
status-pin_row (p ∷ ps) r =
    status-pin_row ps (pin_row_at p.id p.scheduled_at r) ∙ one p.scheduled_at
  where
    one : (o : Option ℕ) → (pin_row_at p.id o r).status ≡ r.status
    one none = refl
    one (some t) = elim (Bool-cases (is_pinned p.id r)) [ inl e ↦ rw e refl | inr e ↦ rw e refl ]

pub update_where-map :
    (q : PlatformPost → Bool) (f g : PlatformPost → PlatformPost) (rs : List PlatformPost)
    → update_where q f (map g rs) ≡ map (λ r. if q (g r) then f (g r) else g r) rs
update_where-map q f g [] = refl
update_where-map q f g (r ∷ rs) =
    ap (λ x. (if q (g r) then f (g r) else g r) ∷ x) (update_where-map q f g rs)

pub scheduled_published : (u : Status) → same u scheduled ≡ true → same u published ≡ false
scheduled_published u h = ground arith

-- A list that has an element has an earliest one.
pub earliest-some : (ts : List ℕ) → ts ≢ [] → (t : ℕ) × (earliest ts ≡ some t)
unfolding earliest
earliest-some [] h = absurd (h refl)
earliest-some (t ∷ ts) h = (least t ts, refl)

pub rest_empty :
    (b : Bool) (o : Option ℕ) (ts : List ℕ) → (if b then add_time o ts else ts) ≡ [] → ts ≡ []
rest_empty true none ts e = e
rest_empty true (some t) ts e = cc
rest_empty false o ts e = e

pub affected_set :
    (w : Option ℕ) (posts : List Post) (r : PlatformPost)
    → is_affected w posts r ≡ true
    → r.scheduled_at ≡ none
    → ⊥
unfolding is_affected
affected_set w posts r a unset =
    let no : is_after r.scheduled_at r.published_at ≡ false = rw unset refl in
    let clash : true ≡ false = sym a ∙ (let k = no in ground arith) in cc

pub affected_time :
    (w : Option ℕ) (posts : List Post) (k : ℕ) (rs : List PlatformPost)
    → member k (map (λ (r : PlatformPost). r.post) (keep (is_affected w posts) rs)) ≡ true
    → child_times k rs ≢ []
unfolding child_times is_affected
affected_time w posts k [] h e = cc
affected_time w posts k (r ∷ rs) h e = elim (Bool-cases (is_affected w posts r)) [
  | inr a ↦
      affected_time w posts k rs (sym (rw a refl) ∙ h)
        (rest_empty (r.post == k) r.scheduled_at (child_times k rs) e)
  | inl a ↦ elim (Bool-cases (r.post == k)) [
    | inr away ↦
        let other : (k == r.post) ≡ false = ground arith in
        affected_time w posts k rs (sym (rw (a, other) refl) ∙ h)
          (rest_empty (r.post == k) r.scheduled_at (child_times k rs) e)
    | inl here ↦ elim (Option-cases r.scheduled_at) [
      | inr (t, at) ↦ let clash : t ∷ child_times k rs ≡ [] = sym (rw (here, at) refl) ∙ e in cc
      | inl unset ↦ affected_set w posts r a unset
    ]
  ]
]

pub synced_at :
    (k t : ℕ) (rs : List PlatformPost) (ps : List Post)
    → earliest (child_times k rs) ≡ some t
    → All (λ p. p.scheduled_at ≡ earliest (child_times p.id rs)) ps
    → All (λ p. p.id ≡ k → p.scheduled_at ≡ some t) ps
synced_at k t rs ps e synced =
    All-map _ _ ps (λ p h here. h ∙ ap (λ x. earliest (child_times x rs)) here ∙ e) synced

pub not_there :
    (k : ℕ) (o : Option ℕ) (ps : List Post)
    → any (λ p. p.id == k) ps ≡ false
    → All (λ p. p.id ≡ k → p.scheduled_at ≡ o) ps
not_there k o [] h = tt
not_there k o (p ∷ ps) h =
    let (away, rest) = ||-false (p.id == k) (any (λ x. x.id == k) ps) h in
    ((λ here. absurd (ground (arith, here))), not_there k o ps rest)

pub any-keep :
    (k : ℕ) (ids : List ℕ) (ps : List Post)
    → any (λ p. p.id == k) (keep (λ p. member p.id ids) ps) ≡ true
    → member k ids ≡ true
any-keep k ids [] h = cc
any-keep k ids (p ∷ ps) h = elim (Bool-cases (member p.id ids)) [
  | inr a ↦ any-keep k ids ps (sym (rw a refl) ∙ h)
  | inl a ↦ elim (Bool-cases (p.id == k)) [
    | inl here ↦ let e : p.id ≡ k = ground arith in rw⁻¹ e a
    | inr away ↦ any-keep k ids ps (sym (rw (a, away) refl) ∙ h)
  ]
]

pub post_time-kept :
    (k t : ℕ) (q : Post → Bool) (ps : List Post)
    → All (λ p. p.id ≡ k → p.scheduled_at ≡ some t) ps
    → any (λ p. p.id == k) (keep q ps) ≡ true
    → post_time k ps ≡ some t
unfolding post_time
post_time-kept k t q [] times h = cc
post_time-kept k t q (p ∷ ps) (first, times) h = elim (Bool-cases (p.id == k)) [
  | inl here ↦ rw (post_time, here) (first (ground (arith, here)))
  | inr away ↦
      rw (post_time, away)
        (elim (Bool-cases (q p)) [
          | inl a ↦ post_time-kept k t q ps times (sym (rw (a, away) refl) ∙ h)
          | inr a ↦ post_time-kept k t q ps times (sym (rw a refl) ∙ h)
        ])
]

pub post_time-sync :
    (k id : ℕ) (ps : List Post) (times : List ℕ)
    → (id == k) ≡ false
    → post_time k (update_where (λ p. p.id == id) (sync_row times) ps) ≡ post_time k ps
unfolding post_time
post_time-sync k id [] times h = refl
post_time-sync k id (p ∷ ps) times h = elim (Bool-cases (p.id == id)) [
  | inl e ↦
      let away : (p.id == k) ≡ false = ground arith in
      let still : ((sync_row times p).id == k) ≡ false = rw (sync_row_lem times p).1 away in
      rw (post_time, e, away, still) (post_time-sync k id ps times h)
  | inr e ↦ elim (Bool-cases (p.id == k)) [
    | inl here ↦ rw (post_time, e, here) refl
    | inr away ↦ rw (post_time, e, away) (post_time-sync k id ps times h)
  ]
]

pub post_time-sync_each :
    (k : ℕ) (ps : List Post) (s : Store)
    → any (λ p. p.id == k) ps ≡ false
    → post_time k (sync_each ps s).posts ≡ post_time k s.posts
unfolding sync_each sync_post_scheduled_at
post_time-sync_each k [] s h = refl
post_time-sync_each k (p ∷ ps) s h =
    let (away, rest) = ||-false (p.id == k) (any (λ x. x.id == k) ps) h in
    post_time-sync_each k ps (sync_post_scheduled_at p.id s) rest
    ∙ post_time-sync k p.id s.posts (child_times p.id s.platform_posts) away
