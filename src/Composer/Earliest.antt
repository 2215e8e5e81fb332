-- ===== src/Composer/Earliest.antt =====
-- When a post's time is its earliest child's time, and what a sync of one post does to that.
use osir_ai.Prelude.{
  ℕ, ◌≤◌, ◌≡◌, ◌≢◌, refl, true, List, [], ◌∷◌, Option, none, some, arith, min, ◌==◌, member, All,
  Bool-cases, inl, inr, All-update_where, All-every, if◌then◌else◌,
}
use osir_ai.Records.{Post, Store}
use osir_ai.Composer.Sync.{child_times, least, sync_row, sync_post_scheduled_at}

-- What it is for an optional time to be the earliest of a list of times.
abbrev pub IsEarliest : List ℕ → Option ℕ → Type 0
IsEarliest times none = times ≡ []
IsEarliest times (some t) = (member t times ≡ true) × All (λ u. t ≤ u) times

unfoldable pub earliest : List ℕ → Option ℕ
unfolding least
earliest [] = none
earliest (t ∷ ts) = some (least t ts)

least_mem : (t : ℕ) (ts : List ℕ) → member (least t ts) (t ∷ ts) ≡ true
unfolding least
least_mem t [] = ground arith
least_mem t (u ∷ us) = ground (arith, least_mem (min t u) us)

All-le_trans : (a b : ℕ) (ts : List ℕ) → a ≤ b → All (λ u. b ≤ u) ts → All (λ u. a ≤ u) ts
All-le_trans a b [] h k = tt
All-le_trans a b (t ∷ ts) h k = (omega arith, All-le_trans a b ts h k.1)

least_le : (t : ℕ) (ts : List ℕ) → (least t ts ≤ t) × All (λ u. least t ts ≤ u) ts
unfolding least
least_le t [] = (omega arith, tt)
least_le t (u ∷ us) =
    let (first, rest) = least_le (min t u) us in (omega arith, (omega arith, rest))

pub earliest-IsEarliest : (ts : List ℕ) → IsEarliest ts (earliest ts)
unfolding earliest
earliest-IsEarliest [] = refl
earliest-IsEarliest (t ∷ ts) = (least_mem t ts, least_le t ts)

pub sync_row_lem :
    (ts : List ℕ) (p : Post)
    → ((sync_row ts p).scheduled_at ≡ earliest ts)
      × ((sync_row ts p).id ≡ p.id)
      × (ts ≢ [] → (sync_row ts p).proposed_publish_at ≡ none)
unfolding sync_row earliest
sync_row_lem [] p = (refl, refl, λ h. absurd (h refl))
sync_row_lem (t ∷ ts) p = (refl, refl, λ h. refl)

-- What the call has made of a post.
abbrev IsSynced : ℕ → List ℕ → Post → Type 0
IsSynced id times p =
    p.id ≡ id
    → IsEarliest times p.scheduled_at × (p.scheduled_at ≢ none → p.proposed_publish_at ≡ none)

sync_row-IsSynced :
    (id : ℕ) (ts : List ℕ) (p : Post) → IsSynced id ts (if p.id == id then sync_row ts p else p)
unfolding sync_row
sync_row-IsSynced id [] p = elim (Bool-cases (p.id == id)) [
  | inl e ↦ rw e (λ h. (refl, λ k. absurd (k refl)))
  | inr e ↦ rw e (λ h. absurd (ground arith))
]
sync_row-IsSynced id (t ∷ ts) p = elim (Bool-cases (p.id == id)) [
  | inl e ↦ rw e (λ h. ((least_mem t ts, least_le t ts), λ k. refl))
  | inr e ↦ rw e (λ h. absurd (ground arith))
]

-- After the call each post of that key has its earliest child's time (none where no child has
-- one), and no suggested time beside a committed one.
pub sync_post_scheduled_at-IsEarliest :
    (id : ℕ) (s : Store)
    → All
        (λ p.
          p.id ≡ id
          → IsEarliest (child_times id s.platform_posts) p.scheduled_at
            × (p.scheduled_at ≢ none → p.proposed_publish_at ≡ none))
        (sync_post_scheduled_at id s).posts
unfolding sync_post_scheduled_at
sync_post_scheduled_at-IsEarliest id s =
    let times = child_times id s.platform_posts in
    All-update_where (IsSynced id times) (λ p. Unit {0}) (λ p. p.id == id) (sync_row times) s.posts
      (λ p _. sync_row-IsSynced id times p) (All-every (λ p. Unit {0}) s.posts (λ p. tt))

-- In every post the time is the earliest child's.
abbrev pub Synced : Store → Type 0
Synced s = All (λ p. p.scheduled_at ≡ earliest (child_times p.id s.platform_posts)) s.posts

-- One call mends the post that it is made for.
pub sync_post_scheduled_at-Synced :
    (id : ℕ) (s : Store)
    → All (λ p. p.id ≢ id → p.scheduled_at ≡ earliest (child_times p.id s.platform_posts)) s.posts
    → Synced (sync_post_scheduled_at id s)
unfolding sync_post_scheduled_at
sync_post_scheduled_at-Synced id s h =
    let times = child_times id s.platform_posts in
    All-update_where (λ p. p.scheduled_at ≡ earliest (child_times p.id s.platform_posts))
      (λ p. p.id ≢ id → p.scheduled_at ≡ earliest (child_times p.id s.platform_posts))
      (λ p. p.id == id) (sync_row times) s.posts
      (λ p k. elim (Bool-cases (p.id == id)) [
        | inl e ↦
            let same_id : p.id ≡ id = ground arith in
            let (time, key, _) = sync_row_lem times p in rw e (rw (time, key, same_id))
        | inr e ↦ rw e (k (ground arith))
      ])
      h
