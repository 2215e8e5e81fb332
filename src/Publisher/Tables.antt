-- ===== src/Publisher/Tables.antt =====
-- The state that the engine works on, and the parts of it that have code of their own:
-- `RateLimitState` and `PublishLog` of apps/publisher/models.py.
use osir_ai.Prelude.{
  ℕ, zero, ◌≡◌, refl, Bool, false, ◌&&◌, List, [], ◌∷◌, Option, none, some, ◌==◌, ltb, any, find,
  max, Text, update_where,
}
use osir_ai.Workflow.{on_hold, same}
use osir_ai.Records.{PlatformPost, Post, QueueEntry, Queue, update_platform_post, children}

-- `RateLimitState`; no number of remaining requests is the stored -1.
pub record RateLimitState : Type 0 where
  pub account : ℕ
  pub requests_remaining : Option ℕ
  pub window_resets_at : Option ℕ

pub record PublishLog : Type 0 where
  pub platform_post : ℕ
  pub attempt_number : ℕ
  pub status_code : Option ℕ
  pub error_message : Text

-- A queued call of `_post_first_comment_task`.
pub record CommentTask : Type 0 where
  pub platform_post : ℕ
  pub delay : ℕ

pub record World : Type 0 where
  pub rows : List PlatformPost
  pub posts : List Post
  pub entries : List QueueEntry
  pub queues : List Queue
  pub logs : List PublishLog
  pub rates : List RateLimitState
  pub tasks : List CommentTask

abbrev is_spent : ℕ → Option ℕ → Option ℕ → Bool
is_spent now (some zero) (some resets) = ltb now resets
is_spent now _ _ = false

-- `RateLimitState.is_rate_limited`
abbrev pub is_rate_limited : ℕ → RateLimitState → Bool
is_rate_limited now r = is_spent now r.requests_remaining r.window_resets_at

-- `PlatformPost.objects.filter(post=..., status=ON_HOLD).exists()`
unfoldable pub post_on_hold : ℕ → List PlatformPost → Bool
post_on_hold post rows = any (λ pp. pp.post == post && same pp.status on_hold) rows

-- `Coalesce("scheduled_at", "post__scheduled_at")`
abbrev pub coalesce : Option ℕ → Option ℕ → Option ℕ
coalesce (some t) own = some t
coalesce none own = own

unfoldable pub post_time : ℕ → List Post → Option ℕ
post_time post ps = elim (find (λ p. p.id == post) ps) [ none ↦ none | some p ↦ p.scheduled_at ]

unfoldable pub effective_at : World → PlatformPost → Option ℕ
effective_at w pp = coalesce pp.scheduled_at (post_time pp.post w.posts)

-- `pp.save()`: the whole row is written.
unfoldable pub save : PlatformPost → World → World
save pp w = record w { rows = update_platform_post pp.id (λ _. pp) w.rows }

abbrev later : Option ℕ → Option ℕ → Option ℕ
later none b = b
later (some a) none = some a
later (some a) (some b) = some (max a b)

-- `max((pp.published_at for pp in children if pp.published_at), default=None)`
unfoldable pub latest_published : List PlatformPost → Option ℕ
latest_published [] = none
latest_published (pp ∷ pps) = later pp.published_at (latest_published pps)

abbrev set_published_at : ℕ → Option ℕ → World → World
set_published_at post none w = w
set_published_at post (some t) w = record w {
  posts = update_where (λ p. p.id == post) (λ p. record p { published_at = some t }) w.posts;
}

-- `_sync_parent_published_at`
unfoldable pub sync_parent_published_at : ℕ → World → World
sync_parent_published_at post w = set_published_at post (latest_published (children post w.rows)) w

pub rows-sync_parent_published_at :
    (post : ℕ) (w : World) → (sync_parent_published_at post w).rows ≡ w.rows
unfolding sync_parent_published_at
rows-sync_parent_published_at post w = same_rows (latest_published (children post w.rows))
  where
    same_rows : (o : Option ℕ) → (set_published_at post o w).rows ≡ w.rows
    same_rows none = refl
    same_rows (some t) = refl
