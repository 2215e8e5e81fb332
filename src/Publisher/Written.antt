-- ===== src/Publisher/Written.antt =====
-- What an attempt writes: the row, and nothing of the other rows and posts.
use osir_ai.Prelude.{
  ℕ, ◌≡◌, refl, Bool, true, false, inl, inr, none, some, leb, Text, if◌then◌else◌, Bool-cases,
}
use osir_ai.Records.{PlatformPost, update_platform_post}
use osir_ai.Publisher.Tables.{World, save}
use osir_ai.Publisher.Attempt.{
  Reply, delivered, declined, raised, Messages, max_retries, schedule_retry, fail_permanently,
  delivered_row, row_after_reply, row_after_attempt, publish_platform_post, rate_limited,
  beside_reply,
}

rows-beside_reply :
    (pp : PlatformPost) (reply : Reply) (w : World) → (beside_reply pp reply w).rows ≡ w.rows
rows-beside_reply pp (delivered id extra none resets) w = refl
rows-beside_reply pp (delivered id extra (some left) resets) w = refl
rows-beside_reply pp (declined error code) w = refl
rows-beside_reply pp (raised retryable error friendly) w = refl

posts-beside_reply :
    (pp : PlatformPost) (reply : Reply) (w : World) → (beside_reply pp reply w).posts ≡ w.posts
posts-beside_reply pp (delivered id extra none resets) w = refl
posts-beside_reply pp (delivered id extra (some left) resets) w = refl
posts-beside_reply pp (declined error code) w = refl
posts-beside_reply pp (raised retryable error friendly) w = refl

-- What every attempt leaves alone in the row.
pub record IsSameRow (old new : PlatformPost) : Type 0 where
  pub id : new.id ≡ old.id
  pub post : new.post ≡ old.post
  pub time : new.scheduled_at ≡ old.scheduled_at

schedule_retry-IsSameRow :
    (m : Messages) (now : ℕ) (message : Text) (pp : PlatformPost)
    → IsSameRow pp (schedule_retry m now message pp)
unfolding schedule_retry fail_permanently
schedule_retry-IsSameRow m now message pp = elim (Bool-cases (leb max_retries pp.retry_count)) [
  | inl e ↦ rw e (record { id = refl; post = refl; time = refl })
  | inr e ↦ rw e (record { id = refl; post = refl; time = refl })
]

pub row_after_attempt-IsSameRow :
    (m : Messages) (now : ℕ) (limited : Bool) (reply : Reply) (pp : PlatformPost)
    → IsSameRow pp (row_after_attempt m now limited reply pp)
unfolding row_after_attempt row_after_reply delivered_row fail_permanently
row_after_attempt-IsSameRow m now true reply pp = schedule_retry-IsSameRow m now m.rate_limit pp
row_after_attempt-IsSameRow m now false (delivered id extra left resets) pp = record {
  id = refl;
  post = refl;
  time = refl;
}
row_after_attempt-IsSameRow m now false (declined error code) pp =
    schedule_retry-IsSameRow m now m.generic pp
row_after_attempt-IsSameRow m now false (raised true error friendly) pp =
    schedule_retry-IsSameRow m now friendly pp
row_after_attempt-IsSameRow m now false (raised false error friendly) pp = record {
  id = refl;
  post = refl;
  time = refl;
}

module _ (m : Messages) (dispatch : ℕ → PlatformPost → Reply) where
  -- The row that an attempt leaves in the table.
  abbrev pub attempted : ℕ → PlatformPost → World → PlatformPost
  attempted now pp w = row_after_attempt m now (rate_limited now pp.account w) (dispatch now pp) pp

  pub rows-publish_platform_post :
      (now : ℕ) (pp : PlatformPost) (w : World)
      → (publish_platform_post m dispatch now pp w).rows
        ≡ update_platform_post pp.id (λ _. attempted now pp w) w.rows
  unfolding publish_platform_post save
  rows-publish_platform_post now pp w =
      written (rate_limited now pp.account w) (dispatch now pp)
        (row_after_attempt-IsSameRow m now (rate_limited now pp.account w) (dispatch now pp) pp).id
    where
      written :
          (limited : Bool) (reply : Reply)
          → (row_after_attempt m now limited reply pp).id ≡ pp.id
          → (if limited
              then save (row_after_attempt m now limited reply pp) w
              else beside_reply pp reply (save (row_after_attempt m now limited reply pp) w)).rows
            ≡ update_platform_post pp.id (λ _. row_after_attempt m now limited reply pp) w.rows
      written true reply e = rw e
      written false reply e = rw (e, rows-beside_reply pp reply _)

  pub posts-publish_platform_post :
      (now : ℕ) (pp : PlatformPost) (w : World)
      → (publish_platform_post m dispatch now pp w).posts ≡ w.posts
  unfolding publish_platform_post save
  posts-publish_platform_post now pp w = elim (Bool-cases (rate_limited now pp.account w)) [
    | inl e ↦ rw e
    | inr e ↦ rw e (posts-beside_reply pp (dispatch now pp) _)
  ]
