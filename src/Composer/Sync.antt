-- ===== src/Composer/Sync.antt =====
-- `sync_post_scheduled_at` of apps/composer/services.py: a post's time is its earliest child's.
use osir_ai.Prelude.{ℕ, List, [], ◌∷◌, Option, none, some, ◌==◌, min, update_where, if◌then◌else◌}
use osir_ai.Records.{Post, PlatformPost, Store}

abbrev pub add_time : Option ℕ → List ℕ → List ℕ
add_time none times = times
add_time (some t) times = t ∷ times

-- The times of the children of a post that have one.
unfoldable pub child_times : ℕ → List PlatformPost → List ℕ
child_times post [] = []
child_times post (pp ∷ pps) =
    let rest = child_times post pps in
    if pp.post == post then add_time pp.scheduled_at rest else rest

-- `min(times)` with the first time in hand
unfoldable pub least : ℕ → List ℕ → ℕ
least t [] = t
least t (u ∷ us) = least (min t u) us

-- What the call leaves in the row of the post. It saves only what differs, which is the same row.
unfoldable pub sync_row : List ℕ → Post → Post
unfolding least
sync_row [] post = record post { scheduled_at = none }
sync_row (t ∷ ts) post = record post {
  scheduled_at = some (least t ts);
  proposed_publish_at = none;
}

unfoldable pub sync_post_scheduled_at : ℕ → Store → Store
unfolding sync_row child_times
sync_post_scheduled_at post s = record s {
  posts = update_where (λ p. p.id == post) (sync_row (child_times post s.platform_posts)) s.posts;
}
