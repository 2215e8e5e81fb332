-- ===== src/Publisher/Examples.antt =====
-- The engine on two posts, one of them with a platform post on hold.
use osir_ai.Prelude.{
  ℕ, ◌+◌, ◌≤◌, ◌≡◌, refl, true, false, List, [], ◌∷◌, map, some, none, if◌then◌else◌, ◌==◌, ◌||◌,
  arith, text, length,
}
use osir_ai.Workflow.{Status, scheduled, published, on_hold, same}
use osir_ai.Records.{PlatformPost, children, not_requested}
use osir_ai.Publisher.{
  is_due, is_due_at, maybe_schedule_first_comment, poll_and_publish, wants_first_comment,
  first_comment_text, process_retries, retry_each, is_retry, get_due_platform_posts, sort_by_time,
  insert_by_time, group_keys, publish_groups, publish_post_group, publish_ready, ready,
  mark_publishing, publish_each, comment_each,
}
use osir_ai.Publisher.Tables.{
  World, effective_at, post_on_hold, post_time, save, sync_parent_published_at, latest_published,
}
use osir_ai.Publisher.Attempt.{
  Reply, declined, raised, Messages, retry_backoff, row_after_attempt, row_after_reply,
  schedule_retry, publish_platform_post,
}
use osir_ai.Publisher.Retries.{Attempted, attempts, attempts-finished}
use osir_ai.Publisher.Holds.{poll_and_publish-on_hold}
use osir_ai.Publisher.Backoff.{retry_due_at_once}
use osir_ai.Publisher.Written.{attempted}

abbrev messages : Messages
messages = record {
  generic = text "Failed";
  rate_limit = text "Rate limited";
  exhausted = text "Gave up";
}

abbrev row : ℕ → ℕ → Status → PlatformPost
row id post status = record {
  id = id;
  post = post;
  account = 7;
  specific_title = none;
  specific_caption = none;
  specific_media = none;
  specific_first_comment = some (text "First!");
  extra = [];
  status = status;
  platform_post_id = [];
  publish_error = [];
  published_at = none;
  comment_status = not_requested;
  comment_id = [];
  comment_error = [];
  comment_retries = 0;
  comment_posted_at = none;
  scheduled_at = some 100;
  retry_count = 0;
  next_retry_at = none;
}

-- Post 1 is due; post 2 is due too, but its other platform post is on hold.
abbrev world : World
world = record {
  rows = row 11 1 scheduled ∷ row 12 2 scheduled ∷ row 13 2 on_hold ∷ row 14 1 published ∷ [];
  posts = [];
  entries = [];
  queues = [];
  logs = [];
  rates = [];
  tasks = [];
}

abbrev owner : ℕ → ℕ
owner id = if id == 11 || id == 14 then 1 else 2

abbrev refused : ℕ → PlatformPost → Reply
refused now pp = declined (text "No") (some 400)

second_post_held : post_on_hold 2 world.rows ≡ true
unfolding post_on_hold
second_post_held = refl

poll_and_publish-on_hold_example :
    children 2 (poll_and_publish messages refused (λ _. true) (λ _. 120) 150 world).1.rows
    ≡ children 2 world.rows
poll_and_publish-on_hold_example =
    poll_and_publish-on_hold messages refused (λ _. true) (λ _. 120) owner 150 2 world
      (refl, (refl, (refl, (refl, tt)))) second_post_held

-- The same poll tries the due row of the first post once.
first_post_test :
    map
      (λ (r : PlatformPost). r.retry_count)
      (children 1 (poll_and_publish messages refused (λ _. true) (λ _. 120) 150 world).1.rows)
    ≡ (1 ∷ 0 ∷ [])
unfolding poll_and_publish process_retries retry_each is_retry get_due_platform_posts sort_by_time
    insert_by_time is_due effective_at post_time post_on_hold group_keys publish_groups
    publish_post_group publish_ready ready mark_publishing publish_each publish_platform_post
    row_after_attempt row_after_reply schedule_retry retry_backoff save sync_parent_published_at
    latest_published comment_each maybe_schedule_first_comment wants_first_comment
    first_comment_text
first_post_test = refl

abbrev four_refusals : List Attempted
four_refusals =
    (150, (false, declined [] none))
    ∷ (300, (true, declined [] none))
    ∷ (900, (false, raised true [] []))
    ∷ (3000, (false, declined [] none))
    ∷ []

attempts-finished_example :
    same (attempts messages four_refusals (row 11 1 scheduled)).status scheduled ≡ false
attempts-finished_example =
    attempts-finished messages four_refusals (row 11 1 scheduled) (omega arith) (omega arith)

first_post_due : is_due_at (effective_at world (row 11 1 scheduled)) 150 ≡ true
unfolding effective_at post_time
first_post_due = refl

first_post_unheld : post_on_hold 1 world.rows ≡ false
unfolding post_on_hold
first_post_unheld = refl

-- The first of the two calls does queue a comment.
comment_queued_test :
    length
      (maybe_schedule_first_comment messages refused
        (λ _. true)
        (λ _. 120)
        (row 14 1 published)
        world).tasks
    ≡ 1
unfolding maybe_schedule_first_comment wants_first_comment first_comment_text
comment_queued_test = refl

retry_due_at_once_example :
    (is_due 151
        (publish_platform_post messages refused 150 (row 11 1 scheduled) world)
        (attempted messages refused 150 (row 11 1 scheduled) world)
      ≡ true)
    × ((attempted messages refused 150 (row 11 1 scheduled) world).next_retry_at
        ≡ some (150 + retry_backoff 0))
    × (60 ≤ retry_backoff 0)
retry_due_at_once_example =
    retry_due_at_once messages refused 150 151 (row 11 1 scheduled) world refl (omega arith)
      first_post_unheld first_post_due (omega arith)
