-- ===== src/Publisher/CommentExamples.antt =====
-- The first comment of one platform post: the first call fails with a 503 after the comment was made,
-- and the lookup of the second run finds it.
use osir_ai.Prelude.{◌≡◌, refl, true, false, [], ◌∷◌, none, some, find, text, ◌==◌}
use osir_ai.Workflow.{published}
use osir_ai.Records.{PlatformPost, pending}
use osir_ai.Publisher.{first_comment_text}
use osir_ai.Publisher.Tables.{World}
use osir_ai.Publisher.Comment.{
  Failure, Exchange, answered, commented, refused, CommentMessages, post_first_comment_task,
}
use osir_ai.Publisher.Once.{waiting, taken}
use osir_ai.Publisher.Settled.{IsSettled, post_first_comment_task-settles}

abbrev sentences : CommentMessages
sentences = record { generic = text "Comment failed"; no_id = text "No id" }

abbrev unavailable : Failure
unavailable = record {
  retryable = true;
  is_rate_limit = false;
  status_code = some 503;
  retry_after = none;
  friendly = text "Try later";
}

abbrev fails : Exchange
fails = record { unreachable = none; lookup = answered []; answer = refused unavailable }

abbrev finds : Exchange
finds = record { unreachable = none; lookup = answered (text "c1"); answer = commented (text "c2") }

abbrev live_row : PlatformPost
live_row = record {
  id = 21;
  post = 3;
  account = 7;
  specific_title = none;
  specific_caption = none;
  specific_media = none;
  specific_first_comment = some (text "First!");
  extra = [];
  status = published;
  platform_post_id = text "p1";
  publish_error = [];
  published_at = some 100;
  comment_status = pending;
  comment_id = [];
  comment_error = [];
  comment_retries = 0;
  comment_posted_at = none;
  scheduled_at = some 100;
  retry_count = 0;
  next_retry_at = none;
}

abbrev queue_of_one : World
queue_of_one = record {
  rows = live_row ∷ [];
  posts = [];
  entries = [];
  queues = [];
  logs = [];
  rates = [];
  tasks = record { platform_post = 21; delay = 120 } ∷ [];
}

abbrev run_once : Exchange → World → World
run_once x w =
    post_first_comment_task sentences 200 true 21 x (record w { tasks = taken 21 w.tasks })

post_first_comment_task-settles_example :
    (after : PlatformPost) × (find
        (λ r. r.id == 21)
        (post_first_comment_task sentences 200 true 21 fails queue_of_one).rows
      ≡ some after)
    × IsSettled after.comment_status
        (waiting 21 (post_first_comment_task sentences 200 true 21 fails queue_of_one).tasks)
unfolding first_comment_text
post_first_comment_task-settles_example =
    post_first_comment_task-settles sentences 200 21 true fails live_row queue_of_one refl refl
      (λ e. cc)
