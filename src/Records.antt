-- ===== src/Records.antt =====
-- The rows that the publishing core reads and writes, and the tables that hold them: `Post`,
-- `PlatformPost` and `PostMedia` of apps/composer/models.py, `Queue` and `QueueEntry` of
-- apps/calendar/models.py, `Workspace` of apps/workspaces/models.py. A key and a foreign key are
-- numbers, an instant is a number of seconds.
use osir_ai.Prelude.{ℕ, List, Option, none, some, ◌==◌, Text, update_where, keep}
use osir_ai.Workflow.{Status}

-- `PlatformPost.FirstCommentStatus`
pub data CommentStatus : Type 0 where
  not_requested pending posted comment_failed : CommentStatus

-- A JSON column is kept as its encoded text: the services only copy it.
abbrev pub Json : Type 0
Json = Text

pub record Post : Type 0 where
  pub id : ℕ
  pub workspace : ℕ
  pub author : Option ℕ
  pub title : Text
  pub caption : Text
  pub first_comment : Text
  pub internal_notes : Text
  pub tags : Json
  pub category : Option ℕ
  pub scheduled_at : Option ℕ
  pub published_at : Option ℕ
  pub proposed_publish_at : Option ℕ

pub record PlatformPost : Type 0 where
  pub id : ℕ
  pub post : ℕ
  pub account : ℕ
  pub specific_title : Option Text
  pub specific_caption : Option Text
  pub specific_media : Option Json
  pub specific_first_comment : Option Text
  pub extra : List (Text × Json)
  pub status : Status
  pub platform_post_id : Text
  pub publish_error : Text
  pub published_at : Option ℕ
  pub comment_status : CommentStatus
  pub comment_id : Text
  pub comment_error : Text
  pub comment_retries : ℕ
  pub comment_posted_at : Option ℕ
  pub scheduled_at : Option ℕ
  pub retry_count : ℕ
  pub next_retry_at : Option ℕ

pub record PostMedia : Type 0 where
  pub post : ℕ
  pub asset : ℕ
  pub position : ℕ
  pub alt_text : Text
  pub overrides : Json

pub record Queue : Type 0 where
  pub id : ℕ
  pub workspace : ℕ
  pub account : ℕ

pub record QueueEntry : Type 0 where
  pub id : ℕ
  pub queue : ℕ
  pub post : ℕ
  pub position : ℕ
  pub assigned_slot : Option ℕ

-- `Workspace.ApprovalWorkflowMode`
pub data ApprovalMode : Type 0 where
  no_approval optional_approval required_internal required_internal_and_client : ApprovalMode

pub record Workspace : Type 0 where
  pub id : ℕ
  pub approval_mode : ApprovalMode

pub record MediaAsset : Type 0 where
  pub id : ℕ
  pub workspace : ℕ

-- The tables. `next_id` is a key that no row of any table has yet.
pub record Store : Type 0 where
  pub posts : List Post
  pub platform_posts : List PlatformPost
  pub media : List PostMedia
  pub queues : List Queue
  pub entries : List QueueEntry
  pub workspaces : List Workspace
  pub assets : List MediaAsset
  pub next_id : ℕ

-- `post.platform_posts`
abbrev pub children : ℕ → List PlatformPost → List PlatformPost
children post = keep (λ pp. pp.post == post)

-- `PlatformPost.objects.filter(pk=id).update(...)`
abbrev pub update_platform_post :
    ℕ → (PlatformPost → PlatformPost) → List PlatformPost → List PlatformPost
update_platform_post id = update_where (λ pp. pp.id == id)

-- The text that a platform gets: its own one, also an empty one, or the post's.
abbrev pub effective : Option Text → Text → Text
effective none base = base
effective (some own) base = own

unfoldable pub effective_title : Post → PlatformPost → Text
effective_title post pp = effective pp.specific_title post.title

unfoldable pub effective_caption : Post → PlatformPost → Text
effective_caption post pp = effective pp.specific_caption post.caption

unfoldable pub effective_first_comment : Post → PlatformPost → Text
effective_first_comment post pp = effective pp.specific_first_comment post.first_comment
