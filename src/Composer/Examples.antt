-- ===== src/Composer/Examples.antt =====
-- The composer's services on a small store.
use osir_ai.Prelude.{
  ℕ, ◌≡◌, refl, ◌↔◌, false, List, [], ◌∷◌, Option, none, some, arith, get_elem?, Text, text, ok,
  err, map, All, duplicate_media,
}
use osir_ai.Workflow.{draft, scheduled, can_transition_to}
use osir_ai.Records.{Post, PlatformPost, PostMedia, Store, children, no_approval, not_requested}
use osir_ai.Composer.{
  transition_platform_post, transition_to, transition_fields, post_mode, workspace_mode,
}
use osir_ai.Composer.Sync.{child_times, sync_post_scheduled_at, sync_row, least}
use osir_ai.Composer.Create.{
  Request, create_post, resolve_assets, blank_platform_post, check_request, created, new_post,
  new_platform_post, attach, check_asset, find_asset, override_for, repeats,
}
use osir_ai.Composer.Clone.{clone_post, clone_row}
use osir_ai.Composer.Earliest.{earliest, Synced}
use osir_ai.Composer.Transitions.{transition_platform_post-Synced}
use osir_ai.Composer.Assets.{HasAsset, IsUnique}
use osir_ai.Composer.Creation.{IsAccepted, create_post_iff}
use osir_ai.Composer.Copies.{IsCopy, clone_post-IsCopy}

abbrev post_one : Post
post_one = record {
  id = 1;
  workspace = 5;
  author = some 9;
  title = text "Launch";
  caption = text "Today";
  first_comment = [];
  internal_notes = [];
  tags = [];
  category = none;
  scheduled_at = some 100;
  published_at = none;
  proposed_publish_at = none;
}

abbrev row : ℕ → ℕ → ℕ → PlatformPost
row id account at = record {
  id = id;
  post = 1;
  account = account;
  specific_title = none;
  specific_caption = none;
  specific_media = none;
  specific_first_comment = none;
  extra = [];
  status = scheduled;
  platform_post_id = [];
  publish_error = [];
  published_at = none;
  comment_status = not_requested;
  comment_id = [];
  comment_error = [];
  comment_retries = 0;
  comment_posted_at = none;
  scheduled_at = some at;
  retry_count = 0;
  next_retry_at = none;
}

-- Two platform posts at times 100 and 200; the first one's channel has a queue with its slot.
abbrev store : Store
store = record {
  posts = post_one ∷ [];
  platform_posts = row 2 7 100 ∷ row 3 8 200 ∷ [];
  media = [];
  queues = record { id = 4; workspace = 5; account = 7 } ∷ [];
  entries = record { id = 6; queue = 4; post = 1; position = 1; assigned_slot = some 100 } ∷ [];
  workspaces = record { id = 5; approval_mode = no_approval } ∷ [];
  assets = record { id = 11; workspace = 5 } ∷ [];
  next_id = 20;
}

store-Synced : Synced store
unfolding child_times earliest least
store-Synced = (refl, tt)

-- The first platform post goes back to draft.
abbrev drafted : Store
drafted = record store {
  posts = record post_one { scheduled_at = some 200 } ∷ [];
  platform_posts = record (row 2 7 100) { status = draft; scheduled_at = none } ∷ row 3 8 200 ∷ [];
  entries = [];
}

to_draft : transition_platform_post (row 2 7 100) draft none 50 store ≡ ok drafted
unfolding transition_platform_post transition_to transition_fields can_transition_to
    sync_post_scheduled_at sync_row child_times least post_mode workspace_mode
to_draft = refl

transition_platform_post-Synced_example : Synced drafted
transition_platform_post-Synced_example =
    transition_platform_post-Synced (row 2 7 100) draft none 50 store drafted store-Synced
      (λ _. refl, (λ _. refl, tt)) to_draft

-- Here a text of one character stands for a UUID.
abbrev to_uuid : Text → Option ℕ
to_uuid (a ∷ []) = some a
to_uuid _ = none

abbrev request : Request
request = record {
  workspace = 5;
  account = record { id = 7; workspace = 5; needs_reconnect = false };
  caption = text "Hello";
  media_asset_ids = (11 ∷ []) ∷ [];
  title = [];
  first_comment = [];
  internal_notes = [];
  scheduled_at = some 300;
  proposed_publish_at = none;
  author = some 9;
  status = scheduled;
  overrides = [];
}

abbrev created_store : Store
created_store = record store {
  posts =
      post_one
      ∷ record {
        id = 20;
        workspace = 5;
        author = some 9;
        title = [];
        caption = text "Hello";
        first_comment = [];
        internal_notes = [];
        tags = [];
        category = none;
        scheduled_at = some 300;
        published_at = none;
        proposed_publish_at = none;
      }
      ∷ [];
  platform_posts = row 2 7 100 ∷ row 3 8 200 ∷ record (row 21 7 300) { post = 20 } ∷ [];
  media = record { post = 20; asset = 11; position = 0; alt_text = []; overrides = [] } ∷ [];
  next_id = 22;
}

created_request : create_post to_uuid request store ≡ ok (20, created_store)
unfolding create_post check_request workspace_mode resolve_assets check_asset find_asset created
    repeats new_post new_platform_post blank_platform_post override_for attach
    sync_post_scheduled_at sync_row child_times least
created_request = refl

-- The same asset twice breaks the uniqueness of the attachments.
asset_twice :
    create_post to_uuid (record request { media_asset_ids = (11 ∷ []) ∷ (11 ∷ []) ∷ [] }) store
    ≡ err duplicate_media
unfolding create_post check_request workspace_mode resolve_assets check_asset find_asset repeats
asset_twice = refl

create_post_iff_example : ((out : ℕ × Store) × (create_post to_uuid request store ≡ ok out)) ↔ (
    IsAccepted request store
    × ((ids : List ℕ) × (map to_uuid request.media_asset_ids ≡ map some ids)
        × All (HasAsset 5 store.assets) ids
        × IsUnique ids))
create_post_iff_example = create_post_iff to_uuid request store

abbrev attached : PostMedia
attached = record { post = 20; asset = 11; position = 0; alt_text = []; overrides = [] }

clone_post-IsCopy_example :
    (copy : PlatformPost) × (get_elem?
        (children 20 (clone_post post_one none store).1.platform_posts)
        1
      ≡ some copy)
    × IsCopy post_one (clone_row 20 none post_one) (row 3 8 200) copy
clone_post-IsCopy_example =
    clone_post-IsCopy post_one none store 1 (row 3 8 200) (omega arith, (omega arith, tt)) refl
