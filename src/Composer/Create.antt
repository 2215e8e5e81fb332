-- ===== src/Composer/Create.antt =====
-- `create_post` of apps/composer/services.py.
use osir_ai.Prelude.{
  ℕ, ◌+◌, Bool, false, ◌&&◌, ◌||◌, not, List, [], ◌∷◌, ◌++◌, Option, none, some, ◌==◌,
  if◌then◌else◌, Text, Result, ok, err, ◌>>=◌, ◌>>◌, raise_if, bad_initial_status,
  schedule_time_required, wrong_workspace, needs_reconnect, media_not_found, duplicate_media, find,
  is_some, member,
}
use osir_ai.Workflow.{Status, draft, scheduled, same, status_in}
use osir_ai.Records.{Post, PlatformPost, PostMedia, Store, MediaAsset, not_requested}
use osir_ai.Composer.{workspace_mode, gate_schedule}
use osir_ai.Composer.Sync.{sync_post_scheduled_at}

-- A `SocialAccount`, as far as the service reads it.
pub record Account : Type 0 where
  pub id : ℕ
  pub workspace : ℕ
  pub needs_reconnect : Bool

-- One entry of `platform_overrides`; `none` stands for a missing key or for `None`.
pub record Override : Type 0 where
  pub title : Option Text
  pub caption : Option Text
  pub first_comment : Option Text

-- The keyword arguments of `create_post`.
pub record Request : Type 0 where
  pub workspace : ℕ
  pub account : Account
  pub caption : Text
  pub media_asset_ids : List Text
  pub title : Text
  pub first_comment : Text
  pub internal_notes : Text
  pub scheduled_at : Option ℕ
  pub proposed_publish_at : Option ℕ
  pub author : Option ℕ
  pub status : Status
  pub overrides : List (ℕ × Override)

abbrev pub initial_statuses : List Status
initial_statuses = draft ∷ scheduled ∷ []

abbrev pub no_override : Override
no_override = record { title = none; caption = none; first_comment = none }

-- `(platform_overrides or {}).get(account) or {}`
unfoldable pub override_for : ℕ → List (ℕ × Override) → Override
override_for account [] = no_override
override_for account ((a, o) ∷ rest) = if a == account then o else override_for account rest

-- The asset of an identifier, if the workspace has it.
unfoldable pub find_asset : ℕ → Store → ℕ → Option MediaAsset
find_asset workspace s id = find (λ a. a.id == id && a.workspace == workspace) s.assets

-- The rows of the attachments, in the order of the request.
unfoldable pub attach : ℕ → ℕ → List ℕ → List PostMedia
attach post position [] = []
attach post position (asset ∷ rest) =
    record { post = post; asset = asset; position = position; alt_text = []; overrides = [] }
    ∷ attach post (position + 1) rest

-- Whether an asset is attached twice: `PostMedia` is unique for a post and an asset, so that the
-- second row raises, and the transaction with the new rows is rolled back.
unfoldable pub repeats : List ℕ → Bool
repeats [] = false
repeats (asset ∷ rest) = member asset rest || repeats rest

-- `scheduled_at if status == "scheduled" else None`
abbrev pub committed : Request → Option ℕ
committed r = if same r.status scheduled then r.scheduled_at else none

unfoldable pub new_post : ℕ → Request → Post
new_post id r = record {
  id = id;
  workspace = r.workspace;
  author = r.author;
  title = r.title;
  caption = r.caption;
  first_comment = r.first_comment;
  internal_notes = r.internal_notes;
  tags = [];
  category = none;
  scheduled_at = committed r;
  published_at = none;
  proposed_publish_at = r.proposed_publish_at;
}

-- A `PlatformPost` with its column defaults.
unfoldable pub blank_platform_post : ℕ → ℕ → ℕ → PlatformPost
blank_platform_post id post account = record {
  id = id;
  post = post;
  account = account;
  specific_title = none;
  specific_caption = none;
  specific_media = none;
  specific_first_comment = none;
  extra = [];
  status = draft;
  platform_post_id = [];
  publish_error = [];
  published_at = none;
  comment_status = not_requested;
  comment_id = [];
  comment_error = [];
  comment_retries = 0;
  comment_posted_at = none;
  scheduled_at = none;
  retry_count = 0;
  next_retry_at = none;
}

unfoldable pub new_platform_post : ℕ → ℕ → Request → PlatformPost
unfolding blank_platform_post override_for
new_platform_post id post r =
    let o = override_for r.account.id r.overrides in
    record (blank_platform_post id post r.account.id) {
      status = r.status;
      scheduled_at = committed r;
      specific_title = o.title;
      specific_caption = o.caption;
      specific_first_comment = o.first_comment;
    }

-- The guards, in their order.
unfoldable pub check_request : Request → Store → Result (Unit {0})
check_request r s = do
  raise_if (not (status_in r.status initial_statuses)) bad_initial_status
  raise_if (same r.status scheduled && not (is_some r.scheduled_at)) schedule_time_required
  raise_if (not (r.account.workspace == r.workspace)) wrong_workspace
  raise_if r.account.needs_reconnect needs_reconnect
  gate_schedule r.status (workspace_mode r.workspace s)

-- The tables with the rows of the request.
unfoldable pub created : Request → List ℕ → Store → Store
created r assets s =
    let id = s.next_id in
    record s {
      posts = s.posts ++ (new_post id r ∷ []);
      platform_posts = s.platform_posts ++ (new_platform_post (id + 1) id r ∷ []);
      media = s.media ++ attach id 0 assets;
      next_id = id + 2;
    }

-- An identifier that is a UUID of an asset of the workspace is put before the others.
unfoldable pub check_asset : ℕ → Store → List ℕ → Option ℕ → Result (List ℕ)
unfolding find_asset
check_asset workspace s others none = err media_not_found
check_asset workspace s others (some id) =
    if is_some (find_asset workspace s id) then ok (id ∷ others) else err media_not_found

-- `uuid.UUID(str(value))`, or `None` for a text that is no UUID.
module _ (to_uuid : Text → Option ℕ) where
  -- The assets of a request; one that is no UUID or not in the workspace refuses them all.
  unfoldable pub resolve_assets : ℕ → Store → List Text → Result (List ℕ)
  unfolding check_asset
  resolve_assets workspace s [] = ok []
  resolve_assets workspace s (raw ∷ rest) = do
    others ← resolve_assets workspace s rest
    check_asset workspace s others (to_uuid raw)

  -- The key of the new post, and the tables with its rows.
  unfoldable pub create_post : Request → Store → Result (ℕ × Store)
  create_post r s = do
    check_request r s
    assets ← resolve_assets r.workspace s r.media_asset_ids
    raise_if (repeats assets) duplicate_media
    ok (s.next_id, sync_post_scheduled_at s.next_id (created r assets s))
