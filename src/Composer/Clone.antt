-- ===== src/Composer/Clone.antt =====
-- `clone_post` of apps/composer/services.py.
use osir_ai.Prelude.{
  ℕ, ◌+◌, List, [], ◌∷◌, ◌++◌, map, Option, none, some, ◌==◌, if◌then◌else◌, Text, text, truthy,
  keep, length,
}
use osir_ai.Records.{Post, PlatformPost, PostMedia, Store, children}
use osir_ai.Composer.Create.{blank_platform_post}

-- `f"Copy of {post.title}" if post.title else ""`
unfoldable pub copy_title : Text → Text
copy_title title = if truthy title then text "Copy of " ++ title else []

-- `author or post.author`
abbrev or_author : Option ℕ → Option ℕ → Option ℕ
or_author none own = own
or_author (some a) own = some a

unfoldable pub clone_row : ℕ → Option ℕ → Post → Post
unfolding copy_title
clone_row id author post = record {
  id = id;
  workspace = post.workspace;
  author = or_author author post.author;
  title = copy_title post.title;
  caption = post.caption;
  first_comment = post.first_comment;
  internal_notes = post.internal_notes;
  tags = post.tags;
  category = post.category;
  scheduled_at = none;
  published_at = none;
  proposed_publish_at = none;
}

-- The copy of a child: its overrides, and the column defaults for all else.
unfoldable pub clone_child : ℕ → ℕ → PlatformPost → PlatformPost
unfolding blank_platform_post
clone_child id post pp = record (blank_platform_post id post pp.account) {
  specific_title = pp.specific_title;
  specific_caption = pp.specific_caption;
  specific_first_comment = pp.specific_first_comment;
  specific_media = pp.specific_media;
  extra = pp.extra;
}

-- The new children, numbered from `id`.
unfoldable pub clone_children : ℕ → ℕ → List PlatformPost → List PlatformPost
unfolding clone_child
clone_children id post [] = []
clone_children id post (pp ∷ pps) = clone_child id post pp ∷ clone_children (id + 1) post pps

unfoldable pub clone_media : ℕ → List PostMedia → List PostMedia
clone_media post = map (λ (m : PostMedia). record m { post = post })

unfoldable pub clone_post : Post → Option ℕ → Store → ℕ × Store
unfolding clone_row clone_children clone_media
clone_post post author s =
    let id = s.next_id in
    let originals = children post.id s.platform_posts in
    (
      id,
      record s {
        posts = s.posts ++ (clone_row id author post ∷ []);
        platform_posts = s.platform_posts ++ clone_children (id + 1) id originals;
        media = s.media ++ clone_media id (keep (λ m. m.post == post.id) s.media);
        next_id = id + 1 + length originals;
      },
    )
