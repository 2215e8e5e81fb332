-- ===== src/Composer/Copies.antt =====
-- What `clone_post` copies.
use osir_ai.Prelude.{
  ℕ, zero, suc, ◌+◌, ◌<◌, ◌≡◌, refl, true, false, List, [], ◌∷◌, map, Option, none, some, arith,
  ◌==◌, All, All-map, keep-append, keep_none, keep_every, get_elem?,
}
use osir_ai.Workflow.{draft}
use osir_ai.Workflow.Aggregate.{derive_post_status}
use osir_ai.Workflow.Lowest.{lowest, aggregate, derive_post_status-aggregate}
use osir_ai.Records.{
  Post, PlatformPost, Store, children, effective_caption, effective_first_comment,
}
use osir_ai.Composer.Clone.{clone_child, clone_row, clone_children, clone_post}

clone_children-post :
    (id post : ℕ) (pps : List PlatformPost)
    → All (λ pp. (pp.post == post) ≡ true) (clone_children id post pps)
unfolding clone_children
clone_children-post id post [] = tt
clone_children-post id post (pp ∷ pps) = (ground arith, clone_children-post (id + 1) post pps)

-- The children of the clone are the new rows.
children-clone :
    (post : Post) (author : Option ℕ) (s : Store)
    → All (λ pp. pp.post < s.next_id) s.platform_posts
    → children s.next_id (clone_post post author s).1.platform_posts
      ≡ clone_children (s.next_id + 1) s.next_id (children post.id s.platform_posts)
unfolding clone_post
children-clone post author s fresh =
    let new = clone_children (s.next_id + 1) s.next_id (children post.id s.platform_posts) in
    rw (keep-append (λ (pp : PlatformPost). pp.post == s.next_id) s.platform_posts new) (
      rw (
        keep_none (λ (pp : PlatformPost). pp.post == s.next_id) s.platform_posts
            (All-map (λ pp. (pp.post == s.next_id) ≡ false) (λ pp. pp.post < s.next_id)
              s.platform_posts (λ pp h. ground arith) fresh),
        keep_every (λ (pp : PlatformPost). pp.post == s.next_id) new
            (clone_children-post (s.next_id + 1) s.next_id (children post.id s.platform_posts)),
      ))

-- What a copy of a child takes over, and what it starts with.
abbrev pub IsCopy : Post → Post → PlatformPost → PlatformPost → Type 0
IsCopy post clone pp copy =
    (copy.account ≡ pp.account)
    × (copy.status ≡ draft)
    × (copy.scheduled_at ≡ none)
    × (copy.published_at ≡ none)
    × (copy.retry_count ≡ 0)
    × (copy.platform_post_id ≡ [])
    × (effective_caption clone copy ≡ effective_caption post pp)
    × (effective_first_comment clone copy ≡ effective_first_comment post pp)

clone_children_at :
    (id new : ℕ) (author : Option ℕ) (post : Post) (pps : List PlatformPost) (i : ℕ)
    {pp : PlatformPost}
    → get_elem? pps i ≡ some pp
    → (copy : PlatformPost) × (get_elem? (clone_children id new pps) i ≡ some copy)
      × IsCopy post (clone_row new author post) pp copy
unfolding clone_children clone_row effective_caption effective_first_comment
clone_children_at id new author post [] i h = absurd (cc)
clone_children_at id new author post (x ∷ xs) zero {pp} h =
    let e : x ≡ pp = cc in
    rw (← e) (clone_child id new x, refl, (refl, refl, refl, refl, refl, refl, refl, refl))
clone_children_at id new author post (x ∷ xs) (suc i) h =
    clone_children_at (id + 1) new author post xs i h

-- Each platform post of the original has, at the same place, a copy under the clone: for the same
-- account, a draft with no time, no attempts and no platform key, that shows the same caption and
-- first comment. The keys of posts in use are below the clone's.
pub clone_post-IsCopy :
    (post : Post) (author : Option ℕ) (s : Store) (i : ℕ) (pp : PlatformPost)
    → All (λ pp. pp.post < s.next_id) s.platform_posts
    → get_elem? (children post.id s.platform_posts) i ≡ some pp
    → (copy : PlatformPost) × (get_elem?
          (children s.next_id (clone_post post author s).1.platform_posts)
          i
        ≡ some copy)
      × IsCopy post (clone_row s.next_id author post) pp copy
clone_post-IsCopy post author s i pp fresh h = rw (children-clone post author s fresh) (
    clone_children_at (s.next_id + 1) s.next_id author post (children post.id s.platform_posts) i h)

drafts_derive :
    (id post : ℕ) (pps : List PlatformPost)
    → derive_post_status (map (λ (pp : PlatformPost). pp.status) (clone_children id post pps))
      ≡ draft
unfolding clone_children aggregate lowest
drafts_derive id post [] = derive_post_status-aggregate []
drafts_derive id post (pp ∷ pps) =
    derive_post_status-aggregate
      (map (λ (pp : PlatformPost). pp.status) (clone_children id post (pp ∷ pps)))

-- A clone, also of a published post, is a draft as a whole. The keys of posts in use are below the
-- clone's.
pub clone_post-draft :
    (post : Post) (author : Option ℕ) (s : Store)
    → All (λ pp. pp.post < s.next_id) s.platform_posts
    → derive_post_status (
        map
          (λ (pp : PlatformPost). pp.status)
          (children s.next_id (clone_post post author s).1.platform_posts))
      ≡ draft
clone_post-draft post author s fresh =
    rw (children-clone post author s fresh)
      (drafts_derive (s.next_id + 1) s.next_id (children post.id s.platform_posts))
