-- ===== src/Composer/Creation.antt =====
-- What `create_post` checks, and what it leaves in the tables.
use osir_ai.Prelude.{
  ℕ, zero, suc, ◌+◌, ◌≡◌, ◌≢◌, ◌↔◌, ◌⊎◌, refl, sym, true, false, List, [], ◌∷◌, ◌++◌, map, Option,
  some, arith, All, All-map, All-append, inl, inr, get_elem?, get_elem?-append, length, is_some,
  Text, ok, >>=-ok, ok_injective, raise_if-ok, duplicate_media,
}
use osir_ai.Workflow.{draft, scheduled, same, status_in}
use osir_ai.Records.{
  Post, PlatformPost, PostMedia, Store, ApprovalMode, no_approval, optional_approval,
  required_internal, required_internal_and_client,
}
use osir_ai.Composer.{workspace_mode, blocks_direct_schedule}
use osir_ai.Composer.Sync.{child_times, sync_post_scheduled_at}
use osir_ai.Composer.Create.{
  Request, find_asset, attach, new_post, new_platform_post, resolve_assets, create_post,
  check_request, created, repeats,
}
use osir_ai.Composer.Assets.{
  HasAsset, IsUnique, resolve_assets_at, resolve_assets-named, named-resolve_assets,
  repeats-IsUnique, unique-repeats,
}
use osir_ai.Composer.Earliest.{earliest, Synced, sync_post_scheduled_at-Synced}

-- The modes of a workspace in which a post can be scheduled without an approval.
abbrev pub IsDirect : ApprovalMode → Type 0
IsDirect mode = (mode ≡ no_approval) ⊎ (mode ≡ optional_approval)

blocks-IsDirect : (mode : ApprovalMode) → blocks_direct_schedule mode ≡ false → IsDirect mode
blocks-IsDirect no_approval h = inl refl
blocks-IsDirect optional_approval h = inr refl
blocks-IsDirect required_internal h = absurd (cc)
blocks-IsDirect required_internal_and_client h = absurd (cc)

direct-blocks : (mode : ApprovalMode) → IsDirect mode → blocks_direct_schedule mode ≡ false
direct-blocks mode (inl e) = rw e refl
direct-blocks mode (inr e) = rw e refl

-- What the guards of `create_post` ask of a request.
pub record IsAccepted (r : Request) (s : Store) : Type 0 where
  pub initial : status_in r.status (draft ∷ scheduled ∷ []) ≡ true
  pub timed : same r.status scheduled ≡ true → is_some r.scheduled_at ≡ true
  pub own_account : r.account.workspace ≡ r.workspace
  pub connected : r.account.needs_reconnect ≡ false
  pub ungated : same r.status scheduled ≡ true → IsDirect (workspace_mode r.workspace s)

check_request-IsAccepted :
    (r : Request) (s : Store) {u : Unit {0}} → check_request r s ≡ ok u → IsAccepted r s
unfolding check_request
check_request-IsAccepted r s h = record {
  initial = ground arith;
  timed = λ e. ground arith;
  own_account = ground arith;
  connected = ground arith;
  ungated = λ e. blocks-IsDirect (workspace_mode r.workspace s) (
      let free : blocks_direct_schedule (workspace_mode r.workspace s) ≡ false = ground arith in
      free);
}

check_request-ok : (r : Request) (s : Store) → IsAccepted r s → check_request r s ≡ ok tt
unfolding check_request
check_request-ok r s h =
    let free : same r.status scheduled ≡ true
        → blocks_direct_schedule (workspace_mode r.workspace s) ≡ false =
      λ e. direct-blocks (workspace_mode r.workspace s) (h.ungated e) in
    ground arith

child_times-append :
    (post : ℕ) (xs ys : List PlatformPost)
    → child_times post ys ≡ []
    → child_times post (xs ++ ys) ≡ child_times post xs
unfolding child_times
child_times-append post [] ys h = h
child_times-append post (x ∷ xs) ys h = rw (child_times-append post xs ys h)

new_platform_post_elsewhere :
    (p id post : ℕ) (r : Request) → p ≢ post → child_times p (new_platform_post id post r ∷ []) ≡ []
unfolding child_times new_platform_post
new_platform_post_elsewhere p id post r ne = ground arith

new_post-id : (id : ℕ) (r : Request) → (new_post id r).id ≡ id
unfolding new_post
new_post-id id r = refl

-- The other posts' times are untouched by the new rows.
created_others :
    (r : Request) (assets : List ℕ) (s : Store) (ps : List Post)
    → All (λ p. p.scheduled_at ≡ earliest (child_times p.id s.platform_posts)) ps
    → All
        (λ p.
          p.id ≢ s.next_id
          → p.scheduled_at ≡ earliest (child_times p.id (created r assets s).platform_posts))
        ps
unfolding created
created_others r assets s ps h =
    All-map
      (λ p.
        p.id ≢ s.next_id
        → p.scheduled_at ≡ earliest (child_times p.id (created r assets s).platform_posts))
      (λ p. p.scheduled_at ≡ earliest (child_times p.id s.platform_posts)) ps
      (λ p k ne.
        rw
          (child_times-append p.id s.platform_posts
            (new_platform_post (s.next_id + 1) s.next_id r ∷ [])
            (new_platform_post_elsewhere p.id (s.next_id + 1) s.next_id r ne))
          k)
      h

created_posts :
    (r : Request) (assets : List ℕ) (s : Store)
    → (created r assets s).posts ≡ s.posts ++ (new_post s.next_id r ∷ [])
unfolding created
created_posts r assets s = refl

-- The i-th attachment is the i-th asset, at position i.
attach_at :
    (post k i : ℕ) (assets : List ℕ) {m : PostMedia}
    → get_elem? (attach post k assets) i ≡ some m
    → (m.post ≡ post) × (m.position ≡ k + i) × (get_elem? assets i ≡ some m.asset)
unfolding attach
attach_at post k i [] h = absurd (cc)
attach_at post k zero (a ∷ as') h = ground arith
attach_at post k (suc i) (a ∷ as') {m} h =
    let (p, q, r) = attach_at post (k + 1) i as' h in (p, omega arith, r)

module _ (to_uuid : Text → Option ℕ) where
  create_post-ok :
      (r : Request) (s : Store) {out : ℕ × Store}
      → create_post to_uuid r s ≡ ok out
      → IsAccepted r s
        × ((assets : List ℕ) × (resolve_assets to_uuid r.workspace s r.media_asset_ids ≡ ok assets)
            × (repeats assets ≡ false)
            × (out ≡ (s.next_id, sync_post_scheduled_at s.next_id (created r assets s))))
  unfolding create_post
  create_post-ok r s h =
      let (_, checked, h1) = >>=-ok (check_request r s) _ h in
      let (assets, resolved, h2) =
        >>=-ok (resolve_assets to_uuid r.workspace s r.media_asset_ids) _ h1 in
      let (once, done) = raise_if-ok (repeats assets) duplicate_media _ h2 in
      (check_request-IsAccepted r s checked, (assets, resolved, once, sym (ok_injective done)))

  -- A request succeeds exactly where it asks for a draft or for a timed post, of an account of its
  -- own workspace that needs no reconnect, not scheduled past a required approval, and its media
  -- identifiers are the UUIDs of assets of the workspace, none of them twice.
  pub create_post_iff :
      (r : Request) (s : Store)
      → ((out : ℕ × Store) × (create_post to_uuid r s ≡ ok out)) ↔ (
          IsAccepted r s
          × ((ids : List ℕ) × (map to_uuid r.media_asset_ids ≡ map some ids)
              × All (HasAsset r.workspace s.assets) ids
              × IsUnique ids))
  unfolding create_post
  create_post_iff r s = (
    (λ found.
        let (accepted, (ids, resolved, once, _)) = create_post-ok r s found.1 in
        let (named, owned) =
          resolve_assets-named to_uuid r.workspace s r.media_asset_ids resolved in
        (accepted, (ids, named, owned, repeats-IsUnique ids once))),
    (λ found.
        let (accepted, (ids, named, owned, once)) = found in
        (
          (s.next_id, sync_post_scheduled_at s.next_id (created r ids s)),
          rw
              (
                check_request-ok r s accepted,
                named-resolve_assets to_uuid r.workspace s r.media_asset_ids ids named owned,
                unique-repeats ids once,
              )
              refl,
        )),
  )

  -- Creating a post keeps every post's time the earliest of its children's; this holds for the
  -- new post too.
  pub create_post-Synced :
      (r : Request) (s : Store) (out : ℕ × Store)
      → Synced s
      → create_post to_uuid r s ≡ ok out
      → Synced out.1
  create_post-Synced r s out synced h =
      let (_, (assets, _, _, result)) = create_post-ok r s h in
      rw result (
        sync_post_scheduled_at-Synced s.next_id (created r assets s) (
          rw created_posts (
            All-append _ s.posts (new_post s.next_id r ∷ [])
              (created_others r assets s s.posts synced)
              ((λ ne. absurd (ne (new_post-id s.next_id r))), tt))))

  -- The media of a created post are the requested assets in their order: the attachment that is
  -- added as number i stands at position i and holds the asset that the i-th identifier names,
  -- which is in the request's workspace.
  pub create_post-media :
      (r : Request) (s : Store) (out : ℕ × Store) (i : ℕ) (m : PostMedia)
      → create_post to_uuid r s ≡ ok out
      → get_elem? out.1.media (length s.media + i) ≡ some m
      → (m.post ≡ out.0)
        × (m.position ≡ i)
        × (get_elem? (map to_uuid r.media_asset_ids) i ≡ some (some m.asset))
        × (is_some (find_asset r.workspace s m.asset) ≡ true)
  unfolding created sync_post_scheduled_at
  create_post-media r s out i m h k =
      let (_, (assets, resolved, _, result)) = create_post-ok r s h in
      let here : get_elem? (s.media ++ attach s.next_id 0 assets) (length s.media + i) ≡ some m =
        rw result at k in
      let (owner, place, asset) =
        attach_at s.next_id 0 i assets
          (rw (get_elem?-append s.media (attach s.next_id 0 assets) i) at here) in
      let (named, found) =
        resolve_assets_at to_uuid r.workspace s r.media_asset_ids i resolved asset in
      (rw result owner, omega arith, named, found)
