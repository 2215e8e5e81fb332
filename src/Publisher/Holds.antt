-- ===== src/Publisher/Holds.antt =====
-- What a poll of apps/publisher/engine.py does to a post that has a row on hold.
use osir_ai.Prelude.{
  ℕ, ◌≡◌, refl, sym, ◌∙◌, Bool, true, false, inl, inr, List, [], ◌∷◌, ◌==◌, arith, Bool-cases, All,
  All-keep_sub, ==_iff,
}
use osir_ai.Workflow.{publishing}
use osir_ai.Records.{PlatformPost, children}
use osir_ai.Publisher.{
  ready, publish_post_group, publish_ready, publish_groups, is_retry, retry_one, after_retry,
  retry_each, process_retries, poll_and_publish, refresh, get_due_platform_posts, group_keys,
}
use osir_ai.Publisher.Tables.{World, post_on_hold, rows-sync_parent_published_at}
use osir_ai.Publisher.Attempt.{Reply, Messages}
use osir_ai.Publisher.Kept.{
  Owned, IsKept, IsElsewhere, post_on_hold-children, id-refresh, ready-IsElsewhere,
  IsKept-update_platform_post, IsKept-publish_platform_post, IsKept-maybe_schedule_first_comment,
  IsKept-publish_each, IsKept-comment_each, IsKept-mark_publishing,
}

module _ (owner : ℕ → ℕ) (post : ℕ) (held : List PlatformPost) (m : Messages)
    (dispatch : ℕ → PlatformPost → Reply) (supports : ℕ → Bool) (delay : ℕ → ℕ)
    (is_held : post_on_hold post held ≡ true) where
  on_hold_now : (w : World) → IsKept owner post held w.rows → post_on_hold post w.rows ≡ true
  on_hold_now w kept = rw (sym (post_on_hold-children post w.rows), kept.same_rows) is_held

  IsKept-publish_post_group :
      (now other : ℕ) (due : List PlatformPost) (w : World)
      → IsKept owner post held w.rows
      → IsKept owner post held (publish_post_group m dispatch supports delay now other due w).rows
  unfolding publish_post_group publish_ready
  IsKept-publish_post_group now other due w kept = elim (Bool-cases (other == post)) [
    | inl e ↦ let same_post = (==_iff other post).0 e in rw (same_post, on_hold_now w kept) kept
    | inr e ↦ elim (Bool-cases (post_on_hold other w.rows)) [
      | inl h ↦ rw h kept
      | inr h ↦ rw h (
          published (ready other due w)
            (ready-IsElsewhere owner post held m dispatch supports delay other due w e kept.owned))
    ]
  ]
    where
      published :
          (pps : List PlatformPost)
          → All (IsElsewhere owner post held) pps
          → IsKept owner post held (publish_ready m dispatch supports delay now other pps w).rows
      published [] away = kept
      published (pp ∷ pps) away =
          let marked =
            IsKept-mark_publishing owner post held m dispatch supports delay (pp ∷ pps) w away
              kept in
          let sent =
            IsKept-publish_each owner post held m dispatch supports delay now (pp ∷ pps) _ away
              marked in
          IsKept-comment_each owner post held m dispatch supports delay (pp ∷ pps) _ away
            (rw (rows-sync_parent_published_at other _) sent)

  IsKept-publish_groups :
      (now : ℕ) (due : List PlatformPost) (posts : List ℕ) (w : World)
      → IsKept owner post held w.rows
      → IsKept owner post held (publish_groups m dispatch supports delay now due posts w).rows
  unfolding publish_groups
  IsKept-publish_groups now due [] w kept = kept
  IsKept-publish_groups now due (other ∷ posts) w kept =
      IsKept-publish_groups now due posts _ (IsKept-publish_post_group now other _ w kept)

  IsKept-retry_one :
      (now : ℕ) (pp : PlatformPost) (w : World)
      → owner pp.id ≡ pp.post
      → IsKept owner post held w.rows
      → IsKept owner post held (retry_one m dispatch supports delay now pp w).rows
  unfolding retry_one after_retry
  IsKept-retry_one now pp w own kept = elim (Bool-cases (post_on_hold pp.post w.rows)) [
    | inl h ↦ rw h kept
    | inr h ↦
        let ne : (pp.post == post) ≡ false =
          not_held (λ same_post. sym h ∙ rw same_post (on_hold_now w kept)) in
        let away : (owner pp.id == post) ≡ false = rw own ne in
        let marked =
          IsKept-update_platform_post owner post held pp.id _ w.rows away (λ r i o. (refl, refl))
            kept in
        let started = record pp { status = publishing } in
        let sent =
          IsKept-publish_platform_post owner post held m dispatch supports delay now started _
            (record { own = own; other = ne }) marked in
        rw h (followed _ _ away sent)
  ]
    where
      not_held : (pp.post ≡ post → false ≡ true) → (pp.post == post) ≡ false
      not_held k = elim (Bool-cases (pp.post == post)) [
        | inl e ↦ let absurd = k ((==_iff pp.post post).0 e) in ground arith
        | inr e ↦ e
      ]

      followed :
          (b : Bool) (w' : World)
          → (owner pp.id == post) ≡ false
          → IsKept owner post held w'.rows
          → IsKept owner post held (after_retry m dispatch supports delay b pp w').rows
      followed false w' away k = k
      followed true w' away k =
          IsKept-maybe_schedule_first_comment owner post held m dispatch supports delay
            (refresh pp w') _ (rw (id-refresh pp w') away)
            (rw (rows-sync_parent_published_at pp.post w') k)

  IsKept-retry_each :
      (now : ℕ) (pps : List PlatformPost) (w : World)
      → Owned owner pps
      → IsKept owner post held w.rows
      → IsKept owner post held (retry_each m dispatch supports delay now pps w).rows
  unfolding retry_each
  IsKept-retry_each now [] w own kept = kept
  IsKept-retry_each now (pp ∷ pps) w (own, owns) kept =
      IsKept-retry_each now pps _ owns (IsKept-retry_one now pp w own kept)

module _ (m : Messages) (dispatch : ℕ → PlatformPost → Reply) (supports : ℕ → Bool)
    (delay : ℕ → ℕ) where
  -- While one row of a post is on hold, a poll, with its due rows and its retries, changes no row
  -- of that post, whatever it does to other posts; a key stands for a row of one post.
  pub poll_and_publish-on_hold :
      (owner : ℕ → ℕ) (now post : ℕ) (w : World)
      → Owned owner w.rows
      → post_on_hold post w.rows ≡ true
      → children post (poll_and_publish m dispatch supports delay now w).1.rows
        ≡ children post w.rows
  unfolding poll_and_publish process_retries
  poll_and_publish-on_hold owner now post w own hold =
      let held = children post w.rows in
      let is_held : post_on_hold post held ≡ true = rw (post_on_hold-children post w.rows) hold in
      let due = get_due_platform_posts now w in
      let start : IsKept owner post held w.rows = record { owned = own; same_rows = refl } in
      let sent =
        IsKept-publish_groups owner post held m dispatch supports delay is_held now due
          (group_keys [] due) w start in
      let w1 = publish_groups m dispatch supports delay now due (group_keys [] due) w in
      let retries = All-keep_sub (λ r. owner r.id ≡ r.post) (is_retry now w1) w1.rows sent.owned in
      (IsKept-retry_each owner post held m dispatch supports delay is_held now _ w1 retries
        sent).same_rows
