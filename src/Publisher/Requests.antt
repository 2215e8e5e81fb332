-- ===== src/Publisher/Requests.antt =====
-- The queueing of first comments: `_maybe_schedule_first_comment` of apps/publisher/engine.py.
use osir_ai.Prelude.{
  ℕ, ◌≡◌, refl, sym, ap, ◌∙◌, arith, Bool, true, false, ◌&&◌, inl, inr, List, [], ◌∷◌, Option, none,
  some, ◌==◌, Bool-cases, find, &&-no, ◌++◌, truthy,
}
use osir_ai.Workflow.{published, same}
use osir_ai.Records.{PlatformPost, update_platform_post, pending}
use osir_ai.Publisher.{
  maybe_schedule_first_comment, wants_first_comment, refresh, first_comment_text,
}
use osir_ai.Publisher.Tables.{World}
use osir_ai.Publisher.Attempt.{Reply, Messages}

abbrev updated : (PlatformPost → PlatformPost) → Option PlatformPost → Option PlatformPost
updated f none = none
updated f (some r) = some (f r)

pub find-update_platform_post :
    (f : PlatformPost → PlatformPost) (pp : PlatformPost) (rows : List PlatformPost)
    → ((r : PlatformPost) → (f r).id ≡ r.id)
    → find (λ r. r.id == pp.id) rows ≡ some pp
    → find (λ r. r.id == pp.id) (update_platform_post pp.id f rows) ≡ some (f pp)
find-update_platform_post f pp [] same_id h = grind arith
find-update_platform_post f pp (r ∷ rs) same_id h = elim (Bool-cases (r.id == pp.id)) [
  | inl e ↦
      let this : some r ≡ some pp = sym (rw e refl) ∙ h in
      let still : ((f r).id == pp.id) ≡ true = rw (same_id r) e in
      rw (e, still) (ap (updated f) this)
  | inr e ↦ rw (e, e) (find-update_platform_post f pp rs same_id (sym (rw e refl) ∙ h))
]

module _ (m : Messages) (dispatch : ℕ → PlatformPost → Reply) (supports : ℕ → Bool)
    (delay : ℕ → ℕ) where
  -- The row and the tables after a call that queues the comment.
  abbrev queued_row : PlatformPost → PlatformPost
  queued_row pp = record pp { comment_status = pending }

  abbrev queued : PlatformPost → World → World
  queued pp w = record w {
    tasks = w.tasks ++ (record { platform_post = pp.id; delay = delay pp.post } ∷ []);
    rows = update_platform_post pp.id queued_row w.rows;
  }

  wants-queued_row :
      (pp : PlatformPost) (w : World)
      → wants_first_comment m dispatch supports delay (queued_row pp) w ≡ false
  unfolding wants_first_comment
  wants-queued_row pp w =
      &&-no
        (same pp.status published
          && supports pp.account
          && truthy (first_comment_text w (queued_row pp)))
        refl

  -- When the row is that of the table, a second call on the row as it is after the first one
  -- changes nothing: no comment is queued twice.
  pub maybe_schedule_first_comment-twice :
      (pp : PlatformPost) (w : World)
      → find (λ r. r.id == pp.id) w.rows ≡ some pp
      → maybe_schedule_first_comment m dispatch supports delay
          (refresh pp (maybe_schedule_first_comment m dispatch supports delay pp w))
          (maybe_schedule_first_comment m dispatch supports delay pp w)
        ≡ maybe_schedule_first_comment m dispatch supports delay pp w
  unfolding maybe_schedule_first_comment
  maybe_schedule_first_comment-twice pp w h =
      elim (Bool-cases (wants_first_comment m dispatch supports delay pp w)) [
        | inl e ↦
            let first : maybe_schedule_first_comment m dispatch supports delay pp w ≡ queued pp w =
              rw e in
            rw (
              first,
              find-update_platform_post queued_row pp w.rows (λ r. refl) h,
              wants-queued_row pp (queued pp w),
            )
        | inr e ↦ rw (e, h, e)
      ]
