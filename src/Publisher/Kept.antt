-- ===== src/Publisher/Kept.antt =====
-- The rows of one post while the engine of apps/publisher/engine.py writes those of others.
use osir_ai.Prelude.{
  ℕ, ◌≡◌, refl, sym, ◌∙◌, ap, Bool, true, false, ◌||◌, inl, inr, List, [], ◌∷◌, ◌==◌, arith,
  Bool-cases, any, find, update_where, All, All-keep_sub, ==_iff,
}
use osir_ai.Workflow.{publishing, on_hold, same}
use osir_ai.Records.{PlatformPost, children, update_platform_post}
use osir_ai.Publisher.{
  maybe_schedule_first_comment, wants_first_comment, publish_each, comment_each, ready,
  mark_publishing, refresh, or_stale,
}
use osir_ai.Publisher.Tables.{World, post_on_hold}
use osir_ai.Publisher.Attempt.{Reply, Messages, publish_platform_post, rate_limited}
use osir_ai.Publisher.Written.{rows-publish_platform_post, row_after_attempt-IsSameRow}

-- A key belongs to one row: whose post it is can be told from it.
abbrev pub Owned : (ℕ → ℕ) → List PlatformPost → Type 0
Owned owner = All (λ r. owner r.id ≡ r.post)

-- The hold of a post is seen on its own rows.
pub post_on_hold-children :
    (post : ℕ) (rows : List PlatformPost)
    → post_on_hold post (children post rows) ≡ post_on_hold post rows
unfolding post_on_hold
post_on_hold-children post [] = refl
post_on_hold-children post (r ∷ rs) = elim (Bool-cases (r.post == post)) [
  | inl e ↦ rw (e, e) (ap (λ b. same r.status on_hold || b) (post_on_hold-children post rs))
  | inr e ↦ rw e (post_on_hold-children post rs)
]

pub id-refresh : (pp : PlatformPost) (w : World) → (refresh pp w).id ≡ pp.id
id-refresh pp w = found w.rows
  where
    found : (rows : List PlatformPost) → (or_stale pp (find (λ r. r.id == pp.id) rows)).id ≡ pp.id
    found [] = refl
    found (r ∷ rs) = elim (Bool-cases (r.id == pp.id)) [
      | inl e ↦ rw e ((==_iff r.id pp.id).0 e)
      | inr e ↦ rw e (found rs)
    ]

-- The rows of one post, while others are written. `held` are the rows it had.
module _ (owner : ℕ → ℕ) (post : ℕ) (held : List PlatformPost) where
  pub record IsKept (rows : List PlatformPost) : Type 0 where
    pub owned : Owned owner rows
    pub same_rows : children post rows ≡ held

  -- A row of another post.
  pub record IsElsewhere (pp : PlatformPost) : Type 0 where
    pub own : owner pp.id ≡ pp.post
    pub other : (pp.post == post) ≡ false

  pub IsKept-update :
      (p : PlatformPost → Bool) (f : PlatformPost → PlatformPost) (rows : List PlatformPost)
      → ((r : PlatformPost)
          → owner r.id ≡ r.post
          → p r ≡ true
          → ((f r).id ≡ r.id) × ((f r).post ≡ r.post) × ((r.post == post) ≡ false))
      → Owned owner rows
      → Owned owner (update_where p f rows)
        × (children post (update_where p f rows) ≡ children post rows)
  IsKept-update p f [] h o = (tt, refl)
  IsKept-update p f (r ∷ rs) h (o, os) =
      let rest = IsKept-update p f rs h os in
      elim (Bool-cases (p r)) [
        | inl e ↦
            let (same_id, same_post, other) = h r o e in
            rw (e, same_id, same_post, other) ((o, rest.0), rest.1)
        | inr e ↦ rw (e, rest.1) ((o, rest.0), refl)
      ]

  pub IsKept-update_platform_post :
      (id : ℕ) (f : PlatformPost → PlatformPost) (rows : List PlatformPost)
      → (owner id == post) ≡ false
      → ((r : PlatformPost)
          → r.id ≡ id
          → owner r.id ≡ r.post
          → ((f r).id ≡ r.id) × ((f r).post ≡ r.post))
      → IsKept rows
      → IsKept (update_platform_post id f rows)
  IsKept-update_platform_post id f rows away keeps kept =
      let both =
        IsKept-update (λ r. r.id == id) f rows
          (λ r o e.
            let same_id = (==_iff r.id id).0 e in
            let other : (r.post == post) ≡ false = rw (sym o, same_id) away in
            let (i, q) = keeps r same_id o in (i, q, other))
          kept.owned in
      record { owned = both.0; same_rows = both.1 ∙ kept.same_rows }

  pub away_from : (pp : PlatformPost) → IsElsewhere pp → (owner pp.id == post) ≡ false
  away_from pp e = rw e.own e.other

  module _ (m : Messages) (dispatch : ℕ → PlatformPost → Reply) (supports : ℕ → Bool)
      (delay : ℕ → ℕ) where
    pub IsKept-publish_platform_post :
        (now : ℕ) (pp : PlatformPost) (w : World)
        → IsElsewhere pp
        → IsKept w.rows
        → IsKept (publish_platform_post m dispatch now pp w).rows
    IsKept-publish_platform_post now pp w away kept =
        let same_row =
          row_after_attempt-IsSameRow m now (rate_limited now pp.account w) (dispatch now pp) pp in
        rw (rows-publish_platform_post m dispatch now pp w) (
          IsKept-update_platform_post pp.id _ w.rows (away_from pp away)
            (λ r i o. (same_row.id ∙ sym i, same_row.post ∙ sym away.own ∙ ap owner (sym i) ∙ o))
            kept)

    pub IsKept-maybe_schedule_first_comment :
        (pp : PlatformPost) (w : World)
        → (owner pp.id == post) ≡ false
        → IsKept w.rows
        → IsKept (maybe_schedule_first_comment m dispatch supports delay pp w).rows
    unfolding maybe_schedule_first_comment
    IsKept-maybe_schedule_first_comment pp w other kept =
        elim (Bool-cases (wants_first_comment m dispatch supports delay pp w)) [
          | inl e ↦
              rw e (IsKept-update_platform_post pp.id _ w.rows other (λ r i o. (refl, refl)) kept)
          | inr e ↦ rw e kept
        ]

    pub IsKept-publish_each :
        (now : ℕ) (pps : List PlatformPost) (w : World)
        → All IsElsewhere pps
        → IsKept w.rows
        → IsKept (publish_each m dispatch supports delay now pps w).rows
    unfolding publish_each
    IsKept-publish_each now [] w away kept = kept
    IsKept-publish_each now (pp ∷ pps) w away kept =
        IsKept-publish_each now pps (publish_platform_post m dispatch now pp w) away.1
          (IsKept-publish_platform_post now pp w away.0 kept)

    pub IsKept-comment_each :
        (pps : List PlatformPost) (w : World)
        → All IsElsewhere pps
        → IsKept w.rows
        → IsKept (comment_each m dispatch supports delay pps w).rows
    unfolding comment_each
    IsKept-comment_each [] w away kept = kept
    IsKept-comment_each (pp ∷ pps) w away kept =
        let other = away_from pp away.0 in
        IsKept-comment_each pps
          (maybe_schedule_first_comment m dispatch supports delay (refresh pp w) w) away.1
          (IsKept-maybe_schedule_first_comment (refresh pp w) w (rw (id-refresh pp w) other) kept)

    pub IsKept-mark_publishing :
        (pps : List PlatformPost) (w : World)
        → All IsElsewhere pps
        → IsKept w.rows
        → IsKept (mark_publishing pps w).rows
    unfolding mark_publishing
    IsKept-mark_publishing pps w away kept =
        let both =
          IsKept-update (λ r. any (λ d. d.id == r.id) pps) (λ r. record r { status = publishing })
            w.rows (λ r o e. (refl, refl, named pps away r o e)) kept.owned in
        record { owned = both.0; same_rows = both.1 ∙ kept.same_rows }
      where
        named :
            (pps : List PlatformPost)
            → All IsElsewhere pps
            → (r : PlatformPost) → owner r.id ≡ r.post
            → any (λ d. d.id == r.id) pps ≡ true
            → (r.post == post) ≡ false
        named [] away r o e = ground arith
        named (d ∷ ds) away r o e = elim (Bool-cases (d.id == r.id)) [
          | inl i ↦
              let same_id = (==_iff d.id r.id).0 i in rw (sym o, sym same_id) (away_from d away.0)
          | inr i ↦ named ds away.1 r o (sym (rw i refl) ∙ e)
        ]

    pub ready-IsElsewhere :
        (other : ℕ) (due : List PlatformPost) (w : World)
        → (other == post) ≡ false
        → Owned owner w.rows
        → All IsElsewhere (ready other due w)
    unfolding ready
    ready-IsElsewhere other due w ne o =
        All-keep_sub _ _ (children other w.rows) (keep_children w.rows o)
      where
        keep_children :
            (rows : List PlatformPost) → Owned owner rows → All IsElsewhere (children other rows)
        keep_children [] o = tt
        keep_children (r ∷ rs) (o, os) = elim (Bool-cases (r.post == other)) [
          | inl e ↦
              let same_post = (==_iff r.post other).0 e in
              rw e (record { own = o; other = rw same_post ne }, keep_children rs os)
          | inr e ↦ rw e (keep_children rs os)
        ]
