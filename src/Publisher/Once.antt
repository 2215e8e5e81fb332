-- ===== src/Publisher/Once.antt =====
-- How often `_post_first_comment_task` of apps/publisher/engine.py can run for a platform post, and
-- how many comments it can leave on the platform.
use osir_ai.Prelude.{
  ℕ, suc, ◌+◌, ◌≤◌, ◌≡◌, ◌⊎◌, refl, sym, subst, ◌∙◌, ap, arith, Bool, true, ◌||◌, not, inl, inr,
  List, [], ◌∷◌, ◌++◌, some, ◌==◌, leb, if◌then◌else◌, find, Bool-cases, ||-false,
}
use osir_ai.Records.{PlatformPost}
use osir_ai.Publisher.{first_comment_text}
use osir_ai.Publisher.Tables.{World, CommentTask}
use osir_ai.Publisher.Comment.{
  Exchange, CommentMessages, Ending, skipped, failure, on_platform, before_publish, ending,
  finish_comment, record_first_comment_failure, mark_first_comment_posted, post_first_comment_task,
  max_comment_retries, or_backoff, comment_backoff,
}
use osir_ai.Publisher.Requests.{find-update_platform_post}
use osir_ai.Publisher.Ends.{IsLooked, overlooked, IsRun, IsSafe, IsGoodEnd, task-IsGoodEnd}

-- The queued runs of a row.
abbrev pub waiting : ℕ → List CommentTask → ℕ
waiting id [] = 0
waiting id (t ∷ ts) = if t.platform_post == id then suc (waiting id ts) else waiting id ts

-- The queue after one run of the row is taken from it.
abbrev pub taken : ℕ → List CommentTask → List CommentTask
taken id [] = []
taken id (t ∷ ts) = let rest = taken id ts in if t.platform_post == id then ts else t ∷ rest

module _ (m : CommentMessages) (reconciles : Bool) (id : ℕ) where
  -- The runs of a row's queued tasks, one after the other, with their number and that of the lookups
  -- that missed a comment: the text of the comment does not change, and what the tables record can
  -- be written.
  pub data Runs (w : World) : ℕ → ℕ → World → ℕ → Type 0 where
    none_yet : Runs w 0 0 w 0
    one_more :
        {n missed live : ℕ} {w1 : World}
        → Runs w n missed w1 live
        → (now : ℕ) (x : Exchange) (live1 : ℕ) → 1 ≤ waiting id w1.tasks
        → IsLooked reconciles x.lookup
        → IsRun m w1 x (find (λ r. r.id == id) w1.rows) live live1
        → Runs w
            (suc n)
            (overlooked x.lookup live + missed)
            (post_first_comment_task m now reconciles id x
              (record w1 { tasks = taken id w1.tasks }))
            live1

waiting-taken : (id : ℕ) (ts : List CommentTask) → waiting id ts ≤ 1 → waiting id (taken id ts) ≡ 0
waiting-taken id [] h = refl
waiting-taken id (t ∷ ts) h = elim (Bool-cases (t.platform_post == id)) [
  | inl e ↦ let last : waiting id ts ≡ 0 = ground arith in rw e last
  | inr e ↦ let rest : waiting id ts ≤ 1 = ground arith in rw (e, e) (waiting-taken id ts rest)
]

pub waiting-queue :
    (id : ℕ) (t : CommentTask) (ts : List CommentTask)
    → (t.platform_post == id) ≡ true
    → waiting id (ts ++ (t ∷ [])) ≡ suc (waiting id ts)
waiting-queue id t [] h = rw h
waiting-queue id t (u ∷ ts) h = elim (Bool-cases (u.platform_post == id)) [
  | inl e ↦ rw (e, waiting-queue id t ts h) refl
  | inr e ↦ rw (e, waiting-queue id t ts h) refl
]

pub find-id :
    (id : ℕ) (pp : PlatformPost) (rows : List PlatformPost)
    → find (λ r. r.id == id) rows ≡ some pp
    → pp.id ≡ id
find-id id pp [] h = cc
find-id id pp (r ∷ rs) h = elim (Bool-cases (r.id == id)) [
  | inl e ↦
      let this : some r ≡ some pp = sym (rw e refl) ∙ h in
      let same_row : r ≡ pp = cc in rw⁻¹ same_row (let here : r.id ≡ id = ground arith in here)
  | inr e ↦ find-id id pp rs (sym (rw e refl) ∙ h)
]

pub task-row :
    (m : CommentMessages) (reconciles : Bool) (now id : ℕ) (x : Exchange) (pp : PlatformPost)
    (w : World)
    → find (λ r. r.id == id) w.rows ≡ some pp
    → post_first_comment_task m now reconciles id x w
      ≡ finish_comment m now
          (ending (before_publish m (first_comment_text w pp) pp x) reconciles x.answer)
          pp
          w
unfolding post_first_comment_task
task-row m reconciles now id x pp w row = rw (post_first_comment_task, row) refl

module _ (m : CommentMessages) (reconciles : Bool) where
  -- The row, with the runs so far, the missing lookups, the runs that wait, and the comments on the platform.
  record IsBounded (pp : PlatformPost) (n missed wait live : ℕ) : Type 0 where
    few : live ≤ suc missed
    counted : n + wait ≤ pp.comment_retries + 1
    retries : pp.comment_retries ≤ 3
    waits : wait ≤ 1
    safe : 1 ≤ wait → IsSafe reconciles pp live

  abbrev Bounded : ℕ → ℕ → ℕ → World → ℕ → Type 0
  Bounded id n missed w live =
      (pp : PlatformPost) × (find (λ r. r.id == id) w.rows ≡ some pp)
      × IsBounded pp n missed (waiting id w.tasks) live

  finish_comment-Bounded :
      (now : ℕ) (e : Ending) (pp : PlatformPost) (n missed live : ℕ) (w : World)
      → find (λ r. r.id == pp.id) w.rows ≡ some pp
      → waiting pp.id w.tasks ≡ 0
      → n ≤ pp.comment_retries + 1
      → pp.comment_retries ≤ 3
      → IsGoodEnd reconciles (suc missed) e live
      → Bounded pp.id n missed (finish_comment m now e pp w) live
  unfolding mark_first_comment_posted record_first_comment_failure
  finish_comment-Bounded now skipped pp n missed live w row idle runs bound good = (
    pp,
    row,
    record {
      few = good;
      counted = rw idle (omega arith);
      retries = bound;
      waits = rw idle (omega arith);
      safe = λ h. absurd (omega (arith, idle));
    },
  )
  finish_comment-Bounded now (on_platform id) pp n missed live w row idle runs bound good = (
    _,
    find-update_platform_post _ pp w.rows (λ r. refl) row,
    record {
      few = good;
      counted = rw idle (omega arith);
      retries = bound;
      waits = rw idle (omega arith);
      safe = λ h. absurd (omega (arith, idle));
    },
  )
  finish_comment-Bounded now (failure retry message after) pp n missed live w row idle runs bound
        good =
      elim (Bool-cases (not retry || leb max_comment_retries pp.comment_retries)) [
        | inl e ↦ rw e (
          _,
          find-update_platform_post _ pp w.rows (λ r. refl) row,
          record {
            few = good.0;
            counted = rw idle (omega arith);
            retries = bound;
            waits = rw idle (omega arith);
            safe = λ h. absurd (omega (arith, idle));
          },
        )
        | inr e ↦
            let (again, left) =
              ||-false (not retry) (leb max_comment_retries pp.comment_retries) e in
            let own : (pp.id == pp.id) ≡ true = ground arith in
            let one =
              waiting-queue pp.id
                (record {
                  platform_post = pp.id;
                  delay = or_backoff after (comment_backoff pp.comment_retries);
                })
                w.tasks own
              ∙ ap suc idle in
            rw e (
              _,
              find-update_platform_post _ pp w.rows (λ r. refl) row,
              record {
                few = good.0;
                counted = rw one (omega arith);
                retries = ground arith;
                waits = rw one (omega arith);
                safe = λ h. counted_retry (good.1 (ground arith));
              },
            )
      ]
    where
      counted_retry :
          (live ≡ 0) ⊎ (reconciles ≡ true)
          → (live ≡ 0) ⊎ ((1 ≤ pp.comment_retries + 1) × (reconciles ≡ true))
      counted_retry (inl h) = inl h
      counted_retry (inr h) = inr (omega arith, h)

  task-Bounded :
      (now id n missed live live1 : ℕ) (x : Exchange) (w : World)
      → Bounded id n missed w live
      → 1 ≤ waiting id w.tasks
      → IsLooked reconciles x.lookup
      → IsRun m w x (find (λ r. r.id == id) w.rows) live live1
      → Bounded id
          (suc n)
          (overlooked x.lookup live + missed)
          (post_first_comment_task m now reconciles id x (record w { tasks = taken id w.tasks }))
          live1
  unfolding post_first_comment_task first_comment_text
  task-Bounded now id n missed live live1 x w (pp, row, b) queued found run =
      let left = subst (λ o. IsRun m w x o live live1) row run in
      let good =
        task-IsGoodEnd reconciles m (first_comment_text w pp) pp x live live1 missed b.few
          (b.safe queued) found left in
      let e = ending (before_publish m (first_comment_text w pp) pp x) reconciles x.answer in
      let same_id = find-id id pp w.rows row in
      let idle = waiting-taken id w.tasks b.waits in
      subst (λ v. Bounded id (suc n) (overlooked x.lookup live + missed) v live1)
        (sym (task-row m reconciles now id x pp (record w { tasks = taken id w.tasks }) row))
        (subst
          (λ k.
            Bounded k (suc n) (overlooked x.lookup live + missed)
              (finish_comment m now e pp (record w { tasks = taken id w.tasks })) live1)
          same_id
          (finish_comment-Bounded now e pp (suc n) (overlooked x.lookup live + missed) live1
            (record w { tasks = taken id w.tasks })
            (subst (λ k. find (λ r. r.id == k) w.rows ≡ some pp) (sym same_id) row)
            (subst (λ k. waiting k (taken id w.tasks) ≡ 0) (sym same_id) idle)
            (let c = b.counted in omega arith) b.retries good))

  all-Bounded :
      (id : ℕ) (w w1 : World) (n missed live : ℕ)
      → Bounded id 0 0 w 0
      → Runs m reconciles id w n missed w1 live
      → Bounded id n missed w1 live
  all-Bounded id w w1 n missed live start none_yet = start
  all-Bounded id w w1 n missed live start
        (one_more {n = k} {missed = c} {live = before} {w1 = v} runs now x after queued found run) =
      task-Bounded now id k c before live x v (all-Bounded id w v k c before start runs) queued
        found run

  queued-Bounded :
      (id : ℕ) (pp : PlatformPost) (w : World)
      → find (λ r. r.id == id) w.rows ≡ some pp
      → pp.comment_retries ≡ 0
      → waiting id w.tasks ≡ 1
      → Bounded id 0 0 w 0
  queued-Bounded id pp w row fresh queued = (
    pp,
    row,
    record {
      few = omega arith;
      counted = rw (queued, fresh) (omega arith);
      retries = rw fresh (omega arith);
      waits = rw queued (omega arith);
      safe = λ h. inl refl;
    },
  )

-- From such a row, the runs so far and the one that may wait are never more than four.
pub four_at_most :
    (m : CommentMessages) (reconciles : Bool) (id n missed live : ℕ) (pp : PlatformPost)
    (w w1 : World)
    → find (λ r. r.id == id) w.rows ≡ some pp
    → pp.comment_retries ≡ 0
    → waiting id w.tasks ≡ 1
    → Runs m reconciles id w n missed w1 live
    → n + waiting id w1.tasks ≤ 4
four_at_most m reconciles id n missed live pp w w1 row fresh queued runs =
    let (last, found, b) =
      all-Bounded m reconciles id w w1 n missed live
        (queued-Bounded m reconciles id pp w row fresh queued) runs in
    let c = b.counted in let r = b.retries in omega arith
