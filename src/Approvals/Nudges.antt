-- ===== src/Approvals/Nudges.antt =====
-- How often the runs of apps/approvals/tasks.py tell a person of a stalled post.
use osir_ai.Prelude.{ℕ, ◌+◌, ◌≤◌, refl, sym, subst, arith, List, [], ◌∷◌, keep}
use osir_ai.Workflow.{Status, pending_review, pending_client}
use osir_ai.Records.{PlatformPost}
use osir_ai.Approvals.Tasks.{
  Sent, Watch, process_post, process_posts, is_stalled, process_stage, check_approval_reminders,
}
use osir_ai.Approvals.Tells.{cap, told, seats}
use osir_ai.Approvals.Turns.{
  Capped, times, times-le, IsGrowth, process_post-IsTurn, none-IsGrowth, both-IsGrowth,
}

-- What a run of the task finds: the time, the posts with their rows, and when each last changed.
pub record Round : Type 0 where
  pub now : ℕ
  pub posts : List ℕ
  pub rows : List PlatformPost
  pub updated_at : ℕ → ℕ

abbrev pub seen : Round → Watch → Watch
seen d w = record w { posts = d.posts; rows = d.rows }

-- Runs one after the other, on the reminders that the last one left.
abbrev pub rounds : List Round → Watch → Watch
rounds [] w = w
rounds (d ∷ ds) w = rounds ds (check_approval_reminders d.updated_at d.now (seen d w))

module _ (k : Sent) (user post : ℕ) where
  review_turn :
      (now hours about : ℕ) (w : Watch)
      → IsGrowth k user post w (process_post now hours pending_review about w)
  review_turn now hours about w =
      let t =
        process_post-IsTurn k user post pending_review pending_client now hours about w refl in
      let here = t.here in
      let there = t.there in
      record {
        staff = t.staff;
        steps = t.steps;
        counted = omega (arith, here, there);
        capped = λ c. (t.capped c.0, subst (λ n. n ≤ cap k) (sym there) c.1);
        heard = t.heard;
      }

  client_turn :
      (now hours about : ℕ) (w : Watch)
      → IsGrowth k user post w (process_post now hours pending_client about w)
  client_turn now hours about w =
      let t =
        process_post-IsTurn k user post pending_client pending_review now hours about w refl in
      let here = t.here in
      let there = t.there in
      record {
        staff = t.staff;
        steps = t.steps;
        counted = omega (arith, here, there);
        capped = λ c. (subst (λ n. n ≤ cap k) (sym there) c.0, t.capped c.1);
        heard = t.heard;
      }

  turns :
      (stage : Status) (now hours : ℕ)
      → ((about : ℕ) (w : Watch) → IsGrowth k user post w (process_post now hours stage about w))
      → (posts : List ℕ) (w : Watch)
      → IsGrowth k user post w (process_posts now hours stage posts w)
  unfolding process_posts
  turns stage now hours one [] w = none-IsGrowth k user post w
  turns stage now hours one (about ∷ posts) w =
      both-IsGrowth k user post w (process_post now hours stage about w) _ (one about w)
        (turns stage now hours one posts (process_post now hours stage about w))

  round :
      (updated_at : ℕ → ℕ) (now : ℕ) (w : Watch)
      → IsGrowth k user post w (check_approval_reminders updated_at now w)
  unfolding check_approval_reminders process_stage
  round updated_at now w =
      let reviewed = process_stage updated_at now 24 pending_review w in
      both-IsGrowth k user post w reviewed _
        (turns pending_review now 24 (review_turn now 24)
          (keep (is_stalled updated_at now 24 pending_review w.rows) w.posts) w)
        (turns pending_client now 48 (client_turn now 48)
          (keep (is_stalled updated_at now 48 pending_client reviewed.rows) reviewed.posts)
          reviewed)

  seen-IsGrowth : (d : Round) (w : Watch) → IsGrowth k user post w (seen d w)
  seen-IsGrowth d w = record {
    staff = refl;
    steps = 0;
    counted = omega arith;
    capped = λ h. h;
    heard = omega arith;
  }

  rounds-IsGrowth : (ds : List Round) (w : Watch) → IsGrowth k user post w (rounds ds w)
  rounds-IsGrowth [] w = none-IsGrowth k user post w
  rounds-IsGrowth (d ∷ ds) w = both-IsGrowth k user post w (seen d w) _ (seen-IsGrowth d w) (
      both-IsGrowth k user post (seen d w) (check_approval_reminders d.updated_at d.now (seen d w))
        _ (round d.updated_at d.now (seen d w))
        (rounds-IsGrowth ds (check_approval_reminders d.updated_at d.now (seen d w))))

-- Where the tables count at most two reminders and one escalation of a post at each of the two
-- stages, any number of runs of the task, at any times and with whatever posts, rows and last changes
-- they find, tells a user with one membership at most four times by a reminder and at most twice by
-- an escalation of the post (`cap` twice, for two stages), and so many times more for each further
-- membership. Between the runs no reminder is reset and no membership changes.
pub rounds_bounded :
    (k : Sent) (user post : ℕ) (ds : List Round) (w : Watch)
    → Capped k user post w
    → told k user post (rounds ds w).nudges
      ≤ told k user post w.nudges + times (cap k + cap k) (seats user w.members)
rounds_bounded k user post ds w h =
    let g = rounds-IsGrowth k user post ds w in
    let fits = g.capped h in
    let counted = g.counted in
    let first = fits.0 in
    let second = fits.1 in
    let few =
      times-le g.steps (cap k + cap k) (seats user w.members)
        (omega (arith, counted, first, second)) in
    let heard = g.heard in omega (arith, heard, few)
