-- ===== src/Approvals/Turns.antt =====
-- One turn of a post in apps/approvals/tasks.py, seen by what its table counts and whom it tells.
use osir_ai.Prelude.{
  ℕ, zero, suc, ◌+◌, ◌≤◌, ◌≡◌, refl, sym, subst, ◌∙◌, ap, arith, Bool, true, false, ◌&&◌, inl, inr,
  List, ◌++◌, map, Option, none, some, ◌==◌, if◌then◌else◌, find, keep, length, keep-append,
  length-append, Bool-cases,
}
use osir_ai.Workflow.{Status, pending_review, pending_client, same}
use osir_ai.Approvals.Effects.{Reminder}
use osir_ai.Approvals.Tasks.{
  Sent, nothing, reminded, escalated_to_managers, Nudge, Watch, process_reminder, recipients,
  found_reminder, with_reminder, process_post,
}
use osir_ai.Approvals.Tells.{
  measure, cap, hit, is_kind, process_reminder-IsStep, told, seats, told-recipients,
}
use osir_ai.Approvals.Found.{is_at, found-post, find-own, find-elsewhere}

-- So many times a number.
abbrev pub times : ℕ → ℕ → ℕ
times zero m = 0
times (suc n) m = m + times n m

times-add : (a b m : ℕ) → times (a + b) m ≡ times a m + times b m
times-add zero b m =
    let e : b ≡ 0 + b = omega arith in
    let base : times b m ≡ 0 + times b m = omega arith in
    subst (λ n. times n m ≡ 0 + times b m) e base
times-add (suc a) b m =
    let rest = times-add a b m in
    let e : suc (a + b) ≡ suc a + b = omega arith in
    let base : m + times (a + b) m ≡ (m + times a m) + times b m = omega (arith, rest) in
    subst (λ n. times n m ≡ (m + times a m) + times b m) e base

pub times-le : (a b m : ℕ) → a ≤ b → times a m ≤ times b m
times-le zero b m h = omega arith
times-le (suc a) zero m h = absurd (omega arith)
times-le (suc a) (suc b) m h = let rest = times-le a b m (omega arith) in omega (arith, rest)

module _ (k : Sent) (user post : ℕ) where
  abbrev pub measured : Option Reminder → ℕ
  measured none = 0
  measured (some r) = measure k r

  -- How often the kind was sent for the post at a stage, as the table says.
  abbrev pub spent : Status → Watch → ℕ
  spent stage w = measured (find (is_at post stage) w.reminders)

  abbrev pub Capped : Watch → Type 0
  Capped w = (spent pending_review w ≤ cap k) × (spent pending_client w ≤ cap k)

  -- What a run does: the notices of the kind to the user about the post are at most one for each
  -- membership of the user and each time that the table counts.
  pub record IsGrowth (w w1 : Watch) : Type 0 where
    pub staff : w1.members ≡ w.members
    pub steps : ℕ
    pub counted :
        spent pending_review w1 + spent pending_client w1
        ≡ steps + (spent pending_review w + spent pending_client w)
    pub capped : Capped w → Capped w1
    pub heard :
        told k user post w1.nudges ≤ told k user post w.nudges + times steps (seats user w.members)

  pub none-IsGrowth : (w : Watch) → IsGrowth w w
  none-IsGrowth w = record {
    staff = refl;
    steps = 0;
    counted = omega arith;
    capped = λ h. h;
    heard = omega arith;
  }

  pub both-IsGrowth : (w w1 w2 : Watch) → IsGrowth w w1 → IsGrowth w1 w2 → IsGrowth w w2
  both-IsGrowth w w1 w2 g h =
      let more =
        subst
          (λ ms.
            told k user post w2.nudges ≤ told k user post w1.nudges + times h.steps (seats user ms))
          g.staff h.heard in
      let first = g.heard in
      let sum = times-add h.steps g.steps (seats user w.members) in
      let a = g.counted in
      let b = h.counted in
      record {
        staff = h.staff ∙ g.staff;
        steps = h.steps + g.steps;
        counted = omega (arith, a, b);
        capped = λ c. h.capped (g.capped c);
        heard = omega (arith, more, first, sum);
      }

  measured-found :
      (about : ℕ) (stage : Status) (o : Option Reminder)
      → measure k (found_reminder o about stage) ≡ measured o
  measured-found about stage none = fresh k
    where
      fresh : (k : Sent) → measure k (found_reminder none about stage) ≡ 0
      fresh nothing = refl
      fresh reminded = refl
      fresh escalated_to_managers = refl
  measured-found about stage (some r) = refl

  told-append :
      (xs ys : List Nudge) → told k user post (xs ++ ys) ≡ told k user post xs + told k user post ys
  told-append xs ys =
      let test : Nudge → Bool = λ n. n.user == user && (n.post == post && is_kind k n.kind) in
      ap length (keep-append test xs ys) ∙ length-append (keep test xs) (keep test ys)

  -- What one post's turn does at the stage of the run, and at another.
  pub record IsTurn (stage other : Status) (w w1 : Watch) : Type 0 where
    pub staff : w1.members ≡ w.members
    pub steps : ℕ
    pub here : spent stage w1 ≡ steps + spent stage w
    pub there : spent other w1 ≡ spent other w
    pub capped : spent stage w ≤ cap k → spent stage w1 ≤ cap k
    pub heard :
        told k user post w1.nudges ≤ told k user post w.nudges + times steps (seats user w.members)

  times-hit : (b : Bool) (m : ℕ) → (if b then m else 0) ≤ times (if b then 1 else 0) m
  times-hit true m = omega arith
  times-hit false m = omega arith

  pub process_post-IsTurn :
      (stage other : Status) (now hours about : ℕ) (w : Watch)
      → same stage other ≡ false
      → IsTurn stage other w (process_post now hours stage about w)
  unfolding process_post
  process_post-IsTurn stage other now hours about w differ =
      let found = find (is_at about stage) w.reminders in
      let before = found_reminder found about stage in
      let after = (process_reminder now hours before).0 in
      let sent = (process_reminder now hours before).1 in
      let step = process_reminder-IsStep k now hours before in
      let (is_post, is_stage) = found-post about stage w.reminders in
      let p : after.post ≡ about = step.same_post ∙ is_post in
      let s : after.stage ≡ stage = step.same_stage ∙ is_stage in
      let apart : (about == post && same stage other) ≡ false = ground arith in
      let more = told-recipients k user post stage sent about w.members in
      let sum = told-append w.nudges (
        map (λ u. record { user = u; kind = sent; post = about })
          (recipients stage sent w.members)) in
      elim (Bool-cases (about == post)) [
        | inl e ↦
            let this : about ≡ post = ground arith in
            let own =
              subst (λ n. find (is_at n stage) (with_reminder found after w.reminders) ≡ some after)
                this (find-own about stage after w.reminders p s) in
            let was : measure k before ≡ spent stage w =
              measured-found about stage found
              ∙ ap (λ n. measured (find (is_at n stage) w.reminders)) this in
            let now_spent : measured
                  (find (is_at post stage) (with_reminder found after w.reminders))
                ≡ measure k after =
              ap measured own in
            let hits = times-hit (is_kind k sent) (seats user w.members) in
            let few =
              subst
                (λ b.
                  told k user post (
                    map (λ u. record { user = u; kind = sent; post = about })
                      (recipients stage sent w.members))
                  ≤ (if b && is_kind k sent then seats user w.members else 0))
                e more in
            let counted = step.counted in
            record {
              staff = refl;
              steps = hit k sent;
              here = omega (arith, now_spent, was, counted);
              there =
                  ap measured (find-elsewhere post about other stage after w.reminders p s apart);
              capped = λ h.
                  let bound = step.capped (subst (λ n. n ≤ cap k) (sym was) h) in
                  subst (λ n. n ≤ cap k) (sym now_spent) bound;
              heard = omega (arith, sum, few, hits);
            }
        | inr e ↦
            let off : (about == post && same stage stage) ≡ false = ground arith in
            let still = find-elsewhere post about stage stage after w.reminders p s off in
            let few =
              subst
                (λ b.
                  told k user post (
                    map (λ u. record { user = u; kind = sent; post = about })
                      (recipients stage sent w.members))
                  ≤ (if b && is_kind k sent then seats user w.members else 0))
                e more in
            record {
              staff = refl;
              steps = 0;
              here =
                  ap measured still
                  ∙ (let z : spent stage w ≡ 0 + spent stage w = omega arith in z);
              there =
                  ap measured (find-elsewhere post about other stage after w.reminders p s apart);
              capped = λ h. subst (λ n. n ≤ cap k) (sym (ap measured still)) h;
              heard = omega (arith, sum, few);
            }
      ]
