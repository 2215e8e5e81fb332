-- ===== src/Approvals/Tells.antt =====
-- What one step of apps/approvals/tasks.py sends for a reminder, and whom it tells.
use osir_ai.Prelude.{
  ℕ, ◌+◌, ◌≤◌, ◌≡◌, refl, sym, subst, arith, Bool, true, false, ◌&&◌, inl, inr, List, [], ◌∷◌, map,
  some, ◌==◌, leb, if◌then◌else◌, keep, length, Bool-cases,
}
use osir_ai.Workflow.{Status, pending_review, same}
use osir_ai.Members.{WorkspaceMembership}
use osir_ai.Approvals.Effects.{Reminder}
use osir_ai.Approvals.Tasks.{
  Sent, nothing, reminded, escalated_to_managers, Nudge, max_reminders, is_cooling,
  process_reminder, recipients,
}

-- How often a kind of notice was sent for a reminder, and how often it may be.
abbrev pub measure : Sent → Reminder → ℕ
measure nothing r = 0
measure reminded r = r.reminder_count
measure escalated_to_managers r = if r.escalated then 1 else 0

abbrev pub cap : Sent → ℕ
cap nothing = 0
cap reminded = 2
cap escalated_to_managers = 1

abbrev pub is_kind : Sent → Sent → Bool
is_kind reminded reminded = true
is_kind escalated_to_managers escalated_to_managers = true
is_kind k sent = false

abbrev pub hit : Sent → Sent → ℕ
hit k sent = if is_kind k sent then 1 else 0

-- What one step does to a reminder.
pub record IsStep (k : Sent) (r after : Reminder) (sent : Sent) : Type 0 where
  pub counted : measure k after ≡ hit k sent + measure k r
  pub capped : measure k r ≤ cap k → measure k after ≤ cap k
  pub same_post : after.post ≡ r.post
  pub same_stage : after.stage ≡ r.stage

idle-IsStep : (k : Sent) (r : Reminder) → IsStep k r r nothing
idle-IsStep k r = record { counted = idle k; capped = λ h. h; same_post = refl; same_stage = refl }
  where
    idle : (k : Sent) → measure k r ≡ hit k nothing + measure k r
    idle nothing = refl
    idle reminded = omega arith
    idle escalated_to_managers = omega arith

escalated-IsStep :
    (k : Sent) (r : Reminder)
    → r.escalated ≡ false
    → IsStep k r (record r { escalated = true }) escalated_to_managers
escalated-IsStep nothing r e = record {
  counted = refl;
  capped = λ h. h;
  same_post = refl;
  same_stage = refl;
}
escalated-IsStep reminded r e = record {
  counted = omega arith;
  capped = λ h. h;
  same_post = refl;
  same_stage = refl;
}
escalated-IsStep escalated_to_managers r e = record {
  counted = rw e refl;
  capped = λ h. omega arith;
  same_post = refl;
  same_stage = refl;
}

reminded-IsStep :
    (k : Sent) (now : ℕ) (r : Reminder)
    → leb max_reminders r.reminder_count ≡ false
    → IsStep k r
        (record r { reminder_count = r.reminder_count + 1; last_reminder_at = some now })
        reminded
reminded-IsStep nothing now r e = record {
  counted = refl;
  capped = λ h. h;
  same_post = refl;
  same_stage = refl;
}
reminded-IsStep reminded now r e = record {
  counted = omega arith;
  capped = λ h. ground arith;
  same_post = refl;
  same_stage = refl;
}
reminded-IsStep escalated_to_managers now r e = record {
  counted = omega arith;
  capped = λ h. h;
  same_post = refl;
  same_stage = refl;
}

pub process_reminder-IsStep :
    (k : Sent) (now hours : ℕ) (r : Reminder)
    → IsStep k r (process_reminder now hours r).0 (process_reminder now hours r).1
unfolding process_reminder
process_reminder-IsStep k now hours r =
    each (leb max_reminders r.reminder_count) r.escalated (is_cooling now hours r.last_reminder_at)
      refl refl
  where
    after : Bool → Bool → Bool → Reminder × Sent
    after full told cools =
        if full
        then (if told then (r, nothing) else (record r { escalated = true }, escalated_to_managers))
        else if cools
        then (r, nothing)
        else (
          record r { reminder_count = r.reminder_count + 1; last_reminder_at = some now },
          reminded,
        )

    each :
        (full told cools : Bool)
        → leb max_reminders r.reminder_count ≡ full
        → r.escalated ≡ told
        → IsStep k r (after full told cools).0 (after full told cools).1
    each true true cools e f = idle-IsStep k r
    each true false cools e f = escalated-IsStep k r f
    each false told true e f = idle-IsStep k r
    each false told false e f = reminded-IsStep k now r e

-- The notices of a kind to a user about a post, and the memberships of a user.
abbrev pub told : Sent → ℕ → ℕ → List Nudge → ℕ
told k user post ns = length (keep (λ n. n.user == user && (n.post == post && is_kind k n.kind)) ns)

abbrev pub seats : ℕ → List WorkspaceMembership → ℕ
seats user ms = length (keep (λ m. m.user == user) ms)

module _ (k : Sent) (user post : ℕ) where
  nudges_to : Sent → ℕ → List ℕ → List Nudge
  nudges_to sent about us = map (λ u. record { user = u; kind = sent; post = about }) us

  told_some :
      (sent : Sent) (about : ℕ) (q : WorkspaceMembership → Bool) (ms : List WorkspaceMembership)
      → told k user post
          (nudges_to sent about (map (λ (m : WorkspaceMembership). m.user) (keep q ms)))
        ≤ seats user ms
  unfolding nudges_to
  told_some sent about q [] = omega arith
  told_some sent about q (m ∷ ms) =
      let rest = told_some sent about q ms in
      elim (Bool-cases (q m)) [
        | inl f ↦ elim (Bool-cases (m.user == user)) [
          | inl g ↦ elim (Bool-cases (about == post && is_kind k sent)) [
            | inl e ↦ rw (f, g, e) (omega (arith, rest))
            | inr e ↦ rw (f, g, e) (omega (arith, rest))
          ]
          | inr g ↦ rw (f, g) rest
        ]
        | inr f ↦ elim (Bool-cases (m.user == user)) [
          | inl g ↦ rw (f, g) (omega (arith, rest))
          | inr g ↦ rw (f, g) rest
        ]
      ]

  told_none :
      (sent : Sent) (about : ℕ) (us : List ℕ)
      → (about == post && is_kind k sent) ≡ false
      → told k user post (nudges_to sent about us) ≡ 0
  unfolding nudges_to
  told_none sent about [] e = refl
  told_none sent about (u ∷ us) e = elim (Bool-cases (u == user)) [
    | inl g ↦ rw (g, e) (told_none sent about us e)
    | inr g ↦ rw g (told_none sent about us e)
  ]

  told_kept :
      (sent : Sent) (about : ℕ) (q : WorkspaceMembership → Bool) (ms : List WorkspaceMembership)
      → told k user post
          (nudges_to sent about (map (λ (m : WorkspaceMembership). m.user) (keep q ms)))
        ≤ (if about == post && is_kind k sent then seats user ms else 0)
  told_kept sent about q ms = elim (Bool-cases (about == post && is_kind k sent)) [
    | inl e ↦
        subst
          (λ b.
            told k user post
              (nudges_to sent about (map (λ (m : WorkspaceMembership). m.user) (keep q ms)))
            ≤ (if b then seats user ms else 0))
          (sym e) (told_some sent about q ms)
    | inr e ↦
        subst
          (λ b.
            told k user post
              (nudges_to sent about (map (λ (m : WorkspaceMembership). m.user) (keep q ms)))
            ≤ (if b then seats user ms else 0))
          (sym e)
          (let zero_told =
              told_none sent about (map (λ (m : WorkspaceMembership). m.user) (keep q ms)) e in
            omega (arith, zero_told))
  ]

  pub told-recipients :
      (stage : Status) (sent : Sent) (about : ℕ) (ms : List WorkspaceMembership)
      → told k user post
          (map (λ u. record { user = u; kind = sent; post = about }) (recipients stage sent ms))
        ≤ (if about == post && is_kind k sent then seats user ms else 0)
  unfolding recipients nudges_to
  told-recipients stage nothing about ms = omega arith
  told-recipients stage reminded about ms = elim (Bool-cases (same stage pending_review)) [
    | inl e ↦ rw e (told_kept reminded about _ ms)
    | inr e ↦ rw e (told_kept reminded about _ ms)
  ]
  told-recipients stage escalated_to_managers about ms = told_kept escalated_to_managers about _ ms
