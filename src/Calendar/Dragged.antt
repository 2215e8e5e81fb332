-- ===== src/Calendar/Dragged.antt =====
-- Who may drag a platform post, and what that changes.
use osir_ai.Prelude.{
  ℕ, ◌≡◌, refl, sym, Bool, true, false, ◌&&◌, ◌||◌, not, ◌⊎◌, inl, inr, some, ◌==◌, arith,
  if◌then◌else◌, find, All, All-map, All-every, All-update_where, Bool-cases, ok, raise_if-ok,
  ok_injective,
}
use osir_ai.Workflow.{
  Status, failed, scheduled, same, status_in, can_transition_to, reschedulable_statuses,
}
use osir_ai.Records.{PlatformPost, Store}
use osir_ai.Composer.Sync.{sync_post_scheduled_at}
use osir_ai.Composer.Earliest.{Synced, sync_post_scheduled_at-Synced}
use osir_ai.Composer.Transitions.{child_times-update_ne}
use osir_ai.Calendar.Drag.{
  Caller, is_implicit, is_author, rescheduled_status, reschedule_fields, rescheduled,
  reschedule_platform_post,
}

-- What a call that succeeds was allowed to do.
record IsAllowed (caller : Caller) (pp : PlatformPost) (s : Store) : Type 0 where
  movable : status_in pp.status reschedulable_statuses ≡ true
  right :
      (is_author caller.user (find (λ p. p.id == pp.post) s.posts) || caller.edit_others_posts)
      ≡ true
  publisher : (is_implicit pp.status && not caller.publish_directly) ≡ false

reschedule_platform_post-inv :
    (caller : Caller) (pp : PlatformPost) (t : ℕ) (s : Store) {s' : Store}
    → reschedule_platform_post caller pp t s ≡ ok s'
    → IsAllowed caller pp s × (s' ≡ sync_post_scheduled_at pp.post (rescheduled pp t s))
unfolding reschedule_platform_post
reschedule_platform_post-inv caller pp t s h =
    let (movable, h1) = raise_if-ok (not (status_in pp.status reschedulable_statuses)) _ _ h in
    let (right, h2) =
      raise_if-ok
        (not
          (is_author caller.user (find (λ p. p.id == pp.post) s.posts) || caller.edit_others_posts))
        _ _ h1 in
    let (publisher, h3) =
      raise_if-ok (is_implicit pp.status && not caller.publish_directly) _ _ h2 in
    (
      record {
        movable = ground (arith, movable);
        right = ground (arith, right);
        publisher = publisher;
      },
      sym (ok_injective h3),
    )

reschedule_fields-post :
    (st : Status) (t : ℕ) (pp : PlatformPost) → (reschedule_fields st t pp).post ≡ pp.post
unfolding reschedule_fields
reschedule_fields-post st t pp = elim (Bool-cases (same st failed)) [
  | inl e ↦ rw e refl
  | inr e ↦ rw e refl
]

reschedule_fields_lem :
    (st : Status) (t : ℕ) (row : PlatformPost)
    → ((reschedule_fields st t row).scheduled_at ≡ some t)
      × ((reschedule_fields st t row).status ≡ rescheduled_status st)
unfolding reschedule_fields
reschedule_fields_lem st t row = elim (Bool-cases (same st failed)) [
  | inl e ↦ rw e (refl, refl)
  | inr e ↦ rw e (refl, refl)
]

-- Only who may publish directly moves a platform post on to `scheduled`.
rescheduled_status_lem :
    (st : Status) (may : Bool)
    → (is_implicit st && not may) ≡ false
    → (rescheduled_status st ≡ st) ⊎ ((rescheduled_status st ≡ scheduled) × (may ≡ true))
rescheduled_status_lem st may h = elim (Bool-cases (is_implicit st)) [
  | inr e ↦ rw e (inl refl)
  | inl e ↦ elim (Bool-cases (can_transition_to st scheduled)) [
    | inl k ↦ rw (e, k) (inr (refl, ground (arith, h, e)))
    | inr k ↦ rw (e, k) (inl refl)
  ]
]

-- A drag that succeeds was one of a platform post in a status that can be moved, by its author or
-- by a caller who may edit the posts of others. Each row of that key has the new time, and its
-- status is that of the object, or else `scheduled` and the caller may publish directly. Every
-- post's time stays the earliest of its children's, given that the key belongs to its post only.
pub reschedule_platform_post-ok :
    (caller : Caller) (pp : PlatformPost) (t : ℕ) (s s' : Store)
    → Synced s
    → All (λ row. row.id ≡ pp.id → row.post ≡ pp.post) s.platform_posts
    → reschedule_platform_post caller pp t s ≡ ok s'
    → (status_in pp.status reschedulable_statuses ≡ true)
      × ((is_author caller.user (find (λ p. p.id == pp.post) s.posts) || caller.edit_others_posts)
          ≡ true)
      × All
          (λ row.
            row.id ≡ pp.id
            → (row.scheduled_at ≡ some t)
              × ((row.status ≡ pp.status)
                  ⊎ ((row.status ≡ scheduled) × (caller.publish_directly ≡ true))))
          s'.platform_posts
      × Synced s'
unfolding sync_post_scheduled_at rescheduled
reschedule_platform_post-ok caller pp t s s' synced own h =
    let (allowed, result) = reschedule_platform_post-inv caller pp t s h in
    (
      allowed.movable,
      allowed.right,
      rw result (
          All-update_where
            (λ row.
              row.id ≡ pp.id
              → (row.scheduled_at ≡ some t)
                × ((row.status ≡ pp.status)
                    ⊎ ((row.status ≡ scheduled) × (caller.publish_directly ≡ true))))
            (λ row. Unit {0}) (λ row. row.id == pp.id) (reschedule_fields pp.status t)
            s.platform_posts (λ row _. dragged row)
            (All-every (λ row. Unit {0}) s.platform_posts (λ row. tt))),
      rw result (
          sync_post_scheduled_at-Synced pp.post (rescheduled pp t s) (
            All-map _ _ s.posts
              (λ p k ne.
                rw
                  (child_times-update_ne pp.post p.id pp.id (reschedule_fields pp.status t)
                    s.platform_posts ne own (reschedule_fields-post pp.status t))
                  k)
              synced)),
    )
  where
    dragged :
        (row : PlatformPost)
        → (if row.id == pp.id then reschedule_fields pp.status t row else row).id ≡ pp.id
        → ((if row.id == pp.id then reschedule_fields pp.status t row else row).scheduled_at
            ≡ some t)
          × (((if row.id == pp.id then reschedule_fields pp.status t row else row).status
                ≡ pp.status)
              ⊎ (((if row.id == pp.id then reschedule_fields pp.status t row else row).status
                    ≡ scheduled)
                  × (caller.publish_directly ≡ true)))
    dragged row = elim (Bool-cases (row.id == pp.id)) [
      | inl e ↦
          let (allowed, _) = reschedule_platform_post-inv caller pp t s h in
          let (time, status) = reschedule_fields_lem pp.status t row in
          rw e (λ _.
            rw (time, status)
              (refl, rescheduled_status_lem pp.status caller.publish_directly allowed.publisher))
      | inr e ↦ rw e (λ k. absurd (ground arith))
    ]
