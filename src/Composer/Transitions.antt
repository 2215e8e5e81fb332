-- ===== src/Composer/Transitions.antt =====
-- What `transition_platform_post` does to the tables.
use osir_ai.Prelude.{
  ℕ, ◌≡◌, ◌≢◌, refl, true, false, ◌&&◌, not, List, [], ◌∷◌, Option, none, some, arith, ◌==◌, All,
  All-map, All-keep, All-update_where, keep, Bool-cases, inl, inr, if◌then◌else◌, ok, err, ◌>>=◌,
  approval_required, invalid_transition,
}
use osir_ai.Workflow.{Status, draft, scheduled, published, same, can_transition_to}
use osir_ai.Records.{PlatformPost, Store, update_platform_post}
use osir_ai.Composer.{
  transition_to, transition_fields, transition_platform_post, post_mode, blocks_direct_schedule,
  drop_entries, on_channel,
}
use osir_ai.Composer.Sync.{child_times, sync_post_scheduled_at}
use osir_ai.Composer.Earliest.{earliest, Synced, sync_post_scheduled_at-Synced}

-- The tables between the save and the last call.
abbrev pub saved : PlatformPost → Status → Option ℕ → ℕ → Store → Store
saved pp target at now s =
    let moved = record s {
      platform_posts =
          update_platform_post pp.id (transition_fields target pp.scheduled_at at now)
            s.platform_posts;
    } in
    if same target draft then drop_entries pp.post pp.account moved else moved

-- A transition is carried out exactly where the state machine has it and, for `scheduled`, the
-- workspace lets drafts be scheduled directly; otherwise it raises and the tables stay.
pub transition_platform_post-cases :
    (pp : PlatformPost) (target : Status) (at : Option ℕ) (now : ℕ) (s : Store)
    → transition_platform_post pp target at now s ≡ (
        if same target scheduled && blocks_direct_schedule (post_mode pp.post s)
        then err approval_required
        else if can_transition_to pp.status target
        then ok (sync_post_scheduled_at pp.post (saved pp target at now s))
        else err invalid_transition)
unfolding transition_platform_post transition_to
transition_platform_post-cases pp target at now s = elim (Bool-cases (same target scheduled)) [
  | inl e ↦ rw e (elim (Bool-cases (blocks_direct_schedule (post_mode pp.post s))) [
    | inl b ↦ rw b
    | inr b ↦ rw b (finish target)
  ])
  | inr e ↦ rw e (finish target)
]
  where
    finish :
        (target : Status)
        → (transition_to target now pp >>= λ _.
            ok (sync_post_scheduled_at pp.post (saved pp target at now s)))
          ≡ (if can_transition_to pp.status target
              then ok (sync_post_scheduled_at pp.post (saved pp target at now s))
              else err invalid_transition)
    finish target = elim (Bool-cases (can_transition_to pp.status target)) [
      | inl e ↦ rw e
      | inr e ↦ rw e
    ]

-- A call that succeeds has made this of the tables.
transition_platform_post-ok :
    (pp : PlatformPost) (target : Status) (at : Option ℕ) (now : ℕ) (s : Store) {s' : Store}
    → transition_platform_post pp target at now s ≡ ok s'
    → (can_transition_to pp.status target ≡ true)
      × ((same target scheduled && blocks_direct_schedule (post_mode pp.post s)) ≡ false)
      × (s' ≡ sync_post_scheduled_at pp.post (saved pp target at now s))
transition_platform_post-ok pp target at now s h =
    let h' = rw (transition_platform_post-cases pp target at now s) at h in
    elim (Bool-cases (same target scheduled && blocks_direct_schedule (post_mode pp.post s))) [
      | inl blocked ↦ absurd (let g = rw blocked at h' in cc)
      | inr free ↦
          let g = rw free at h' in
          elim (Bool-cases (can_transition_to pp.status target)) [
            | inl may ↦ let k = rw may at g in (may, free, cc)
            | inr not_may ↦ absurd (let k = rw not_may at g in cc)
          ]
    ]

-- The other posts' children keep their times.
pub child_times-update_ne :
    (post other id : ℕ) (f : PlatformPost → PlatformPost) (pps : List PlatformPost)
    → other ≢ post
    → All (λ pp. pp.id ≡ id → pp.post ≡ post) pps
    → ((pp : PlatformPost) → (f pp).post ≡ pp.post)
    → child_times other (update_platform_post id f pps) ≡ child_times other pps
unfolding child_times
child_times-update_ne post other id f [] ne own same_post = refl
child_times-update_ne post other id f (pp ∷ pps) ne own same_post =
    elim (Bool-cases (pp.id == id)) [
      | inl e ↦
          let here : pp.post ≡ post = own.0 (ground arith) in
          let mine : (pp.post == other) ≡ false = ground arith in
          rw (e, same_post pp, mine) (child_times-update_ne post other id f pps ne own.1 same_post)
      | inr e ↦ rw (e, child_times-update_ne post other id f pps ne own.1 same_post)
    ]

transition_fields-post :
    (target : Status) (own at : Option ℕ) (now : ℕ) (pp : PlatformPost)
    → (transition_fields target own at now pp).post ≡ pp.post
unfolding transition_fields
transition_fields-post draft none at now pp = refl
transition_fields-post draft (some t) at now pp = refl
transition_fields-post scheduled own none now pp = refl
transition_fields-post scheduled own (some t) now pp = refl
transition_fields-post published own at now pp = refl
transition_fields-post target own at now pp = refl

saved-tables :
    (pp : PlatformPost) (target : Status) (at : Option ℕ) (now : ℕ) (s : Store)
    → ((saved pp target at now s).posts ≡ s.posts)
      × ((saved pp target at now s).platform_posts
          ≡ update_platform_post pp.id
              (transition_fields target pp.scheduled_at at now)
              s.platform_posts)
saved-tables pp target at now s = elim (Bool-cases (same target draft)) [
  | inl e ↦ rw e (refl, refl)
  | inr e ↦ rw e (refl, refl)
]

-- A transition keeps every post's time the earliest of its children's, given that the platform
-- post's key belongs to its post only.
pub transition_platform_post-Synced :
    (pp : PlatformPost) (target : Status) (at : Option ℕ) (now : ℕ) (s s' : Store)
    → Synced s
    → All (λ row. row.id ≡ pp.id → row.post ≡ pp.post) s.platform_posts
    → transition_platform_post pp target at now s ≡ ok s'
    → Synced s'
transition_platform_post-Synced pp target at now s s' synced own h =
    let (_, _, result) = transition_platform_post-ok pp target at now s h in
    let (same_posts, rows) = saved-tables pp target at now s in
    let after = saved pp target at now s in
    rw result (
      sync_post_scheduled_at-Synced pp.post after (
        rw (same_posts, rows)
          (All-map
            (λ p.
              p.id ≢ pp.post
              → p.scheduled_at
                ≡ earliest (
                    child_times p.id (
                      update_platform_post pp.id (transition_fields target pp.scheduled_at at now)
                        s.platform_posts)))
            (λ p. p.scheduled_at ≡ earliest (child_times p.id s.platform_posts)) s.posts
            (λ p k ne.
              rw
                (child_times-update_ne pp.post p.id pp.id
                  (transition_fields target pp.scheduled_at at now) s.platform_posts ne own
                  (transition_fields-post target pp.scheduled_at at now))
                k)
            synced)))

transition_fields-draft :
    (id : ℕ) (own at : Option ℕ) (now : ℕ) (row : PlatformPost)
    → (row.id ≡ id → row.scheduled_at ≡ own)
    → let row' = if row.id == id then transition_fields draft own at now row else row in
      row'.id ≡ id → (row'.status ≡ draft) × (row'.scheduled_at ≡ none)
unfolding transition_fields
transition_fields-draft id none at now row h = elim (Bool-cases (row.id == id)) [
  | inl e ↦ rw e (λ k. (refl, h k))
  | inr e ↦ rw e (λ k. absurd (ground arith))
]
transition_fields-draft id (some t) at now row h = elim (Bool-cases (row.id == id)) [
  | inl e ↦ rw e (λ k. (refl, refl))
  | inr e ↦ rw e (λ k. absurd (ground arith))
]

-- A platform post that goes back to draft, its object's time being that of its row, has no time of
-- its own left, and holds no slot of its channel's queues.
pub transition_platform_post-draft :
    (pp : PlatformPost) (at : Option ℕ) (now : ℕ) (s s' : Store)
    → All (λ row. row.id ≡ pp.id → row.scheduled_at ≡ pp.scheduled_at) s.platform_posts
    → transition_platform_post pp draft at now s ≡ ok s'
    → All
        (λ row. row.id ≡ pp.id → (row.status ≡ draft) × (row.scheduled_at ≡ none))
        s'.platform_posts
      × All (λ e. (e.post == pp.post && on_channel pp.account s'.queues e) ≡ false) s'.entries
unfolding sync_post_scheduled_at
transition_platform_post-draft pp at now s s' fresh h =
    let (_, _, result) = transition_platform_post-ok pp draft at now s h in
    rw result (
      All-update_where (λ row. row.id ≡ pp.id → (row.status ≡ draft) × (row.scheduled_at ≡ none))
          (λ row. row.id ≡ pp.id → row.scheduled_at ≡ pp.scheduled_at) (λ row. row.id == pp.id)
          (transition_fields draft pp.scheduled_at at now) s.platform_posts
          (λ row k. transition_fields-draft pp.id pp.scheduled_at at now row k) fresh,
      All-map (λ e. (e.post == pp.post && on_channel pp.account s.queues e) ≡ false)
          (λ e. not (e.post == pp.post && on_channel pp.account s.queues e) ≡ true)
          (keep (λ e. not (e.post == pp.post && on_channel pp.account s.queues e)) s.entries)
          (λ e k. ground arith)
          (All-keep (λ e. not (e.post == pp.post && on_channel pp.account s.queues e)) s.entries),
    )
