-- ===== src/Calendar/Removal.antt =====
-- What `remove_from_queue` of apps/calendar/services.py leaves.
use osir_ai.Prelude.{
  ℕ, ◌≡◌, ◌≢◌, refl, ◌∙◌, true, ◌&&◌, not, none, some, ◌==◌, arith, keep, All, All-map, All-keep,
  ok,
}
use osir_ai.Workflow.{draft, can_transition_to}
use osir_ai.Records.{PlatformPost, Queue, QueueEntry, Store}
use osir_ai.Composer.{transition_platform_post}
use osir_ai.Composer.Sync.{sync_post_scheduled_at}
use osir_ai.Composer.Transitions.{
  saved, transition_platform_post-cases, transition_platform_post-draft,
}
use osir_ai.Calendar.{is_protected, platform_post_for, unschedule, delete_entry, remove_from_queue}

to_draft-ok :
    (pp : PlatformPost) (now : ℕ) (s : Store)
    → can_transition_to pp.status draft ≡ true
    → (s1 : Store) × (transition_platform_post pp draft none now s ≡ ok s1)
to_draft-ok pp now s may = (
  sync_post_scheduled_at pp.post (saved pp draft none now s),
  transition_platform_post-cases pp draft none now s ∙ rw may refl,
)

-- Where the post of an entry has a platform post on the queue's channel that is not protected and
-- may go back to draft, and the time read is that of its row, taking the entry out of the queue
-- succeeds: the entry is gone, and that platform post is a draft without a time.
pub remove_from_queue-ok :
    (now : ℕ) (entry : QueueEntry) (queue : Queue) (s : Store) (pp : PlatformPost)
    → platform_post_for entry.post queue.account s.platform_posts ≡ some pp
    → (not (is_protected pp) && can_transition_to pp.status draft) ≡ true
    → All (λ row. row.id ≡ pp.id → row.scheduled_at ≡ pp.scheduled_at) s.platform_posts
    → (s' : Store) × (remove_from_queue now entry queue s ≡ ok s')
      × All (λ e. e.id ≢ entry.id) s'.entries
      × All
          (λ row. row.id ≡ pp.id → (row.status ≡ draft) × (row.scheduled_at ≡ none))
          s'.platform_posts
unfolding remove_from_queue unschedule delete_entry sync_post_scheduled_at
remove_from_queue-ok now entry queue s pp child may fresh =
    let can : can_transition_to pp.status draft ≡ true = ground (arith, may) in
    let (s1, drafted) = to_draft-ok pp now s can in
    let rows = (transition_platform_post-draft pp none now s s1 fresh drafted).0 in
    (
      sync_post_scheduled_at entry.post (delete_entry entry.id s1),
      rw (child, may, drafted),
      All-map (λ e. e.id ≢ entry.id) (λ e. not (e.id == entry.id) ≡ true)
          (keep (λ e. not (e.id == entry.id)) s1.entries) (λ e k. ground arith)
          (All-keep (λ e. not (e.id == entry.id)) s1.entries),
      rows,
    )
