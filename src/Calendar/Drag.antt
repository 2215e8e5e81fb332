-- ===== src/Calendar/Drag.antt =====
-- `reschedule_platform_post` of apps/calendar/services.py: a platform post is dragged to a new time.
use osir_ai.Prelude.{
  ℕ, Bool, false, ◌&&◌, ◌||◌, not, [], ◌∷◌, Option, none, some, ◌==◌, if◌then◌else◌, find,
  update_where, Result, ok, ◌>>◌, raise_if, not_reschedulable, permission_denied,
}
use osir_ai.Workflow.{
  Status, draft, failed, scheduled, same, status_in, can_transition_to, reschedulable_statuses,
}
use osir_ai.Records.{Post, PlatformPost, Store, update_platform_post}
use osir_ai.Composer.{on_channel}
use osir_ai.Composer.Sync.{sync_post_scheduled_at}

-- `user` and what is read of `perms`
pub record Caller : Type 0 where
  pub user : ℕ
  pub edit_others_posts : Bool
  pub publish_directly : Bool

-- `pp.status in IMPLICIT_SCHEDULE_STATUSES`
abbrev pub is_implicit : Status → Bool
is_implicit s = status_in s (draft ∷ failed ∷ [])

abbrev pub is_author : ℕ → Option Post → Bool
is_author user none = false
is_author user (some post) = elim post.author [ none ↦ false | some a ↦ a == user ]

abbrev pub rescheduled_status : Status → Status
rescheduled_status s = if is_implicit s && can_transition_to s scheduled then scheduled else s

-- The fields that are saved, for an object of a status.
unfoldable pub reschedule_fields : Status → ℕ → PlatformPost → PlatformPost
reschedule_fields s t row =
    if same s failed
    then record row {
      status = rescheduled_status s;
      scheduled_at = some t;
      publish_error = [];
      retry_count = 0;
      next_retry_at = none;
    }
    else record row { status = rescheduled_status s; scheduled_at = some t }

-- The tables before the last call.
unfoldable pub rescheduled : PlatformPost → ℕ → Store → Store
rescheduled pp t s = record s {
  platform_posts = update_platform_post pp.id (reschedule_fields pp.status t) s.platform_posts;
  entries =
      update_where (λ e. e.post == pp.post && on_channel pp.account s.queues e)
        (λ e. record e { assigned_slot = some t }) s.entries;
}

unfoldable pub reschedule_platform_post : Caller → PlatformPost → ℕ → Store → Result Store
reschedule_platform_post caller pp t s = do
  raise_if (not (status_in pp.status reschedulable_statuses)) not_reschedulable
  raise_if
      (not
        (is_author caller.user (find (λ p. p.id == pp.post) s.posts) || caller.edit_others_posts))
      permission_denied
  raise_if (is_implicit pp.status && not caller.publish_directly) permission_denied
  ok (sync_post_scheduled_at pp.post (rescheduled pp t s))
