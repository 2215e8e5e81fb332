-- ===== src/Approvals/Effects.antt =====
-- What the approval services read and write, and their helpers.
use osir_ai.Prelude.{
  ℕ, Bool, false, ◌&&◌, not, List, [], ◌∷◌, ◌++◌, Option, none, some, ◌==◌, if◌then◌else◌, keep,
  map, Text,
}
use osir_ai.Workflow.{Status, same, status_in}
use osir_ai.Records.{PlatformPost, children}

-- `ApprovalAction.ActionType`
pub data ActionType : Type 0 where
  submitted approval changes_asked rejection resubmitted held : ActionType

-- `ApprovalAction`; no platform post means that the action was for the whole post.
pub record Action : Type 0 where
  pub post : ℕ
  pub platform_post : Option ℕ
  pub user : ℕ
  pub action : ActionType
  pub comment : Text

-- `ApprovalReminder`
pub record Reminder : Type 0 where
  pub post : ℕ
  pub stage : Status
  pub reminder_count : ℕ
  pub last_reminder_at : Option ℕ
  pub escalated : Bool

pub data EventType : Type 0 where
  post_submitted post_approved post_changes_requested post_rejected : EventType
  approval_hold_requested client_approval_requested : EventType

-- One call of `notify`.
pub record Notice : Type 0 where
  pub user : ℕ
  pub event : EventType
  pub post : ℕ

-- A `WorkspaceMembership` of the post's workspace, with its effective `approve_posts`.
pub record Membership : Type 0 where
  pub user : ℕ
  pub approve_posts : Bool
  pub is_client : Bool

pub record Desk : Type 0 where
  pub rows : List PlatformPost
  pub authors : ℕ → Option ℕ
  pub members : List Membership
  pub actions : List Action
  pub reminders : List Reminder
  pub notices : List Notice

pub data Target : Type 0 where
  whole : ℕ → Target
  single : PlatformPost → Target

abbrev pub target_post : Target → ℕ
target_post (whole post) = post
target_post (single pp) = pp.post

-- `_resolve_targets`: a post is every eligible child, a platform post is itself.
unfoldable pub resolve_targets : Target → List Status → List PlatformPost → List PlatformPost
resolve_targets (whole post) eligible rows =
    keep (λ pp. status_in pp.status eligible) (children post rows)
resolve_targets (single pp) eligible rows = pp ∷ []

-- One action for the post, or one for each platform post that has moved.
unfoldable pub record_actions : Target → List PlatformPost → ℕ → ActionType → Text → Desk → Desk
record_actions (whole post) moved user action comment d = record d {
  actions =
      d.actions
      ++ (record {
        post = post;
        platform_post = none;
        user = user;
        action = action;
        comment = comment;
      }
          ∷ []);
}
record_actions (single target) moved user action comment d = record d {
  actions =
      d.actions
      ++ map
          (λ (pp : PlatformPost). record {
            post = target.post;
            platform_post = some pp.id;
            user = user;
            action = action;
            comment = comment;
          })
          moved;
}

-- `ApprovalReminder.objects.update_or_create(...)`
unfoldable pub reset_reminder : ℕ → Status → Desk → Desk
reset_reminder post stage d = record d {
  reminders =
      record {
        post = post;
        stage = stage;
        reminder_count = 0;
        last_reminder_at = none;
        escalated = false;
      }
      ∷ keep (λ r. not (r.post == post && same r.stage stage)) d.reminders;
}

unfoldable pub notify_reviewers : ℕ → ℕ → EventType → Desk → Desk
notify_reviewers post actor event d = record d {
  notices =
      d.notices
      ++ map (λ (m : Membership). record { user = m.user; event = event; post = post })
          (keep (λ m. m.approve_posts && not (m.user == actor)) d.members);
}

unfoldable pub notify_clients : ℕ → Desk → Desk
notify_clients post d = record d {
  notices =
      d.notices
      ++ map
          (λ (m : Membership). record {
            user = m.user;
            event = client_approval_requested;
            post = post;
          })
          (keep (λ m. m.is_client) d.members);
}

-- `if post.author and post.author != user: notify(...)`
unfoldable pub notify_author : ℕ → ℕ → EventType → Desk → Desk
notify_author post user event d = elim (d.authors post) [
  | none ↦ d
  | some author ↦ if author == user then d else record d {
    notices = d.notices ++ (record { user = author; event = event; post = post } ∷ []);
  }
]
