-- ===== src/Members.antt =====
-- Members of an organization and their roles: apps/members/models.py, and the levels of
-- apps/members/services.py.
pub mod Invite
pub mod Change
pub mod Owners
pub mod Removal
pub mod Grants
pub mod Roles
pub mod Assigned
pub mod Authority
pub mod Examples
use osir_ai.Prelude.{
  ℕ, Bool, true, false, ◌&&◌, ◌||◌, not, List, [], ◌∷◌, Option, none, some, ◌==◌, leb,
  if◌then◌else◌, find, keep, map, any, Text,
}

-- `OrgMembership.OrgRole`
pub data OrgRole : Type 0 where
  org_owner org_admin org_member : OrgRole

-- `WorkspaceMembership.WorkspaceRole`
pub data WorkspaceRole : Type 0 where
  ws_owner manager editor contributor client viewer : WorkspaceRole

-- `PERMISSION_KEYS`
pub data Permission : Type 0 where
  create_posts edit_others_posts approve_posts publish_directly : Permission
  manage_social_accounts view_analytics use_inbox reply_from_inbox : Permission
  manage_workspace_settings upload_media edit_media delete_media manage_media : Permission

pub record OrgMembership : Type 0 where
  pub id : ℕ
  pub user : ℕ
  pub org : ℕ
  pub role : OrgRole

pub record WorkspaceMembership : Type 0 where
  pub user : ℕ
  pub workspace : ℕ
  pub role : WorkspaceRole
  pub custom_role : Option (Permission → Bool)

-- A workspace, as far as the services read it.
pub record OrgWorkspace : Type 0 where
  pub id : ℕ
  pub org : ℕ
  pub is_archived : Bool

-- `Invitation`; the assignments are those that were checked when it was made.
pub record Invitation : Type 0 where
  pub id : ℕ
  pub org : ℕ
  pub email : Text
  pub org_role : OrgRole
  pub assignments : List (ℕ × WorkspaceRole)
  pub invited_by : ℕ
  pub token : ℕ
  pub expires_at : ℕ
  pub accepted_at : Option ℕ

-- The tables. `next_id` is a key that no row has yet.
pub record Roster : Type 0 where
  pub emails : ℕ → Text
  pub last_workspaces : ℕ → Option ℕ
  pub org_members : List OrgMembership
  pub members : List WorkspaceMembership
  pub workspaces : List OrgWorkspace
  pub invitations : List Invitation
  pub next_id : ℕ

-- `ORG_ROLE_LEVEL`
abbrev pub org_role_level : OrgRole → ℕ
org_role_level org_owner = 3
org_role_level org_admin = 2
org_role_level org_member = 1

-- `WS_ROLE_LEVEL`
abbrev pub ws_role_level : WorkspaceRole → ℕ
ws_role_level ws_owner = 6
ws_role_level manager = 5
ws_role_level editor = 4
ws_role_level contributor = 3
ws_role_level client = 2
ws_role_level viewer = 1

-- `BUILTIN_ROLE_PERMISSIONS`
abbrev pub builtin_role_permissions : WorkspaceRole → Permission → Bool
builtin_role_permissions ws_owner k = true
builtin_role_permissions manager manage_workspace_settings = false
builtin_role_permissions manager k = true
builtin_role_permissions editor approve_posts = false
builtin_role_permissions editor publish_directly = false
builtin_role_permissions editor manage_social_accounts = false
builtin_role_permissions editor manage_workspace_settings = false
builtin_role_permissions editor manage_media = false
builtin_role_permissions editor k = true
builtin_role_permissions contributor create_posts = true
builtin_role_permissions contributor upload_media = true
builtin_role_permissions contributor edit_media = true
builtin_role_permissions contributor k = false
builtin_role_permissions client approve_posts = true
builtin_role_permissions client view_analytics = true
builtin_role_permissions client k = false
builtin_role_permissions viewer view_analytics = true
builtin_role_permissions viewer k = false

-- `WorkspaceMembership.effective_permissions`
unfoldable pub effective_permissions : WorkspaceMembership → Permission → Bool
effective_permissions m k = elim m.custom_role [
  | none ↦ builtin_role_permissions m.role k
  | some permissions ↦ permissions k
]

-- `_inviter_org_level`
abbrev level_of : Option OrgMembership → ℕ
level_of none = 0
level_of (some m) = org_role_level m.role

unfoldable pub inviter_org_level : ℕ → ℕ → Roster → ℕ
inviter_org_level inviter org t =
    level_of (find (λ m. m.user == inviter && m.org == org) t.org_members)

-- `_inviter_workspace_level`
abbrev ws_level_of : Option WorkspaceMembership → ℕ
ws_level_of none = 0
ws_level_of (some m) = ws_role_level m.role

unfoldable pub inviter_workspace_level : ℕ → ℕ → ℕ → Roster → ℕ
unfolding inviter_org_level
inviter_workspace_level inviter org workspace t =
    if leb (org_role_level org_owner) (inviter_org_level inviter org t)
    then ws_role_level ws_owner
    else ws_level_of (find (λ m. m.user == inviter && m.workspace == workspace) t.members)

-- The workspaces of an organization that are not archived.
unfoldable pub org_workspace_ids : ℕ → Roster → List ℕ
org_workspace_ids org t =
    map (λ (w : OrgWorkspace). w.id) (keep (λ w. w.org == org && not w.is_archived) t.workspaces)
