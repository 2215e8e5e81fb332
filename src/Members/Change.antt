-- ===== src/Members/Change.antt =====
-- Changes of membership: `remove_member`, `update_member_org_role` and
-- `update_workspace_assignments` of apps/members/services.py.
use osir_ai.Prelude.{
  ℕ, Bool, true, ◌&&◌, not, List, [], ◌∷◌, ◌++◌, Option, none, some, ◌==◌, leb, ltb, if◌then◌else◌,
  keep, map, any, member, update_where, length, is_some, Result, ok, ◌>>=◌, ◌>>◌, raise_if,
  above_own_role, self_removal, last_owner,
}
use osir_ai.Members.{
  OrgRole, WorkspaceRole, OrgMembership, WorkspaceMembership, OrgWorkspace, Roster, org_role_level,
  ws_role_level, inviter_org_level, org_workspace_ids,
}
use osir_ai.Members.Invite.{
  Assignment, check_assignments, check_org_role, is_admin_or_owner, is_org_owner, outranks,
}

-- `OrgMembership.objects.filter(organization=org, org_role=OWNER).count()`
unfoldable pub owner_count : ℕ → List OrgMembership → ℕ
owner_count org ms = length (keep (λ m. m.org == org && is_org_owner m.role) ms)

-- Every workspace of the organization, also an archived one.
unfoldable pub all_workspace_ids : ℕ → Roster → List ℕ
all_workspace_ids org t = map (λ (w : OrgWorkspace). w.id) (keep (λ w. w.org == org) t.workspaces)

-- Both kinds of membership are deleted.
unfoldable pub without_member : ℕ → OrgMembership → Roster → Roster
without_member org m t = record t {
  members =
      keep (λ w. not (w.user == m.user && member w.workspace (all_workspace_ids org t))) t.members;
  org_members = keep (λ x. not (x.id == m.id)) t.org_members;
}

unfoldable pub remove_member : ℕ → OrgMembership → ℕ → Roster → Result Roster
remove_member org m removed_by t = do
  raise_if (m.user == removed_by) self_removal
  raise_if (is_org_owner m.role && leb (owner_count org t.org_members) 1) last_owner
  ok (without_member org m t)

-- The checks on a caller, if there is one.
unfoldable pub check_caller : Option ℕ → ℕ → OrgMembership → OrgRole → Roster → Result (Unit {0})
check_caller none org m role t = ok tt
check_caller (some caller) org m role t = do
  let level = inviter_org_level caller org t
  raise_if (ltb level (org_role_level m.role)) above_own_role
  raise_if (is_admin_or_owner role && leb level (org_role_level role)) above_own_role

unfoldable pub update_member_org_role :
    ℕ → OrgMembership → Option OrgRole → Option ℕ → Roster → Result Roster
update_member_org_role org m new_role caller t = do
  role ← check_org_role new_role
  check_caller caller org m role t
  raise_if (is_org_owner m.role && leb (owner_count org t.org_members) 1) last_owner
  ok (record t {
    org_members = update_where (λ x. x.id == m.id) (λ x. record x { role = role }) t.org_members;
  })

-- `desired[workspace] = role`
unfoldable pub put_role : ℕ × WorkspaceRole → List (ℕ × WorkspaceRole) → List (ℕ × WorkspaceRole)
put_role (w, r) [] = (w, r) ∷ []
put_role (w, r) ((v, q) ∷ d) =
    let rest = put_role (w, r) d in if w == v then (w, r) ∷ d else (v, q) ∷ rest

unfoldable pub put_roles :
    List (ℕ × WorkspaceRole) → List (ℕ × WorkspaceRole) → List (ℕ × WorkspaceRole)
put_roles d [] = d
put_roles d (a ∷ others) = put_roles (put_role a d) others

-- `desired.get(workspace)`
unfoldable pub get_role : ℕ → List (ℕ × WorkspaceRole) → Option WorkspaceRole
get_role w [] = none
get_role w ((v, r) ∷ d) = let rest = get_role w d in if w == v then some r else rest

-- `desired[workspace] != role`, or the key is missing
abbrev pub differs : WorkspaceRole → Option WorkspaceRole → Bool
differs role none = true
differs role (some r) = not (ws_role_level r == ws_role_level role)

-- The authority over the memberships that are removed or changed.
unfoldable pub check_existing :
    Option ℕ → ℕ → Roster → List (ℕ × WorkspaceRole) → List WorkspaceMembership → Result (Unit {0})
check_existing inviter org t desired [] = ok tt
check_existing inviter org t desired (m ∷ ms) = do
  raise_if
      (differs m.role (get_role m.workspace desired)
        && outranks inviter org m.workspace (ws_role_level m.role) t)
      above_own_role
  check_existing inviter org t desired ms

-- The memberships of the user in the organization's workspaces that are not archived.
abbrev pub is_current : ℕ → ℕ → Roster → WorkspaceMembership → Bool
is_current org user t m = m.user == user && member m.workspace (org_workspace_ids org t)

-- One entry of `desired` is written.
unfoldable pub set_role :
    ℕ → ℕ × WorkspaceRole → List WorkspaceMembership → List WorkspaceMembership
set_role user (workspace, role) ms =
    if any (λ m. m.user == user && m.workspace == workspace) ms
    then update_where (λ m. m.user == user && m.workspace == workspace)
        (λ m. record m { role = role }) ms
    else ms ++ (record { user = user; workspace = workspace; role = role; custom_role = none } ∷ [])

unfoldable pub set_roles :
    ℕ → List (ℕ × WorkspaceRole) → List WorkspaceMembership → List WorkspaceMembership
set_roles user [] ms = ms
set_roles user (a ∷ others) ms = set_roles user others (set_role user a ms)

-- The memberships that stay.
unfoldable pub kept_members : ℕ → ℕ → Roster → List (ℕ × WorkspaceRole) → List WorkspaceMembership
kept_members org user t desired =
    keep (λ m. not (is_current org user t m && not (is_some (get_role m.workspace desired))))
      t.members

unfoldable pub update_workspace_assignments :
    ℕ → ℕ → List Assignment → Option ℕ → Roster → Result Roster
update_workspace_assignments org user assignments inviter t = do
  checked ← check_assignments inviter org t assignments
  let desired = put_roles [] checked
  check_existing inviter org t desired (keep (is_current org user t) t.members)
  ok (record t { members = set_roles user desired (kept_members org user t desired) })
