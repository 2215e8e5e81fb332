-- ===== src/Members/Examples.antt =====
-- An organization with two owners, an admin and a member, and two of its workspaces; a third one is
-- archived.
use osir_ai.Prelude.{
  ℕ, ◌≤◌, ◌≡◌, ◌≢◌, ◌⊎◌, ◌↔◌, ◌==◌, refl, Bool, true, false, ◌&&◌, List, [], ◌∷◌, ◌++◌, none, some,
  arith, if◌then◌else◌, member, All, text, ok,
}
use osir_ai.Members.{
  OrgRole, org_owner, org_admin, org_member, WorkspaceRole, manager, editor, contributor, viewer,
  OrgMembership, WorkspaceMembership, OrgWorkspace, Invitation, Roster, org_workspace_ids,
  inviter_org_level, inviter_workspace_level, ws_role_level,
}
use osir_ai.Members.Invite.{
  Assignment, missing, known, sent, join, create_invitation, accept_invitation, check_assignment,
  check_assignments, is_org_owner,
}
use osir_ai.Members.Change.{
  owner_count, remove_member, without_member, all_workspace_ids, put_role, put_roles, get_role,
  set_role, set_roles, kept_members, check_existing, update_workspace_assignments,
}
use osir_ai.Members.Owners.{IsRow, removed, unchanged, next, owner_remains}
use osir_ai.Members.Removal.{owners_of, IsRemoved, remove_member_iff}
use osir_ai.Members.Grants.{invitation_grants}
use osir_ai.Members.Roles.{role_of}
use osir_ai.Members.Assigned.{last_asked, role_of-update_workspace_assignments}
use osir_ai.Members.Authority.{is_within, update_workspace_assignments-is_within}

abbrev org_row : ℕ → ℕ → OrgRole → OrgMembership
org_row id user role = record { id = id; user = user; org = 1; role = role }

abbrev seat : ℕ → ℕ → WorkspaceRole → WorkspaceMembership
seat user workspace role = record {
  user = user;
  workspace = workspace;
  role = role;
  custom_role = none;
}

abbrev workspace_row : ℕ → Bool → OrgWorkspace
workspace_row id archived = record { id = id; org = 1; is_archived = archived }

abbrev roster : Roster
roster = record {
  emails = λ u. text "someone";
  last_workspaces = λ u. none;
  org_members =
      org_row 1 10 org_owner
      ∷ org_row 2 11 org_owner
      ∷ org_row 3 12 org_admin
      ∷ org_row 4 13 org_member
      ∷ [];
  members = seat 12 100 manager ∷ seat 13 100 viewer ∷ seat 13 101 editor ∷ seat 13 102 viewer ∷ [];
  workspaces = workspace_row 100 false ∷ workspace_row 101 false ∷ workspace_row 102 true ∷ [];
  invitations = [];
  next_id = 5;
}

first-IsRow : IsRow (org_row 1 10 org_owner) roster.org_members
first-IsRow = record {
  alone = omega arith;
  current = (
    (λ e. (refl, refl)),
    (
      (λ e. absurd (let k = e in cc)),
      ((λ e. absurd (let k = e in cc)), ((λ e. absurd (let k = e in cc)), tt)),
    ),
  );
}

-- The admin takes away one of the two owners.
owner_remains_example :
    1 ≤ owner_count 1 (without_member 1 (org_row 1 10 org_owner) roster).org_members
unfolding remove_member owner_count without_member all_workspace_ids
owner_remains_example =
    owner_remains (λ email. email) 1 roster (without_member 1 (org_row 1 10 org_owner) roster)
      (next unchanged (without_member 1 (org_row 1 10 org_owner) roster)
        (removed 1 12 (org_row 1 10 org_owner) first-IsRow refl refl))
      (omega arith)

-- The tables without the first owner.
abbrev after_removal : Roster
after_removal = record roster {
  org_members = org_row 2 11 org_owner ∷ org_row 3 12 org_admin ∷ org_row 4 13 org_member ∷ [];
}

remove_member_iff_example :
    (remove_member 1 (org_row 1 10 org_owner) 12 roster ≡ ok after_removal) ↔ (
      ((org_row 1 10 org_owner).user ≢ 12)
      × (is_org_owner org_owner ≡ true → 2 ≤ owners_of 1 roster.org_members)
      × IsRemoved 1 (org_row 1 10 org_owner) roster after_removal)
remove_member_iff_example = remove_member_iff 1 12 (org_row 1 10 org_owner) roster after_removal

abbrev asked_roles : List Assignment
asked_roles =
    record { workspace = some 100; role = missing }
    ∷ record { workspace = some 100; role = known contributor }
    ∷ []

abbrev invitation : Invitation
invitation =
    (sent 1 (text "new") org_member ((100, viewer) ∷ (100, contributor) ∷ []) 12 77 1000 roster).0

invitation_grants_example :
    (new : List WorkspaceMembership) × ((join 2000 20 invitation roster).members
      ≡ roster.members ++ new)
    × All
        (λ m.
          (m.user ≡ 20)
          × (member m.workspace (org_workspace_ids 1 roster) ≡ true)
          × (ws_role_level m.role ≤ inviter_workspace_level 12 1 m.workspace roster))
        new
unfolding create_invitation accept_invitation sent check_assignment check_assignments
    org_workspace_ids inviter_workspace_level inviter_org_level
invitation_grants_example =
    invitation_grants (λ email. email) 1 (text "new") (some org_member) asked_roles 12 none 77 1000
      2000 20 false roster
      (sent 1 (text "new") org_member ((100, viewer) ∷ (100, contributor) ∷ []) 12 77 1000 roster).1
      roster (join 2000 20 invitation roster) invitation refl refl

-- The roster after the member's roles are set: a seat in the first workspace only.
abbrev reassigned : Roster
reassigned = record roster {
  members = seat 12 100 manager ∷ seat 13 100 contributor ∷ seat 13 102 viewer ∷ [];
}

role_of-update_workspace_assignments_example : role_of 13 100 reassigned.members ≡ (
    if 13 == 13 && member 100 (org_workspace_ids 1 roster)
    then last_asked 100 asked_roles
    else role_of 13 100 roster.members)
unfolding update_workspace_assignments check_assignment check_assignments check_existing put_role
    put_roles get_role set_role set_roles kept_members org_workspace_ids
role_of-update_workspace_assignments_example =
    role_of-update_workspace_assignments 1 13 13 100 asked_roles none roster reassigned refl

update_workspace_assignments-is_within_example :
    (role_of 13 101 reassigned.members ≡ role_of 13 101 roster.members)
    ⊎ ((is_within (inviter_workspace_level 10 1 101 roster) (role_of 13 101 roster.members) ≡ true)
        × (is_within (inviter_workspace_level 10 1 101 roster) (role_of 13 101 reassigned.members)
            ≡ true))
unfolding update_workspace_assignments check_assignment check_assignments check_existing put_role
    put_roles get_role set_role set_roles kept_members org_workspace_ids inviter_workspace_level
    inviter_org_level
update_workspace_assignments-is_within_example =
    update_workspace_assignments-is_within 1 13 10 13 101 asked_roles roster reassigned refl
