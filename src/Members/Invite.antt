-- ===== src/Members/Invite.antt =====
-- Invitations: `create_invitation`, `accept_invitation`, `resend_invitation` and
-- `revoke_invitation` of apps/members/services.py. The mail that is sent is left out.
use osir_ai.Prelude.{
  Error, ℕ, suc, ◌+◌, ◌*◌, Bool, false, ◌&&◌, not, List, [], ◌∷◌, ◌++◌, Option, none, some, ◌==◌,
  leb, ltb, if◌then◌else◌, any, member, update_where, is_some, Text, strip, text_eq, Result, ok,
  err, ◌>>=◌, ◌>>◌, raise_if, already_member, already_invited, unknown_role, above_own_role,
  foreign_workspace, bad_identifier, invitation_expired, invitation_accepted, wrong_email,
  cannot_be_owner,
}
use osir_ai.Members.{
  OrgRole, org_owner, org_admin, WorkspaceRole, viewer, WorkspaceMembership, Invitation, Roster,
  org_role_level, ws_role_level, inviter_org_level, inviter_workspace_level, org_workspace_ids,
}

-- A role as it is asked for: the key may be missing, or its text be no role.
pub data RoleText : Type 0 where
  missing unknown : RoleText
  known : WorkspaceRole → RoleText

-- One of the given assignments; no workspace stands for a text that is no UUID.
pub record Assignment : Type 0 where
  pub workspace : Option ℕ
  pub role : RoleText

-- `assignment.get("role", VIEWER)`
abbrev pub requested_role : RoleText → Option WorkspaceRole
requested_role missing = some viewer
requested_role unknown = none
requested_role (known r) = some r

abbrev pub value_or {ℓ} : {A : Type ℓ} → Error → Option A → Result A
value_or e none = err e
value_or e (some a) = ok a

-- `if inviter is not None: ...`
abbrev pub outranks : Option ℕ → ℕ → ℕ → ℕ → Roster → Bool
outranks none org workspace level t = false
outranks (some inviter) org workspace level t =
    ltb (inviter_workspace_level inviter org workspace t) level

-- The checks of one assignment, which gives the workspace and the role.
unfoldable pub check_assignment : Option ℕ → ℕ → Roster → Assignment → Result (ℕ × WorkspaceRole)
check_assignment inviter org t a = do
  workspace ← value_or bad_identifier a.workspace
  raise_if (not (member workspace (org_workspace_ids org t))) foreign_workspace
  role ← value_or unknown_role (requested_role a.role)
  raise_if (outranks inviter org workspace (ws_role_level role) t) above_own_role
  ok (workspace, role)

unfoldable pub check_assignments :
    Option ℕ → ℕ → Roster → List Assignment → Result (List (ℕ × WorkspaceRole))
check_assignments inviter org t [] = ok []
check_assignments inviter org t (a ∷ others) = do
  first ← check_assignment inviter org t a
  rest ← check_assignments inviter org t others
  ok (first ∷ rest)

abbrev pub invite_expiry : ℕ
invite_expiry = 7 * 86400

abbrev pub is_admin_or_owner : OrgRole → Bool
is_admin_or_owner role = leb (org_role_level org_admin) (org_role_level role)

abbrev pub is_org_owner : OrgRole → Bool
is_org_owner role = org_role_level role == org_role_level org_owner

-- `is_expired` and `is_accepted`
abbrev pub is_expired : ℕ → Invitation → Bool
is_expired now i = ltb i.expires_at now

abbrev pub is_accepted : Invitation → Bool
is_accepted i = is_some i.accepted_at

-- The memberships that `get_or_create` leaves.
unfoldable pub get_or_create :
    ℕ → ℕ × WorkspaceRole → List WorkspaceMembership → List WorkspaceMembership
get_or_create user (workspace, role) ms =
    if any (λ m. m.user == user && m.workspace == workspace) ms
    then ms
    else ms ++ (record { user = user; workspace = workspace; role = role; custom_role = none } ∷ [])

unfoldable pub get_or_create_each :
    ℕ → List (ℕ × WorkspaceRole) → List WorkspaceMembership → List WorkspaceMembership
get_or_create_each user [] ms = ms
get_or_create_each user (a ∷ others) ms = get_or_create_each user others (get_or_create user a ms)

unfoldable pub get_or_create_org : ℕ → Invitation → Roster → Roster
get_or_create_org user i t =
    if any (λ m. m.user == user && m.org == i.org) t.org_members then t else record t {
      org_members =
          t.org_members
          ++ (record { id = t.next_id; user = user; org = i.org; role = i.org_role } ∷ []);
      next_id = suc t.next_id;
    }

-- `user.last_workspace_id = ...`, of the first assignment
abbrev pub set_last : ℕ → List (ℕ × WorkspaceRole) → (ℕ → Option ℕ) → ℕ → Option ℕ
set_last user [] lasts = lasts
set_last user ((workspace, role) ∷ rest) lasts = λ u. if u == user then some workspace else lasts u

-- The org role that may be asked for.
abbrev pub check_org_role : Option OrgRole → Result OrgRole
check_org_role (some org_owner) = err cannot_be_owner
check_org_role (some role) = ok role
check_org_role none = err unknown_role

-- `inviter or invited_by`
abbrev pub effective_inviter : Option ℕ → ℕ → ℕ
effective_inviter none invited_by = invited_by
effective_inviter (some inviter) invited_by = inviter

-- `is_expired` or `is_accepted` refuse
abbrev pub check_open : ℕ → Invitation → Result (Unit {0})
check_open now i =
    raise_if (is_expired now i) invitation_expired >> raise_if (is_accepted i) invitation_accepted

-- `invitation.save(...)`
unfoldable pub save_invitation : Invitation → Roster → Roster
save_invitation i t = record t {
  invitations = update_where (λ x. x.id == i.id) (λ _. i) t.invitations;
}

-- What the acceptance of a checked invitation writes.
unfoldable pub join : ℕ → ℕ → Invitation → Roster → Roster
unfolding get_or_create_org get_or_create_each save_invitation
join now user i t =
    let t1 = get_or_create_org user i t in
    save_invitation (record i { accepted_at = some now })
      (record t1 {
        members = get_or_create_each user i.assignments t1.members;
        last_workspaces = set_last user i.assignments t1.last_workspaces;
      })

unfoldable pub resend_invitation : ℕ → ℕ → Invitation → Roster → Result (Invitation × Roster)
resend_invitation now token i t = do
  raise_if (is_accepted i) invitation_accepted
  let fresh = record i { token = token; expires_at = now + invite_expiry }
  ok (fresh, save_invitation fresh t)

unfoldable pub revoke_invitation : ℕ → Invitation → Roster → Result (Invitation × Roster)
revoke_invitation now i t = do
  raise_if (is_accepted i) invitation_accepted
  let closed = record i { expires_at = now }
  ok (closed, save_invitation closed t)

-- A pending invitation of the organization for the address.
abbrev pub is_pending : ℕ → ℕ → Text → Invitation → Bool
is_pending now org email i =
    i.org == org && text_eq i.email email && not (is_accepted i) && ltb now i.expires_at

-- The new invitation, and the table with it.
unfoldable pub sent :
    ℕ → Text → OrgRole → List (ℕ × WorkspaceRole) → ℕ → ℕ → ℕ → Roster → Invitation × Roster
sent org email role assignments invited_by token now t =
    let i : Invitation = record {
      id = t.next_id;
      org = org;
      email = email;
      org_role = role;
      assignments = assignments;
      invited_by = invited_by;
      token = token;
      expires_at = now + invite_expiry;
      accepted_at = none;
    } in
    (i, record t { invitations = t.invitations ++ (i ∷ []); next_id = suc t.next_id })

-- `str.lower` on an e-mail address is the parameter.
module _ (lower : Text → Text) where
  abbrev pub normal : Text → Text
  normal email = lower (strip email)

  unfoldable pub create_invitation :
      ℕ
      → Text
      → Option OrgRole
      → List Assignment
      → ℕ
      → Option ℕ
      → ℕ
      → ℕ
      → Roster
      → Result (Invitation × Roster)
  create_invitation org given org_role assignments invited_by inviter token now t = do
    let email = normal given
    let by = effective_inviter inviter invited_by
    raise_if (any (λ m. m.org == org && text_eq (t.emails m.user) email) t.org_members)
        already_member
    raise_if (any (is_pending now org email) t.invitations) already_invited
    role ← check_org_role org_role
    raise_if (is_admin_or_owner role && leb (inviter_org_level by org t) (org_role_level role))
        above_own_role
    checked ← check_assignments (some by) org t assignments
    ok (sent org email role checked invited_by token now t)

  unfoldable pub accept_invitation : ℕ → Bool → ℕ → Invitation → Roster → Result Roster
  accept_invitation now require_email_match user i t = do
    check_open now i
    raise_if (require_email_match && not (text_eq (lower (t.emails user)) (lower i.email)))
        wrong_email
    ok (join now user i t)
