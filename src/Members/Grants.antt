-- ===== src/Members/Grants.antt =====
-- What an invitation grants, beside the level of its inviter: apps/members/services.py.
use osir_ai.Prelude.{
  ℕ, ◌≤◌, ◌≡◌, refl, sym, ◌∙◌, ap, Bool, true, ◌&&◌, not, inl, inr, List, [], ◌∷◌, ◌++◌, Option,
  none, some, ◌==◌, leb, arith, any, member, All, All-append, Bool-cases, Text, text_eq, ok,
  raise_if-ok, >>=-ok, ok_injective, unknown_role, bad_identifier,
}
use mathlib.Core.List.{append_assoc, append-nil}
use osir_ai.Members.{
  OrgRole, WorkspaceRole, WorkspaceMembership, Invitation, Roster, ws_role_level,
  inviter_workspace_level, org_workspace_ids, org_role_level, inviter_org_level,
}
use osir_ai.Members.Invite.{
  Assignment, requested_role, value_or, outranks, check_assignment, check_assignments,
  get_or_create, get_or_create_each, check_org_role, effective_inviter, check_open, is_pending,
  sent, join, create_invitation, accept_invitation, normal, is_admin_or_owner, get_or_create_org,
  save_invitation,
}

-- What is checked of a workspace and a role.
record IsGrantable (by org : ℕ) (t : Roster) (workspace : ℕ) (role : WorkspaceRole) : Type 0 where
  inside : member workspace (org_workspace_ids org t) ≡ true
  level : ws_role_level role ≤ inviter_workspace_level by org workspace t

check_assignment-IsGrantable :
    (by org : ℕ) (t : Roster) (a : Assignment) (out : ℕ × WorkspaceRole)
    → check_assignment (some by) org t a ≡ ok out
    → IsGrantable by org t out.0 out.1
unfolding check_assignment
check_assignment-IsGrantable by org t a out h =
    let (w, _, h1) = >>=-ok (value_or bad_identifier a.workspace) _ h in
    let (inside, h2) = raise_if-ok (not (member w (org_workspace_ids org t))) _ _ h1 in
    let (role, _, h3) = >>=-ok (value_or unknown_role (requested_role a.role)) _ h2 in
    let (level, h4) = raise_if-ok (outranks (some by) org w (ws_role_level role) t) _ _ h3 in
    rw⁻¹ (ok_injective h4) (record { inside = ground arith; level = ground arith })

check_assignments-IsGrantable :
    (by org : ℕ) (t : Roster) (given : List Assignment) (out : List (ℕ × WorkspaceRole))
    → check_assignments (some by) org t given ≡ ok out
    → All (λ a. IsGrantable by org t a.0 a.1) out
unfolding check_assignments
check_assignments-IsGrantable by org t [] out h = rw⁻¹ (ok_injective h) tt
check_assignments-IsGrantable by org t (a ∷ given) out h =
    let (first, h1, h2) = >>=-ok (check_assignment (some by) org t a) _ h in
    let (rest, h3, h4) = >>=-ok (check_assignments (some by) org t given) _ h2 in
    rw⁻¹ (ok_injective h4) (
      check_assignment-IsGrantable by org t a first h1,
      check_assignments-IsGrantable by org t given rest h3,
    )

-- What a new membership of a user is.
abbrev pub IsGranted : ℕ → ℕ → ℕ → Roster → WorkspaceMembership → Type 0
IsGranted by org user t m =
    (m.user ≡ user)
    × (member m.workspace (org_workspace_ids org t) ≡ true)
    × (ws_role_level m.role ≤ inviter_workspace_level by org m.workspace t)

get_or_create-new :
    (by org user : ℕ) (t : Roster) (a : ℕ × WorkspaceRole) (ms : List WorkspaceMembership)
    → IsGrantable by org t a.0 a.1
    → (new : List WorkspaceMembership) × (get_or_create user a ms ≡ ms ++ new)
      × All (IsGranted by org user t) new
unfolding get_or_create
get_or_create-new by org user t (w, r) ms g =
    elim (Bool-cases (any (λ m. m.user == user && m.workspace == w) ms)) [
      | inl e ↦ ([], rw e (sym (append-nil ms)), tt)
      | inr e ↦ (
        record { user = user; workspace = w; role = r; custom_role = none } ∷ [],
        rw e refl,
        ((refl, g.inside, g.level), tt),
      )
    ]

get_or_create_each-new :
    (by org user : ℕ) (t : Roster) (given : List (ℕ × WorkspaceRole))
    (ms : List WorkspaceMembership)
    → All (λ a. IsGrantable by org t a.0 a.1) given
    → (new : List WorkspaceMembership) × (get_or_create_each user given ms ≡ ms ++ new)
      × All (IsGranted by org user t) new
unfolding get_or_create_each
get_or_create_each-new by org user t [] ms g = ([], sym (append-nil ms), tt)
get_or_create_each-new by org user t (a ∷ given) ms g =
    let (first, e, granted) = get_or_create-new by org user t a ms g.0 in
    let (rest, k, others) =
      get_or_create_each-new by org user t given (get_or_create user a ms) g.1 in
    (
      first ++ rest,
      k ∙ ap (λ x. x ++ rest) e ∙ append_assoc ms first rest,
      All-append (IsGranted by org user t) first rest granted others,
    )

members-join :
    (now user : ℕ) (i : Invitation) (t : Roster)
    → (join now user i t).members ≡ get_or_create_each user i.assignments t.members
unfolding join get_or_create_org save_invitation
members-join now user i t =
    elim (Bool-cases (any (λ m. m.user == user && m.org == i.org) t.org_members)) [
      | inl e ↦ rw e refl
      | inr e ↦ rw e refl
    ]

create_invitation-inv :
    (lower : Text → Text) (org : ℕ) (email : Text) (asked : Option OrgRole)
    (given : List Assignment) (invited_by : ℕ) (inviter : Option ℕ) (token now : ℕ) (t t1 : Roster)
    (i : Invitation)
    → create_invitation lower org email asked given invited_by inviter token now t ≡ ok (i, t1)
    → check_assignments (some (effective_inviter inviter invited_by)) org t given ≡ ok i.assignments
unfolding create_invitation sent
create_invitation-inv lower org email asked given invited_by inviter token now t t1 i h =
    let by = effective_inviter inviter invited_by in
    let (_, h1) =
      raise_if-ok
        (any (λ m. m.org == org && text_eq (t.emails m.user) (normal lower email)) t.org_members) _
        _ h in
    let (_, h2) =
      raise_if-ok (any (is_pending now org (normal lower email)) t.invitations) _ _ h1 in
    let (role, _, h3) = >>=-ok (check_org_role asked) _ h2 in
    let (_, h4) =
      raise_if-ok (is_admin_or_owner role && leb (inviter_org_level by org t) (org_role_level role))
        _ _ h3 in
    let (checked, h5, h6) = >>=-ok (check_assignments (some by) org t given) _ h4 in
    h5 ∙ ap (λ x. ok x.0.assignments) (ok_injective h6)

module _ (lower : Text → Text) where
  -- Whoever accepts an invitation, and whatever has happened meanwhile, keeps the memberships there
  -- were; each one that is added is the user's, in a workspace that was the organization's, not
  -- archived, when the invitation was made, and of no higher level than the inviter had there then.
  pub invitation_grants :
      (org : ℕ) (email : Text) (asked : Option OrgRole) (given : List Assignment) (invited_by : ℕ)
      (inviter : Option ℕ) (token now later user : ℕ) (match : Bool) (t t1 t2 t3 : Roster)
      (i : Invitation)
      → create_invitation lower org email asked given invited_by inviter token now t ≡ ok (i, t1)
      → accept_invitation lower later match user i t2 ≡ ok t3
      → (new : List WorkspaceMembership) × (t3.members ≡ t2.members ++ new)
        × All
            (λ m.
              (m.user ≡ user)
              × (member m.workspace (org_workspace_ids org t) ≡ true)
              × (ws_role_level m.role
                  ≤ inviter_workspace_level
                      (effective_inviter inviter invited_by)
                      org
                      m.workspace
                      t))
            new
  unfolding accept_invitation
  invitation_grants org email asked given invited_by inviter token now later user match t t1 t2 t3 i
        h k =
      let by = effective_inviter inviter invited_by in
      let checked =
        create_invitation-inv lower org email asked given invited_by inviter token now t t1 i h in
      let grantable = check_assignments-IsGrantable by org t given i.assignments checked in
      let (new, e, granted) =
        get_or_create_each-new by org user t i.assignments t2.members grantable in
      let (_, _, k1) = >>=-ok (check_open later i) _ k in
      let (_, k2) =
        raise_if-ok (match && not (text_eq (lower (t2.emails user)) (lower i.email))) _ _ k1 in
      (new, ap (λ x. x.members) (sym (ok_injective k2)) ∙ members-join later user i t2 ∙ e, granted)
