-- ===== src/Members/Authority.antt =====
-- The authority of the caller of `update_workspace_assignments` of apps/members/services.py.
use osir_ai.Prelude.{
  unknown_role, bad_identifier, ℕ, ◌≡◌, ◌⊎◌, refl, sym, ◌∙◌, ap, Bool, true, false, ◌&&◌, not, inl,
  inr, List, [], ◌∷◌, Option, none, some, ◌==◌, leb, arith, if◌then◌else◌, keep, member, Bool-cases,
  Option-cases, ok, raise_if-ok, >>=-ok, ok_injective,
}
use osir_ai.Members.{
  WorkspaceRole, ws_owner, manager, editor, contributor, client, viewer, WorkspaceMembership,
  Roster, org_workspace_ids, ws_role_level, inviter_workspace_level,
}
use osir_ai.Members.Invite.{
  Assignment, requested_role, value_or, outranks, check_assignment, check_assignments,
}
use osir_ai.Members.Change.{
  put_roles, get_role, differs, is_current, check_existing, update_workspace_assignments,
}
use osir_ai.Members.Roles.{role_of, role_of-keep}
use osir_ai.Members.Assigned.{
  last_asked, check_assignment-value, asked_for, or_else-none, role_of-update_workspace_assignments,
}

-- A role, or no role, that is not above a level.
abbrev pub is_within : ℕ → Option WorkspaceRole → Bool
is_within level none = true
is_within level (some r) = leb (ws_role_level r) level

role_with_level : ℕ → WorkspaceRole
role_with_level n =
    if n == 6
    then ws_owner
    else if n == 5
    then manager
    else if n == 4
    then editor
    else if n == 3
    then contributor
    else if n == 2
    then client
    else viewer

role_with_level-ws_role_level : (r : WorkspaceRole) → role_with_level (ws_role_level r) ≡ r
unfolding role_with_level
role_with_level-ws_role_level ws_owner = refl
role_with_level-ws_role_level manager = refl
role_with_level-ws_role_level editor = refl
role_with_level-ws_role_level contributor = refl
role_with_level-ws_role_level client = refl
role_with_level-ws_role_level viewer = refl

ws_role_level_injective : {r q : WorkspaceRole} → ws_role_level r ≡ ws_role_level q → r ≡ q
ws_role_level_injective {r} {q} e =
    sym (role_with_level-ws_role_level r) ∙ ap role_with_level e ∙ role_with_level-ws_role_level q

-- A role that does not differ is the one that is written again.
same_role :
    (r : WorkspaceRole) (asked : Option WorkspaceRole) → differs r asked ≡ false → asked ≡ some r
same_role r none e = cc
same_role r (some q) e =
    let level : ws_role_level q ≡ ws_role_level r = ground arith in
    ap some (ws_role_level_injective level)

check_existing-row :
    (inviter : Option ℕ) (org user v : ℕ) (t : Roster) (d : List (ℕ × WorkspaceRole))
    (ms : List WorkspaceMembership) (r : WorkspaceRole)
    → check_existing inviter org t d ms ≡ ok tt
    → role_of user v ms ≡ some r
    → (differs r (get_role v d) && outranks inviter org v (ws_role_level r) t) ≡ false
unfolding check_existing
check_existing-row inviter org user v t d [] r h e = cc
check_existing-row inviter org user v t d (m ∷ ms) r h e =
    let (fine, rest) =
      raise_if-ok
        (differs m.role (get_role m.workspace d)
          && outranks inviter org m.workspace (ws_role_level m.role) t)
        _ _ h in
    elim (Bool-cases (m.user == user && m.workspace == v)) [
      | inl here ↦
          let same : some m.role ≡ some r = sym (rw here refl) ∙ e in
          let role : m.role ≡ r = cc in
          let w : m.workspace ≡ v = ground (arith, here) in rw⁻¹ (role, w) fine
      | inr away ↦ check_existing-row inviter org user v t d ms r rest (sym (rw away refl) ∙ e)
    ]

check_assignment-is_within :
    (inviter org : ℕ) (t : Roster) (a : Assignment) (w : ℕ) (r : WorkspaceRole)
    → check_assignment (some inviter) org t a ≡ ok (w, r)
    → is_within (inviter_workspace_level inviter org w t) (some r) ≡ true
unfolding check_assignment
check_assignment-is_within inviter org t a w r h =
    let (x, e, h1) = >>=-ok (value_or bad_identifier a.workspace) _ h in
    let (inside, h2) = raise_if-ok (not (member x (org_workspace_ids org t))) _ _ h1 in
    let (role, k, h3) = >>=-ok (value_or unknown_role (requested_role a.role)) _ h2 in
    let (fine, h4) = raise_if-ok (outranks (some inviter) org x (ws_role_level role) t) _ _ h3 in
    let out = ok_injective h4 in
    let same_w : x ≡ w = ap (λ p. p.0) out in
    let same_r : role ≡ r = ap (λ p. p.1) out in
    let enough : leb (ws_role_level role) (inviter_workspace_level inviter org x t) ≡ true =
      ground arith in
    rw⁻¹ (same_w, same_r) enough

-- Each role that is asked for is not above the caller's level in its workspace.
last_asked-is_within :
    (inviter org : ℕ) (t : Roster) (given : List Assignment) (checked : List (ℕ × WorkspaceRole))
    (v : ℕ)
    → check_assignments (some inviter) org t given ≡ ok checked
    → is_within (inviter_workspace_level inviter org v t) (last_asked v given) ≡ true
unfolding check_assignments
last_asked-is_within inviter org t [] checked v h = refl
last_asked-is_within inviter org t (a ∷ given) checked v h =
    let ((w, r), h1, h2) = >>=-ok (check_assignment (some inviter) org t a) _ h in
    let (rest, h3, h4) = >>=-ok (check_assignments (some inviter) org t given) _ h2 in
    let (is_w, is_r, inside) = check_assignment-value (some inviter) org t a w r h1 in
    let first = check_assignment-is_within inviter org t a w r h1 in
    let ih = last_asked-is_within inviter org t given rest v h3 in
    elim (Option-cases (last_asked v given)) [
      | inr (q, e) ↦
          let later : is_within (inviter_workspace_level inviter org v t) (some q) ≡ true =
            sym (ap (is_within (inviter_workspace_level inviter org v t)) e) ∙ ih in
          rw e later
      | inl e ↦
          rw (e, is_w, is_r)
            (elim (Bool-cases (v == w)) [
              | inr k ↦ rw k
              | inl k ↦ let here : v ≡ w = ground arith in rw k (rw here first)
            ])
    ]

-- A role that is there before and that the update changes is not above the caller's level.
old-is_within :
    (inviter org user v : ℕ) (t : Roster) (d : List (ℕ × WorkspaceRole))
    (asked : Option WorkspaceRole)
    → check_existing (some inviter) org t d (keep (is_current org user t) t.members) ≡ ok tt
    → get_role v d ≡ asked
    → member v (org_workspace_ids org t) ≡ true
    → (asked ≡ role_of user v t.members)
      ⊎ (is_within (inviter_workspace_level inviter org v t) (role_of user v t.members) ≡ true)
old-is_within inviter org user v t d asked h is_asked inside =
    elim (Option-cases (role_of user v t.members)) [
      | inl e ↦ inr (rw e)
      | inr (r, e) ↦
          let stays : ℕ → ℕ → Bool = λ x w. x == user && member w (org_workspace_ids org t) in
          let current : stays user v ≡ true = ground arith in
          let found : role_of user v (keep (is_current org user t) t.members) ≡ some r =
            role_of-keep stays user v t.members ∙ rw current e in
          let fine =
            check_existing-row (some inviter) org user v t d
              (keep (is_current org user t) t.members) r h found in
          elim (Bool-cases (differs r (get_role v d))) [
            | inr no_change ↦ inl (sym is_asked ∙ same_role r (get_role v d) no_change ∙ sym e)
            | inl changes ↦
                let allowed : leb (ws_role_level r) (inviter_workspace_level inviter org v t)
                    ≡ true =
                  ground arith in
                inr (rw e allowed)
          ]
    ]

-- When a caller updates a user's roles, each role that comes out differently, in any workspace and for
-- any user, is neither before nor after the update above the level the caller has in that workspace.
pub update_workspace_assignments-is_within :
    (org user inviter u v : ℕ) (given : List Assignment) (t t1 : Roster)
    → update_workspace_assignments org user given (some inviter) t ≡ ok t1
    → (role_of u v t1.members ≡ role_of u v t.members)
      ⊎ ((is_within (inviter_workspace_level inviter org v t) (role_of u v t.members) ≡ true)
          × (is_within (inviter_workspace_level inviter org v t) (role_of u v t1.members) ≡ true))
unfolding update_workspace_assignments get_role
update_workspace_assignments-is_within org user inviter u v given t t1 h =
    let change = role_of-update_workspace_assignments org user u v given (some inviter) t t1 h in
    let (checked, h1, h2) = >>=-ok (check_assignments (some inviter) org t given) _ h in
    let d = put_roles [] checked in
    let (_, h3, h4) =
      >>=-ok (check_existing (some inviter) org t d (keep (is_current org user t) t.members)) _
        h2 in
    let (value, outside) = asked_for (some inviter) org t given checked [] v h1 in
    let asked : get_role v d ≡ last_asked v given = value ∙ or_else-none (last_asked v given) in
    elim (Bool-cases (u == user && member v (org_workspace_ids org t))) [
      | inr away ↦ inl (change ∙ rw away refl)
      | inl here ↦
          let same_user : u ≡ user = ground (arith, here) in
          let inside : member v (org_workspace_ids org t) ≡ true = ground (arith, here) in
          let new : role_of u v t1.members ≡ last_asked v given = change ∙ rw here refl in
          elim (old-is_within inviter org user v t d (last_asked v given) h3 asked inside) [
            | inl kept ↦ inl (new ∙ rw same_user kept)
            | inr old ↦
                inr
                  (rw same_user old, rw new (last_asked-is_within inviter org t given checked v h1))
          ]
    ]
