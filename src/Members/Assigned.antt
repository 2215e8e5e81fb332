-- ===== src/Members/Assigned.antt =====
-- `update_workspace_assignments` of apps/members/services.py, seen as a change of the function that
-- gives a user's role in a workspace.
use osir_ai.Prelude.{
  Error, unknown_role, bad_identifier, ℕ, ◌≡◌, refl, sym, ◌∙◌, ap, Bool, true, false, ◌&&◌, not,
  inl, inr, List, [], ◌∷◌, Option, none, some, ◌==◌, arith, if◌then◌else◌, keep, is_some, member,
  Bool-cases, ok, raise_if-ok, >>=-ok, ok_injective,
}
use osir_ai.Members.{WorkspaceRole, Roster, org_workspace_ids, ws_role_level}
use osir_ai.Members.Invite.{
  Assignment, requested_role, value_or, outranks, check_assignment, check_assignments,
}
use osir_ai.Members.Change.{
  put_role, put_roles, get_role, is_current, kept_members, check_existing,
  update_workspace_assignments,
}
use osir_ai.Members.Roles.{
  role_of, or_else, get_role-put_role, put_roles-DistinctKeys, role_of-set_roles, role_of-keep,
}

value_or-ok : {A : Type 0} {a : A} (e : Error) (o : Option A) → value_or e o ≡ ok a → o ≡ some a
value_or-ok e none h = cc
value_or-ok e (some x) h = ap some (ok_injective h)

or_else-if :
    (a : Option WorkspaceRole) (b : Bool) (r : WorkspaceRole) (d : Option WorkspaceRole)
    → or_else a (if b then some r else d) ≡ or_else (or_else a (if b then some r else none)) d
or_else-if none true r d = refl
or_else-if none false r d = refl
or_else-if (some q) b r d = refl

not_here : (v w : ℕ) (ws : List ℕ) → member v ws ≡ false → member w ws ≡ true → (v == w) ≡ false
not_here v w ws e k = elim (Bool-cases (v == w)) [
  | inr q ↦ q
  | inl q ↦
      let here : v ≡ w = ground arith in
      absurd (let clash : true ≡ false = sym k ∙ ap (λ x. member x ws) (sym here) ∙ e in cc)
]

-- The role that the last assignment of a workspace asks for.
abbrev pub names : ℕ → Option ℕ → Bool
names v none = false
names v (some w) = v == w

abbrev pub last_asked : ℕ → List Assignment → Option WorkspaceRole
last_asked v [] = none
last_asked v (a ∷ given) =
    or_else (last_asked v given) (if names v a.workspace then requested_role a.role else none)

pub check_assignment-value :
    (inviter : Option ℕ) (org : ℕ) (t : Roster) (a : Assignment) (w : ℕ) (r : WorkspaceRole)
    → check_assignment inviter org t a ≡ ok (w, r)
    → (a.workspace ≡ some w)
      × (requested_role a.role ≡ some r)
      × (member w (org_workspace_ids org t) ≡ true)
unfolding check_assignment
check_assignment-value inviter org t a w r h =
    let (x, e, h1) = >>=-ok (value_or bad_identifier a.workspace) _ h in
    let (inside, h2) = raise_if-ok (not (member x (org_workspace_ids org t))) _ _ h1 in
    let (role, k, h3) = >>=-ok (value_or unknown_role (requested_role a.role)) _ h2 in
    let (_, h4) = raise_if-ok (outranks inviter org x (ws_role_level role) t) _ _ h3 in
    let out = ok_injective h4 in
    let same_w : x ≡ w = ap (λ p. p.0) out in
    let same_r : role ≡ r = ap (λ p. p.1) out in
    let here : member x (org_workspace_ids org t) ≡ true = ground arith in
    (
      value_or-ok _ a.workspace e ∙ ap some same_w,
      value_or-ok _ (requested_role a.role) k ∙ ap some same_r,
      rw⁻¹ same_w here,
    )

pub asked_for :
    (inviter : Option ℕ) (org : ℕ) (t : Roster) (given : List Assignment)
    (checked d : List (ℕ × WorkspaceRole)) (v : ℕ)
    → check_assignments inviter org t given ≡ ok checked
    → (get_role v (put_roles d checked) ≡ or_else (last_asked v given) (get_role v d))
      × (member v (org_workspace_ids org t) ≡ false → last_asked v given ≡ none)
unfolding check_assignments put_roles
asked_for inviter org t [] checked d v h = rw⁻¹ (ok_injective h) (refl, λ e. refl)
asked_for inviter org t (a ∷ given) checked d v h =
    let ((w, r), h1, h2) = >>=-ok (check_assignment inviter org t a) _ h in
    let (rest, h3, h4) = >>=-ok (check_assignments inviter org t given) _ h2 in
    let (is_w, is_r, inside) = check_assignment-value inviter org t a w r h1 in
    let (value, outside) = asked_for inviter org t given rest (put_role (w, r) d) v h3 in
    let put = get_role-put_role v w r d in
    rw⁻¹ (ok_injective h4) (
      rw (is_w, is_r)
        (
          value
              ∙ ap (or_else (last_asked v given)) put
              ∙ or_else-if (last_asked v given) (v == w) r (get_role v d),
          λ e. rw (outside e, not_here v w (org_workspace_ids org t) e inside) refl,
        ))

pub or_else-none : (r : Option WorkspaceRole) → or_else r none ≡ r
or_else-none none = refl
or_else-none (some q) = refl

-- The four ways a role can come out: another user, a workspace elsewhere, a role taken away, a role
-- that is asked for.
role_after :
    (mine inside : Bool) (asked old : Option WorkspaceRole)
    → (inside ≡ false → asked ≡ none)
    → (if mine
        then or_else asked (if not ((mine && inside) && not (is_some asked)) then old else none)
        else (if not ((mine && inside) && not (is_some asked)) then old else none))
      ≡ (if mine && inside then asked else old)
role_after false inside asked old h = refl
role_after true true none old h = refl
role_after true true (some q) old h = refl
role_after true false none old h = refl
role_after true false (some q) old h = absurd (let clash = h refl in cc)

-- After an update that succeeds, the user's role in each workspace of the organization that is not
-- archived is the one that the last assignment of that workspace asks for, and none where no
-- assignment names it; every other user, and every other workspace, has the role it had.
pub role_of-update_workspace_assignments :
    (org user u v : ℕ) (given : List Assignment) (inviter : Option ℕ) (t t1 : Roster)
    → update_workspace_assignments org user given inviter t ≡ ok t1
    → role_of u v t1.members ≡ (
        if u == user && member v (org_workspace_ids org t)
        then last_asked v given
        else role_of u v t.members)
unfolding update_workspace_assignments kept_members get_role
role_of-update_workspace_assignments org user u v given inviter t t1 h =
    let (checked, h1, h2) = >>=-ok (check_assignments inviter org t given) _ h in
    let d = put_roles [] checked in
    let (_, h3, h4) =
      >>=-ok (check_existing inviter org t d (keep (is_current org user t) t.members)) _ h2 in
    let (value, outside) = asked_for inviter org t given checked [] v h1 in
    let asked : get_role v d ≡ last_asked v given = value ∙ or_else-none (last_asked v given) in
    let inside = member v (org_workspace_ids org t) in
    let stays : ℕ → ℕ → Bool = λ x w.
      not ((x == user && member w (org_workspace_ids org t)) && not (is_some (get_role w d))) in
    let kept = role_of-keep stays u v t.members in
    let written =
      role_of-set_roles user u v d (kept_members org user t d)
        (put_roles-DistinctKeys checked [] tt) in
    ap (λ (x : Roster). role_of u v x.members) (sym (ok_injective h4))
    ∙ written
    ∙ rw kept (
        rw asked
          (role_after (u == user) inside (last_asked v given) (role_of u v t.members) outside))
