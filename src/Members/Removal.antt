-- ===== src/Members/Removal.antt =====
-- What `remove_member` of apps/members/services.py takes out of the tables.
use osir_ai.Prelude.{
  ℕ, ◌≤◌, ◌≡◌, ◌≢◌, ◌↔◌, refl, sym, ◌∙◌, ap, subst, fun_ext, arith, Bool, true, false, ◌&&◌, not,
  inl, inr, List, [], ◌∷◌, ◌==◌, leb, keep, map, any, member, length, All, All-map, All-keep,
  Bool-cases, ok, raise_if-ok, ok_injective,
}
use osir_ai.Members.{OrgMembership, WorkspaceMembership, OrgWorkspace, Roster}
use osir_ai.Members.Invite.{is_org_owner}
use osir_ai.Members.Change.{owner_count, all_workspace_ids, without_member, remove_member}

module _ {A : Type 0} (q : A → Bool) where
  -- The second list has none of the rows of the test, and all the others of the first, in order.
  abbrev pub IsWithout : List A → List A → Type 0
  IsWithout xs ys =
      All (λ y. q y ≡ false) ys × (keep (λ y. not (q y)) ys ≡ keep (λ x. not (q x)) xs)

  keep_untouched : (xs : List A) → All (λ x. q x ≡ false) xs → keep (λ x. not (q x)) xs ≡ xs
  keep_untouched [] h = refl
  keep_untouched (x ∷ xs) (e, h) = rw e (ap (λ ys. x ∷ ys) (keep_untouched xs h))

  keep-IsWithout : (xs : List A) → IsWithout xs (keep (λ x. not (q x)) xs)
  keep-IsWithout xs =
      let free : All (λ x. q x ≡ false) (keep (λ x. not (q x)) xs) =
        All-map (λ x. q x ≡ false) (λ x. not (q x) ≡ true) (keep (λ x. not (q x)) xs)
          (λ x h. ground arith) (All-keep (λ x. not (q x)) xs) in
      (free, keep_untouched (keep (λ x. not (q x)) xs) free)

  without-keep : (xs ys : List A) → IsWithout xs ys → keep (λ x. not (q x)) xs ≡ ys
  without-keep xs ys (free, e) = sym e ∙ keep_untouched ys free

-- A membership of the user in a workspace of the organization, archived or not.
abbrev pub is_seat_in : ℕ → ℕ → List OrgWorkspace → WorkspaceMembership → Bool
is_seat_in org user workspaces w =
    w.user == user && any (λ v. v.id == w.workspace && v.org == org) workspaces

-- The tables without the row of a membership and the seats of its user in the organization;
-- nothing else differs.
pub record IsRemoved (org : ℕ) (m : OrgMembership) (t t' : Roster) : Type 0 where
  pub membership : IsWithout (λ x. x.id == m.id) t.org_members t'.org_members
  pub seats : IsWithout (is_seat_in org m.user t.workspaces) t.members t'.members
  pub rest : record t { org_members = t'.org_members; members = t'.members } ≡ t'

member-any :
    (org id : ℕ) (workspaces : List OrgWorkspace)
    → member id (map (λ (w : OrgWorkspace). w.id) (keep (λ w. w.org == org) workspaces))
      ≡ any (λ v. v.id == id && v.org == org) workspaces
member-any org id [] = refl
member-any org id (w ∷ ws) =
    let later = member-any org id ws in
    elim (Bool-cases (w.org == org)) [
      | inl e ↦ elim (Bool-cases (w.id == id)) [
        | inl f ↦ let g : (id == w.id) ≡ true = ground arith in rw (e, f, g) refl
        | inr f ↦ let g : (id == w.id) ≡ false = ground arith in rw (e, f, g, later) refl
      ]
      | inr e ↦ elim (Bool-cases (w.id == id)) [
        | inl f ↦ rw (e, f, later) refl
        | inr f ↦ rw (e, f, later) refl
      ]
    ]

-- The test of the code on a seat.
seat_same :
    (org user : ℕ) (t : Roster)
    → ◌≡◌ {A = WorkspaceMembership → Bool}
        (λ w. not (w.user == user && member w.workspace (all_workspace_ids org t)))
        (λ w. not (is_seat_in org user t.workspaces w))
unfolding all_workspace_ids
seat_same org user t =
    fun_ext λ w. ap (λ b. not (w.user == user && b)) (member-any org w.workspace t.workspaces)

without_member_same :
    (org : ℕ) (m : OrgMembership) (t : Roster)
    → without_member org m t ≡ record t {
      members = keep (λ w. not (is_seat_in org m.user t.workspaces w)) t.members;
      org_members = keep (λ x. not (x.id == m.id)) t.org_members;
    }
unfolding without_member
without_member_same org m t =
    ap
      (λ (p : WorkspaceMembership → Bool). record t {
        members = keep p t.members;
        org_members = keep (λ x. not (x.id == m.id)) t.org_members;
      })
      (seat_same org m.user t)

without_member-IsRemoved :
    (org : ℕ) (m : OrgMembership) (t : Roster) → IsRemoved org m t (without_member org m t)
without_member-IsRemoved org m t = rw (without_member_same org m t) (record {
  membership = keep-IsWithout (λ x. x.id == m.id) t.org_members;
  seats = keep-IsWithout (is_seat_in org m.user t.workspaces) t.members;
  rest = refl;
})

removed-without_member :
    (org : ℕ) (m : OrgMembership) (t t' : Roster)
    → IsRemoved org m t t'
    → without_member org m t ≡ t'
removed-without_member org m t t' h =
    without_member_same org m t
    ∙ rw
        (
          without-keep (is_seat_in org m.user t.workspaces) t.members t'.members h.seats,
          without-keep (λ x. x.id == m.id) t.org_members t'.org_members h.membership,
        )
        h.rest

-- The owners of an organization.
abbrev pub owners_of : ℕ → List OrgMembership → ℕ
owners_of org ms = length (keep (λ x. x.org == org && is_org_owner x.role) ms)

last_owner_guard : (owner : Bool) (n : ℕ) → (owner && leb n 1) ≡ false → owner ≡ true → 2 ≤ n
last_owner_guard owner n h e = ground arith

guard_passed : (owner : Bool) (n : ℕ) → (owner ≡ true → 2 ≤ n) → (owner && leb n 1) ≡ false
guard_passed true n h = let two = h refl in ground arith
guard_passed false n h = refl

-- Removing a member gives new tables exactly where it is not the caller's own membership, nor that
-- of the only owner, and the tables are those without the membership and without the seats of its
-- user in the workspaces of the organization, with all else as it was. The call does not compare
-- the role of the caller with that of the member.
pub remove_member_iff :
    (org removed_by : ℕ) (m : OrgMembership) (t t' : Roster)
    → (remove_member org m removed_by t ≡ ok t') ↔ (
        (m.user ≢ removed_by)
        × (is_org_owner m.role ≡ true → 2 ≤ owners_of org t.org_members)
        × IsRemoved org m t t')
unfolding remove_member owner_count
remove_member_iff org removed_by m t t' = (
  (λ h.
      let (other, h1) = raise_if-ok (m.user == removed_by) _ _ h in
      let (guard, h2) =
        raise_if-ok (is_org_owner m.role && leb (owners_of org t.org_members) 1) _ _ h1 in
      (
        ground arith,
        last_owner_guard _ _ guard,
        subst (IsRemoved org m t) (ok_injective h2) (without_member-IsRemoved org m t),
      )),
  (λ r.
      let (ne, owners, removed) = r in
      let other : (m.user == removed_by) ≡ false = ground arith in
      let guard = guard_passed (is_org_owner m.role) (owners_of org t.org_members) owners in
      rw (other, guard) (ap ok (removed-without_member org m t t' removed))),
)
