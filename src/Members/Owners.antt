-- ===== src/Members/Owners.antt =====
-- An organization keeps an owner: `remove_member` and `update_member_org_role` of
-- apps/members/services.py.
use osir_ai.Prelude.{
  any, keep-append, length-append, Text, text_eq, &&-no, ℕ, suc, ◌+◌, ◌≤◌, ◌≡◌, refl, sym, ◌∙◌, ap,
  Bool, true, false, ◌&&◌, not, inl, inr, List, [], ◌∷◌, Option, none, some, ◌==◌, leb, arith, keep,
  length, update_where, All, Bool-cases, ok, raise_if-ok, >>=-ok, ok_injective,
}
use osir_ai.Members.{Invitation, OrgRole, org_owner, org_admin, org_member, OrgMembership, Roster}
use osir_ai.Members.Invite.{
  accept_invitation, check_open, join, get_or_create_org, save_invitation, check_org_role,
  is_org_owner,
}
use osir_ai.Members.Change.{
  owner_count, without_member, remove_member, check_caller, update_member_org_role,
}

module _ {A : Type 0} (p q : A → Bool) where
  -- Dropping the rows of a test loses no more than those.
  count-drop :
      (xs : List A)
      → length (keep p xs) ≤ length (keep p (keep (λ x. not (q x)) xs)) + length (keep q xs)
  count-drop [] = omega arith
  count-drop (x ∷ xs) =
      let rest = count-drop xs in
      elim (Bool-cases (p x)) [
        | inl e ↦ elim (Bool-cases (q x)) [
          | inl f ↦ rw (e, f) (omega (arith, rest))
          | inr f ↦ rw (e, f, e) (omega (arith, rest))
        ]
        | inr e ↦ elim (Bool-cases (q x)) [
          | inl f ↦ rw (e, f) (omega (arith, rest))
          | inr f ↦ rw (e, f, e) (omega (arith, rest))
        ]
      ]

  -- Dropping rows that are not counted changes no count.
  count_same :
      (xs : List A)
      → All (λ x. q x ≡ true → p x ≡ false) xs
      → length (keep p (keep (λ x. not (q x)) xs)) ≡ length (keep p xs)
  count_same [] h = refl
  count_same (x ∷ xs) h =
      let rest = count_same xs h.1 in
      elim (Bool-cases (q x)) [
        | inl f ↦ let e = h.0 f in rw (f, e) rest
        | inr f ↦ elim (Bool-cases (p x)) [
          | inl e ↦ rw (f, e) (ap suc rest)
          | inr e ↦ rw (f, e) rest
        ]
      ]

  -- Rows that a change takes out of the count are as good as dropped.
  count-update :
      (f : A → A) (xs : List A)
      → ((x : A) → p (f x) ≡ false)
      → length (keep p (update_where q f xs)) ≡ length (keep p (keep (λ x. not (q x)) xs))
  count-update f [] h = refl
  count-update f (x ∷ xs) h =
      let rest = count-update f xs h in
      elim (Bool-cases (q x)) [
        | inl e ↦ rw (e, h x) rest
        | inr e ↦ elim (Bool-cases (p x)) [
          | inl k ↦ rw (e, k) (ap suc rest)
          | inr k ↦ rw (e, k) rest
        ]
      ]

-- The membership is that of at most one row, as it stands in the table.
pub record IsRow (m : OrgMembership) (ms : List OrgMembership) : Type 0 where
  pub alone : length (keep (λ x. x.id == m.id) ms) ≤ 1
  pub current : All (λ x. (x.id == m.id) ≡ true → (x.org ≡ m.org) × (x.role ≡ m.role)) ms

abbrev is_owner_of : ℕ → OrgMembership → Bool
is_owner_of org m = m.org == org && is_org_owner m.role

All-owner_of :
    (org : ℕ) (m : OrgMembership) (ms : List OrgMembership)
    → All (λ x. (x.id == m.id) ≡ true → (x.org ≡ m.org) × (x.role ≡ m.role)) ms
    → is_owner_of org m ≡ false
    → All (λ x. (x.id == m.id) ≡ true → is_owner_of org x ≡ false) ms
All-owner_of org m [] h other = tt
All-owner_of org m (x ∷ xs) h other =
    ((λ e. let (o, r) = h.0 e in rw (o, r) other), All-owner_of org m xs h.1 other)

two_owners : (n : ℕ) → leb n 1 ≡ false → 2 ≤ n
two_owners n h = ground arith

-- What is left of the owners without one row, that is not the only owner.
owners-left :
    (org o : ℕ) (m : OrgMembership) (ms : List OrgMembership)
    → IsRow m ms
    → m.org ≡ org
    → (is_org_owner m.role && leb (owner_count org ms) 1) ≡ false
    → 1 ≤ owner_count o ms
    → 1 ≤ length (keep (is_owner_of o) (keep (λ x. not (x.id == m.id)) ms))
unfolding owner_count
owners-left org o m ms row own guard some_owner = elim (Bool-cases (is_owner_of o m)) [
  | inr e ↦
      let same_count =
        count_same (is_owner_of o) (λ x. x.id == m.id) ms (All-owner_of o m ms row.current e) in
      omega (arith, same_count, some_owner)
  | inl e ↦
      let here : o ≡ org = ground (arith, e, own) in
      let owner : is_org_owner m.role ≡ true = ground (arith, e) in
      let two : leb (length (keep (is_owner_of org) ms)) 1 ≡ false = sym (rw owner refl) ∙ guard in
      let drop = count-drop (is_owner_of o) (λ x. x.id == m.id) ms in
      let many : 2 ≤ length (keep (is_owner_of o) ms) = rw here (two_owners _ two) in
      let alone = row.alone in omega (arith, drop, many, alone)
]

join_keeps :
    (o now user : ℕ) (i : Invitation) (t : Roster)
    → 1 ≤ owner_count o t.org_members
    → 1 ≤ owner_count o (join now user i t).org_members
unfolding join get_or_create_org save_invitation owner_count
join_keeps o now user i t h =
    elim (Bool-cases (any (λ m. m.user == user && m.org == i.org) t.org_members)) [
      | inl e ↦ rw e h
      | inr e ↦
          let new : OrgMembership = record {
            id = t.next_id;
            user = user;
            org = i.org;
            role = i.org_role;
          } in
          let more = keep-append (is_owner_of o) t.org_members (new ∷ []) in
          let size =
            length-append (keep (is_owner_of o) t.org_members) (keep (is_owner_of o) (new ∷ [])) in
          rw (e, more) (omega (arith, size, h))
    ]

removed_keeps :
    (org o removed_by : ℕ) (m : OrgMembership) (t t' : Roster)
    → IsRow m t.org_members
    → m.org ≡ org
    → remove_member org m removed_by t ≡ ok t'
    → 1 ≤ owner_count o t.org_members
    → 1 ≤ owner_count o t'.org_members
unfolding remove_member without_member owner_count
removed_keeps org o removed_by m t t' row own h some_owner =
    let (_, h1) = raise_if-ok (m.user == removed_by) _ _ h in
    let (guard, h2) =
      raise_if-ok (is_org_owner m.role && leb (owner_count org t.org_members) 1) _ _ h1 in
    rw⁻¹ (ok_injective h2) (owners-left org o m t.org_members row own guard some_owner)

-- The role that is set is never that of an owner.
check_org_role-ok :
    (asked : Option OrgRole) (role : OrgRole)
    → check_org_role asked ≡ ok role
    → is_org_owner role ≡ false
check_org_role-ok none role h = cc
check_org_role-ok (some org_owner) role h = cc
check_org_role-ok (some org_admin) role h = rw⁻¹ (ok_injective h) refl
check_org_role-ok (some org_member) role h = rw⁻¹ (ok_injective h) refl

changed_keeps :
    (org o : ℕ) (m : OrgMembership) (asked : Option OrgRole) (caller : Option ℕ) (t t' : Roster)
    → IsRow m t.org_members
    → m.org ≡ org
    → update_member_org_role org m asked caller t ≡ ok t'
    → 1 ≤ owner_count o t.org_members
    → 1 ≤ owner_count o t'.org_members
unfolding update_member_org_role owner_count
changed_keeps org o m asked caller t t' row own h some_owner =
    let (role, is_role, h1) = >>=-ok (check_org_role asked) _ h in
    let (_, _, h2) = >>=-ok (check_caller caller org m role t) _ h1 in
    let (guard, h3) =
      raise_if-ok (is_org_owner m.role && leb (owner_count org t.org_members) 1) _ _ h2 in
    let plain = check_org_role-ok asked role is_role in
    rw⁻¹ (ok_injective h3) (
      rw
        (count-update (is_owner_of o) (λ x. x.id == m.id) (λ x. record x { role = role })
          t.org_members (λ x. &&-no (x.org == o) plain))
        (owners-left org o m t.org_members row own guard some_owner))

joined_keeps :
    (lower : Text → Text) (o now user : ℕ) (match : Bool) (i : Invitation) (t t' : Roster)
    → accept_invitation lower now match user i t ≡ ok t'
    → 1 ≤ owner_count o t.org_members
    → 1 ≤ owner_count o t'.org_members
unfolding accept_invitation
joined_keeps lower o now user match i t t' h some_owner =
    let (_, _, h1) = >>=-ok (check_open now i) _ h in
    let (_, h2) =
      raise_if-ok (match && not (text_eq (lower (t.emails user)) (lower i.email))) _ _ h1 in
    rw⁻¹ (ok_injective h2) (join_keeps o now user i t some_owner)

-- What happens to the members of the organizations.
pub data Change (lower : Text → Text) (t t' : Roster) : Type 0 where
  removed :
      (org removed_by : ℕ) (m : OrgMembership)
      → IsRow m t.org_members
      → m.org ≡ org
      → remove_member org m removed_by t ≡ ok t'
      → Change lower t t'
  changed :
      (org : ℕ) (m : OrgMembership) (asked : Option OrgRole) (caller : Option ℕ)
      → IsRow m t.org_members
      → m.org ≡ org
      → update_member_org_role org m asked caller t ≡ ok t'
      → Change lower t t'
  joined :
      (now user : ℕ) (match : Bool) (i : Invitation)
      → accept_invitation lower now match user i t ≡ ok t'
      → Change lower t t'

pub data Changes (lower : Text → Text) (t : Roster) : Roster → Type 0 where
  unchanged : Changes lower t t
  next :
      {t1 : Roster} → Changes lower t t1 → (t2 : Roster) → Change lower t1 t2 → Changes lower t t2

-- An organization that has an owner keeps one, however many members are removed, change their role
-- or join by an invitation; a call is given a membership as it stands in one row of its
-- organization.
pub owner_remains :
    (lower : Text → Text) (o : ℕ) (t t' : Roster)
    → Changes lower t t'
    → 1 ≤ owner_count o t.org_members
    → 1 ≤ owner_count o t'.org_members
owner_remains lower o t t' unchanged h = h
owner_remains lower o t t' (next {t1 = t1} before t2 (removed org removed_by m row own ok')) h =
    removed_keeps org o removed_by m t1 t2 row own ok' (owner_remains lower o t t1 before h)
owner_remains lower o t t' (next {t1 = t1} before t2 (changed org m asked caller row own ok')) h =
    changed_keeps org o m asked caller t1 t2 row own ok' (owner_remains lower o t t1 before h)
owner_remains lower o t t' (next {t1 = t1} before t2 (joined now user match i ok')) h =
    joined_keeps lower o now user match i t1 t2 ok' (owner_remains lower o t t1 before h)
