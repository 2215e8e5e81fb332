-- ===== src/Members/Roles.antt =====
-- The function that gives a user's role in a workspace, as the writes of apps/members/services.py
-- change it.
use osir_ai.Prelude.{
  ℕ, ◌≡◌, refl, sym, ◌∙◌, ap, Bool, true, false, ◌&&◌, inl, inr, List, [], ◌∷◌, ◌++◌, Option, none,
  some, ◌==◌, arith, if◌then◌else◌, any, find, keep, update_where, Bool-cases, ||-false,
}
use osir_ai.Members.{WorkspaceRole, WorkspaceMembership}
use osir_ai.Members.Change.{put_role, put_roles, get_role, set_role, set_roles}

abbrev pub role_in : Option WorkspaceMembership → Option WorkspaceRole
role_in none = none
role_in (some m) = some m.role

-- The role of a user in a workspace.
abbrev pub role_of : ℕ → ℕ → List WorkspaceMembership → Option WorkspaceRole
role_of user w ms = role_in (find (λ m. m.user == user && m.workspace == w) ms)

abbrev is_of : ℕ → ℕ → WorkspaceMembership → Bool
is_of user w m = m.user == user && m.workspace == w

new_member : ℕ → ℕ → WorkspaceRole → WorkspaceMembership
new_member user w r = record { user = user; workspace = w; role = r; custom_role = none }

elsewhere :
    (user w u v : ℕ) (m : WorkspaceMembership)
    → (u == user && v == w) ≡ false
    → is_of user w m ≡ true
    → is_of u v m ≡ false
elsewhere user w u v m other e = ground arith

updated_here :
    (user w : ℕ) (r : WorkspaceRole) (ms : List WorkspaceMembership)
    → any (is_of user w) ms ≡ true
    → role_of user w (update_where (is_of user w) (λ m. record m { role = r }) ms) ≡ some r
updated_here user w r [] e = cc
updated_here user w r (m ∷ ms) e = elim (Bool-cases (is_of user w m)) [
  | inl k ↦ rw (k, k)
  | inr k ↦ rw (k, k) (updated_here user w r ms (sym (rw k refl) ∙ e))
]

updated_elsewhere :
    (user w u v : ℕ) (r : WorkspaceRole) (ms : List WorkspaceMembership)
    → (u == user && v == w) ≡ false
    → role_of u v (update_where (is_of user w) (λ m. record m { role = r }) ms) ≡ role_of u v ms
updated_elsewhere user w u v r [] other = refl
updated_elsewhere user w u v r (m ∷ ms) other = elim (Bool-cases (is_of user w m)) [
  | inl k ↦
      let away = elsewhere user w u v m other k in
      rw (k, away) (updated_elsewhere user w u v r ms other)
  | inr k ↦ elim (Bool-cases (is_of u v m)) [
    | inl here ↦ rw (k, here)
    | inr away ↦ rw (k, away) (updated_elsewhere user w u v r ms other)
  ]
]

appended_here :
    (user w : ℕ) (r : WorkspaceRole) (ms : List WorkspaceMembership)
    → any (is_of user w) ms ≡ false
    → role_of user w (ms ++ (new_member user w r ∷ [])) ≡ some r
unfolding new_member
appended_here user w r [] e =
    let self : is_of user w (new_member user w r) ≡ true = ground arith in rw self
appended_here user w r (m ∷ ms) e =
    let (away, rest) = ||-false (is_of user w m) (any (is_of user w) ms) e in
    rw away (appended_here user w r ms rest)

appended_elsewhere :
    (user w u v : ℕ) (r : WorkspaceRole) (ms : List WorkspaceMembership)
    → (u == user && v == w) ≡ false
    → role_of u v (ms ++ (new_member user w r ∷ [])) ≡ role_of u v ms
unfolding new_member
appended_elsewhere user w u v r [] other =
    let away = elsewhere user w u v (new_member user w r) other (ground arith) in rw away
appended_elsewhere user w u v r (m ∷ ms) other = elim (Bool-cases (is_of u v m)) [
  | inl here ↦ rw here
  | inr away ↦ rw away (appended_elsewhere user w u v r ms other)
]

-- Writing one role changes the role of that user in that workspace, and no other.
role_of-set_role :
    (user w u v : ℕ) (r : WorkspaceRole) (ms : List WorkspaceMembership)
    → role_of u v (set_role user (w, r) ms)
      ≡ (if u == user && v == w then some r else role_of u v ms)
unfolding set_role new_member
role_of-set_role user w u v r ms = elim (Bool-cases (any (is_of user w) ms)) [
  | inl e ↦ elim (Bool-cases (u == user && v == w)) [
    | inl here ↦
        let a : u ≡ user = ground (arith, here) in
        let b : v ≡ w = ground (arith, here) in
        rw (e, here) (rw (a, b) (updated_here user w r ms e))
    | inr other ↦ rw (e, other) (updated_elsewhere user w u v r ms other)
  ]
  | inr e ↦ elim (Bool-cases (u == user && v == w)) [
    | inl here ↦
        let a : u ≡ user = ground (arith, here) in
        let b : v ≡ w = ground (arith, here) in
        rw (e, here) (rw (a, b) (appended_here user w r ms e))
    | inr other ↦ rw (e, other) (appended_elsewhere user w u v r ms other)
  ]
]

abbrev pub or_else : Option WorkspaceRole → Option WorkspaceRole → Option WorkspaceRole
or_else none r = r
or_else (some q) r = some q

-- No workspace stands twice.
abbrev pub DistinctKeys : List (ℕ × WorkspaceRole) → Type 0
DistinctKeys [] = Unit
DistinctKeys ((w, r) ∷ d) = (get_role w d ≡ none) × DistinctKeys d

pub get_role-put_role :
    (v w : ℕ) (r : WorkspaceRole) (d : List (ℕ × WorkspaceRole))
    → get_role v (put_role (w, r) d) ≡ (if v == w then some r else get_role v d)
unfolding get_role put_role
get_role-put_role v w r [] = refl
get_role-put_role v w r ((x, q) ∷ d) = elim (Bool-cases (w == x)) [
  | inl e ↦ elim (Bool-cases (v == w)) [
    | inl k ↦ rw (e, k)
    | inr k ↦ let away : (v == x) ≡ false = ground arith in rw (e, k, away)
  ]
  | inr e ↦ elim (Bool-cases (v == x)) [
    | inl k ↦ let away : (v == w) ≡ false = ground arith in rw (e, k, away)
    | inr k ↦ rw (e, k) (get_role-put_role v w r d)
  ]
]

put_role-DistinctKeys :
    (w : ℕ) (r : WorkspaceRole) (d : List (ℕ × WorkspaceRole))
    → DistinctKeys d
    → DistinctKeys (put_role (w, r) d)
unfolding put_role get_role
put_role-DistinctKeys w r [] k = (refl, tt)
put_role-DistinctKeys w r ((x, q) ∷ d) (first, k) = elim (Bool-cases (w == x)) [
  | inl e ↦ let here : w ≡ x = ground arith in rw e (rw here first, k)
  | inr e ↦
      let away : (x == w) ≡ false = ground arith in
      rw e (get_role-put_role x w r d ∙ rw away first, put_role-DistinctKeys w r d k)
]

pub put_roles-DistinctKeys :
    (given d : List (ℕ × WorkspaceRole)) → DistinctKeys d → DistinctKeys (put_roles d given)
unfolding put_roles
put_roles-DistinctKeys [] d k = k
put_roles-DistinctKeys ((w, r) ∷ given) d k =
    put_roles-DistinctKeys given (put_role (w, r) d) (put_role-DistinctKeys w r d k)

pub role_of-set_roles :
    (user u v : ℕ) (d : List (ℕ × WorkspaceRole)) (ms : List WorkspaceMembership)
    → DistinctKeys d
    → role_of u v (set_roles user d ms)
      ≡ (if u == user then or_else (get_role v d) (role_of u v ms) else role_of u v ms)
unfolding set_roles get_role
role_of-set_roles user u v [] ms k = elim (Bool-cases (u == user)) [ inl e ↦ rw e | inr e ↦ rw e ]
role_of-set_roles user u v ((w, r) ∷ d) ms (first, k) =
    let ih = role_of-set_roles user u v d (set_role user (w, r) ms) k in
    let one = role_of-set_role user w u v r ms in
    elim (Bool-cases (u == user)) [
      | inr e ↦ ih ∙ rw e (one ∙ rw e refl)
      | inl e ↦ elim (Bool-cases (v == w)) [
        | inl q ↦
            let here : v ≡ w = ground arith in
            let last : get_role v d ≡ none = rw here first in
            ih ∙ rw (e, q, last) (one ∙ rw (e, q) refl)
        | inr q ↦ ih ∙ rw (e, q) (ap (or_else (get_role v d)) (one ∙ rw (e, q) refl))
      ]
    ]

-- Keeping rows by their user and workspace.
pub role_of-keep :
    (stays : ℕ → ℕ → Bool) (u v : ℕ) (ms : List WorkspaceMembership)
    → role_of u v (keep (λ m. stays m.user m.workspace) ms)
      ≡ (if stays u v then role_of u v ms else none)
role_of-keep stays u v [] = elim (Bool-cases (stays u v)) [ inl e ↦ rw e | inr e ↦ rw e ]
role_of-keep stays u v (m ∷ ms) =
    let ih = role_of-keep stays u v ms in
    elim (Bool-cases (is_of u v m)) [
      | inl e ↦
          let a : m.user ≡ u = ground (arith, e) in
          let b : m.workspace ≡ v = ground (arith, e) in
          let same_row : stays m.user m.workspace ≡ stays u v = λ i. stays (a i) (b i) in
          elim (Bool-cases (stays u v)) [
            | inl k ↦ let s = same_row ∙ k in rw (s, k, e)
            | inr k ↦ let s = same_row ∙ k in rw (s, k) (ih ∙ rw k refl)
          ]
      | inr e ↦ elim (Bool-cases (stays m.user m.workspace)) [
        | inl k ↦ rw (k, e) ih
        | inr k ↦ rw (k, e) ih
      ]
    ]
