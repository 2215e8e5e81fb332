-- ===== src/Keys/Names.antt =====
-- Sets of permission names: `PERMISSION_KEYS` of apps/members/models.py, and the sets and sorted
-- lists of names that apps/api_keys/services.py makes of them.
use osir_ai.Prelude.{
  ◌≡◌, refl, ap, ◌∙◌, arith, Bool, true, false, ◌&&◌, ◌||◌, inl, inr, List, [], ◌∷◌, ◌++◌, map,
  keep, ltb, ◌==◌, if◌then◌else◌, Text, text, text_eq, text_eq→eq, Bool-cases,
}
use osir_ai.Members.{
  Permission, create_posts, edit_others_posts, approve_posts, publish_directly,
  manage_social_accounts, view_analytics, use_inbox, reply_from_inbox, manage_workspace_settings,
  upload_media, edit_media, delete_media, manage_media, WorkspaceMembership, effective_permissions,
}

-- `name in names`
abbrev pub elem : Text → List Text → Bool
elem k [] = false
elem k (n ∷ ns) = text_eq k n || elem k ns

-- `s < t`
abbrev pub text_less : Text → Text → Bool
text_less [] [] = false
text_less [] (d ∷ t) = true
text_less (c ∷ s) [] = false
text_less (c ∷ s) (d ∷ t) = ltb c d || c == d && text_less s t

-- `sorted(set(names))`
abbrev pub insert_name : Text → List Text → List Text
insert_name n [] = n ∷ []
insert_name n (m ∷ ms) =
    let rest = insert_name n ms in
    if text_eq n m then m ∷ ms else if text_less n m then n ∷ m ∷ ms else m ∷ rest

unfoldable pub sorted_set : List Text → List Text
sorted_set [] = []
sorted_set (n ∷ ns) = insert_name n (sorted_set ns)

abbrev pub permission_name : Permission → Text
permission_name create_posts = text "create_posts"
permission_name edit_others_posts = text "edit_others_posts"
permission_name approve_posts = text "approve_posts"
permission_name publish_directly = text "publish_directly"
permission_name manage_social_accounts = text "manage_social_accounts"
permission_name view_analytics = text "view_analytics"
permission_name use_inbox = text "use_inbox"
permission_name reply_from_inbox = text "reply_from_inbox"
permission_name manage_workspace_settings = text "manage_workspace_settings"
permission_name upload_media = text "upload_media"
permission_name edit_media = text "edit_media"
permission_name delete_media = text "delete_media"
permission_name manage_media = text "manage_media"

-- `PERMISSION_KEYS`
abbrev pub permission_keys : List Permission
permission_keys =
    create_posts ∷ edit_others_posts ∷ approve_posts ∷ publish_directly ∷ manage_social_accounts
    ∷ view_analytics ∷ use_inbox ∷ reply_from_inbox ∷ manage_workspace_settings ∷ upload_media
    ∷ edit_media ∷ delete_media ∷ manage_media ∷ []

-- `{k for k, v in membership.effective_permissions.items() if v}`
unfoldable pub held_names : WorkspaceMembership → List Text
held_names m = map permission_name (keep (effective_permissions m) permission_keys)

elem-insert_name :
    (k n : Text) (ns : List Text) → elem k (insert_name n ns) ≡ (text_eq k n || elem k ns)
elem-insert_name k n [] = refl
elem-insert_name k n (m ∷ ms) = elim (Bool-cases (text_eq n m)) [
  | inl e ↦ let same = text_eq→eq n m e in rw (e, same) (ground arith)
  | inr e ↦ elim (Bool-cases (text_less n m)) [
    | inl f ↦ rw (e, f) refl
    | inr f ↦ let ih = elem-insert_name k n ms in rw (e, f, ih) (ground arith)
  ]
]

-- Sorting keeps the names of a list.
pub elem-sorted_set : (k : Text) (ns : List Text) → elem k (sorted_set ns) ≡ elem k ns
unfolding sorted_set
elem-sorted_set k [] = refl
elem-sorted_set k (n ∷ ns) =
    elem-insert_name k n (sorted_set ns) ∙ ap (λ b. text_eq k n || b) (elem-sorted_set k ns)

pub elem-append : (k : Text) (ns ms : List Text) → elem k (ns ++ ms) ≡ (elem k ns || elem k ms)
elem-append k [] ms = refl
elem-append k (n ∷ ns) ms = let ih = elem-append k ns ms in rw ih (ground arith)

-- A test on names that is kept: set intersections and differences.
pub elem-keep :
    (p : Text → Bool) (k : Text) (ns : List Text) → elem k (keep p ns) ≡ (p k && elem k ns)
elem-keep p k [] = ground arith
elem-keep p k (n ∷ ns) = elim (Bool-cases (p n)) [
  | inl e ↦ elim (Bool-cases (text_eq k n)) [
    | inl f ↦
        let same = text_eq→eq k n f in let here : p k ≡ true = rw same e in rw (e, f, here) refl
    | inr f ↦ rw (e, f) (elem-keep p k ns)
  ]
  | inr e ↦ elim (Bool-cases (text_eq k n)) [
    | inl f ↦
        let same = text_eq→eq k n f in
        let here : p k ≡ false = rw same e in let ih = elem-keep p k ns in rw (e, f, ih, here) refl
    | inr f ↦ rw (e, f) (elem-keep p k ns)
  ]
]
