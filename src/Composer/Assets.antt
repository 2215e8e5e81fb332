-- ===== src/Composer/Assets.antt =====
-- Which media a request can name: the asset look-ups of `create_post` in
-- apps/composer/services.py.
use osir_ai.Prelude.{
  ℕ, ◌≡◌, ◌≢◌, ◌⊎◌, refl, sym, true, false, ◌&&◌, inl, inr, List, [], ◌∷◌, map, Option, some, arith,
  All, Bool-cases, Option-cases, is_some, get_elem?, zero, suc, find, member, ◌==◌, Text, ok,
  >>=-ok, ok_injective,
}
use osir_ai.Records.{Store, MediaAsset}
use osir_ai.Composer.Create.{find_asset, resolve_assets, check_asset, repeats}

-- One of the assets has this identifier and belongs to this workspace.
abbrev pub HasAsset : ℕ → List MediaAsset → ℕ → Type 0
HasAsset workspace [] id = ⊥
HasAsset workspace (a ∷ rest) id =
    ((a.id ≡ id) × (a.workspace ≡ workspace)) ⊎ HasAsset workspace rest id

-- No number stands twice in the list.
abbrev pub IsUnique : List ℕ → Type 0
IsUnique [] = Unit {0}
IsUnique (a ∷ rest) = All (λ b. a ≢ b) rest × IsUnique rest

find-HasAsset :
    (workspace id : ℕ) (assets : List MediaAsset)
    → is_some (find (λ a. a.id == id && a.workspace == workspace) assets) ≡ true
    → HasAsset workspace assets id
find-HasAsset workspace id [] h = absurd (cc)
find-HasAsset workspace id (a ∷ rest) h =
    elim (Bool-cases (a.id == id && a.workspace == workspace)) [
      | inl e ↦ inl (ground arith, ground arith)
      | inr e ↦ inr (find-HasAsset workspace id rest (let h' = rw e at h in h'))
    ]

find-found :
    (workspace id : ℕ) (assets : List MediaAsset)
    → HasAsset workspace assets id
    → is_some (find (λ a. a.id == id && a.workspace == workspace) assets) ≡ true
find-found workspace id [] h = absurd h
find-found workspace id (a ∷ rest) h = elim (Bool-cases (a.id == id && a.workspace == workspace)) [
  | inl e ↦ rw e refl
  | inr e ↦ elim h [
    | inl here ↦ absurd (ground arith)
    | inr later ↦ rw e (find-found workspace id rest later)
  ]
]

module _ (to_uuid : Text → Option ℕ) where
  -- The identifiers that are resolved are those of the request, each of an asset of the workspace.
  pub resolve_assets-named :
      (workspace : ℕ) (s : Store) (raws : List Text) {ids : List ℕ}
      → resolve_assets to_uuid workspace s raws ≡ ok ids
      → (map to_uuid raws ≡ map some ids) × All (HasAsset workspace s.assets) ids
  unfolding resolve_assets check_asset find_asset
  resolve_assets-named workspace s [] {ids} h = rw⁻¹ (ok_injective h) (refl, tt)
  resolve_assets-named workspace s (raw ∷ raws) {ids} h =
      let (others, rest, step) =
        >>=-ok (resolve_assets to_uuid workspace s raws)
          (λ others. check_asset workspace s others (to_uuid raw)) h in
      let (named, owned) = resolve_assets-named workspace s raws rest in
      elim (Option-cases (to_uuid raw)) [
        | inl e ↦ absurd (let step' = rw e at step in cc)
        | inr (id, e) ↦
            let step' = rw e at step in
            elim (Bool-cases (is_some (find_asset workspace s id))) [
              | inl found ↦
                  let all_ids : id ∷ others ≡ ids = ok_injective (rw found at step') in
                  rw⁻¹ all_ids
                    (rw (e, named) refl, (find-HasAsset workspace id s.assets found, owned))
              | inr missing ↦ absurd (let last = rw missing at step' in cc)
            ]
      ]

  pub named-resolve_assets :
      (workspace : ℕ) (s : Store) (raws : List Text) (ids : List ℕ)
      → map to_uuid raws ≡ map some ids
      → All (HasAsset workspace s.assets) ids
      → resolve_assets to_uuid workspace s raws ≡ ok ids
  unfolding resolve_assets check_asset find_asset
  named-resolve_assets workspace s [] [] h owned = refl
  named-resolve_assets workspace s [] (id ∷ ids) h owned = absurd (cc)
  named-resolve_assets workspace s (raw ∷ raws) [] h owned = absurd (cc)
  named-resolve_assets workspace s (raw ∷ raws) (id ∷ ids) h (here, owned) =
      let first : to_uuid raw ≡ some id = cc in
      let rest : map to_uuid raws ≡ map some ids = cc in
      rw
        (
          named-resolve_assets workspace s raws ids rest owned,
          first,
          find-found workspace id s.assets here,
        )
        refl

  resolve_assets-cons :
      (workspace : ℕ) (s : Store) (raw : Text) (raws : List Text) {assets : List ℕ}
      → resolve_assets to_uuid workspace s (raw ∷ raws) ≡ ok assets
      → (id : ℕ) × (others : List ℕ) × (to_uuid raw ≡ some id)
        × (is_some (find_asset workspace s id) ≡ true)
        × (resolve_assets to_uuid workspace s raws ≡ ok others)
        × (assets ≡ id ∷ others)
  unfolding resolve_assets
  resolve_assets-cons workspace s raw raws h =
      let (others, rest, step) =
        >>=-ok (resolve_assets to_uuid workspace s raws)
          (λ others. check_asset workspace s others (to_uuid raw)) h in
      elim (Option-cases (to_uuid raw)) [
        | inl e ↦ absurd (let step' = rw e at step in cc)
        | inr (id, e) ↦
            let step' = rw e at step in
            elim (Bool-cases (is_some (find_asset workspace s id))) [
              | inl found ↦
                  let last = rw found at step' in
                  (id, others, e, found, rest, sym (ok_injective last))
              | inr missing ↦ absurd (let last = rw missing at step' in cc)
            ]
      ]

  pub resolve_assets_at :
      (workspace : ℕ) (s : Store) (raws : List Text) (i : ℕ) {assets : List ℕ} {a : ℕ}
      → resolve_assets to_uuid workspace s raws ≡ ok assets
      → get_elem? assets i ≡ some a
      → (get_elem? (map to_uuid raws) i ≡ some (some a))
        × (is_some (find_asset workspace s a) ≡ true)
  unfolding resolve_assets
  resolve_assets_at workspace s [] i {assets} {a} h k =
      absurd (let e : [] ≡ assets = ok_injective h in let k' = rw (← e) at k in cc)
  resolve_assets_at workspace s (raw ∷ raws) zero {assets} {a} h k =
      let (id, others, parsed, found, rest, e) = resolve_assets-cons workspace s raw raws h in
      let k' = rw e at k in
      let same_id : id ≡ a = cc in (rw (parsed, same_id), rw (← same_id) found)
  resolve_assets_at workspace s (raw ∷ raws) (suc i) h k =
      let (id, others, parsed, found, rest, e) = resolve_assets-cons workspace s raw raws h in
      resolve_assets_at workspace s raws i rest (rw e at k)

member-no : (a : ℕ) (ids : List ℕ) → member a ids ≡ false → All (λ b. a ≢ b) ids
member-no a [] h = tt
member-no a (b ∷ ids) h =
    let here : (a == b) ≡ false = ground arith in
    let rest : member a ids ≡ false = ground arith in ((λ e. ground arith), member-no a ids rest)

no-member : (a : ℕ) (ids : List ℕ) → All (λ b. a ≢ b) ids → member a ids ≡ false
no-member a [] h = refl
no-member a (b ∷ ids) (ne, h) =
    let here : (a == b) ≡ false = ground arith in rw (here, no-member a ids h) refl

pub repeats-IsUnique : (ids : List ℕ) → repeats ids ≡ false → IsUnique ids
unfolding repeats
repeats-IsUnique [] h = tt
repeats-IsUnique (a ∷ ids) h =
    let here : member a ids ≡ false = ground arith in
    let rest : repeats ids ≡ false = ground arith in
    (member-no a ids here, repeats-IsUnique ids rest)

pub unique-repeats : (ids : List ℕ) → IsUnique ids → repeats ids ≡ false
unfolding repeats
unique-repeats [] h = refl
unique-repeats (a ∷ ids) (apart, h) = rw (no-member a ids apart, unique-repeats ids h) refl
