-- ===== src/Keys/Token.antt =====
-- The text of a token: `parse_token` of apps/api_keys/services.py.
use osir_ai.Prelude.{
  ℕ, ◌≤◌, ◌≡◌, ◌↔◌, refl, sym, ap, ◌∙◌, arith, Bool, true, false, ◌&&◌, inl, inr, [], ◌∷◌, ◌++◌,
  Option, none, some, ◌==◌, leb, if◌then◌else◌, length, member, Text, text, text_eq, text_eq_refl,
  text_eq→eq, Bool-cases, Option-cases,
}

-- `TOKEN_PREFIX`, `LOOKUP_LEN` and the separator of the two parts
abbrev pub token_prefix : Text
token_prefix = text "bb_studio_"

abbrev pub lookup_len : ℕ
lookup_len = 8

abbrev pub underscore : ℕ
underscore = 0x5F

-- `ParsedToken`
pub record ParsedToken : Type 0 where
  pub random_part : Text
  pub lookup_prefix : Text

-- `raw[len(prefix):]` when the text starts with the prefix
abbrev pub after_prefix : Text → Text → Option Text
after_prefix [] s = some s
after_prefix (p ∷ ps) [] = none
after_prefix (p ∷ ps) (c ∷ s) = let rest = after_prefix ps s in if p == c then rest else none

-- `body.rsplit(separator, 1)` when it has two parts
abbrev pub split_here : ℕ → ℕ → Text → Option (Text × Text) → Option (Text × Text)
split_here separator c s (some (a, b)) = some (c ∷ a, b)
split_here separator c s none = if c == separator then some ([], s) else none

unfoldable pub rsplit : ℕ → Text → Option (Text × Text)
rsplit separator [] = none
rsplit separator (c ∷ s) = split_here separator c s (rsplit separator s)

-- The checks of the two parts.
abbrev pub well_formed : (Text → Text) → Text → Text → Bool
well_formed make_lookup random_part lookup =
    length lookup == lookup_len
    && (leb 32 (length random_part) && leb (length random_part) 64)
    && text_eq (make_lookup random_part) lookup

abbrev pub checked : (Text → Text) → Text × Text → Option ParsedToken
checked make_lookup (random_part, lookup) =
    if well_formed make_lookup random_part lookup
    then some (record { random_part = random_part; lookup_prefix = lookup })
    else none

abbrev pub checked_parts : (Text → Text) → Option (Text × Text) → Option ParsedToken
checked_parts make_lookup none = none
checked_parts make_lookup (some parts) = checked make_lookup parts

abbrev pub parse_body : (Text → Text) → Option Text → Option ParsedToken
parse_body make_lookup none = none
parse_body make_lookup (some body) = checked_parts make_lookup (rsplit underscore body)

unfoldable pub parse_token : (Text → Text) → Text → Option ParsedToken
parse_token make_lookup raw = parse_body make_lookup (after_prefix token_prefix raw)

-- The f-string of `issue_api_key`
abbrev pub plaintext : Text → Text → Text
plaintext random_part lookup = token_prefix ++ (random_part ++ (underscore ∷ lookup))

after_prefix-some : (p raw s : Text) → after_prefix p raw ≡ some s → raw ≡ p ++ s
after_prefix-some [] raw s h = cc
after_prefix-some (c ∷ p) [] s h = cc
after_prefix-some (c ∷ p) (d ∷ raw) s h = elim (Bool-cases (c == d)) [
  | inl e ↦
      let same : c ≡ d = ground arith in
      let tail = after_prefix-some p raw s (sym (rw e refl) ∙ h) in rw same (ap (λ r. d ∷ r) tail)
  | inr e ↦ let impossible : none ≡ some s = sym (rw e refl) ∙ h in cc
]

rsplit-none : (c : ℕ) (s : Text) → member c s ≡ false → rsplit c s ≡ none
unfolding rsplit
rsplit-none c [] h = refl
rsplit-none c (d ∷ s) h =
    let other : (d == c) ≡ false = ground arith in
    let rest : member c s ≡ false = ground arith in rw (rsplit-none c s rest, other)

rsplit-append : (c : ℕ) (a b : Text) → member c b ≡ false → rsplit c (a ++ (c ∷ b)) ≡ some (a, b)
unfolding rsplit
rsplit-append c [] b h =
    let own : (c == c) ≡ true = ground arith in rw (rsplit-none c b h, own) refl
rsplit-append c (d ∷ a) b h = rw (rsplit-append c a b h) refl

-- An equation of two outcomes of a split.
abbrev SameParts : Option (Text × Text) → Option (Text × Text) → Type 0
SameParts a b = a ≡ b

rsplit-none_inv : (c : ℕ) (s : Text) → rsplit c s ≡ none → member c s ≡ false
unfolding rsplit
rsplit-none_inv c [] h = refl
rsplit-none_inv c (d ∷ s) h = elim (Option-cases (rsplit c s)) [
  | inl e ↦ elim (Bool-cases (d == c)) [
    | inl f ↦ let bad : SameParts (some ([], s)) none = sym (rw (e, f) refl) ∙ h in cc
    | inr f ↦
        let rest = rsplit-none_inv c s e in
        let other : (c == d) ≡ false = ground arith in rw (other, rest) refl
  ]
  | inr ((a, b), e) ↦ let bad : SameParts (some (d ∷ a, b)) none = sym (rw e refl) ∙ h in cc
]

-- The two parts, and the separator between them is the last one.
rsplit-some :
    (c : ℕ) (s a b : Text) → rsplit c s ≡ some (a, b) → (s ≡ a ++ (c ∷ b)) × (member c b ≡ false)
unfolding rsplit
rsplit-some c [] a b h = absurd (cc)
rsplit-some c (d ∷ s) a b h = elim (Option-cases (rsplit c s)) [
  | inl e ↦ elim (Bool-cases (d == c)) [
    | inl f ↦
        let this : SameParts (some ([], s)) (some (a, b)) = sym (rw (e, f) refl) ∙ h in
        let first : [] ≡ a = cc in
        let second : s ≡ b = cc in
        let same : d ≡ c = ground arith in
        rw⁻¹ first (rw⁻¹ second (rw same refl, rsplit-none_inv c s e))
    | inr f ↦ let bad : SameParts none (some (a, b)) = sym (rw (e, f) refl) ∙ h in absurd (cc)
  ]
  | inr ((a1, b1), e) ↦
      let this : SameParts (some (d ∷ a1, b1)) (some (a, b)) = sym (rw e refl) ∙ h in
      let first : d ∷ a1 ≡ a = cc in
      let second : b1 ≡ b = cc in
      let (whole, last) = rsplit-some c s a1 b1 e in
      rw⁻¹ first (rw⁻¹ second (ap (λ r. d ∷ r) whole, last))
]

-- What a parsed token says of the raw text.
pub record IsToken (make_lookup : Text → Text) (raw : Text) (p : ParsedToken) : Type 0 where
  pub whole : raw ≡ plaintext p.random_part p.lookup_prefix
  pub last : member underscore p.lookup_prefix ≡ false
  pub eight : length p.lookup_prefix ≡ 8
  pub long : 32 ≤ length p.random_part
  pub short : length p.random_part ≤ 64
  pub addressed : make_lookup p.random_part ≡ p.lookup_prefix

well_formed_intro :
    (make_lookup : Text → Text) (a b : Text)
    → length b ≡ 8
    → 32 ≤ length a
    → length a ≤ 64
    → make_lookup a ≡ b
    → well_formed make_lookup a b ≡ true
well_formed_intro make_lookup a b eight long short e =
    let same : text_eq (make_lookup a) b ≡ true = rw e (text_eq_refl b) in ground arith

checked-some :
    (make_lookup : Text → Text) (a b : Text) (p : ParsedToken)
    → checked make_lookup (a, b) ≡ some p
    → (p ≡ record { random_part = a; lookup_prefix = b }) × (well_formed make_lookup a b ≡ true)
checked-some make_lookup a b p h = elim (Bool-cases (well_formed make_lookup a b)) [
  | inl e ↦
      let this : some (record { random_part = a; lookup_prefix = b }) ≡ some p =
        sym (rw e refl) ∙ h in
      (cc, e)
  | inr e ↦ let bad : none ≡ some p = sym (rw e refl) ∙ h in absurd (cc)
]

parse_token-IsToken :
    (make_lookup : Text → Text) (raw : Text) (p : ParsedToken)
    → parse_token make_lookup raw ≡ some p
    → IsToken make_lookup raw p
unfolding parse_token
parse_token-IsToken make_lookup raw p h = elim (Option-cases (after_prefix token_prefix raw)) [
  | inl e ↦ let bad : none ≡ some p = sym (rw e refl) ∙ h in absurd (cc)
  | inr (body, e) ↦
      let step : parse_body make_lookup (some body) ≡ some p = sym (rw e refl) ∙ h in
      elim (Option-cases (rsplit underscore body)) [
        | inl f ↦ let bad : none ≡ some p = sym (rw f refl) ∙ step in absurd (cc)
        | inr ((a, b), f) ↦
            let last : checked make_lookup (a, b) ≡ some p = sym (rw f refl) ∙ step in
            let (this, good) = checked-some make_lookup a b p last in
            let (whole, tail) = rsplit-some underscore body a b f in
            rw this (record {
              whole = after_prefix-some token_prefix raw body e ∙ ap (λ r. token_prefix ++ r) whole;
              last = tail;
              eight = ground arith;
              long = ground arith;
              short = ground arith;
              addressed = text_eq→eq (make_lookup a) b (ground arith);
            })
      ]
]

IsToken-parse_token :
    (make_lookup : Text → Text) (raw : Text) (p : ParsedToken)
    → IsToken make_lookup raw p
    → parse_token make_lookup raw ≡ some p
unfolding parse_token
IsToken-parse_token make_lookup raw p k =
    rw
      (
        k.whole,
        rsplit-append underscore p.random_part p.lookup_prefix k.last,
        well_formed_intro make_lookup p.random_part p.lookup_prefix k.eight k.long k.short
            k.addressed,
      )
      refl

-- Parsing accepts exactly the texts that the issuing f-string writes: the prefix, a random part
-- of 32 to 64 characters, an underscore, and the lookup of that random part, which has eight
-- characters and no underscore; and it gives back those two parts, although the random part may
-- itself have underscores.
pub parse_token_exact :
    (make_lookup : Text → Text) (raw : Text) (p : ParsedToken)
    → (parse_token make_lookup raw ≡ some p) ↔ IsToken make_lookup raw p
parse_token_exact make_lookup raw p =
    (parse_token-IsToken make_lookup raw p, IsToken-parse_token make_lookup raw p)
