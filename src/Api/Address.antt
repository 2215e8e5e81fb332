-- ===== src/Api/Address.antt =====
-- Which address a request comes from: `_client_ip` of apps/api/limits.py.
use osir_ai.Prelude.{
  ℕ, ◌≡◌, refl, arith, Bool, true, false, not, List, [], ◌∷◌, ◌++◌, Option, none, some, ◌==◌,
  if◌then◌else◌, find, map, keep, member, Text, truthy, strip,
}
use osir_ai.Keys.Names.{elem}

-- `text.split(",")`
abbrev pub comma : ℕ
comma = 0x2C

abbrev pub onto_first : ℕ → List Text → List Text
onto_first c [] = (c ∷ []) ∷ []
onto_first c (t ∷ ts) = (c ∷ t) ∷ ts

unfoldable pub split : ℕ → Text → List Text
split separator [] = [] ∷ []
split separator (c ∷ s) =
    let rest = split separator s in if c == separator then [] ∷ rest else onto_first c rest

-- `[h.strip() for h in forwarded.split(",") if h.strip()]`
unfoldable pub hops : Text → List Text
hops forwarded = keep truthy (map strip (split comma forwarded))

-- The loop over the hops, and what is returned after it.
abbrev pub hop_or : Option Text → Option Text → Option Text
hop_or none remote = remote
hop_or (some hop) remote = some hop

abbrev pub first_untrusted : List Text → List Text → Option Text
first_untrusted trusted hs = find (λ h. not (elem h trusted)) hs

abbrev pub from_header : List Text → Option Text → Text → Option Text
from_header trusted remote header =
    if truthy header then hop_or (first_untrusted trusted (hops header)) remote else remote

abbrev pub forwarded_ip : List Text → Option Text → Option Text → Option Text
forwarded_ip trusted remote none = remote
forwarded_ip trusted remote (some header) = from_header trusted remote header

-- The socket's peer, when it is known.
abbrev pub is_proxy : List Text → Option Text → Bool
is_proxy trusted none = false
is_proxy trusted (some remote) = elem remote trusted

unfoldable pub client_ip : List Text → Option Text → Option Text → Option Text
client_ip trusted remote forwarded =
    if is_proxy trusted remote then forwarded_ip trusted remote forwarded else remote

split-onto :
    (hop rest : Text)
    → member comma hop ≡ false
    → split comma (hop ++ (comma ∷ rest)) ≡ hop ∷ split comma rest
unfolding split
split-onto [] rest h = refl
split-onto (c ∷ hop) rest h =
    let other : (c == comma) ≡ false = ground arith in
    let tail : member comma hop ≡ false = ground arith in rw (other, split-onto hop rest tail) refl

-- Behind a trusted proxy that appends to the header, the answer is whatever hop the client wrote
-- first, as long as it has no comma, is not blank and is not the address of a trusted proxy.
pub client_ip_claimed :
    (trusted : List Text) (proxy hop rest : Text)
    → elem proxy trusted ≡ true
    → member comma hop ≡ false
    → truthy (strip hop) ≡ true
    → elem (strip hop) trusted ≡ false
    → client_ip trusted (some proxy) (some (hop ++ (comma ∷ rest))) ≡ some (strip hop)
unfolding client_ip hops
client_ip_claimed trusted proxy [] rest known plain shown foreign = cc
client_ip_claimed trusted proxy (c ∷ hop) rest known plain shown foreign =
    rw (known, split-onto (c ∷ hop) rest plain, shown, foreign) refl
