-- ===== src/Api/Auth.antt =====
-- The bearer authentication of the Agent API: apps/api/auth.py, and `touch_last_used` of
-- apps/api_keys/services.py.
use osir_ai.Prelude.{
  ℕ, ◌≡◌, refl, sym, ap, Bool, true, false, ◌&&◌, not, inl, inr, List, [], ◌∷◌, ◌++◌, Option, none,
  some, ◌==◌, if◌then◌else◌, map, Text, text, text_eq, text_eq→eq, is_some, Bool-cases,
}
use osir_ai.Members.{WorkspaceMembership}
use osir_ai.Keys.{ApiKey, Vault}
use osir_ai.Keys.Names.{elem, held_names}
use osir_ai.Keys.Issue.{workspace_membership}
use osir_ai.Keys.Cache.{Cache}
use osir_ai.Keys.Verify.{verify_token}
use osir_ai.Api.Address.{client_ip}
use osir_ai.Api.Throttle.{Counters, live, is_failed_auth_ip_blocked, record_failed_auth}

-- What the dictionary of a key says of each name that was granted.
abbrev pub held_by : Option WorkspaceMembership → Text → Bool
held_by none k = false
held_by (some m) k = elem k (held_names m)

abbrev pub issuer_membership : Option ℕ → ApiKey → Vault → Option WorkspaceMembership
issuer_membership none key v = none
issuer_membership (some issuer) key v = workspace_membership issuer key.workspace.id v.roster

-- `_resolve_effective_permissions`
unfoldable pub resolve_effective_permissions : Vault → ApiKey → List (Text × Bool)
resolve_effective_permissions v key =
    map (λ (k : Text). (k, held_by (issuer_membership key.issued_by key v) k)) key.permissions

-- `permissions.get(name, False)`, which `require_permission` asks
abbrev pub allows : List (Text × Bool) → Text → Bool
allows [] k = false
allows ((n, granted) ∷ ps) k = let rest = allows ps k in if text_eq k n then granted else rest

allows-map :
    (f : Text → Bool) (ns : List Text) (k : Text)
    → allows (map (λ (n : Text). (n, f n)) ns) k ≡ (elem k ns && f k)
allows-map f [] k = refl
allows-map f (n ∷ ns) k = elim (Bool-cases (text_eq k n)) [
  | inl e ↦ let same : k ≡ n = text_eq→eq k n e in rw e (ap f (sym same))
  | inr e ↦ rw e (allows-map f ns k)
]

-- Of each name, the dictionary of a key says that it is allowed just when the key was granted it
-- and its issuer is a member of the key's workspace who holds it now.
pub resolve_effective_permissions-allows :
    (v : Vault) (key : ApiKey) (k : Text)
    → allows (resolve_effective_permissions v key) k
      ≡ (elem k key.permissions && held_by (issuer_membership key.issued_by key v) k)
unfolding resolve_effective_permissions
resolve_effective_permissions-allows v key k =
    allows-map (held_by (issuer_membership key.issued_by key v)) key.permissions k

pub record AuthRequest : Type 0 where
  pub is_secure : Bool
  pub remote : Option Text
  pub forwarded : Option Text

-- `settings.DEBUG` and `settings.BB_TRUSTED_PROXIES`
pub record Settings : Type 0 where
  pub debug : Bool
  pub trusted : List Text

abbrev pub ip_of : Settings → AuthRequest → Option Text
ip_of st r = client_ip st.trusted r.remote r.forwarded

-- `_LAST_USED_DEBOUNCE_SECONDS` and `_last_touched_cache_key`
abbrev pub last_used_debounce : ℕ
last_used_debounce = 60

-- What the caller gets: the key, and the dictionary that the request carries.
pub record Authenticated : Type 0 where
  pub api_key : ApiKey
  pub permissions : List (Text × Bool)

module _ (make_lookup hmac_hex : Text → Text) (pk_text : ℕ → Text) (c : Cache ApiKey)
    (d : Counters) where
  -- The tables, the cached keys and the counters.
  pub record Server : Type 0 where
    pub vault : Vault
    pub cached : c.Store
    pub counters : d.Store

  abbrev pub last_touched : ApiKey → Text
  last_touched key = text "apikey:last_touched:" ++ pk_text key.id

  abbrev pub note_use : ℕ → ℕ → Option Text → Vault → Vault
  note_use now id ip v = record v {
    last_used = λ i. if i == id then some (now, ip) else v.last_used i;
  }

  unfoldable pub touch_last_used : ℕ → ApiKey → Option Text → Server → Server
  touch_last_used now key ip s =
      if is_some (live now (d.entry (last_touched key) s.counters)) then s else record s {
        vault = note_use now key.id ip s.vault;
        counters = d.add now (last_touched key) 1 last_used_debounce s.counters;
      }

  abbrev pub failed : ℕ → Option Text → Server → Server
  failed now ip s = record s { counters = record_failed_auth d now now ip s.counters }

  -- `_pre_auth_reject`
  unfoldable pub pre_auth_reject : ℕ → Settings → AuthRequest → Server → Bool × Server
  pre_auth_reject now st r s =
      if is_failed_auth_ip_blocked d now (ip_of st r) s.counters
      then (true, s)
      else if not r.is_secure && not st.debug
      then (true, failed now (ip_of st r) s)
      else (false, s)

  abbrev pub admitted :
      ℕ → Settings → AuthRequest → Server → Option ApiKey → Option Authenticated × Server
  admitted now st r s none = (none, failed now (ip_of st r) s)
  admitted now st r s (some key) = (
    some (record { api_key = key; permissions = resolve_effective_permissions s.vault key }),
    touch_last_used now key (ip_of st r) s,
  )

  abbrev pub verified_token :
      ℕ → Settings → AuthRequest → Text → Server → Option Authenticated × Server
  verified_token now st r token s =
      let found = verify_token make_lookup hmac_hex c now token s.vault s.cached in
      admitted now st r (record s { cached = found.1 }) found.0

  abbrev pub unless_rejected :
      ℕ → Settings → AuthRequest → Text → Bool × Server → Option Authenticated × Server
  unless_rejected now st r token (true, s) = (none, s)
  unless_rejected now st r token (false, s) = verified_token now st r token s

  -- `ApiKeyAuth.authenticate`
  unfoldable pub authenticate :
      ℕ → Settings → AuthRequest → Text → Server → Option Authenticated × Server
  authenticate now st r token s = unless_rejected now st r token (pre_auth_reject now st r s)
