-- ===== src/Keys/Verify.antt =====
-- `verify_token` and `_issuer_still_authorized` of apps/api_keys/services.py, and the lookup in the
-- tables that they stand for.
use osir_ai.Prelude.{
  ℕ, Bool, false, ◌&&◌, ◌++◌, Option, none, some, if◌then◌else◌, find, is_some, Text, text, text_eq,
}
use osir_ai.Keys.{ApiKey, Vault, is_active}
use osir_ai.Keys.Token.{ParsedToken, parse_token}
use osir_ai.Keys.Issue.{with_lookup, workspace_membership}
use osir_ai.Keys.Cache.{Cache}

-- `REVOCATION_CACHE_TTL`
abbrev pub revocation_cache_ttl : ℕ
revocation_cache_ttl = 30

-- `_active_cache_key`
abbrev pub active_cache_key : Text → Text
active_cache_key lookup = text "apikey:active:" ++ lookup

-- `_issuer_still_authorized`
abbrev pub is_member : Option ℕ → ApiKey → Vault → Bool
is_member none key v = false
is_member (some issuer) key v = is_some (workspace_membership issuer key.workspace.id v.roster)

unfoldable pub issuer_still_authorized : Vault → ApiKey → Bool
issuer_still_authorized v key = is_member key.issued_by key v

module _ (make_lookup hmac_hex : Text → Text) (c : Cache ApiKey) where
  -- The row that is used, and the cache after it was read.
  abbrev pub remembered : ℕ → Text → c.Store → ApiKey → c.Store
  remembered now lookup s key =
      if is_active now key
      then c.set now (active_cache_key lookup) key revocation_cache_ttl s
      else s

  abbrev pub from_tables : ℕ → Text → c.Store → Option ApiKey → Option ApiKey × c.Store
  from_tables now lookup s none = (none, s)
  from_tables now lookup s (some key) = (some key, remembered now lookup s key)

  abbrev pub read_row : ℕ → Text → Vault → c.Store → Option ApiKey → Option ApiKey × c.Store
  read_row now lookup v s (some key) = (some key, s)
  read_row now lookup v s none = from_tables now lookup s (find (with_lookup lookup) v.keys)

  -- The checks of the row.
  abbrev pub judge : ℕ → ParsedToken → Vault → ApiKey → c.Store → Option ApiKey × c.Store
  judge now p v key s =
      if is_active now key
      then if text_eq (hmac_hex p.random_part) key.token_hash
        then if issuer_still_authorized v key
          then (some key, s)
          else (none, c.delete (active_cache_key p.lookup_prefix) s)
        else (none, s)
      else (none, c.delete (active_cache_key p.lookup_prefix) s)

  abbrev pub judge_row : ℕ → ParsedToken → Vault → Option ApiKey × c.Store → Option ApiKey × c.Store
  judge_row now p v (none, s) = (none, s)
  judge_row now p v (some key, s) = judge now p v key s

  abbrev pub verify_parsed : ℕ → Option ParsedToken → Vault → c.Store → Option ApiKey × c.Store
  verify_parsed now none v s = (none, s)
  verify_parsed now (some p) v s =
      judge_row now p v
        (read_row now p.lookup_prefix v s (c.get now (active_cache_key p.lookup_prefix) s))

  unfoldable pub verify_token : ℕ → Text → Vault → c.Store → Option ApiKey × c.Store
  verify_token now raw v s = verify_parsed now (parse_token make_lookup raw) v s

  -- The same without a cache: the row of the tables, if it passes every check.
  abbrev pub passes : ℕ → ParsedToken → Vault → ApiKey → Bool
  passes now p v key =
      is_active now key
      && (text_eq (hmac_hex p.random_part) key.token_hash && issuer_still_authorized v key)

  abbrev pub accept : ℕ → ParsedToken → Vault → Option ApiKey → Option ApiKey
  accept now p v none = none
  accept now p v (some key) = if passes now p v key then some key else none

  abbrev pub direct_parsed : ℕ → Option ParsedToken → Vault → Option ApiKey
  direct_parsed now none v = none
  direct_parsed now (some p) v = accept now p v (find (with_lookup p.lookup_prefix) v.keys)

  unfoldable pub direct_lookup : ℕ → Text → Vault → Option ApiKey
  direct_lookup now raw v = direct_parsed now (parse_token make_lookup raw) v
