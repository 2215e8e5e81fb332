-- ===== src/Keys.antt =====
-- The keys of the Agent API: apps/api_keys/models.py and apps/api_keys/services.py.
pub mod Names
pub mod Token
pub mod Issue
pub mod Granted
pub mod Issued
pub mod Cache
pub mod Verify
pub mod Signals
pub mod Fresh
pub mod Cached
pub mod Reached
pub mod Runs
pub mod Agreed
pub mod Workers
pub mod Timed
pub mod Revoked
pub mod Examples
use osir_ai.Prelude.{ℕ, Bool, true, false, List, Option, none, some, leb, if◌then◌else◌, Text}
use osir_ai.Members.{OrgWorkspace, Roster}

-- `ApiKey`, less the columns of the last use, which stand in a table of their own.
pub record ApiKey : Type 0 where
  pub id : ℕ
  pub workspace : OrgWorkspace
  pub social_accounts : List ℕ
  pub issued_by : Option ℕ
  pub name : Text
  pub lookup_prefix : Text
  pub token_hash : Text
  pub permissions : List Text
  pub expires_at : Option ℕ
  pub revoked_at : Option ℕ

-- The tables: keys, memberships, and the time and address of each key's last use.
pub record Vault : Type 0 where
  pub keys : List ApiKey
  pub roster : Roster
  pub last_used : ℕ → Option (ℕ × Option Text)
  pub next_key : ℕ

-- `ApiKey.is_active`
abbrev pub unexpired_unrevoked : ℕ → Option ℕ → Option ℕ → Bool
unexpired_unrevoked now (some revoked) expires = false
unexpired_unrevoked now none none = true
unexpired_unrevoked now none (some t) = if leb t now then false else true

unfoldable pub is_active : ℕ → ApiKey → Bool
is_active now key = unexpired_unrevoked now key.revoked_at key.expires_at
