-- ===== src/Keys/Issue.antt =====
-- Issuing, editing and revoking keys: apps/api_keys/services.py, and `has_org_permission` of
-- apps/members/models.py. What the cache sees of these calls stands in Keys.Signals.
use osir_ai.Prelude.{
  ℕ, suc, Bool, true, false, ◌&&◌, not, List, [], ◌∷◌, ◌++◌, Option, none, some, ◌==◌, find, map,
  any, keep, update_where, Text, text_eq, Result, ok, raise_if, ◌>>=◌, ◌>>◌, no_accounts,
  foreign_account, not_key_manager, not_in_workspace, ungrantable, duplicate_lookup,
}
use osir_ai.Members.{
  OrgRole, org_owner, org_admin, org_member, OrgMembership, OrgWorkspace, WorkspaceMembership,
  Roster,
}
use osir_ai.Members.Invite.{value_or}
use osir_ai.Keys.{ApiKey, Vault}
use osir_ai.Keys.Names.{elem, sorted_set, held_names}
use osir_ai.Keys.Token.{plaintext}

-- A connected account, as far as the services of keys read it.
pub record AllowedAccount : Type 0 where
  pub id : ℕ
  pub workspace : ℕ

-- The one key of `ORG_PERMISSION_KEYS`, and `BUILTIN_ORG_PERMISSIONS`
abbrev pub may_manage_keys : OrgRole → Bool
may_manage_keys org_owner = true
may_manage_keys org_admin = true
may_manage_keys org_member = false

-- `has_org_permission(membership, "manage_api_keys")`
abbrev pub has_org_permission : Option OrgMembership → Bool
has_org_permission none = false
has_org_permission (some m) = may_manage_keys m.role

-- The two membership queries.
abbrev pub org_membership : ℕ → ℕ → Roster → Option OrgMembership
org_membership user org t = find (λ m. m.user == user && m.org == org) t.org_members

abbrev pub workspace_membership : ℕ → ℕ → Roster → Option WorkspaceMembership
workspace_membership user workspace t =
    find (λ m. m.user == user && m.workspace == workspace) t.members

abbrev pub is_empty {ℓ} : {A : Type ℓ} → List A → Bool
is_empty [] = true
is_empty (_ ∷ _) = false

unfoldable pub check_allowlist : OrgWorkspace → List AllowedAccount → Result (Unit {0})
check_allowlist workspace accounts =
    raise_if (is_empty accounts) no_accounts
    >> raise_if (any (λ a. not (a.workspace == workspace.id)) accounts) foreign_account

unfoldable pub check_key_manager : ℕ → OrgWorkspace → Vault → Result (Unit {0})
check_key_manager user workspace v =
    raise_if (not (has_org_permission (org_membership user workspace.org v.roster))) not_key_manager

-- `requested - granter_perms`
abbrev pub beyond : WorkspaceMembership → List Text → Bool
beyond m names = any (λ k. not (elem k (held_names m))) names

abbrev pub account_ids : List AllowedAccount → List ℕ
account_ids accounts = map (λ (a : AllowedAccount). a.id) accounts

-- The row that `issue_api_key` creates; the hash is that of the random part.
abbrev pub new_key :
    (Text → Text)
    → (Text → Text)
    → OrgWorkspace
    → List AllowedAccount
    → ℕ
    → Text
    → List Text
    → Option ℕ
    → Text
    → ℕ
    → ApiKey
new_key make_lookup hmac_hex workspace accounts issued_by name permissions expires_at random_part
      id =
    record {
      id = id;
      workspace = workspace;
      social_accounts = account_ids accounts;
      issued_by = some issued_by;
      name = name;
      lookup_prefix = make_lookup random_part;
      token_hash = hmac_hex random_part;
      permissions = sorted_set permissions;
      expires_at = expires_at;
      revoked_at = none;
    }

-- `IssuedKey`
pub record IssuedKey : Type 0 where
  pub api_key : ApiKey
  pub plaintext_token : Text

abbrev pub with_lookup : Text → ApiKey → Bool
with_lookup lookup k = text_eq k.lookup_prefix lookup

abbrev pub add_key : ApiKey → Vault → Vault
add_key key v = record v { keys = v.keys ++ (key ∷ []); next_key = suc v.next_key }

-- The lookup column is unique: a second row with the same one is refused.
unfoldable pub issue_api_key :
    (Text → Text)
    → (Text → Text)
    → OrgWorkspace
    → List AllowedAccount
    → ℕ
    → Text
    → List Text
    → Option ℕ
    → Text
    → Vault
    → Result (IssuedKey × Vault)
issue_api_key make_lookup hmac_hex workspace accounts issued_by name permissions expires_at
      random_part v =
    do
      check_allowlist workspace accounts
      check_key_manager issued_by workspace v
      membership ← value_or not_in_workspace (workspace_membership issued_by workspace.id v.roster)
      raise_if (beyond membership (sorted_set permissions)) ungrantable
      raise_if (any (with_lookup (make_lookup random_part)) v.keys) duplicate_lookup
      let key =
          new_key make_lookup hmac_hex workspace accounts issued_by name permissions expires_at
            random_part v.next_key
      ok (
        record { api_key = key; plaintext_token = plaintext random_part (make_lookup random_part) },
        add_key key v,
      )

-- `(asked & grantable) | (current - grantable)`, sorted
unfoldable pub edited_permissions : WorkspaceMembership → List Text → List Text → List Text
edited_permissions m asked current =
    sorted_set
      (keep (λ k. elem k (held_names m)) asked ++ keep (λ k. not (elem k (held_names m))) current)

abbrev pub update_key : ℕ → (ApiKey → ApiKey) → Vault → Vault
update_key id f v = record v { keys = update_where (λ k. k.id == id) f v.keys }

abbrev pub with_scope : List Text → Option ℕ → List ℕ → ApiKey → ApiKey
with_scope permissions expires_at accounts k = record k {
  permissions = permissions;
  expires_at = expires_at;
  social_accounts = accounts;
}

unfoldable pub update_api_key :
    ApiKey → ℕ → List Text → List AllowedAccount → Option ℕ → Vault → Result (ApiKey × Vault)
update_api_key key editor asked accounts expires_at v = do
  check_key_manager editor key.workspace v
  membership ← value_or not_in_workspace (workspace_membership editor key.workspace.id v.roster)
  check_allowlist key.workspace accounts
  let permissions = edited_permissions membership asked key.permissions
  let scope = with_scope permissions expires_at (account_ids accounts)
  ok (scope key, update_key key.id scope v)

abbrev pub revoked_now : ℕ → ApiKey → ApiKey
revoked_now now k = record k { revoked_at = some now }

-- `revoke_api_key`, less the cache: the object that the caller holds, and the tables.
abbrev pub revoked_row : ℕ → Option ℕ → ApiKey → Vault → ApiKey × Vault
revoked_row now (some before) key v = (key, v)
revoked_row now none key v = (revoked_now now key, update_key key.id (revoked_now now) v)

unfoldable pub revoke_api_key : ℕ → ApiKey → Vault → ApiKey × Vault
revoke_api_key now key v = revoked_row now key.revoked_at key v
