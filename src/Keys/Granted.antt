-- ===== src/Keys/Granted.antt =====
-- What an issued or an edited key can grant: `issue_api_key` and `update_api_key` of
-- apps/api_keys/services.py.
use osir_ai.Prelude.{
  ℕ, ◌≡◌, ◌≢◌, refl, sym, ap, ◌∙◌, arith, Bool, true, false, not, List, [], ◌∷◌, ◌++◌, Option, some,
  ◌==◌, if◌then◌else◌, any, keep, All, Text, ok, not_in_workspace, none, Error, raise_if,
  raise_if-ok, >>=-ok, ok_injective,
}
use osir_ai.Members.{OrgWorkspace, WorkspaceMembership}
use osir_ai.Members.Invite.{value_or}
use osir_ai.Keys.{ApiKey, Vault}
use osir_ai.Keys.Names.{elem, held_names, elem-sorted_set, elem-append, elem-keep}
use osir_ai.Keys.Issue.{
  AllowedAccount, has_org_permission, org_membership, workspace_membership, is_empty,
  check_allowlist, check_key_manager, edited_permissions, with_scope, update_key, account_ids,
  update_api_key,
}

pub value_or-ok {ℓ} :
    {A : Type ℓ} {a : A} (e : Error) (o : Option A) → value_or e o ≡ ok a → o ≡ some a
value_or-ok e (some b) h = cc
value_or-ok e none h = cc

raise_if_passed : (b : Bool) (e : Error) → raise_if b e ≡ ok tt → b ≡ false
raise_if_passed false e h = refl
raise_if_passed true e h = cc

edited_permissions-elem :
    (m : WorkspaceMembership) (asked current : List Text) (k : Text)
    → elem k (edited_permissions m asked current)
      ≡ (if elem k (held_names m) then elem k asked else elem k current)
unfolding edited_permissions
edited_permissions-elem m asked current k =
    let grantable = λ (n : Text). elem n (held_names m) in
    let kept = λ (n : Text). not (elem n (held_names m)) in
    elem-sorted_set k (keep grantable asked ++ keep kept current)
    ∙ elem-append k (keep grantable asked) (keep kept current)
    ∙ rw (elem-keep grantable k asked, elem-keep kept k current) (ground arith)

-- What the services check of an allowlist.
abbrev pub IsAllowlist : OrgWorkspace → List AllowedAccount → Type 0
IsAllowlist workspace accounts = (accounts ≢ []) × All (λ a. a.workspace ≡ workspace.id) accounts

inside_each :
    (workspace : OrgWorkspace) (accounts : List AllowedAccount)
    → any (λ a. not (a.workspace == workspace.id)) accounts ≡ false
    → All (λ a. a.workspace ≡ workspace.id) accounts
inside_each workspace [] h = tt
inside_each workspace (a ∷ as_) h = (ground arith, inside_each workspace as_ (ground arith))

nonempty : (accounts : List AllowedAccount) → is_empty accounts ≡ false → accounts ≢ []
nonempty [] h = cc
nonempty (a ∷ as_) h = λ e. cc

pub check_allowlist-IsAllowlist :
    (workspace : OrgWorkspace) (accounts : List AllowedAccount)
    → check_allowlist workspace accounts ≡ ok tt
    → IsAllowlist workspace accounts
unfolding check_allowlist
check_allowlist-IsAllowlist workspace accounts h =
    let (some_, h1) = raise_if-ok (is_empty accounts) _ _ h in
    (nonempty accounts some_, inside_each workspace accounts (raise_if_passed _ _ h1))

-- What an edit does to a key: its editor manages the keys of the organization and is in the
-- workspace, and of each name of a permission the editor's own permissions decide whether the
-- request or the old key is followed.
pub record IsEdited (key new : ApiKey) (editor : ℕ) (asked : List Text)
    (accounts : List AllowedAccount) (v : Vault) : Type 0 where
  pub manages : has_org_permission (org_membership editor key.workspace.org v.roster) ≡ true
  pub membership : WorkspaceMembership
  pub found : workspace_membership editor key.workspace.id v.roster ≡ some membership
  pub allowlist : IsAllowlist key.workspace accounts
  pub scope :
      (k : Text)
      → elem k new.permissions
        ≡ (if elem k (held_names membership) then elem k asked else elem k key.permissions)
  pub accounts_set : new.social_accounts ≡ account_ids accounts
  pub same_token : new.token_hash ≡ key.token_hash
  pub same_lookup : new.lookup_prefix ≡ key.lookup_prefix
  pub same_issuer : new.issued_by ≡ key.issued_by
  pub same_workspace : new.workspace ≡ key.workspace

pub check_key_manager-has_org_permission :
    (user : ℕ) (workspace : OrgWorkspace) (v : Vault)
    → check_key_manager user workspace v ≡ ok tt
    → has_org_permission (org_membership user workspace.org v.roster) ≡ true
unfolding check_key_manager
check_key_manager-has_org_permission user workspace v h =
    let passed = raise_if_passed _ _ h in ground arith

-- Whenever an edit succeeds, its editor is an owner or admin of the organization and a member
-- of the workspace, the allowlist is not empty and lies in the workspace, and each permission
-- that the editor holds is granted just when it was asked for, each other one just when the key
-- had it; token, issuer and workspace stay, and the tables change by the new scope alone.
pub update_api_key-IsEdited :
    (key new : ApiKey) (editor : ℕ) (asked : List Text) (accounts : List AllowedAccount)
    (expires : Option ℕ) (v after : Vault)
    → update_api_key key editor asked accounts expires v ≡ ok (new, after)
    → IsEdited key new editor asked accounts v
      × (after ≡ update_key key.id (with_scope new.permissions expires (account_ids accounts)) v)
unfolding update_api_key
update_api_key-IsEdited key new editor asked accounts expires v after h =
    let (u, first, h1) = >>=-ok (check_key_manager editor key.workspace v) _ h in
    let (m, second, h2) = >>=-ok (value_or not_in_workspace _) _ h1 in
    let (w, third, h3) = >>=-ok (check_allowlist key.workspace accounts) _ h2 in
    let names = edited_permissions m asked key.permissions in
    let scope = with_scope names expires (account_ids accounts) in
    let both : (scope key, update_key key.id scope v) ≡ (new, after) = ok_injective h3 in
    let is_new : scope key ≡ new = ap (λ p. p.0) both in
    let is_after : update_key key.id scope v ≡ after = ap (λ p. p.1) both in
    rw⁻¹ is_new (
      record {
        manages = check_key_manager-has_org_permission editor key.workspace v first;
        membership = m;
        found = value_or-ok not_in_workspace _ second;
        allowlist = check_allowlist-IsAllowlist key.workspace accounts third;
        scope = edited_permissions-elem m asked key.permissions;
        accounts_set = refl;
        same_token = refl;
        same_lookup = refl;
        same_issuer = refl;
        same_workspace = refl;
      },
      sym is_after,
    )
