-- ===== src/Keys/Issued.antt =====
-- What is issued, and that its token is found: `issue_api_key` of apps/api_keys/services.py.
use osir_ai.Prelude.{
  ℕ, ◌≡◌, ◌≤◌, refl, sym, ap, ◌∙◌, arith, true, false, not, inl, inr, List, [], ◌∷◌, ◌++◌, Option,
  some, find, any, member, length, Text, text_eq, text_eq_refl, text_eq→eq, Bool-cases, ||-false,
  ok, raise_if-ok, >>=-ok, ok_injective, not_in_workspace,
}
use osir_ai.Members.{OrgWorkspace, WorkspaceMembership}
use osir_ai.Members.Invite.{value_or}
use osir_ai.Keys.{ApiKey, Vault}
use osir_ai.Keys.Names.{elem, sorted_set, held_names, elem-sorted_set}
use osir_ai.Keys.Token.{underscore, plaintext, parse_token, parse_token_exact, ParsedToken}
use osir_ai.Keys.Issue.{
  AllowedAccount, has_org_permission, org_membership, workspace_membership, check_allowlist,
  check_key_manager, beyond, issue_api_key, IssuedKey, new_key, add_key, with_lookup,
}
use osir_ai.Keys.Granted.{
  IsAllowlist, value_or-ok, check_allowlist-IsAllowlist, check_key_manager-has_org_permission,
}

-- The documented form of what `hashlib` and `secrets` give: eight characters of a hexadecimal
-- digest, and a random part whose length is in the range that the parser allows.
pub record IsLookup (make_lookup : Text → Text) : Type 0 where
  pub eight : (t : Text) → length (make_lookup t) ≡ 8
  pub hexadecimal : (t : Text) → member underscore (make_lookup t) ≡ false

beyond-elem :
    (m : WorkspaceMembership) (names : List Text) (k : Text)
    → beyond m names ≡ false
    → elem k names ≡ true
    → elem k (held_names m) ≡ true
beyond-elem m [] k h inside = cc
beyond-elem m (n ∷ ns) k h inside =
    let (first, rest) = ||-false (not (elem n (held_names m))) (beyond m ns) h in
    elim (Bool-cases (text_eq k n)) [
      | inl e ↦ rw (text_eq→eq k n e) (ground arith)
      | inr e ↦
          let within : elem k ns ≡ true = sym (rw e refl) ∙ inside in beyond-elem m ns k rest within
    ]

find-append_new :
    (lookup : Text) (keys : List ApiKey) (key : ApiKey)
    → any (with_lookup lookup) keys ≡ false
    → with_lookup lookup key ≡ true
    → find (with_lookup lookup) (keys ++ (key ∷ [])) ≡ some key
find-append_new lookup [] key h own = rw own refl
find-append_new lookup (k ∷ ks) key h own =
    let (first, rest) = ||-false (with_lookup lookup k) (any (with_lookup lookup) ks) h in
    rw first (find-append_new lookup ks key rest own)

module _ (make_lookup hmac_hex : Text → Text) (workspace : OrgWorkspace)
    (accounts : List AllowedAccount) (issuer : ℕ) (name : Text) (asked : List Text)
    (expires : Option ℕ) (random_part : Text) (v : Vault) where
  abbrev pub made : ApiKey
  made =
      new_key make_lookup hmac_hex workspace accounts issuer name asked expires random_part
        v.next_key

  -- The checks that an issue passed, and what it then made.
  pub record IsMade (issued : IssuedKey) (after : Vault) : Type 0 where
    pub listed : check_allowlist workspace accounts ≡ ok tt
    pub managed : check_key_manager issuer workspace v ≡ ok tt
    pub membership : WorkspaceMembership
    pub joined : workspace_membership issuer workspace.id v.roster ≡ some membership
    pub within : beyond membership (sorted_set asked) ≡ false
    pub unused : any (with_lookup (make_lookup random_part)) v.keys ≡ false
    pub is_issued : issued ≡ record {
      api_key = made;
      plaintext_token = plaintext random_part (make_lookup random_part);
    }
    pub is_after : after ≡ add_key made v

  pub issue_api_key-IsMade :
      (issued : IssuedKey) (after : Vault)
      → issue_api_key make_lookup hmac_hex workspace accounts issuer name asked expires random_part
          v
        ≡ ok (issued, after)
      → IsMade issued after
  unfolding issue_api_key
  issue_api_key-IsMade issued after h =
      let (u, first, h1) = >>=-ok (check_allowlist workspace accounts) _ h in
      let (w, second, h2) = >>=-ok (check_key_manager issuer workspace v) _ h1 in
      let (m, third, h3) =
        >>=-ok (value_or not_in_workspace (workspace_membership issuer workspace.id v.roster)) _
          h2 in
      let (within, h4) = raise_if-ok (beyond m (sorted_set asked)) _ _ h3 in
      let (unused, h5) = raise_if-ok (any (with_lookup (make_lookup random_part)) v.keys) _ _ h4 in
      let both : (
        record {
          api_key = made;
          plaintext_token = plaintext random_part (make_lookup random_part);
        },
        add_key made v,
      )
          ≡ (issued, after) =
        ok_injective h5 in
      record {
        listed = first;
        managed = second;
        membership = m;
        joined = value_or-ok not_in_workspace _ third;
        within = within;
        unused = unused;
        is_issued = sym (ap (λ p. p.0) both);
        is_after = sym (ap (λ p. p.1) both);
      }

-- What a successful issue means: the issuer manages the keys of the organization and is in the
-- workspace, and grants nothing but what the issuer holds there.
pub record IsIssued (make_lookup : Text → Text) (workspace : OrgWorkspace)
    (accounts : List AllowedAccount) (issuer : ℕ) (asked : List Text) (before after : Vault)
    (issued : IssuedKey) : Type 0 where
  pub manages : has_org_permission (org_membership issuer workspace.org before.roster) ≡ true
  pub membership : WorkspaceMembership
  pub found : workspace_membership issuer workspace.id before.roster ≡ some membership
  pub allowlist : IsAllowlist workspace accounts
  pub as_asked : (k : Text) → elem k issued.api_key.permissions ≡ elem k asked
  pub no_more :
      (k : Text) → elem k issued.api_key.permissions ≡ true → elem k (held_names membership) ≡ true
  pub parsed : ParsedToken
  pub parses : parse_token make_lookup issued.plaintext_token ≡ some parsed
  pub stored : find (with_lookup parsed.lookup_prefix) after.keys ≡ some issued.api_key

-- When the hash and the random part have their documented form, an issue that succeeds gives a
-- key that grants the permissions asked for and none that the issuer lacks, for a non-empty
-- allowlist in the workspace, by an owner or admin of the organization who is in the workspace;
-- and the token that is shown parses to a lookup under which the tables hold that very key.
pub issue_api_key-IsIssued :
    (make_lookup hmac_hex : Text → Text)
    → IsLookup make_lookup
    → (workspace : OrgWorkspace) (accounts : List AllowedAccount) (issuer : ℕ) (name : Text)
      (asked : List Text) (expires : Option ℕ) (random_part : Text) (v after : Vault)
      (issued : IssuedKey)
    → 32 ≤ length random_part
    → length random_part ≤ 64
    → issue_api_key make_lookup hmac_hex workspace accounts issuer name asked expires random_part v
      ≡ ok (issued, after)
    → IsIssued make_lookup workspace accounts issuer asked v after issued
issue_api_key-IsIssued make_lookup hmac_hex hex workspace accounts issuer name asked expires
      random_part v after issued long short h =
    let k =
      issue_api_key-IsMade make_lookup hmac_hex workspace accounts issuer name asked expires
        random_part v issued after h in
    let lookup = make_lookup random_part in
    let parts : ParsedToken = record { random_part = random_part; lookup_prefix = lookup } in
    rw (k.is_issued, k.is_after)
      (record {
        manages = check_key_manager-has_org_permission issuer workspace v k.managed;
        membership = k.membership;
        found = k.joined;
        allowlist = check_allowlist-IsAllowlist workspace accounts k.listed;
        as_asked = λ n. elem-sorted_set n asked;
        no_more = λ n inside. beyond-elem k.membership (sorted_set asked) n k.within inside;
        parsed = parts;
        parses = (parse_token_exact make_lookup _ parts).1 (record {
          whole = refl;
          last = hex.hexadecimal random_part;
          eight = hex.eight random_part;
          long = long;
          short = short;
          addressed = refl;
        });
        stored = find-append_new lookup v.keys _ k.unused (text_eq_refl lookup);
      })
