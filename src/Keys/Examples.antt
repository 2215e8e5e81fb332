-- ===== src/Keys/Examples.antt =====
-- Tests of the keys at one vault, with a cache that is a table, and instances of the theorems.
use osir_ai.Prelude.{
  ◌==◌, ℕ, ◌≡◌, ◌↔◌, ◌+◌, ◌<◌, refl, sym, ap, ◌∙◌, false, inl, inr, List, [], ◌∷◌, Option, none,
  some, ltb, if◌then◌else◌, Text, text, text_eq, text_eq_refl, Bool-cases, arith,
}
use osir_ai.Members.{org_owner, editor, effective_permissions, OrgWorkspace, Roster}
use osir_ai.Keys.{ApiKey, Vault, is_active}
use osir_ai.Keys.Names.{sorted_set, held_names}
use osir_ai.Keys.Token.{ParsedToken, IsToken, plaintext, parse_token, parse_token_exact, rsplit}
use osir_ai.Keys.Issue.{
  AllowedAccount, issue_api_key, update_api_key, check_allowlist, check_key_manager,
  edited_permissions, with_scope, update_key, revoke_api_key, revoked_now,
}
use osir_ai.Keys.Granted.{IsEdited, update_api_key-IsEdited}
use osir_ai.Keys.Issued.{IsIssued, issue_api_key-IsIssued}
use osir_ai.Keys.Cache.{Cache}
use osir_ai.Keys.Verify.{verify_token, direct_lookup, issuer_still_authorized}
use osir_ai.Keys.Signals.{revoke_signalled}
use osir_ai.Keys.Runs.{start, revoked, verified}
use osir_ai.Keys.Agreed.{verify_token-current}
use osir_ai.Keys.Workers.{begin, wait, verifies, revokes, put}
use osir_ai.Keys.Workers.{KeepsRevocations, update_where-KeepsRevocations}
use osir_ai.Keys.Revoked.{verify_token-revoked}

-- A table from keys to values with their expiry.
abbrev pub Table : Type 0 → Type 0
Table V = Text → Option (V × ℕ)

module _ {V : Type 0} where
  abbrev pub alive : ℕ → Option (V × ℕ) → Option V
  alive now none = none
  alive now (some (v, expires)) = if ltb now expires then some v else none

  abbrev pub write : Text → Option (V × ℕ) → Table V → Table V
  write k e s j = if text_eq k j then e else s j

  pub write_same : (k : Text) (e : Option (V × ℕ)) (s : Table V) → write k e s k ≡ e
  write_same k e s = rw (text_eq_refl k) refl

  pub write_other :
      (k j : Text) (e : Option (V × ℕ)) (s : Table V) → text_eq k j ≡ false → write k e s j ≡ s j
  write_other k j e s h = rw h refl

  pub alive-some :
      (later expires : ℕ) (v w : V)
      → alive later (some (v, expires)) ≡ some w
      → (w ≡ v) × (later < expires)
  alive-some later expires v w h = elim (Bool-cases (ltb later expires)) [
    | inl e ↦ let this : some v ≡ some w = sym (rw e refl) ∙ h in (cc, ground arith)
    | inr e ↦ let bad : none ≡ some w = sym (rw e refl) ∙ h in absurd (cc)
  ]

abbrev pub table_cache : (V : Type 0) → Cache V
table_cache V = record {
  Store = Table V;
  empty = λ k. none;
  get = λ now k s. alive now (s k);
  set = λ now k v ttl s. write k (some (v, now + ttl)) s;
  delete = λ k s. write k none s;
  get_empty = λ now k. refl;
  get_set = λ now later ttl k v w s h.
      alive-some later (now + ttl) v w
        (sym (ap (alive later) (write_same k (some (v, now + ttl)) s)) ∙ h);
  get_set_other = λ now later ttl k j v w s other h.
      sym (ap (alive later) (write_other k j (some (v, now + ttl)) s other)) ∙ h;
  get_delete = λ later k s. ap (alive later) (write_same k none s);
  get_delete_other =
      λ later k j w s other h. sym (ap (alive later) (write_other k j none s other)) ∙ h;
}

-- Stand-ins for the digests: one lookup for all, and the random part as its own hash.
abbrev pub lookup : Text
lookup = text "0a1b2c3d"

abbrev pub one_lookup : Text → Text
one_lookup t = lookup

abbrev pub same_hash : Text → Text
same_hash t = t

abbrev pub random_part : Text
random_part = text "abcd_fghijklmnopqrstuvwxyz-ABCDEFGHIJKLMNOP"

abbrev pub parsed : ParsedToken
parsed = record { random_part = random_part; lookup_prefix = lookup }

parse_token_exact_example :
    (parse_token one_lookup (plaintext random_part lookup) ≡ some parsed)
    ↔ IsToken one_lookup (plaintext random_part lookup) parsed
parse_token_exact_example = parse_token_exact one_lookup (plaintext random_part lookup) parsed

-- A test: the last underscore splits.
parse_token_test : parse_token one_lookup (plaintext random_part lookup) ≡ some parsed
unfolding parse_token rsplit
parse_token_test = refl

abbrev pub space : OrgWorkspace
space = record { id = 7; org = 1; is_archived = false }

-- User 1 owns the organization and edits in the workspace.
abbrev pub roster : Roster
roster = record {
  emails = λ u. [];
  last_workspaces = λ u. none;
  org_members = record { id = 1; user = 1; org = 1; role = org_owner } ∷ [];
  members = record { user = 1; workspace = 7; role = editor; custom_role = none } ∷ [];
  workspaces = space ∷ [];
  invitations = [];
  next_id = 10;
}

abbrev pub empty_vault : Vault
empty_vault = record { keys = []; roster = roster; last_used = λ k. none; next_key = 1 }

abbrev pub accounts : List AllowedAccount
accounts = record { id = 5; workspace = 7 } ∷ []

abbrev pub asked : List Text
asked = text "view_analytics" ∷ text "create_posts" ∷ []

abbrev pub key : ApiKey
key = record {
  id = 1;
  workspace = space;
  social_accounts = 5 ∷ [];
  issued_by = some 1;
  name = text "bot";
  lookup_prefix = lookup;
  token_hash = random_part;
  permissions = text "create_posts" ∷ text "view_analytics" ∷ [];
  expires_at = none;
  revoked_at = none;
}

abbrev pub vault : Vault
vault = record empty_vault { keys = key ∷ []; next_key = 2 }

issue_api_key-IsIssued_example :
    IsIssued one_lookup space accounts 1 asked empty_vault vault
      (record { api_key = key; plaintext_token = plaintext random_part lookup })
unfolding issue_api_key check_allowlist check_key_manager held_names sorted_set
    effective_permissions
issue_api_key-IsIssued_example =
    issue_api_key-IsIssued one_lookup same_hash
      (record { eight = λ t. refl; hexadecimal = λ t. refl }) space accounts 1 (text "bot") asked
      none random_part empty_vault vault
      (record { api_key = key; plaintext_token = plaintext random_part lookup }) (omega arith)
      (omega arith) refl

-- The editor asks for a permission that the role lacks, and drops one.
abbrev edited_key : ApiKey
edited_key = record key { permissions = text "create_posts" ∷ [] }

update_api_key-IsEdited_example :
    IsEdited key edited_key 1 (text "create_posts" ∷ text "approve_posts" ∷ []) accounts vault
    × (record vault { keys = edited_key ∷ [] }
        ≡ update_key 1 (with_scope (text "create_posts" ∷ []) none (5 ∷ [])) vault)
unfolding update_api_key check_allowlist check_key_manager held_names sorted_set edited_permissions
    effective_permissions
update_api_key-IsEdited_example =
    update_api_key-IsEdited key edited_key 1 (text "create_posts" ∷ text "approve_posts" ∷ [])
      accounts none vault (record vault { keys = edited_key ∷ [] }) refl

abbrev pub cache : Cache ApiKey
cache = table_cache ApiKey

abbrev token : Text
token = plaintext random_part lookup

-- A token is verified, the key revoked, and the token presented again.
verify_token-current_example :
    (verify_token one_lookup same_hash cache 20 token
      (revoke_signalled cache 10 key vault
        (verify_token one_lookup same_hash cache 5 token vault cache.empty).1).0
      (revoke_signalled cache 10 key vault
        (verify_token one_lookup same_hash cache 5 token vault cache.empty).1).1).0
    ≡ direct_lookup one_lookup same_hash cache 20 token
        (revoke_signalled cache 10 key vault
          (verify_token one_lookup same_hash cache 5 token vault cache.empty).1).0
verify_token-current_example =
    verify_token-current one_lookup same_hash cache (λ id. lookup)
      (revoked (verified (start (refl, tt)) 5 token) 10 key refl) 20 token

-- Worker 2 has the key in its cache when worker 1 revokes it at 10; at 45 it refuses the token.
abbrev filled : ℕ → cache.Store
filled =
    put 2 (verify_token one_lookup same_hash cache 10 token vault cache.empty).1 (λ w. cache.empty)

abbrev busted : ℕ → cache.Store
busted = put 1 (revoke_signalled cache 10 key vault (filled 1)).1 filled

verify_token-revoked_example :
    (verify_token one_lookup same_hash cache 45 token
      (revoke_signalled cache 10 key vault (filled 1)).0
      (busted 2)).0
    ≡ none
unfolding revoke_signalled revoke_api_key parse_token rsplit
verify_token-revoked_example =
    verify_token-revoked one_lookup same_hash cache
      (wait (revokes (verifies (begin {now = 10} {v = vault}) 2 token) 1 key) 45 (omega arith)) 2 10
      token parsed (revoked_now 10 key) refl refl refl (omega arith)

-- A test: at 20 that worker still lets the token pass.
verify_token_test :
    (verify_token one_lookup same_hash cache 20 token
      (revoke_signalled cache 10 key vault (filled 1)).0
      (busted 2)).0
    ≡ some key
unfolding verify_token revoke_signalled revoke_api_key parse_token rsplit is_active
    issuer_still_authorized
verify_token_test = refl

-- A test: an edit is one of the changes that workers can make meanwhile.
edit_kept_test : KeepsRevocations (key ∷ []) (edited_key ∷ [])
edit_kept_test =
    update_where-KeepsRevocations (λ k. k.id == 1)
      (with_scope (text "create_posts" ∷ []) none (5 ∷ [])) (key ∷ []) (λ k. refl) (λ k. refl)
