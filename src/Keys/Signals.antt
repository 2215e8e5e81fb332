-- ===== src/Keys/Signals.antt =====
-- What the cache of keys sees of a change: `invalidate_api_key_cache` of apps/api_keys/services.py,
-- and the receivers of apps/api_keys/signals.py.
use osir_ai.Prelude.{
  ℕ, Bool, not, List, [], ◌∷◌, Option, none, some, if◌then◌else◌, any, map, keep, member, Result,
  ok, ◌>>=◌,
}
use osir_ai.Keys.{ApiKey, Vault}
use osir_ai.Keys.Issue.{IssuedKey, revoke_api_key}
use osir_ai.Keys.Cache.{Cache}
use osir_ai.Keys.Verify.{active_cache_key}

-- The actions of `m2m_changed` that the receiver tells apart.
pub data M2mAction : Type 0 where
  post_add post_remove pre_clear post_clear other_action : M2mAction

-- `ApiKey.objects.filter(pk__in=ids)`, and the keys of one account
abbrev pub keys_among : List ℕ → List ApiKey → List ApiKey
keys_among ids keys = keep (λ k. member k.id ids) keys

abbrev pub keys_of_account : ℕ → List ApiKey → List ℕ
keys_of_account account keys =
    map (λ (k : ApiKey). k.id) (keep (λ k. member account k.social_accounts) keys)

-- What `social_accounts.set` adds and removes.
abbrev pub lacks : List ℕ → List ℕ → Bool
lacks old new = any (λ n. not (member n old)) new

module _ (c : Cache ApiKey) where
  -- `invalidate_api_key_cache`, which also is the receiver of `post_save`
  abbrev pub invalidate_api_key_cache : ApiKey → c.Store → c.Store
  invalidate_api_key_cache key s = c.delete (active_cache_key key.lookup_prefix) s

  abbrev pub invalidate_each : List ApiKey → c.Store → c.Store
  invalidate_each [] s = s
  invalidate_each (k ∷ ks) s = invalidate_each ks (invalidate_api_key_cache k s)

  -- The receiver of `m2m_changed`, when the changed instance is the key
  abbrev pub on_key_side : M2mAction → ApiKey → c.Store → c.Store
  on_key_side post_add key s = invalidate_api_key_cache key s
  on_key_side post_remove key s = invalidate_api_key_cache key s
  on_key_side post_clear key s = invalidate_api_key_cache key s
  on_key_side pre_clear key s = s
  on_key_side other_action key s = s

  -- and when it is the account: then with the keys of the call, and with the snapshot that a
  -- clear keeps on the account.
  abbrev pub on_account_side : M2mAction → ℕ → List ℕ → Vault → List ℕ × c.Store → List ℕ × c.Store
  on_account_side post_add account pk_set v (snapshot, s) =
      (snapshot, invalidate_each (keys_among pk_set v.keys) s)
  on_account_side post_remove account pk_set v (snapshot, s) =
      (snapshot, invalidate_each (keys_among pk_set v.keys) s)
  on_account_side pre_clear account pk_set v (snapshot, s) = (keys_of_account account v.keys, s)
  on_account_side post_clear account pk_set v (snapshot, s) =
      ([], invalidate_each (keys_among snapshot v.keys) s)
  on_account_side other_action account pk_set v (snapshot, s) = (snapshot, s)

  -- `social_accounts.set` signals what it removes, then what it adds.
  abbrev pub after_removal : List ℕ → List ℕ → ApiKey → c.Store → c.Store
  after_removal old new key s = if lacks new old then on_key_side post_remove key s else s

  abbrev pub after_set : List ℕ → List ℕ → ApiKey → c.Store → c.Store
  after_set old new key s =
      if lacks old new
      then on_key_side post_add key (after_removal old new key s)
      else after_removal old new key s

  -- The services with their signals.
  unfoldable pub issue_signalled :
      Result (IssuedKey × Vault) → c.Store → Result (IssuedKey × (Vault × c.Store))
  issue_signalled call s = do
    (issued, v) ← call
    ok (
      issued,
      (
        v,
        after_set [] issued.api_key.social_accounts issued.api_key
            (invalidate_api_key_cache issued.api_key s),
      ),
    )

  unfoldable pub update_signalled :
      ApiKey → Result (ApiKey × Vault) → c.Store → Result (ApiKey × (Vault × c.Store))
  update_signalled key call s = do
    (new, v) ← call
    ok (
      new,
      (v, after_set key.social_accounts new.social_accounts new (invalidate_api_key_cache new s)),
    )

  -- A row that is revoked is saved, which signals; then the cache is busted in any case.
  abbrev pub saved_signal : Option ℕ → ApiKey → c.Store → c.Store
  saved_signal none key s = invalidate_api_key_cache key s
  saved_signal (some before) key s = s

  unfoldable pub revoke_signalled : ℕ → ApiKey → Vault → c.Store → Vault × c.Store
  revoke_signalled now key v s = (
    (revoke_api_key now key v).1,
    invalidate_api_key_cache key (saved_signal key.revoked_at key s),
  )
