-- ===== src/Api/Examples.antt =====
-- Tests of the Agent API at concrete states, and instances of the theorems.
use osir_ai.Prelude.{
  ℕ, ◌≡◌, ◌≤◌, ◌+◌, refl, ◌∙◌, true, false, List, [], ◌∷◌, ◌++◌, Option, none, some, if◌then◌else◌,
  Text, text, text_eq, text_eq_refl, arith, is_some,
}
use osir_ai.Members.{effective_permissions}
use osir_ai.Keys.{is_active}
use osir_ai.Keys.Names.{held_names}
use osir_ai.Keys.Token.{plaintext, parse_token, rsplit}
use osir_ai.Keys.Verify.{verify_token, issuer_still_authorized}
use osir_ai.Keys.Examples.{one_lookup, same_hash, lookup, random_part, key, vault, cache}
use osir_ai.Api.Address.{client_ip, client_ip_claimed}
use osir_ai.Api.Throttle.{
  Counters, live, looked_at, looked_at-bound, auth_fail_limit, is_failed_auth_ip_blocked,
  record_failed_auth,
}
use osir_ai.Api.Auth.{
  AuthRequest, Settings, Server, Authenticated, ip_of, authenticate, pre_auth_reject,
  resolve_effective_permissions,
}
use osir_ai.Api.Admitted.{IsAdmitted, authenticate-IsAdmitted, authenticate-record_failed_auth}
use osir_ai.Api.Idempotency.{
  in_flight, replay, claim_idempotency_slot, Call, claim, release, sweep, perform_all,
}
use osir_ai.Api.Once.{
  claim_idempotency_slot-once, finalize_idempotent_response-replay, after_response,
}

-- Counters as a table.
abbrev Table : Type 0
Table = Text → Option (ℕ × ℕ)

abbrev write : Text → Option (ℕ × ℕ) → Table → Table
write k e s j = if text_eq k j then e else s j

abbrev plus_one : Option (ℕ × ℕ) → Option (ℕ × ℕ)
plus_one none = none
plus_one (some (count, expires)) = some (count + 1, expires)

abbrev added : ℕ → ℕ → ℕ → Option (ℕ × ℕ) → Option (ℕ × ℕ)
added now ttl count e = if is_some (live now e) then e else some (count, now + ttl)

write_same : (k : Text) (e : Option (ℕ × ℕ)) (s : Table) → write k e s k ≡ e
write_same k e s = rw (text_eq_refl k) refl

abbrev counters : Counters
counters = record {
  Store = Table;
  entry = λ k s. s k;
  add = λ now k count ttl s. write k (added now ttl count (s k)) s;
  incr = λ k s. write k (plus_one (s k)) s;
  set = λ now k count ttl s. write k (some (count, now + ttl)) s;
  entry_add = λ now ttl count k s h. write_same k (added now ttl count (s k)) s ∙ rw h refl;
  entry_incr = λ k count expires s h. write_same k (plus_one (s k)) s ∙ rw h refl;
  entry_set = λ now ttl count k s. write_same k (some (count, now + ttl)) s;
}

abbrev fresh : counters.Store
fresh = λ k. none

abbrev home : Text
home = text "203.0.113.9"

abbrev proxy : Text
proxy = text "10.0.0.1"

-- A client behind the proxy writes an address of its own before the one that the proxy adds.
client_ip_claimed_example :
    client_ip (proxy ∷ []) (some proxy) (some (text "1.2.3.4" ++ (0x2C ∷ text " 203.0.113.9")))
    ≡ some (text "1.2.3.4")
client_ip_claimed_example =
    client_ip_claimed (proxy ∷ []) proxy (text "1.2.3.4") (text " 203.0.113.9") refl refl refl refl

abbrev times : List ℕ
times = 100 ∷ 101 ∷ 105 ∷ []

looked_at-bound_example :
    looked_at counters (some home) times fresh ≤ auth_fail_limit + auth_fail_limit
looked_at-bound_example =
    looked_at-bound counters (some home) times 100 fresh
      ((omega arith, (omega arith, tt)), ((omega arith, tt), (tt, tt)))
      ((omega arith, omega arith), ((omega arith, omega arith), ((omega arith, omega arith), tt)))

-- A test: of twelve attempts in one window, ten are looked at.
looked_at_test :
    looked_at counters (some home) (0 ∷ 1 ∷ 2 ∷ 3 ∷ 4 ∷ 5 ∷ 6 ∷ 7 ∷ 8 ∷ 9 ∷ 10 ∷ 11 ∷ []) fresh ≡ 10
unfolding looked_at is_failed_auth_ip_blocked record_failed_auth
looked_at_test = refl

abbrev settings : Settings
settings = record { debug = false; trusted = [] }

abbrev request : AuthRequest
request = record { is_secure = true; remote = some home; forwarded = none }

abbrev pk_text : ℕ → Text
pk_text id = id ∷ []

abbrev server : Server one_lookup same_hash pk_text cache counters
server = record { vault = vault; cached = cache.empty; counters = fresh }

abbrev admitted_key : Authenticated
admitted_key = record {
  api_key = key;
  permissions = (text "create_posts", true) ∷ (text "view_analytics", true) ∷ [];
}

authenticate-IsAdmitted_example :
    IsAdmitted one_lookup same_hash pk_text cache counters 5 settings request
      (plaintext random_part lookup)
      server
      admitted_key
unfolding authenticate pre_auth_reject is_failed_auth_ip_blocked verify_token parse_token rsplit
    is_active issuer_still_authorized resolve_effective_permissions held_names effective_permissions
    client_ip
authenticate-IsAdmitted_example =
    authenticate-IsAdmitted one_lookup same_hash pk_text cache counters 5 settings request
      (plaintext random_part lookup) server admitted_key (λ later q w h. absurd (cc)) refl

authenticate-record_failed_auth_example :
    (authenticate one_lookup same_hash pk_text cache counters 5 settings request
      (text "bb_studio_x")
      server).1.counters
    ≡ record_failed_auth counters 5 5 (ip_of settings request) fresh
unfolding authenticate pre_auth_reject is_failed_auth_ip_blocked verify_token parse_token rsplit
    client_ip
authenticate-record_failed_auth_example =
    authenticate-record_failed_auth one_lookup same_hash pk_text cache counters 5 settings request
      (text "bb_studio_x") server refl refl

abbrev slot : Text
slot = text "retry-1"

abbrev print_ : Text
print_ = text "f00d"

-- Another key claims the same text, and the sweep runs.
abbrev between : List (Call ℕ 0)
between = claim 12 (some 4) (some slot) print_ ∷ sweep 50 ∷ []

claim_idempotency_slot-once_example :
    (claim_idempotency_slot ℕ 0 60
      (some 3)
      (some slot)
      print_
      (perform_all ℕ 0 between (claim_idempotency_slot ℕ 0 10 (some 3) (some slot) print_ []).1)).0
    ≡ in_flight
unfolding claim_idempotency_slot
claim_idempotency_slot-once_example =
    claim_idempotency_slot-once ℕ 0 10 60 3 slot print_ print_ [] between refl refl (tt, (refl, tt))

-- A release after the response does not drop it.
finalize_idempotent_response-replay_example :
    (claim_idempotency_slot ℕ 0 60 (some 3) (some slot) print_ (
      perform_all ℕ 0
        (release 3 (some slot) ∷ between)
        (after_response ℕ 0 10 3 slot print_ 201 77 between []))).0
    ≡ replay 201 77
unfolding claim_idempotency_slot
finalize_idempotent_response-replay_example =
    finalize_idempotent_response-replay ℕ 0 10 60 3 slot print_ 201 77 [] between
      (release 3 (some slot) ∷ between) refl refl refl (tt, (refl, tt)) (refl, (tt, (refl, tt)))
