-- ===== src/Api/Idempotency.antt =====
-- Idempotent requests: apps/api/models.py, the second half of apps/api/middleware.py, and the sweep of
-- apps/api/tasks.py.
use osir_ai.Prelude.{
  ℕ, ◌+◌, Bool, false, ◌&&◌, not, List, [], ◌∷◌, ◌++◌, Option, none, some, ◌==◌, ltb, if◌then◌else◌,
  find, keep, update_where, Text, truthy, text_eq,
}

-- `PENDING_STATUS_SENTINEL`, and the hours that a row is kept, in seconds
abbrev pub pending_status : ℕ
pending_status = 0

abbrev pub record_ttl : ℕ
record_ttl = 86400

-- The body of a response is whatever JSON the route gives.
module _ (Body : Type 0) (no_body : Body) where
  -- `IdempotencyRecord`
  pub record IdempotencyRecord : Type 0 where
    pub api_key : ℕ
    pub key : Text
    pub fingerprint : Text
    pub status : ℕ
    pub body : Body
    pub created_at : ℕ

  -- What `claim_idempotency_slot` tells its caller, or raises: 422 and 400.
  pub data Disposition : Type 0 where
    passthrough claimed in_flight : Disposition
    replay : ℕ → Body → Disposition
    reused_key only_api_keys : Disposition

  -- The row of a slot: the two columns are unique together.
  abbrev pub in_slot : ℕ → Text → IdempotencyRecord → Bool
  in_slot api_key key r = r.api_key == api_key && text_eq r.key key

  abbrev pub claim_row : ℕ → ℕ → Text → Text → IdempotencyRecord
  claim_row now api_key key fingerprint = record {
    api_key = api_key;
    key = key;
    fingerprint = fingerprint;
    status = pending_status;
    body = no_body;
    created_at = now;
  }

  -- What is decided of the row that holds the slot.
  unfoldable pub decide : Text → IdempotencyRecord → Disposition
  decide fingerprint r =
      if text_eq r.fingerprint fingerprint
      then if r.status == pending_status then in_flight else replay r.status r.body
      else reused_key

  abbrev pub take_slot :
      ℕ
      → ℕ
      → Text
      → Text
      → List IdempotencyRecord
      → Option IdempotencyRecord
      → Disposition × List IdempotencyRecord
  take_slot now api_key key fingerprint rows none =
      (claimed, rows ++ (claim_row now api_key key fingerprint ∷ []))
  take_slot now api_key key fingerprint rows (some r) = (decide fingerprint r, rows)

  -- An actor that is no API key, of a session or of OAuth, is `none`.
  abbrev pub claim_of :
      ℕ → Option ℕ → Text → Text → List IdempotencyRecord → Disposition × List IdempotencyRecord
  claim_of now none key fingerprint rows = (only_api_keys, rows)
  claim_of now (some api_key) key fingerprint rows =
      take_slot now api_key key fingerprint rows (find (in_slot api_key key) rows)

  -- `None` and the empty text are no key.
  abbrev pub given : Option Text → Bool
  given none = false
  given (some key) = truthy key

  abbrev pub text_of : Option Text → Text
  text_of none = []
  text_of (some key) = key

  unfoldable pub claim_idempotency_slot :
      ℕ
      → Option ℕ
      → Option Text
      → Text
      → List IdempotencyRecord
      → Disposition × List IdempotencyRecord
  claim_idempotency_slot now api_key key fingerprint rows =
      if given key then claim_of now api_key (text_of key) fingerprint rows else (passthrough, rows)

  abbrev pub finalized : ℕ → Body → IdempotencyRecord → IdempotencyRecord
  finalized status body r = record r { status = status; body = body }

  unfoldable pub finalize_idempotent_response :
      ℕ → Option Text → ℕ → Body → List IdempotencyRecord → List IdempotencyRecord
  finalize_idempotent_response api_key key status body rows =
      if given key
      then update_where (in_slot api_key (text_of key)) (finalized status body) rows
      else rows

  abbrev pub held_open : ℕ → Text → IdempotencyRecord → Bool
  held_open api_key key r = in_slot api_key key r && r.status == pending_status

  unfoldable pub release_idempotent_claim :
      ℕ → Option Text → List IdempotencyRecord → List IdempotencyRecord
  release_idempotent_claim api_key key rows =
      if given key then keep (λ r. not (held_open api_key (text_of key) r)) rows else rows

  -- `created_at < now - 24 h`
  abbrev pub is_expired_row : ℕ → IdempotencyRecord → Bool
  is_expired_row now r = ltb (r.created_at + record_ttl) now

  unfoldable pub sweep_stale_idempotency_records :
      ℕ → List IdempotencyRecord → List IdempotencyRecord
  sweep_stale_idempotency_records now rows = keep (λ r. not (is_expired_row now r)) rows

  -- The calls of any number of workers, in the order in which the database sees them.
  pub data Call : Type 0 where
    claim : ℕ → Option ℕ → Option Text → Text → Call
    finalize : ℕ → Option Text → ℕ → Body → Call
    release : ℕ → Option Text → Call
    sweep : ℕ → Call

  unfoldable pub perform : Call → List IdempotencyRecord → List IdempotencyRecord
  perform (claim now api_key key fingerprint) rows =
      (claim_idempotency_slot now api_key key fingerprint rows).1
  perform (finalize api_key key status body) rows =
      finalize_idempotent_response api_key key status body rows
  perform (release api_key key) rows = release_idempotent_claim api_key key rows
  perform (sweep now) rows = sweep_stale_idempotency_records now rows

  unfoldable pub perform_all : List Call → List IdempotencyRecord → List IdempotencyRecord
  perform_all [] rows = rows
  perform_all (call ∷ calls) rows = perform_all calls (perform call rows)
