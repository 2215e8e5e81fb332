-- ===== src/Keys/Cache.antt =====
-- The cache that apps/api_keys/services.py calls, as an interface: what is documented of
-- `django.core.cache`, under which an entry may also be lost before its time.
use osir_ai.Prelude.{ℕ, ◌≡◌, ◌+◌, ◌<◌, false, Option, none, some, Text, text_eq}

-- Keys are texts, a call that reads names the time at which it does, and one that writes names
-- the time to live.
pub record Cache (V : Type 0) : Type 1 where
  pub Store : Type 0
  pub empty : Store
  pub get : ℕ → Text → Store → Option V
  pub set : ℕ → Text → V → ℕ → Store → Store
  pub delete : Text → Store → Store
  pub get_empty : (now : ℕ) (k : Text) → get now k empty ≡ none
  pub get_set :
      (now later ttl : ℕ) (k : Text) (v w : V) (s : Store)
      → get later k (set now k v ttl s) ≡ some w
      → (w ≡ v) × (later < now + ttl)
  pub get_set_other :
      (now later ttl : ℕ) (k j : Text) (v w : V) (s : Store)
      → text_eq k j ≡ false
      → get later j (set now k v ttl s) ≡ some w
      → get later j s ≡ some w
  pub get_delete : (later : ℕ) (k : Text) (s : Store) → get later k (delete k s) ≡ none
  pub get_delete_other :
      (later : ℕ) (k j : Text) (w : V) (s : Store)
      → text_eq k j ≡ false
      → get later j (delete k s) ≡ some w
      → get later j s ≡ some w
