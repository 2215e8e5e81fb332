-- ===== src/Prelude/Results.antt =====
-- Exceptions as values: what the services raise, and the monad of calls that may raise.
use mathlib.Core.Path.{◌≡◌, refl}
use mathlib.Core.Bool.{Bool, true, false}

-- One constructor for each `raise` of the modelled services.
pub data Error : Type 0 where
  bad_initial_status schedule_time_required wrong_workspace needs_reconnect : Error
  approval_required media_not_found invalid_transition comment_required : Error
  queue_full not_reschedulable permission_denied bad_bulk_request : Error
  already_member already_invited unknown_role above_own_role foreign_workspace : Error
  bad_identifier invitation_expired invitation_accepted wrong_email : Error
  self_removal last_owner cannot_be_owner : Error
  no_accounts foreign_account not_key_manager not_in_workspace ungrantable : Error
  duplicate_lookup key_reused duplicate_media : Error

-- What a call gives back: a value, or the exception that it raised.
pub data Result {ℓ} (V : Type ℓ) : Type ℓ where
  err : Error → Result V
  ok : V → Result V

-- `if c: raise e`
abbrev pub raise_if : Bool → Error → Result (Unit {0})
raise_if c e = elim c [ true ↦ err e | false ↦ ok tt ]

-- The statements after a call run on its value, unless it raised.
infixl 5 ◌>>=◌
abbrev pub ◌>>=◌ {κ μ} : {V : Type κ} {W : Type μ} → Result V → (V → Result W) → Result W
err raised >>= next = err raised
ok value >>= next = next value

infixl 5 ◌>>◌
abbrev pub ◌>>◌ {κ} : {W : Type κ} → Result (Unit {0}) → Result W → Result W
call >> rest = call >>= λ _. rest

-- Inversion of a call that succeeds: a guard was passed, and a step gave a value.
pub raise_if-ok {ℓ} :
    {B : Type ℓ} {x : B} (b : Bool) (e : Error) (k : Result B)
    → (raise_if b e >> k) ≡ ok x
    → (b ≡ false) × (k ≡ ok x)
raise_if-ok true e k h = absurd (cc)
raise_if-ok false e k h = (refl, h)

pub >>=-ok {ℓ κ} :
    {A : Type ℓ} {B : Type κ} {x : B} (m : Result A) (f : A → Result B)
    → (m >>= f) ≡ ok x
    → (a : A) × (m ≡ ok a) × (f a ≡ ok x)
>>=-ok (ok a) f h = (a, refl, h)
>>=-ok (err e) f h = cc

pub ok_injective {ℓ} : {A : Type ℓ} {a b : A} → ok a ≡ ok b → a ≡ b
ok_injective h = cc

pub >>-err {ℓ} :
    {B : Type ℓ} {e : Error} (m : Result (Unit {0})) (k : Result B) → m ≡ err e → (m >> k) ≡ err e
>>-err (ok u) k h = cc
>>-err (err e) k h = cc

pub >>-ok {ℓ} :
    {B : Type ℓ} {u : Unit {0}} (m : Result (Unit {0})) (k : Result B) → m ≡ ok u → (m >> k) ≡ k
>>-ok (ok u) k h = refl
>>-ok (err e) k h = cc
