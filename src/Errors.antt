-- ===== src/Errors.antt =====
-- backend/shared_domain/errors.py: the typed errors, and calls that may raise one.
use schema_pilot.Base.{String, Bool, true, false, ◌≡◌, refl, ◌⊎◌, inl, inr}

-- The class of the error with the `reason` (or the message) that the code raises it with.
pub data Error : Type 0 where
  policy_denied : String → Error
  not_found : String → Error
  value_error : String → Error
  disabled_integration : String → Error
  startup_configuration : String → Error

pub data Result {ℓ} (A : Type ℓ) : Type ℓ where
  ok : A → Result A
  err : Error → Result A

-- A call that reads and writes the tables of a session `S`. What was written before a raise stays
-- in the session, so the state comes back beside the error too.
abbrev pub Exec : Type 0 → Type 0 → Type 0
Exec S A = S → Result A × S

pub Result-cases {ℓ} :
    {A : Type ℓ} (r : Result A) → ((a : A) × (r ≡ ok a)) ⊎ ((e : Error) × (r ≡ err e))
Result-cases (ok a) = inl (a, refl)
Result-cases (err e) = inr (e, refl)

-- one call behind another: the first error ends both
infixl 5 ◌>>=◌ ◌>>◌
abbrev pub ◌>>=◌ {ℓ κ} : {A : Type ℓ} {B : Type κ} → Result A → (A → Result B) → Result B
err failure >>= next = err failure
ok value >>= next = next value

abbrev pub ◌>>◌ {ℓ} : {B : Type ℓ} → Result (Unit {0}) → Result B → Result B
first >> rest = first >>= λ done. rest

-- raises where a guard fails
abbrev pub require : Bool → Error → Result (Unit {0})
require true e = ok tt
require false e = err e

-- what a chain that returns has done
pub bind-ok {ℓ κ} :
    {A : Type ℓ} {B : Type κ} (m : Result A) (f : A → Result B) (b : B)
    → (m >>= f) ≡ ok b
    → (a : A) × (m ≡ ok a) × (f a ≡ ok b)
bind-ok (ok a) f b h = (a, refl, h)
bind-ok (err e) f b h = cc

pub require-ok {ℓ} :
    {B : Type ℓ} (c : Bool) (e : Error) (k : Result B) (b : B)
    → (require c e >> k) ≡ ok b
    → (c ≡ true) × (k ≡ ok b)
require-ok true e k b h = (refl, h)
require-ok false e k b h = cc

pub ok_injective {ℓ} : {A : Type ℓ} {a b : A} → ok a ≡ ok b → a ≡ b
ok_injective h = cc
