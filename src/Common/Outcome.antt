-- ===== src/Common/Outcome.antt =====
-- What a Go function comes back with: a value, an error value, or a run-time panic. `no_fuel` is
-- no outcome of the program: a loop of the model has run out of rounds.
use mathlib.Core.Bool.{Bool, true, false}
use mathlib.Core.Path.{◌≡◌, refl}

-- The errors that the program makes, by the place that makes them.
pub data Error : Type 0 where
  empty_input bad_start no_start no_end bad_number no_delimiter short_copy : Error
  bad_handshake_length unknown_protocol wrong_info_hash unknown_message read_failed : Error
  not_a_dict not_a_response bad_id_size bad_xt bad_hash_format bad_hex bad_hash_length : Error
  bad_prefix bad_query no_metadata write_failed open_failed deadline no_info : Error

pub data Outcome {ℓ} (A : Type ℓ) : Type ℓ where
  ok : A → Outcome A
  err : Error → Outcome A
  panic : Outcome A
  no_fuel : Outcome A

infixl 5 ◌>>=◌ ◌>>◌
abbrev pub ◌>>=◌ {ℓ κ} : {A : Type ℓ} {B : Type κ} → Outcome A → (A → Outcome B) → Outcome B
ok a >>= f = f a
err e >>= f = err e
panic >>= f = panic
no_fuel >>= f = no_fuel

abbrev pub ◌>>◌ {ℓ} : {B : Type ℓ} → Outcome (Unit {0}) → Outcome B → Outcome B
m >> k = m >>= λ _. k

-- A run-time check of Go: `panic` where it fails.
abbrev pub check : Bool → Outcome (Unit {0})
check true = ok tt
check false = panic

-- `if err != nil { panic(err) }`
abbrev pub panic_on_error {ℓ} : {A : Type ℓ} → Outcome A → Outcome A
panic_on_error (ok a) = ok a
panic_on_error (err e) = panic
panic_on_error panic = panic
panic_on_error no_fuel = no_fuel

-- An early `return err`.
abbrev pub guard : Bool → Error → Outcome (Unit {0})
guard true e = ok tt
guard false e = err e

-- The computation comes to an end, and a value that it returns has the property.
abbrev pub Ensures {ℓ} : {A : Type ℓ} → (A → Type 0) → Outcome A → Type 0
Ensures P (ok a) = P a
Ensures P (err e) = Unit
Ensures P panic = Unit
Ensures P no_fuel = ⊥

-- A value that the computation returns has the property.
abbrev pub Yields {ℓ} : {A : Type ℓ} → (A → Type 0) → Outcome A → Type 0
Yields P (ok a) = P a
Yields P _ = Unit

module _ {ℓ κ} {A : Type ℓ} {B : Type κ} where
  -- the rule for a chain
  pub Ensures-bind :
      (P : A → Type 0) (Q : B → Type 0) (m : Outcome A) (f : A → Outcome B)
      → Ensures P m
      → ((a : A) → P a → Ensures Q (f a))
      → Ensures Q (m >>= f)
  Ensures-bind P Q (ok a) f h k = k a h
  Ensures-bind P Q (err e) f h k = tt
  Ensures-bind P Q panic f h k = tt
  Ensures-bind P Q no_fuel f h k = absurd h

  pub Yields-bind :
      (Q : B → Type 0) (m : Outcome A) (f : A → Outcome B)
      → ((a : A) → Yields Q (f a))
      → Yields Q (m >>= f)
  Yields-bind Q (ok a) f h = h a
  Yields-bind Q (err e) f h = tt
  Yields-bind Q panic f h = tt
  Yields-bind Q no_fuel f h = tt

  pub Yields-chain :
      (P : A → Type 0) (Q : B → Type 0) (m : Outcome A) (f : A → Outcome B)
      → Yields P m
      → ((a : A) → P a → Yields Q (f a))
      → Yields Q (m >>= f)
  Yields-chain P Q (ok a) f y h = h a y
  Yields-chain P Q (err e) f y h = tt
  Yields-chain P Q panic f y h = tt
  Yields-chain P Q no_fuel f y h = tt

module _ {ℓ} {A : Type ℓ} (P : A → Type 0) where
  -- A property of each value that the computation can return.
  pub Yields-of : (m : Outcome A) → ((a : A) → m ≡ ok a → P a) → Yields P m
  Yields-of (ok a) h = h a refl
  Yields-of (err e) h = tt
  Yields-of panic h = tt
  Yields-of no_fuel h = tt

  pub Yields-at : (m : Outcome A) (a : A) → Yields P m → m ≡ ok a → P a
  Yields-at m a h e = let h' = rw e at h in h'

  pub Yields-weaken :
      (Q : A → Type 0) (m : Outcome A) → ((a : A) → P a → Q a) → Yields P m → Yields Q m
  Yields-weaken Q (ok a) h y = h a y
  Yields-weaken Q (err e) h y = tt
  Yields-weaken Q panic h y = tt
  Yields-weaken Q no_fuel h y = tt

  pub Yields-both :
      (Q R : A → Type 0) (m : Outcome A)
      → ((a : A) → P a → Q a → R a)
      → Yields P m
      → Yields Q m
      → Yields R m
  Yields-both Q R (ok a) h y z = h a y z
  Yields-both Q R (err e) h y z = tt
  Yields-both Q R panic h y z = tt
  Yields-both Q R no_fuel h y z = tt
