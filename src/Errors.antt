-- ===== src/Errors.antt =====
-- errors.py: the stable error codes with their classes, and computations that may raise.
use dbf_anonymizer.Prelude.{Bool, true, false, String, ◌≡◌, refl}

-- The members of `ErrorCode` that the modelled parts raise.
pub data ErrorCode : Type 0 where
  mapping_constraint_infeasible mapping_capacity_exhausted mapping_conflict : ErrorCode
  vault_state_invalid vault_unavailable vault_writer_conflict : ErrorCode

-- A raised exception: an application error with its code and the `operation` and `detail_code` of
-- its context, or one of Python's own (whose message is not modelled).
pub data Failure : Type 0 where
  mapping_error vault_error : ErrorCode → String → String → Failure
  value_error type_error runtime_error overflow_error : Failure

-- What a call comes to: its value, or the exception that left it.
pub data Result {ℓ} (A : Type ℓ) : Type ℓ where
  err : Failure → Result A
  ok : A → Result A

module _ {ℓ κ} {A : Type ℓ} {B : Type κ} where
  infixl 5 ◌>>=◌
  -- the next statement, which an exception skips
  abbrev pub ◌>>=◌ : Result A → (A → Result B) → Result B
  err failure >>= next = err failure
  ok value >>= next = next value

  -- A bind that returned: its first part did, and so did the rest.
  pub >>=-eq-ok :
      (first : Result A) (next : A → Result B) {last : B}
      → (first >>= next) ≡ ok last
      → (value : A) × (first ≡ ok value) × (next value ≡ ok last)
  >>=-eq-ok (err failure) next h = cc
  >>=-eq-ok (ok value) next h = (value, refl, h)

module _ {ℓ} {A : Type ℓ} where
  infixl 5 ◌>>◌
  abbrev pub ◌>>◌ : Result (Unit {0}) → Result A → Result A
  err failure >> next = err failure
  ok _ >> next = next

  pub >>-eq-ok :
      (first : Result (Unit {0})) (next : Result A) {last : A}
      → (first >> next) ≡ ok last
      → (first ≡ ok tt) × (next ≡ ok last)
  >>-eq-ok (err failure) next h = cc
  >>-eq-ok (ok tt) next h = (refl, h)

  pub ok-injective : {a b : A} → ok a ≡ ok b → a ≡ b
  ok-injective h = cc

-- `if test: raise failure`
abbrev pub raise_if : Bool → Failure → Result (Unit {0})
raise_if true failure = err failure
raise_if false failure = ok tt

-- A guard that let its statement pass.
pub raise_if-eq-ok :
    (test : Bool) (failure : Failure) → raise_if test failure ≡ ok tt → test ≡ false
raise_if-eq-ok true failure h = cc
raise_if-eq-ok false failure h = refl
