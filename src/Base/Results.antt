-- ===== src/Base/Results.antt =====
-- What a call of the server does: it returns a value, or it throws. Failed `assert`s and accesses
-- out of range stand among the errors, since the server is built with assertions.
use mathlib.Core.Path.{◌≡◌, refl}
use mathlib.Core.Bool.{Bool, true, false}
use mathlib.Core.Option.{Option, none, some}

pub data Error : Type 0 where
  -- `std::runtime_error("Illegal transaction")`
  illegal_transaction : Error
  -- a failed `assert`
  assertion_failed : Error
  -- `std::out_of_range`, thrown by `at`
  out_of_range : Error
  -- `std::logic_error`
  logic_error : Error
  -- a pointer to a transaction that is gone, or an access past the end of one of its vectors
  dangling : Error
  -- a null or wild driver pointer is dereferenced
  bad_driver : Error
  -- a length that is no `int`: its sum overflows, or it becomes negative and `Botan` reads past the buffer
  int_overflow : Error
  -- the other `std::runtime_error`s
  exists_already not_available illegal_index does_not_exist hash_mismatch parse_failed : Error

pub data Result {ℓ} (A : Type ℓ) : Type ℓ where
  ok : A → Result A
  throws : Error → Result A

infixl 5 ◌>>=◌
abbrev pub ◌>>=◌ {ℓ κ} : {A : Type ℓ} {B : Type κ} → Result A → (A → Result B) → Result B
ok a >>= f = f a
throws e >>= f = throws e

-- `or_throw o e` is the value of a lookup that throws where there is none.
abbrev pub or_throw {ℓ} : {A : Type ℓ} → Option A → Error → Result A
or_throw (some a) e = ok a
or_throw none e = throws e

-- `assert(b)`, then the rest.
abbrev pub assert {ℓ} : {A : Type ℓ} → Bool → Result A → Result A
assert true r = r
assert false r = throws assertion_failed

pub ok-injective {ℓ} : {A : Type ℓ} {a b : A} → ok a ≡ ok b → a ≡ b
ok-injective e = cc

pub some_eq {ℓ} : {A : Type ℓ} {a b : A} → some a ≡ some b → a ≡ b
some_eq e = cc

-- A chain that returns: its first call returned, and so did the rest.
pub >>=-eq-ok {ℓ κ} :
    {X : Type ℓ} {Y : Type κ} {y : Y} (r : Result X) (k : X → Result Y)
    → (r >>= k) ≡ ok y
    → (x : X) × (r ≡ ok x) × (k x ≡ ok y)
>>=-eq-ok (throws x) k q = cc
>>=-eq-ok (ok x) k q = (x, refl, q)
