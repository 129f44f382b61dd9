-- ===== src/Result.antt =====
-- What a call of the library returns: a value, or the exception that it throws. Two errors are no
-- exceptions: `undefined` is a read that C++ leaves undefined, `stuck` is a model loop out of fuel.
use embag.Prelude.{arith, subst, ℕ, ◌≡◌, Option, none, some, Bool, true, false}
use embag.Bytes.{Bytes}

-- One constructor for each cause of a throw in lib/ and python/, and one for std::out_of_range, with
-- what the text quotes where that is a string of the bag; throws that report one cause in other words
-- share a constructor.
pub data Error : Type 0 where
  undefined : Error
  stuck : Error
  out_of_range : Error
  not_a_bag_file : Error
  unsupported_version : Bytes → Error
  missing_newline : Error
  missing_equals : Error
  unsupported_compression : Bytes → Error
  unknown_topic : Bytes → Error
  no_connection_data : Bytes → Error
  unknown_record_type : Error
  lz4_failed : Error
  lz4_left : ℕ → ℕ → Error
  bz2_failed : Error
  parse_failed : Error
  no_static_size : Error
  no_format : Error
  not_object_type : Error
  unknown_embedded_type : Bytes → Error
  not_object : Error
  not_array : Error
  not_container : Error
  not_string : Error
  not_primitive_array : Error
  not_scalar : Error
  bad_constructor : Error
  no_python_type : Error
  bad_time_type : Error
  topic_not_found : Bytes → Error
  bad_topics : Error
  string_elements : Error
  not_iterable : Error

pub data Result {ℓ} (A : Type ℓ) : Type ℓ where
  ok : A → Result A
  err : Error → Result A

infixl 5 ◌>>=◌ ◌>>◌
-- An exception skips what follows.
abbrev pub ◌>>=◌ {ℓ μ} :
    {V : Type ℓ} {W : Type μ} (call : Result V) (next : V → Result W) → Result W
err thrown >>= next = err thrown
ok v >>= next = next v

-- Throw e unless the test holds.
abbrev pub guard : (passes : Bool) (thrown : Error) → Result (Unit {0})
guard false thrown = err thrown
guard true thrown = ok tt

abbrev pub ◌>>◌ {ℓ} : {W : Type ℓ} (check : Result (Unit {0})) (next : Result W) → Result W
check >> next = check >>= λ _. next

-- A value that may be missing, with the error for its absence.
abbrev pub or_err {ℓ} : {A : Type ℓ} → Error → Option A → Result A
or_err e none = err e
or_err e (some a) = ok a

-- What holds of the value, if the call returns.
abbrev pub Ensures {ℓ κ} : {A : Type ℓ} → (A → Type κ) → Result A → Type κ
Ensures P (ok a) = P a
Ensures P (err e) = Unit

pub >>=-Ensures {ℓ κ μ ν} :
    {A : Type ℓ} {B : Type κ} (P : A → Type μ) (Q : B → Type ν) (m : Result A) (f : A → Result B)
    → Ensures P m
    → ((a : A) → P a → Ensures Q (f a))
    → Ensures Q (m >>= f)
>>=-Ensures P Q (ok a) f h k = k a h
>>=-Ensures P Q (err e) f h k = tt

pub Ensures-ok {ℓ κ} :
    {A : Type ℓ} (P : A → Type κ) (r : Result A) {a : A} → Ensures P r → r ≡ ok a → P a
Ensures-ok P (ok b) {a} h e = let same : b ≡ a = ground arith in subst P same h
Ensures-ok P (err x) h e = cc

pub Ensures-trivial {ℓ} : {A : Type ℓ} (r : Result A) → Ensures (λ _. Unit {0}) r
Ensures-trivial (ok a) = tt
Ensures-trivial (err e) = tt
