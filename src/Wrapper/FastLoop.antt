-- ===== src/Wrapper/FastLoop.antt =====
-- View::iterator::readHeader (lib/view.cc) on any bytes.
use embag.Prelude.{
  ℕ, zero, suc, ◌+◌, ◌-◌, ◌≤◌, ◌≡◌, refl, ◌≢◌, inl, inr, Option, none, some, [], ◌∷◌, arith, drop,
  ◌==◌, Bool-cases,
}
use embag.Bytes.{Bytes, read_u32}
use embag.Result.{Result, ok, err, ◌>>=◌, undefined, missing_equals, or_err}
use embag.Header.{deref, to_op, read_time}
use embag.Wrapper.{
  FastHeader, find_equals, value_pointer, use_field, fast_loop, fast_read_header, no_header,
}

-- A result, or an undefined read.
abbrev pub OnlyUndefined {ℓ} : {A : Type ℓ} → Result A → Type 0
OnlyUndefined (ok a) = Unit
OnlyUndefined (err e) = e ≡ undefined

>>=-OnlyUndefined {ℓ κ} :
    {A : Type ℓ} {B : Type κ} (m : Result A) (f : A → Result B)
    → OnlyUndefined m
    → ((a : A) → OnlyUndefined (f a))
    → OnlyUndefined (m >>= f)
>>=-OnlyUndefined (ok a) f h k = k a
>>=-OnlyUndefined (err e) f h k = h

or_err-OnlyUndefined {ℓ} : {A : Type ℓ} (o : Option A) → OnlyUndefined (or_err undefined o)
or_err-OnlyUndefined none = refl
or_err-OnlyUndefined (some a) = tt

deref-OnlyUndefined : (p : Bytes) → OnlyUndefined (deref p)
deref-OnlyUndefined [] = refl
deref-OnlyUndefined (b ∷ p) = tt

find_equals-OnlyUndefined : (p : Bytes) → OnlyUndefined (find_equals p)
unfolding find_equals
find_equals-OnlyUndefined [] = refl
find_equals-OnlyUndefined (b ∷ p) = elim (Bool-cases (b == 0)) [
  | inl z ↦ rw z tt
  | inr z ↦ rw z (elim (Bool-cases (b == b'=')) [
    | inl e ↦ rw e tt
    | inr e ↦ rw e (find_equals-OnlyUndefined p)
  ])
]

use_field-OnlyUndefined :
    (c : ℕ) (v : Option Bytes) (h : FastHeader) → OnlyUndefined (use_field c v h)
unfolding use_field
use_field-OnlyUndefined c none h = ground arith
use_field-OnlyUndefined c (some p) h = ground (
  arith,
  >>=-OnlyUndefined (deref p) (λ (b : ℕ). ok (record h { op = to_op b })) (deref-OnlyUndefined p)
      (λ (b : ℕ). tt),
  or_err-OnlyUndefined (read_u32 p),
  or_err-OnlyUndefined (read_time p),
)

fast_loop-OnlyUndefined :
    (fuel : ℕ) (p : Bytes) (left : ℕ) (h : FastHeader)
    → left ≤ fuel
    → OnlyUndefined (fast_loop fuel p left h)
unfolding fast_loop
fast_loop-OnlyUndefined zero p zero h le = tt
fast_loop-OnlyUndefined (suc fuel) p zero h le = tt
fast_loop-OnlyUndefined zero p (suc left) h le = absurd (omega arith)
fast_loop-OnlyUndefined (suc fuel) p (suc left) h le =
    >>=-OnlyUndefined (or_err undefined (read_u32 p)) _ (or_err-OnlyUndefined (read_u32 p)) λ n.
      >>=-OnlyUndefined (find_equals (drop 4 p)) _ (find_equals-OnlyUndefined (drop 4 p)) λ found.
        >>=-OnlyUndefined (deref (drop 4 p)) _ (deref-OnlyUndefined (drop 4 p)) λ c.
          >>=-OnlyUndefined (use_field c (value_pointer found) h) _
            (use_field-OnlyUndefined c (value_pointer found) h)
            λ h'.
              fast_loop-OnlyUndefined fuel (drop n (drop 4 p)) (suc left - (4 + n)) h' (omega arith)

-- On any bytes and any length the fast readHeader ends, with a header or with a read that is
-- undefined. So its "Unable to find '='" is never thrown, also where a field has no '='.
pub fast_read_header-OnlyUndefined :
    (p : Bytes) (len : ℕ)
    → OnlyUndefined (fast_read_header p len) × (fast_read_header p len ≢ err missing_equals)
fast_read_header-OnlyUndefined p len =
    let all : OnlyUndefined (fast_read_header p len) =
      unfold fast_read_header in fast_loop-OnlyUndefined len p len no_header (omega arith) in
    (all, never (fast_read_header p len) all)
  where
    never : (r : Result FastHeader) → OnlyUndefined r → r ≢ err missing_equals
    never (ok h) o = λ e. cc
    never (err x) o = λ e. cc
