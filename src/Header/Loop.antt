-- ===== src/Header/Loop.antt =====
-- Bag::readFields (lib/embag.cc) on any bytes: the loop ends, and which errors it has.
use embag.Prelude.{
  ℕ, zero, suc, ◌+◌, ◌-◌, ◌≤◌, ◌≡◌, refl, ◌⊎◌, inl, inr, some, none, Option, [], arith, drop,
  Option-cases,
}
use embag.Bytes.{Bytes, copy_n, read_u32}
use embag.Result.{Result, ok, err, undefined, missing_equals, or_err, ◌>>=◌}
use embag.Assoc.{assign}
use embag.Header.{Fields, find_byte, split_field, fields_loop, read_fields}

-- A result, or one of the two errors that a field can give.
abbrev pub Outcome {ℓ} : {A : Type ℓ} → Result A → Type 0
Outcome (ok a) = Unit
Outcome (err e) = (e ≡ undefined) ⊎ (e ≡ missing_equals)

split_field-Outcome : (s : Bytes) → Outcome (split_field s)
unfolding split_field
split_field-Outcome s = elim (Option-cases (find_byte b'=' s)) [
  | inl e ↦ rw e (inr refl)
  | inr (i, e) ↦ rw e tt
]

>>=-Outcome {ℓ κ} :
    {A : Type ℓ} {B : Type κ} (m : Result A) (f : A → Result B)
    → Outcome m
    → ((a : A) → Outcome (f a))
    → Outcome (m >>= f)
>>=-Outcome (ok a) f h k = k a
>>=-Outcome (err e) f h k = h

or_err-Outcome {ℓ} : {A : Type ℓ} (o : Option A) → Outcome (or_err undefined o)
or_err-Outcome none = inl refl
or_err-Outcome (some a) = tt

fields_loop-Outcome :
    (fuel : ℕ) (p : Bytes) (left : ℕ) (fields : Fields)
    → left ≤ fuel
    → Outcome (fields_loop fuel p left fields)
unfolding fields_loop
fields_loop-Outcome zero p zero fields h = tt
fields_loop-Outcome (suc fuel) p zero fields h = tt
fields_loop-Outcome zero p (suc left) fields h = absurd (omega arith)
fields_loop-Outcome (suc fuel) p (suc left) fields h =
    >>=-Outcome (or_err undefined (read_u32 p)) _ (or_err-Outcome (read_u32 p)) λ n.
      >>=-Outcome (or_err undefined (copy_n n (drop 4 p))) _ (or_err-Outcome (copy_n n (drop 4 p)))
        λ s. >>=-Outcome (split_field s) _ (split_field-Outcome s) λ nv.
          fields_loop-Outcome fuel (drop n (drop 4 p)) (suc left - (4 + n))
            (assign nv.0 nv.1 fields) (omega arith)

-- On any bytes and any length readFields returns the fields, or throws that a field has no '=', or
-- reads past the buffer: its loop always ends.
pub read_fields_ends : (p : Bytes) (len : ℕ) → Outcome (read_fields p len)
unfolding read_fields
read_fields_ends p len = fields_loop-Outcome len p len [] (omega arith)
