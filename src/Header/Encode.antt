-- ===== src/Header/Encode.antt =====
-- The bytes of a header as the bag format has them, and Bag::readFields (lib/embag.cc) on them.
use embag.Prelude.{
  ℕ, zero, suc, ◌+◌, ◌-◌, ◌≤◌, ◌≡◌, refl, ◌∙◌, none, some, List, [], ◌∷◌, ◌++◌, arith, length, drop,
  All, length-append, append_assoc, take-append, drop-append,
}
use embag.Bytes.{Bytes, copy_n-append, encode_le, length-encode_le, read_le-encode_le, IsU32}
use embag.Result.{ok}
use embag.Assoc.{assign}
use embag.Header.{Fields, find_byte, split_field, fields_loop, read_fields}

abbrev pub Entry : Type 0
Entry = Bytes × Bytes

-- name=value
abbrev pub text : Entry → Bytes
text e = e.0 ++ (b'=' ∷ e.1)

-- The length of the text in four bytes, and the text.
unfoldable pub encode_entry : Entry → Bytes
encode_entry e = encode_le 4 (length (text e)) ++ text e

unfoldable pub encode_entries : List Entry → Bytes
encode_entries [] = []
encode_entries (e ∷ es) = encode_entry e ++ encode_entries es

-- A name without '=', and a length that fits a uint32_t.
abbrev pub IsEntry : Entry → Type 0
IsEntry e = (find_byte b'=' e.0 ≡ none) × IsU32 (length (text e))

-- The map after all the assignments, in order.
unfoldable pub assign_all : List Entry → Fields → Fields
assign_all [] m = m
assign_all ((k, v) ∷ es) m = assign_all es (assign k v m)

pub find_byte-append :
    (c : ℕ) (s t : Bytes) → find_byte c s ≡ none → find_byte c (s ++ (c ∷ t)) ≡ some (length s)
unfolding find_byte
find_byte-append c [] t h = ground arith
find_byte-append c (b ∷ s) t h = ground (arith, find_byte-append c s t)

drop_past : (s : Bytes) (c : ℕ) (t : Bytes) → drop (suc (length s)) (s ++ (c ∷ t)) ≡ t
drop_past [] c t = refl
drop_past (b ∷ s) c t = drop_past s c t

split_field-text : (e : Entry) → find_byte b'=' e.0 ≡ none → split_field (text e) ≡ ok e
unfolding split_field
split_field-text (k, v) h =
    rw (find_byte-append b'=' k v h, take-append k (b'=' ∷ v), drop_past k b'=' v)

pub drop_four : (n : ℕ) (p : Bytes) → drop 4 (encode_le 4 n ++ p) ≡ p
unfolding encode_le
drop_four n p = refl

-- One round of the loop on the bytes of an entry.
pub fields_loop-entry :
    (fuel left : ℕ) (e : Entry) (p : Bytes) (m : Fields)
    → IsEntry e
    → fields_loop (suc fuel) (encode_entry e ++ p) (suc left) m
      ≡ fields_loop fuel p (suc left - (4 + length (text e))) (assign e.0 e.1 m)
unfolding fields_loop encode_entry
fields_loop-entry fuel left e p m (h, fits) = rw (
  append_assoc (encode_le 4 (length (text e))) (text e) p,
  read_le-encode_le 4 (length (text e)) (text e ++ p) fits,
  drop_four (length (text e)) (text e ++ p),
  copy_n-append (text e) p,
  split_field-text e h,
  drop-append (text e) p,
)

pub length-encode_entry : (e : Entry) → length (encode_entry e) ≡ 4 + length (text e)
unfolding encode_entry
length-encode_entry e = omega (
  arith,
  length-append (encode_le 4 (length (text e))) (text e),
  length-encode_le 4 (length (text e)),
)

pub fields_loop-entries :
    (es : List Entry) (fuel : ℕ) (p : Bytes) (left : ℕ) (m : Fields)
    → All IsEntry es
    → left ≡ length (encode_entries es)
    → left ≤ fuel
    → fields_loop fuel (encode_entries es ++ p) left m ≡ ok (assign_all es m)
unfolding encode_entries assign_all
fields_loop-entries [] fuel p left m h e hf = rw e (stop fuel)
  where
    stop : (fuel : ℕ) → fields_loop fuel p 0 m ≡ ok m
    stop zero = unfold fields_loop in refl
    stop (suc fuel) = unfold fields_loop in refl
fields_loop-entries (x ∷ es) zero p left m h e hf =
    absurd
      (omega (arith, length-append (encode_entry x) (encode_entries es), length-encode_entry x))
fields_loop-entries (x ∷ es) (suc fuel) p zero m h e hf =
    absurd
      (omega (arith, length-append (encode_entry x) (encode_entries es), length-encode_entry x))
fields_loop-entries (x ∷ es) (suc fuel) p (suc left) m (hx, h) e hf =
    let sizes : suc left ≡ 4 + length (text x) + length (encode_entries es) =
      omega (arith, length-append (encode_entry x) (encode_entries es), length-encode_entry x) in
    rw (append_assoc (encode_entry x) (encode_entries es) p) (
      fields_loop-entry fuel left x (encode_entries es ++ p) m hx
      ∙ fields_loop-entries es fuel p (suc left - (4 + length (text x))) (assign x.0 x.1 m) h
          (omega arith) (omega arith))

-- readFields on the bytes of a list of fields, each with a name without '=' and a text whose length
-- fits a uint32_t, returns the map with those fields assigned in order, whatever bytes follow.
pub read_fields-encode_entries :
    (es : List Entry) (p : Bytes)
    → All IsEntry es
    → read_fields (encode_entries es ++ p) (length (encode_entries es)) ≡ ok (assign_all es [])
unfolding read_fields
read_fields-encode_entries es p h =
    fields_loop-entries es (length (encode_entries es)) p (length (encode_entries es)) [] h refl
      (omega arith)
