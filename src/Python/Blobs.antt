-- ===== src/Python/Blobs.antt =====
-- Arrays of uint8 as Python bytes and as a Python list (python/adapters.h).
use embag.Prelude.{
  ℕ, zero, suc, ◌+◌, ◌*◌, ◌%◌, ◌^◌, ◌≤◌, ◌<◌, ◌≡◌, refl, sym, ◌∙◌, ap, subst, true, false, Option,
  none, some, List, [], ◌∷◌, arith, drop, length, lt→ltb, le→ltb,
}
use embag.Prelude.Int.{pos}
use embag.Bytes.{Bytes, copy_n, read_le}
use embag.Result.{ok, err, ◌>>=◌, or_err, undefined, out_of_range}
use embag.RosType.{uint8, primitive_type_to_size}
use embag.Value.{
  RosValue, primitive_info, primitive_array_info, Pointer, own_value, deref, value_at,
  make_primitive_at, get_buffer, get_buffer_size, get_values, get_element_type, values_loop, size,
  primitive_pointer, get_primitive, as_number,
}
use embag.Wrapper.{at_pointer}
use embag.Python.{
  py_int, py_bytes, py_list, PyList, empty_list, append, Options, cast_as, cast_value, list_loop,
  convert_as, convert_element, blob_bytes, ros_value_to_list, primitive_array_to_py_object,
}

-- Bytes as ints, behind a list.
unfoldable pub append_ints : Bytes → PyList → PyList
append_ints [] l = l
append_ints (c ∷ s) l = append_ints s (append (py_int (pos c)) l)

copy_n-shape :
    (k : ℕ) (q s : Bytes)
    → copy_n (suc k) q ≡ some s
    → (c : ℕ) × (r : Bytes) × (s' : Bytes) × (q ≡ c ∷ r) × (s ≡ c ∷ s') × (copy_n k r ≡ some s')
copy_n-shape k [] s h = cc
copy_n-shape k (c ∷ r) s h = copied (copy_n k r) refl h
  where
    copied :
        (o : Option Bytes)
        → copy_n k r ≡ o
        → ◌≡◌ {A = Option Bytes} (elim o [ none ↦ none | some t ↦ some (c ∷ t) ]) (some s)
        → (c' : ℕ) × (r' : Bytes) × (s' : Bytes) × (◌≡◌ {A = Bytes} (c ∷ r) (c' ∷ r'))
          × (s ≡ c' ∷ s')
          × (copy_n k r' ≡ some s')
    copied none e h = cc
    copied (some t) e h = (c, r, t, refl, ground arith, e)

drop-next :
    (j : ℕ) (b : Bytes) (c : ℕ) (r : Bytes)
    → drop j b ≡ c ∷ r
    → (drop (suc j) b ≡ r) × (j < length b)
drop-next zero [] c r h = cc
drop-next zero (x ∷ b) c r h = (ground arith, omega arith)
drop-next (suc j) [] c r h = cc
drop-next (suc j) (x ∷ b) c r h = let (e, l) = drop-next j b c r h in (e, omega (arith, l))

module _ (values : List RosValue) (b : Bytes) (o : ℕ) where
  -- The pointers that getValues makes: k of them, from the i-th on.
  slots : ℕ → ℕ → List Pointer
  slots zero i = []
  slots (suc k) i =
      own_value (primitive_info uint8 ((o + i * 1) % 2 ^ 64) (some b)) ∷ slots k (suc i)

  values_loop-slots :
      (n k i : ℕ) → values_loop k i (primitive_array_info uint8 o n (some b)) ≡ ok (slots k i)
  unfolding values_loop value_at make_primitive_at primitive_type_to_size slots
  values_loop-slots n zero i = refl
  values_loop-slots n (suc k) i = rw (values_loop-slots n k (suc i)) refl

  slot_pointer :
      (i : ℕ)
      → o + i < length b
      → o + i < 2 ^ 64
      → primitive_pointer (primitive_info uint8 ((o + i * 1) % 2 ^ 64) (some b))
        ≡ ok (drop (o + i) b)
  unfolding primitive_pointer at_pointer
  slot_pointer i inside small =
      let unwrapped : (o + i * 1) % 2 ^ 64 ≡ o + i = omega arith in
      rw (unwrapped, lt→ltb (o + i) (length b) inside) refl

  -- The number at one of them.
  convert-slot :
      (fuel i c : ℕ) (r : Bytes) (options : Options)
      → drop (o + i) b ≡ c ∷ r
      → o + i < 2 ^ 64
      → convert_element values fuel options
          (own_value (primitive_info uint8 ((o + i * 1) % 2 ^ 64) (some b)))
        ≡ ok (py_int (pos c))
  unfolding convert_element convert_as cast_value cast_as deref as_number get_primitive read_le
  convert-slot zero i c r options h small =
      rw (slot_pointer i (drop-next (o + i) b c r h).1 small, h) (ground arith)
  convert-slot (suc fuel) i c r options h small =
      rw (slot_pointer i (drop-next (o + i) b c r h).1 small, h) (ground arith)

  list_loop-ints :
      (fuel k i : ℕ) (s : Bytes) (options : Options) (l : PyList)
      → copy_n k (drop (o + i) b) ≡ some s
      → o + i + k ≤ 2 ^ 64
      → list_loop values (convert_element values fuel options) (slots k i) l ≡ ok (append_ints s l)
  unfolding list_loop slots append_ints
  list_loop-ints fuel zero i s options l h small =
      let same : [] ≡ s = ground arith in rw (sym same) refl
  list_loop-ints fuel (suc k) i s options l h small =
      let (c, r, s', eq, es, rest) = copy_n-shape k (drop (o + i) b) s h in
      let (next, inside) = drop-next (o + i) b c r eq in
      let step : suc (o + i) ≡ o + suc i = omega arith in
      let there : copy_n k (drop (o + suc i) b) ≡ some s' =
        subst (λ (j : ℕ). copy_n k (drop j b) ≡ some s') step (ap (copy_n k) next ∙ rest) in
      rw (es, convert-slot fuel i c r options eq (omega arith))
        (list_loop-ints fuel k (suc i) s' options (append (py_int (pos c)) l) there (omega arith))

-- An array of uint8 that has an element, lies in the buffer and ends at 2 ^ 64 at most becomes, as
-- bytes, the bytes of the buffer from its offset on, as many as its length says; and
-- rosValueToList makes of it the list of the same bytes as ints, in their order, whatever the
-- options are.
pub blob_bytes-ros_value_to_list :
    (values : List RosValue) (p : Pointer) (o n : ℕ) (b s : Bytes) (fuel : ℕ) (options : Options)
    → deref values p ≡ ok (primitive_array_info uint8 o (suc n) (some b))
    → copy_n (suc n) (drop o b) ≡ some s
    → o + suc n ≤ 2 ^ 64
    → (blob_bytes values (primitive_array_info uint8 o (suc n) (some b)) ≡ ok (py_bytes s))
      × (ros_value_to_list values (suc fuel) options p ≡ ok (py_list (append_ints s empty_list)))
unfolding blob_bytes get_buffer get_buffer_size deref value_at make_primitive_at
    primitive_type_to_size ros_value_to_list get_values size
blob_bytes-ros_value_to_list values p o n b s fuel options found copied small =
    let (c, r, s', eq, es, rest) = copy_n-shape n (drop o b) s copied in
    let same : o ≡ o + 0 = omega arith in
    let (next, inside) = drop-next o b c r eq in
    let first : primitive_pointer (primitive_info uint8 ((o + 0 * 1) % 2 ^ 64) (some b))
        ≡ ok (drop o b) =
      rw (slot_pointer values b o 0 (omega (arith, inside)) (omega arith))
        (ap (λ (j : ℕ). ok (drop j b)) (sym same)) in
    let all : suc n * 1 ≡ suc n = omega arith in
    (
      rw (first, all)
          (ap (λ (t : Option Bytes). or_err undefined t >>= λ x. ok (py_bytes x)) copied),
      rw
          (
            found,
            values_loop-slots values b o (suc n) (suc n) 0,
            list_loop-ints values b o fuel (suc n) 0 s options empty_list
                (subst (λ (j : ℕ). copy_n (suc n) (drop j b) ≡ some s) same copied) (omega arith),
          )
          refl,
    )

-- Where primitiveArrayToPyObject is to make bytes, and no memoryview, of an array of uint8, it
-- throws std::out_of_range for an empty one whose offset is the end of the buffer or behind it,
-- and below 2 ^ 64.
pub empty_blob_throws :
    (values : List RosValue) (p : Pointer) (o : ℕ) (b : Bytes) (fuel : ℕ) (options : Options)
    → deref values p ≡ ok (primitive_array_info uint8 o 0 (some b))
    → length b ≤ o
    → o < 2 ^ 64
    → options.array_blob_types uint8 ≡ true
    → options.blob_types_as_memoryview ≡ false
    → primitive_array_to_py_object values (suc fuel) options p ≡ err out_of_range
unfolding primitive_array_to_py_object get_element_type blob_bytes get_buffer value_at
    make_primitive_at primitive_type_to_size primitive_pointer at_pointer
empty_blob_throws values p o b fuel options found past small blob view =
    let unwrapped : (o + 0 * 1) % 2 ^ 64 ≡ o = omega arith in
    rw (found, blob, view, unwrapped, le→ltb o (length b) past) refl
