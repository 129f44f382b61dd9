-- ===== src/Value/Text.antt =====
-- RosValue::toString (lib/ros_value.cc).
use embag.Prelude.{
  ℕ, zero, suc, ◌+◌, ◌-◌, ◌/◌, ◌%◌, ◌^◌, ◌==◌, true, false, ◌||◌, List, [], ◌∷◌, ◌++◌, ltb,
  if◌then◌else◌,
}
use embag.Prelude.Int.{ℤ, pos, negsuc}
use embag.Bytes.{Bytes, codes}
use embag.Result.{Result, ok, err, ◌>>=◌, stuck, undefined}
use embag.Assoc.{Assoc}
use embag.Time.{Time}
use embag.RosType.{
  RosType, ros_bool, int8, uint8, int16, uint16, int32, uint32, int64, uint64, float32, float64,
  string, ros_time, ros_duration, is_object, is_array,
}
use embag.Value.{
  RosValue, primitive_info, primitive_array_info, array_info, object_info, ValueList, get_type,
  list_at, deref, as_number, as_time, as_string,
}

-- std::to_string of an unsigned number: with n rounds for n, whose digits are fewer.
unfoldable pub decimal_loop : ℕ → ℕ → Bytes → Bytes
decimal_loop zero n digits = digits
decimal_loop (suc fuel) n digits = elim (ltb n 10) [
  | true ↦ (48 + n) ∷ digits
  | false ↦ decimal_loop fuel (n / 10) ((48 + n % 10) ∷ digits)
]

unfoldable pub decimal : ℕ → Bytes
unfolding decimal_loop
decimal n = decimal_loop (suc n) n []

-- The number of w bits that is n without its sign, and std::to_string of it.
unfoldable pub signed_number : ℕ → ℕ → ℤ
signed_number w n = if ltb n (2 ^ (w - 1)) then pos n else negsuc (2 ^ w - 1 - n)

unfoldable pub signed_decimal : ℤ → Bytes
signed_decimal (pos n) = decimal n
signed_decimal (negsuc n) = b'-' ∷ decimal (suc n)

-- A bool is a byte of 0 or 1.
unfoldable pub bool_text : ℕ → Result Bytes
bool_text n =
    if n == 0 then ok (codes "false") else (if n == 1 then ok (codes "true") else err undefined)

unfoldable pub time_text : Time → Bytes
time_text t = decimal t.secs ++ (codes "s " ++ (decimal t.nsecs ++ codes "ns"))

unfoldable pub child_path : Bytes → Bytes → Bytes
child_path [] name = name
child_path (c ∷ path) name = (c ∷ path) ++ (b'.' ∷ name)

unfoldable pub item_path : Bytes → ℕ → Bytes
item_path path i = path ++ (b'[' ∷ (decimal i ++ codes "]"))

-- std::to_string of a float and of a double, by the number that its bytes hold.
module _ (float_text double_text : ℕ → Bytes) where
  -- What stands behind the arrow for a scalar.
  unfoldable pub scalar_text : RosType → RosValue → Result Bytes
  scalar_text ros_bool v = do n ← as_number 1 v; bool_text n
  scalar_text int8 v = do n ← as_number 1 v; ok (signed_decimal (signed_number 8 n))
  scalar_text uint8 v = do n ← as_number 1 v; ok (decimal n)
  scalar_text int16 v = do n ← as_number 2 v; ok (signed_decimal (signed_number 16 n))
  scalar_text uint16 v = do n ← as_number 2 v; ok (decimal n)
  scalar_text int32 v = do n ← as_number 4 v; ok (signed_decimal (signed_number 32 n))
  scalar_text uint32 v = do n ← as_number 4 v; ok (decimal n)
  scalar_text int64 v = do n ← as_number 8 v; ok (signed_decimal (signed_number 64 n))
  scalar_text uint64 v = do n ← as_number 8 v; ok (decimal n)
  scalar_text float32 v = do n ← as_number 4 v; ok (float_text n)
  scalar_text float64 v = do n ← as_number 8 v; ok (double_text n)
  scalar_text string v = as_string v
  scalar_text ros_time v = do t ← as_time v; ok (time_text t)
  scalar_text ros_duration v = do t ← as_time v; ok (time_text t)
  scalar_text _ v = err undefined

  module _ (values : List RosValue) (text : Bytes → RosValue → Result Bytes) where
    -- The loop over the fields of an object.
    unfoldable pub object_text : ValueList → Bytes → Assoc ℕ → Result Bytes
    object_text l path [] = ok []
    object_text l path ((name, i) ∷ fields) = do
      p ← list_at l i
      v ← deref values p
      s ← text (child_path path name) v
      let newline : Bytes = if is_object (get_type v) || is_array (get_type v) then [] else 10 ∷ []
      rest ← object_text l path fields
      ok (s ++ (newline ++ rest))

    -- The loop over the items of an array, with n of them left.
    unfoldable pub array_text : ValueList → Bytes → ℕ → ℕ → Result Bytes
    array_text l path zero i = ok []
    array_text l path (suc n) i = do
      p ← list_at l i
      v ← deref values p
      s ← text (item_path path i) v
      rest ← array_text l path n (suc i)
      ok (s ++ (10 ∷ rest))

  -- toString; `fuel` bounds the depth of the value.
  unfoldable pub to_string : ℕ → List RosValue → Bytes → RosValue → Result Bytes
  unfolding scalar_text object_text array_text
  to_string zero values path v = err stuck
  to_string (suc fuel) values path (primitive_info t o b) = do
    s ← scalar_text t (primitive_info t o b)
    ok (path ++ (codes " -> " ++ s))
  to_string (suc fuel) values path (primitive_array_info e o n b) =
      ok (path ++ codes " -> unknown type")
  to_string (suc fuel) values path (array_info l) =
      array_text values (to_string fuel values) l path l.len 0
  to_string (suc fuel) values path (object_info l m) =
      object_text values (to_string fuel values) l path m
