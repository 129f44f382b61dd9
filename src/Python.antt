-- ===== src/Python.antt =====
-- The conversions of values to Python objects (python/adapters.h).
pub mod Schema
pub mod Api
pub mod SchemaEnds
pub mod Blobs
pub mod Messages
mod Runs
use embag.Prelude.{
  ℕ, zero, suc, ◌+◌, ◌==◌, ◌≡◌, Bool, true, false, Option, none, some, List, [], ◌∷◌, if◌then◌else◌,
  not, ◌||◌,
}
use embag.Prelude.Int.{ℤ, pos}
use embag.Bytes.{Bytes, bytes_eq, copy_n}
use embag.Result.{
  Result, ok, err, ◌>>=◌, guard, ◌>>◌, or_err, undefined, stuck, not_object, not_array,
  no_python_type, bad_time_type,
}
use embag.Assoc.{Assoc}
use embag.Time.{Time, to_nsec}
use embag.RosType.{
  RosType, ros_bool, int8, uint8, int16, uint16, int32, uint32, int64, uint64, float32, float64,
  string, ros_time, ros_duration, object, array, primitive_array, is_object, is_array,
  is_primitive_array,
}
use embag.Value.{
  RosValue, Pointer, deref, get_type, get_element_type, get_buffer, get_buffer_size, get_objects,
  get_values, as_number, as_time, as_string, get, value_at,
}
use embag.Value.Text.{signed_number}

-- The Python objects that the library makes. A float is the number that its bytes hold, or the
-- to_sec() of a time; a text is its Latin-1 bytes; a RosValue is the pointer that it wraps.
mutual
  pub data PyObject : Type 0 where
    py_bool : Bool → PyObject
    py_int : ℤ → PyObject
    py_float : (bytes value : ℕ) → PyObject
    py_seconds : Time → PyObject
    py_str : Bytes → PyObject
    py_bytes : Bytes → PyObject
    py_time : Time → PyObject
    py_duration : Time → PyObject
    py_value : Pointer → PyObject
    py_memoryview : Pointer → PyObject
    py_list : PyList → PyObject
    py_dict : PyDict → PyObject

  pub data PyList : Type 0 where
    empty_list : PyList
    list_cons : PyObject → PyList → PyList

  pub data PyDict : Type 0 where
    empty_dict : PyDict
    dict_cons : Bytes → PyObject → PyDict → PyDict

-- list.append(o)
unfoldable pub append : PyObject → PyList → PyList
append o empty_list = list_cons o empty_list
append o (list_cons x l) = list_cons x (append o l)

-- dict[key] = o
unfoldable pub set_item : Bytes → PyObject → PyDict → PyDict
set_item key o empty_dict = dict_cons key o empty_dict
set_item key o (dict_cons k x d) =
    if bytes_eq k key then dict_cons k o d else dict_cons k x (set_item key o d)

-- The text that a c_str() is read as: up to the first NUL.
unfoldable pub c_str : Bytes → Bytes
c_str [] = []
c_str (c ∷ s) = if c == 0 then [] else c ∷ c_str s

-- ros_time_py_type: None, a type, or something else.
pub data TimeType : Type 0 where
  keep_time long_type float_type other_type not_a_type : TimeType

-- The arguments that each conversion hands on. A RosValueTypeSet is its test.
pub record Options : Type 0 where
  pub array_blob_types : RosType → Bool
  pub blob_types_as_memoryview : Bool
  pub ros_time_py_type : TimeType

unfoldable pub default_array_blob_types : RosType → Bool
default_array_blob_types uint8 = true
default_array_blob_types _ = false

-- castRosTime, for the object that py::cast makes of a time of this kind. A long has 64 bits, of
-- which no time takes the last.
unfoldable pub cast_ros_time : (Time → PyObject) → TimeType → RosValue → Result PyObject
cast_ros_time keep py_type v = do
  t ← as_time v
  elim py_type [
    | keep_time ↦ ok (keep t)
    | not_a_type ↦ err no_python_type
    | long_type ↦ ok (py_int (pos (to_nsec t)))
    | float_type ↦ ok (py_seconds t)
    | other_type ↦ err bad_time_type
  ]

-- py::cast of a bool: a byte of 0 or 1.
unfoldable pub cast_bool : ℕ → Result PyObject
cast_bool n =
    if n == 0 then ok (py_bool false) else (if n == 1 then ok (py_bool true) else err undefined)

-- castValue, for the pointer and the value that it leads to.
unfoldable pub cast_as : RosType → TimeType → Pointer → RosValue → Result PyObject
unfolding cast_ros_time cast_bool
cast_as ros_bool py_type p v = do n ← as_number 1 v; cast_bool n
cast_as int8 py_type p v = do n ← as_number 1 v; ok (py_int (signed_number 8 n))
cast_as uint8 py_type p v = do n ← as_number 1 v; ok (py_int (pos n))
cast_as int16 py_type p v = do n ← as_number 2 v; ok (py_int (signed_number 16 n))
cast_as uint16 py_type p v = do n ← as_number 2 v; ok (py_int (pos n))
cast_as int32 py_type p v = do n ← as_number 4 v; ok (py_int (signed_number 32 n))
cast_as uint32 py_type p v = do n ← as_number 4 v; ok (py_int (pos n))
cast_as int64 py_type p v = do n ← as_number 8 v; ok (py_int (signed_number 64 n))
cast_as uint64 py_type p v = do n ← as_number 8 v; ok (py_int (pos n))
cast_as float32 py_type p v = do n ← as_number 4 v; ok (py_float 4 n)
cast_as float64 py_type p v = do n ← as_number 8 v; ok (py_float 8 n)
cast_as string py_type p v = do s ← as_string v; ok (py_str s)
cast_as ros_time py_type p v = cast_ros_time py_time py_type v
cast_as ros_duration py_type p v = cast_ros_time py_duration py_type v
cast_as _ py_type p v = ok (py_value p)

module _ (values : List RosValue) where
  unfoldable pub cast_value : TimeType → Pointer → Result PyObject
  unfolding cast_as
  cast_value py_type p = do v ← deref values p; cast_as (get_type v) py_type p v

  -- getField and getIndex.
  unfoldable pub get_field : Bytes → Pointer → Result PyObject
  unfolding cast_value
  get_field field_name p = do
    v ← deref values p
    guard (is_object (get_type v)) not_object
    child ← get field_name v
    cast_value keep_time child

  unfoldable pub get_index : ℕ → Pointer → Result PyObject
  unfolding cast_value
  get_index index p = do
    v ← deref values p
    guard (is_array (get_type v) || is_primitive_array (get_type v)) not_array
    child ← value_at v index
    cast_value keep_time child

  -- The loops over getValues() and getObjects(), with what each element becomes.
  module _ (convert : Pointer → Result PyObject) where
    unfoldable pub list_loop : List Pointer → PyList → Result PyList
    list_loop [] list = ok list
    list_loop (p ∷ ps) list = do o ← convert p; list_loop ps (append o list)

    unfoldable pub dict_loop : Assoc Pointer → PyDict → Result PyDict
    dict_loop [] dict = ok dict
    dict_loop ((key, p) ∷ ps) dict = do o ← convert p; dict_loop ps (set_item (c_str key) o dict)

  -- The bytes of a primitive array as bytes.
  unfoldable pub blob_bytes : RosValue → Result PyObject
  blob_bytes v = do
    buffer ← get_buffer values v
    n ← get_buffer_size v
    s ← or_err undefined (copy_n n buffer)
    ok (py_bytes s)

  -- The switch on the type of an element, of a list and of a dict alike.
  unfoldable pub convert_as :
      (to_dict to_array to_list : Pointer → Result PyObject)
      → RosType
      → TimeType
      → Pointer
      → Result PyObject
  unfolding cast_value
  convert_as to_dict to_array to_list object py_type p = to_dict p
  convert_as to_dict to_array to_list primitive_array py_type p = to_array p
  convert_as to_dict to_array to_list array py_type p = to_list p
  convert_as to_dict to_array to_list _ py_type p = cast_value py_type p

  -- rosValueToList, rosValueToDict and primitiveArrayToPyObject; `fuel` bounds the depth of the value.
  unfoldable mutual
    unfolding list_loop dict_loop blob_bytes convert_as

    pub ros_value_to_list : ℕ → Options → Pointer → Result PyObject
    ros_value_to_list zero options p = err stuck
    ros_value_to_list (suc fuel) options p = do
      v ← deref values p
      guard (is_array (get_type v) || is_primitive_array (get_type v)) not_array
      ps ← get_values v
      list ← list_loop (convert_element fuel options) ps empty_list
      ok (py_list list)

    pub ros_value_to_dict : ℕ → Options → Pointer → Result PyObject
    ros_value_to_dict zero options p = err stuck
    ros_value_to_dict (suc fuel) options p = do
      v ← deref values p
      guard (is_object (get_type v)) not_object
      ps ← get_objects v
      dict ← dict_loop (convert_element fuel options) ps empty_dict
      ok (py_dict dict)

    pub primitive_array_to_py_object : ℕ → Options → Pointer → Result PyObject
    primitive_array_to_py_object zero options p = err stuck
    primitive_array_to_py_object (suc fuel) options p = do
      v ← deref values p
      item_type ← get_element_type values v
      (if options.array_blob_types item_type
          then (if options.blob_types_as_memoryview then ok (py_memoryview p) else blob_bytes v)
          else ros_value_to_list fuel
              (record options { array_blob_types = default_array_blob_types }) p)

    pub convert_element : ℕ → Options → Pointer → Result PyObject
    convert_element zero options p = do
      v ← deref values p
      convert_as (λ q. err stuck) (λ q. err stuck) (λ q. err stuck) (get_type v)
          options.ros_time_py_type p
    convert_element (suc fuel) options p = do
      v ← deref values p
      convert_as (ros_value_to_dict fuel options) (primitive_array_to_py_object fuel options)
          (ros_value_to_list fuel options) (get_type v) options.ros_time_py_type p
