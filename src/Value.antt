-- ===== src/Value.antt =====
-- RosValue and RosValue::Pointer (lib/ros_value.h, lib/ros_value.cc). The values of a message stand
-- in one vector, which is passed as a list; a list of children refers to it by its positions.
pub mod Visit
pub mod Text
mod Runs
use embag.Prelude.{
  ℕ, zero, suc, ◌+◌, ◌*◌, ◌%◌, ◌^◌, ◌≡◌, Bool, true, false, ◌||◌, Option, none, some, List, [], ◌∷◌,
  ltb, if◌then◌else◌, length, get_elem?, drop,
}
use embag.Bytes.{Bytes, copy_n, read_le}
use embag.Result.{
  Result, ok, err, ◌>>=◌, guard, ◌>>◌, or_err, undefined, out_of_range, not_object, not_array,
  not_container, not_string, not_primitive_array, not_scalar, bad_constructor,
}
use embag.Assoc
use embag.Assoc.{Assoc, contains, emplace}
use embag.Time.{Time}
use embag.Header.{read_time}
use embag.RosType.{
  RosType, string, object, array, primitive_array, is_object, is_string, is_array,
  is_primitive_array, primitive_type_to_size,
}
use embag.Wrapper.{at_pointer}

-- ros_value_list_t; has_base is false for the empty weak_ptr.
pub record ValueList : Type 0 where
  pub has_base : Bool
  pub offset : ℕ
  pub len : ℕ

abbrev pub no_list : ValueList
no_list = record { has_base = false; offset = 0; len = 0 }

-- type_ with the info of the union that goes with it. A buffer is none where the pointer is null.
pub data RosValue : Type 0 where
  primitive_info : (type : RosType) (offset : ℕ) (message_buffer : Option Bytes) → RosValue
  primitive_array_info :
      (element_type : RosType) (offset len : ℕ) (message_buffer : Option Bytes) → RosValue
  array_info : (children : ValueList) → RosValue
  object_info : (children : ValueList) (field_indexes : Assoc ℕ) → RosValue

abbrev pub get_type : RosValue → RosType
get_type (primitive_info t o b) = t
get_type (primitive_array_info e o n b) = primitive_array
get_type (array_info l) = array
get_type (object_info l m) = object

abbrev pub is_container : RosType → Bool
is_container t = is_object t || (is_array t || is_primitive_array t)

-- The constructors. That of a primitive array leaves offset and length as they are; 0 stands for
-- that here.
unfoldable pub make_primitive_at : RosType → Option Bytes → ℕ → Result RosValue
make_primitive_at t buffer offset =
    if is_container t then err bad_constructor else ok (primitive_info t offset buffer)

unfoldable pub make_primitive : RosType → Result RosValue
make_primitive t = if is_container t then err bad_constructor else ok (primitive_info t 0 none)

abbrev pub make_object : Assoc ℕ → RosValue
make_object field_indexes = object_info no_list field_indexes

abbrev pub make_array : RosValue
make_array = array_info no_list

abbrev pub make_primitive_array : RosType → Option Bytes → RosValue
make_primitive_array element_type buffer = primitive_array_info element_type 0 0 buffer

-- RosValue::Pointer: a value of its own, or an index in the vector; null_base where there is none.
pub data Pointer : Type 0 where
  own_value : RosValue → Pointer
  in_vector : ℕ → Pointer
  null_base : ℕ → Pointer

-- Pointer(base, index), for the base of a list.
abbrev pub make_pointer : Bool → ℕ → Pointer
make_pointer true index = in_vector index
make_pointer false index = null_base index

-- ros_value_list_t::at.
unfoldable pub list_at : ValueList → ℕ → Result Pointer
list_at l index =
    if ltb index l.len then ok (make_pointer l.has_base (l.offset + index)) else err out_of_range

-- RosValue::at(size_t).
unfoldable pub value_at : RosValue → ℕ → Result Pointer
unfolding make_primitive_at
value_at (object_info l m) idx = list_at l idx
value_at (array_info l) idx = list_at l idx
value_at (primitive_array_info e o n b) idx = do
  size ← primitive_type_to_size e
  v ← make_primitive_at e b ((o + idx * size) % 2 ^ 64)
  ok (own_value v)
value_at (primitive_info t o b) idx = err not_container

-- RosValue::get, which at(key), operator[](key) and operator() call.
unfoldable pub get : Bytes → RosValue → Result Pointer
get key (object_info l m) = do idx ← Assoc.at key m; value_at (object_info l m) idx
get key v = err not_object

-- RosValue::has.
unfoldable pub has : Bytes → RosValue → Result Bool
has key (object_info l m) = ok (contains key m)
has key v = err not_object

-- RosValue::getChildren.
unfoldable pub get_children : RosValue → Result ValueList
get_children (object_info l m) = ok l
get_children (array_info l) = ok l
get_children v = err not_container

-- RosValue::size.
unfoldable pub size : RosValue → Result ℕ
unfolding get_children
size (primitive_array_info e o n b) = ok n
size (primitive_info t o b) = err not_container
size v = do l ← get_children v; ok l.len

-- &getPrimitive<T>(). The union member of another type is undefined.
unfoldable pub primitive_pointer : RosValue → Result Bytes
primitive_pointer (primitive_info t offset buffer) = do
  b ← or_err undefined buffer
  at_pointer b offset
primitive_pointer v = err undefined

-- getPrimitive<T> for a number of n bytes; a float is the number that its bytes hold.
unfoldable pub get_primitive : ℕ → RosValue → Result ℕ
unfolding primitive_pointer
get_primitive n v = do p ← primitive_pointer v; or_err undefined (read_le n p)

abbrev pub is_scalar : RosValue → Bool
is_scalar (object_info l m) = false
is_scalar (array_info l) = false
is_scalar v = true

-- as<T> for such a number, and for a time.
unfoldable pub as_number : ℕ → RosValue → Result ℕ
unfolding get_primitive
as_number n v = do guard (is_scalar v) not_scalar; get_primitive n v

unfoldable pub as_time : RosValue → Result Time
unfolding primitive_pointer
as_time v = do
  guard (is_scalar v) not_scalar
  p ← primitive_pointer v
  or_err undefined (read_time p)

-- as<std::string>.
unfoldable pub as_string : RosValue → Result Bytes
unfolding get_primitive
as_string v = do
  guard (is_string (get_type v)) not_string
  string_length ← get_primitive 4 v
  p ← primitive_pointer v
  or_err undefined (copy_n string_length (drop 4 p))

-- Pointer::operator*.
unfoldable pub deref : List RosValue → Pointer → Result RosValue
deref values (own_value v) = ok v
deref values (in_vector index) = or_err out_of_range (get_elem? values index)
deref values (null_base index) = err undefined

-- Pointer::operator[] and operator() by key, and by index.
unfoldable pub pointer_get : List RosValue → Bytes → Pointer → Result Pointer
unfolding deref
pointer_get values key p = do v ← deref values p; get key v

unfoldable pub pointer_at : List RosValue → ℕ → Pointer → Result Pointer
unfolding deref
pointer_at values idx p = do v ← deref values p; value_at v idx

-- RosValue::getElementType.
unfoldable pub get_element_type : List RosValue → RosValue → Result RosType
unfolding deref
get_element_type values (primitive_array_info e o n b) = ok e
get_element_type values (array_info l) = do
  p ← value_at (array_info l) 0
  v ← deref values p
  ok (get_type v)
get_element_type values v = err not_array

-- RosValue::getPrimitiveArrayRosValueBuffer: the bytes from the pointer on.
unfoldable pub get_buffer : List RosValue → RosValue → Result Bytes
unfolding deref
get_buffer values v = do
  guard (is_primitive_array (get_type v)) not_primitive_array
  p ← value_at v 0
  first ← deref values p
  primitive_pointer first

-- RosValue::getPrimitiveArrayRosValueBufferSize.
unfoldable pub get_buffer_size : RosValue → Result ℕ
get_buffer_size (primitive_array_info e o n b) = do
  element_size ← primitive_type_to_size e
  ok (n * element_size)
get_buffer_size v = err not_primitive_array

-- The loop of RosValue::getObjects over the fields.
unfoldable pub objects_loop : RosValue → Assoc ℕ → Assoc Pointer → Result (Assoc Pointer)
objects_loop v [] objects = ok objects
objects_loop v ((name, i) ∷ fields) objects = do
  p ← value_at v i
  objects_loop v fields (emplace name p objects)

unfoldable pub get_objects : RosValue → Result (Assoc Pointer)
get_objects (object_info l m) = objects_loop (object_info l m) m []
get_objects v = err not_object

-- The loop of RosValue::getValues, with `n` rounds left.
unfoldable pub values_loop : ℕ → ℕ → RosValue → Result (List Pointer)
values_loop zero i v = ok []
values_loop (suc n) i v = do p ← value_at v i; rest ← values_loop n (suc i) v; ok (p ∷ rest)

unfoldable pub get_values : RosValue → Result (List Pointer)
unfolding size
get_values v = do guard (is_container (get_type v)) not_container; n ← size v; values_loop n 0 v
