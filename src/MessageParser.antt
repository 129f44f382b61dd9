-- ===== src/MessageParser.antt =====
-- MessageParser (lib/message_parser.h, lib/message_parser.cc): the bytes of a message into a vector
-- of values, the children of a value next to one another.
pub mod Layout
pub mod Frames
pub mod Steps
pub mod Arrays
pub mod Emplace
pub mod Objects
pub mod Refines
pub mod Walk
pub mod Fuel
pub mod Text
pub mod Depth
pub mod Printed
pub mod FromSchema
pub mod Encode
pub mod Decode
mod Runs
use embag.Prelude.{
  ℕ, zero, suc, ◌+◌, ◌*◌, ◌==◌, Bool, true, false, ◌||◌, Option, none, some, List, [], ◌∷◌, ◌++◌,
  if◌then◌else◌, get_elem?, set, replicate,
}
use embag.Prelude.Int.{ℤ, pos, negsuc, to_u32}
use embag.Bytes.{Bytes}
use embag.Result.{
  Result, ok, err, ◌>>=◌, guard, ◌>>◌, or_err, undefined, stuck, out_of_range, not_object_type,
}
use embag.Assoc.{Assoc, find}
use embag.RosType.{RosType, string, is_object, is_string}
use embag.Schema.{FieldDef, MemberDef, field_def, constant_def, BaseMsgDef, MsgDef, field_type_size}
use embag.Value.{
  RosValue, primitive_info, primitive_array_info, array_info, object_info, ValueList,
  make_primitive, make_object, make_array, make_primitive_array, get_primitive, Pointer, in_vector,
}
use embag.Wrapper.{u32_at}

-- ros_values_, ros_values_offset_ and message_buffer_offset_.
pub record ParserState : Type 0 where
  pub values : List RosValue
  pub values_offset : ℕ
  pub buffer_offset : ℕ

-- arraySize() == 0 and arraySize() == -1.
abbrev pub is_zero : ℤ → Bool
is_zero (pos n) = n == 0
is_zero (negsuc n) = false

abbrev pub is_minus_one : ℤ → Bool
is_minus_one (pos n) = false
is_minus_one (negsuc n) = n == 0

-- An array of such items is of values of their own.
abbrev pub has_item_values : RosType → Bool
has_item_values t = is_object t || is_string t

-- Writes to the info of a value; one that is of another type is undefined.
unfoldable pub with_children : ValueList → RosValue → Result RosValue
with_children l (object_info k m) = ok (object_info l m)
with_children l (array_info k) = ok (array_info l)
with_children l v = err undefined

unfoldable pub with_range : ℕ → ℕ → RosValue → Result RosValue
with_range o n (primitive_array_info e o' n' b) = ok (primitive_array_info e o n b)
with_range o n v = err undefined

unfoldable pub with_place : ℕ → Bytes → RosValue → Result RosValue
with_place o buffer (primitive_info t o' b) = ok (primitive_info t o (some buffer))
with_place o buffer v = err undefined

-- object_info_.children.length++, with the length before.
unfoldable pub count_child : RosValue → Result (ℕ × RosValue)
count_child (object_info l m) = ok (l.len, object_info (record l { len = suc l.len }) m)
count_child v = err undefined

-- ros_values_->at(i) = v
abbrev pub store : ℕ → RosValue → ParserState → ParserState
store i v st = record st { values = set st.values i v }

abbrev pub load : ℕ → ParserState → Result RosValue
load i st = or_err out_of_range (get_elem? st.values i)

-- n values behind the others, which values_offset_ has counted already.
abbrev pub append_values : ℕ → RosValue → ParserState → ParserState
append_values n v st = record st { values = st.values ++ replicate n v }

-- The loop over the elements of an array, which stand from `i` on.
unfoldable pub init_many :
    (ℕ → ParserState → Result ParserState) → ℕ → ℕ → ParserState → Result ParserState
init_many init zero i st = ok st
init_many init (suc n) i st = do st' ← init i st; init_many init n (suc i) st'

module _ (definitions : Assoc BaseMsgDef) (buffer : Bytes) where
  -- FieldDef::typeDefinition.
  unfoldable pub type_definition_of : FieldDef → Result BaseMsgDef
  type_definition_of f = do
    guard (is_object f.ros_type) not_object_type
    k ← or_err undefined f.type_definition
    or_err undefined (find k definitions)

  -- The value that emplaceField puts behind the others.
  unfoldable pub value_of_field : FieldDef → Result RosValue
  value_of_field f =
      if is_zero f.parsed_info.array_size
      then (if is_object f.ros_type
          then (do d ← type_definition_of f; ok (make_object d.field_indexes))
          else make_primitive f.ros_type)
      else ok (
          if has_item_values f.ros_type
          then make_array
          else make_primitive_array f.ros_type (some buffer))

  -- MessageParser::emplaceField.
  unfoldable pub emplace_field : FieldDef → ParserState → Result ParserState
  emplace_field f st = do
    v ← value_of_field f
    ok (record st { values = st.values ++ (v ∷ []); values_offset = suc st.values_offset })

  -- The first loop of initObject.
  unfoldable pub emplace_fields : List MemberDef → ParserState → Result ParserState
  unfolding emplace_field
  emplace_fields [] st = ok st
  emplace_fields (constant_def c ∷ ms) st = emplace_fields ms st
  emplace_fields (field_def f ∷ ms) st = do st' ← emplace_field f st; emplace_fields ms st'

  -- MessageParser::initPrimitive.
  unfoldable pub init_primitive : FieldDef → ℕ → ParserState → Result ParserState
  init_primitive f i st = do
    v ← load i st
    v' ← with_place st.buffer_offset buffer v
    taken ←
        (if is_string f.ros_type
          then (do n ← get_primitive 4 v'; ok (n + 4))
          else field_type_size f)
    ok (record (store i v' st) { buffer_offset = st.buffer_offset + taken })

  -- The array_length of initArray, and the offset behind it.
  unfoldable pub array_length : FieldDef → ℕ → Result (ℕ × ℕ)
  array_length f o =
      if is_minus_one f.parsed_info.array_size
      then (do n ← u32_at buffer o; ok (n, o + 4))
      else ok (to_u32 f.parsed_info.array_size, o)

  module _ (init_object : BaseMsgDef → ℕ → ParserState → Result ParserState) where
    -- The elements of an array of strings or objects.
    unfoldable pub init_elements : FieldDef → ℕ → ℕ → ParserState → Result ParserState
    init_elements f n children_offset st =
        if is_string f.ros_type
        then (do
          v ← make_primitive f.ros_type
          init_many (init_primitive f) n children_offset (append_values n v st))
        else (do
          d ← type_definition_of f
          init_many (init_object d) n children_offset
              (append_values n (make_object d.field_indexes) st))

    -- MessageParser::initArray.
    unfoldable pub init_array : FieldDef → ℕ → ParserState → Result ParserState
    init_array f i st = do
      (n, o) ← array_length f st.buffer_offset
      v ← load i st
      (if has_item_values f.ros_type
          then (do
            v' ← with_children (record { has_base = true; offset = st.values_offset; len = n }) v
            init_elements f n st.values_offset (record (store i v' st) {
              values_offset = st.values_offset + n;
              buffer_offset = o;
            }))
          else (do
            v' ← with_range o n v
            element_size ← field_type_size f
            ok (record (store i v' st) { buffer_offset = o + n * element_size })))

    -- The switch on the type of a child.
    unfoldable pub init_child : FieldDef → ℕ → RosValue → ParserState → Result ParserState
    init_child f i (object_info l m) st = do d ← type_definition_of f; init_object d i st
    init_child f i (array_info l) st = init_array f i st
    init_child f i (primitive_array_info e o n b) st = init_array f i st
    init_child f i (primitive_info t o b) st = init_primitive f i st

    -- The second loop of initObject, for the object at `p`.
    unfoldable pub init_children : ℕ → ℕ → List MemberDef → ParserState → Result ParserState
    init_children p children_offset [] st = ok st
    init_children p children_offset (constant_def c ∷ ms) st = init_children p children_offset ms st
    init_children p children_offset (field_def f ∷ ms) st = do
      v ← load p st
      (before, v') ← count_child v
      let counted = store p v' st
      child ← load (children_offset + before) counted
      st' ← init_child f (children_offset + before) child counted
      init_children p children_offset ms st'

  -- MessageParser::initObject; `fuel` bounds the depth of the types.
  unfoldable pub init_object : ℕ → BaseMsgDef → ℕ → ParserState → Result ParserState
  init_object zero d p st = err stuck
  init_object (suc fuel) d p st = do
    v ← load p st
    v' ← with_children (record { has_base = true; offset = st.values_offset; len = 0 }) v
    st' ← emplace_fields d.members (store p v' st)
    init_children (init_object fuel) p st.values_offset d.members st'

-- MessageParser::parse from an offset of the buffer: the pointer, and the vector that it points to.
unfoldable pub parse : ℕ → MsgDef → Bytes → ℕ → Result (Pointer × List RosValue)
unfolding init_object
parse fuel d buffer offset = do
  st ← init_object d.embedded_definition_map buffer fuel d.base 0 (record {
    values = make_object d.base.field_indexes ∷ [];
    values_offset = 1;
    buffer_offset = offset;
  })
  ok (in_vector 0, st.values)
