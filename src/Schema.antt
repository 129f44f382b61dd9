-- ===== src/Schema.antt =====
-- Message definitions (lib/ros_msg_types.h): FieldDef, ConstantDef, BaseMsgDef and MsgDef. A
-- pointer to an embedded definition is its key in the definition map, whose nodes do not move.
pub mod Resolve
mod Build
mod Links
mod Runs
use embag.Prelude.{
  ℕ, zero, suc, ◌+◌, Bool, true, false, Option, none, some, List, [], ◌∷◌, ◌++◌, if◌then◌else◌,
  take, map, ◌||◌,
}
use embag.Prelude.Int.{ℤ}
use embag.Bytes.{Bytes}
use embag.Result.{
  Result, ok, err, ◌>>=◌, guard, ◌>>◌, no_static_size, not_object_type, unknown_embedded_type,
  undefined, or_err,
}
use embag.Assoc.{Assoc, find, emplace, contains}
use embag.Header.{find_byte}
use embag.RosType.{
  RosType, object, string, is_object, is_string, primitive_type_to_size, primitive_type_map,
}

-- FieldDef::parseable_info_t.
pub record FieldInfo : Type 0 where
  pub type_name : Bytes
  pub array_size : ℤ
  pub field_name : Bytes

pub record FieldDef : Type 0 where
  pub parsed_info : FieldInfo
  pub ros_type : RosType
  pub type_size : ℕ
  pub type_definition : Option Bytes

pub record ConstantDef : Type 0 where
  pub type_name : Bytes
  pub constant_name : Bytes
  pub value : Bytes

-- member_parseable_info_t and MemberDef: which() is 0 for a field.
pub data MemberInfo : Type 0 where
  field_info : FieldInfo → MemberInfo
  constant_info : ConstantDef → MemberInfo

pub data MemberDef : Type 0 where
  field_def : FieldDef → MemberDef
  constant_def : ConstantDef → MemberDef

-- The size that the constructor caches: 0 for strings and objects.
cached_size : RosType → ℕ
cached_size t =
    if is_string t then 0 else (elim (primitive_type_to_size t) [ ok n ↦ n | err e ↦ 0 ])

-- The members after the look-up of the type's name.
unfoldable pub typed_field : FieldInfo → Option RosType → FieldDef
unfolding cached_size
typed_field info (some t) = record {
  parsed_info = info;
  ros_type = t;
  type_size = cached_size t;
  type_definition = none;
}
typed_field info none = record {
  parsed_info = info;
  ros_type = object;
  type_size = 0;
  type_definition = none;
}

-- FieldDef::FieldDef. No type of the map but string is without a size, so that the constructor
-- does not throw.
unfoldable pub make_field : FieldInfo → FieldDef
unfolding typed_field
make_field info = typed_field info (find info.type_name primitive_type_map)

-- FieldDef::typeSize.
unfoldable pub field_type_size : FieldDef → Result ℕ
field_type_size f =
    if is_object f.ros_type || is_string f.ros_type then err no_static_size else ok f.type_size

pub record BaseMsgDef : Type 0 where
  pub field_indexes : Assoc ℕ
  pub members : List MemberDef
  pub name : Bytes
  pub scope : Bytes

unfoldable pub make_member : MemberInfo → MemberDef
unfolding make_field
make_member (field_info i) = field_def (make_field i)
make_member (constant_info c) = constant_def c

-- field_indexes_->emplace(field_name, field_num++) for each field, in order.
unfoldable pub index_fields : ℕ → List MemberInfo → Assoc ℕ → Assoc ℕ
index_fields n [] m = m
index_fields n (field_info i ∷ is) m = index_fields (suc n) is (emplace i.field_name n m)
index_fields n (constant_info c ∷ is) m = index_fields n is m

-- The scope: the name up to its first '/', or nothing.
unfoldable pub scope_of : Bytes → Bytes
unfolding find_byte
scope_of name = elim (find_byte b'/' name) [ some slash_pos ↦ take slash_pos name | none ↦ [] ]

-- BaseMsgDef::BaseMsgDef.
unfoldable pub make_base : List MemberInfo → Bytes → BaseMsgDef
unfolding make_member index_fields scope_of
make_base infos name = record {
  field_indexes = index_fields 0 infos [];
  members = map make_member infos;
  name = name;
  scope = scope_of name;
}

-- BaseMsgDef::getMemberName.
unfoldable pub get_member_name : MemberDef → Bytes
get_member_name (field_def f) = f.parsed_info.field_name
get_member_name (constant_def c) = c.constant_name

-- The definition that setTypeDefinition picks: the scoped name wins over the plain one.
unfoldable pub pick_definition : Assoc BaseMsgDef → Bytes → Bytes → Option Bytes → Option Bytes
unfolding contains
pick_definition definitions scope type_name before =
    let plain = if contains type_name definitions then some type_name else before in
    let scoped_name = scope ++ (b'/' ∷ type_name) in
    if contains scoped_name definitions then some scoped_name else plain

-- The pointer is stored, and must not be null.
unfoldable pub store_definition : FieldDef → Option Bytes → Result FieldDef
store_definition f none = err (unknown_embedded_type f.parsed_info.type_name)
store_definition f (some k) = ok (record f { type_definition = some k })

-- FieldDef::setTypeDefinition.
unfoldable pub set_type_definition : Assoc BaseMsgDef → Bytes → FieldDef → Result FieldDef
unfolding pick_definition store_definition
set_type_definition definitions scope f = do
  guard (is_object f.ros_type) not_object_type
  store_definition f (pick_definition definitions scope f.parsed_info.type_name f.type_definition)

-- The loop of BaseMsgDef::initializeFieldTypeDefinitions.
unfoldable pub init_members : Assoc BaseMsgDef → Bytes → List MemberDef → Result (List MemberDef)
init_members definitions scope [] = ok []
init_members definitions scope (constant_def c ∷ ms) = do
  rest ← init_members definitions scope ms
  ok (constant_def c ∷ rest)
init_members definitions scope (field_def f ∷ ms) = do
  f' ← (if is_object f.ros_type then set_type_definition definitions scope f else ok f)
  rest ← init_members definitions scope ms
  ok (field_def f' ∷ rest)

unfoldable pub initialize_field_type_definitions : Assoc BaseMsgDef → BaseMsgDef → Result BaseMsgDef
unfolding init_members
initialize_field_type_definitions definitions d = do
  ms ← init_members definitions d.scope d.members
  ok (record d { members = ms })

-- EmbeddedMsgDef::parseable_info_t and MsgDef::parseable_info_t.
pub record EmbeddedInfo : Type 0 where
  pub members : List MemberInfo
  pub type_name : Bytes

pub record MsgInfo : Type 0 where
  pub members : List MemberInfo
  pub embedded_definitions : List EmbeddedInfo

pub record MsgDef : Type 0 where
  pub base : BaseMsgDef
  pub embedded_definition_map : Assoc BaseMsgDef

-- embedded_definition_map_.emplace for each embedded definition, in order.
unfoldable pub embed_all : List EmbeddedInfo → Assoc BaseMsgDef → Assoc BaseMsgDef
embed_all [] m = m
embed_all (e ∷ es) m = embed_all es (emplace e.type_name (make_base e.members e.type_name) m)

-- Each embedded definition resolves its fields against the whole map.
unfoldable pub init_embedded : Assoc BaseMsgDef → Assoc BaseMsgDef → Result (Assoc BaseMsgDef)
init_embedded definitions [] = ok []
init_embedded definitions ((k, d) ∷ ds) = do
  d' ← initialize_field_type_definitions definitions d
  rest ← init_embedded definitions ds
  ok ((k, d') ∷ rest)

-- MsgDef::MsgDef.
unfoldable pub make_msg_def : MsgInfo → Bytes → Result MsgDef
unfolding embed_all
make_msg_def info name = do
  let definitions = embed_all info.embedded_definitions []
  base ← initialize_field_type_definitions definitions (make_base info.members name)
  embedded ← init_embedded definitions definitions
  ok (record { base = base; embedded_definition_map = embedded })
