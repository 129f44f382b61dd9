-- ===== src/RosType.antt =====
-- RosValue::Type with primitiveTypeToSize and primitiveTypeToFormat (lib/ros_value.h,
-- lib/ros_value.cc), and FieldDef::primitive_type_map (lib/embag.cc).
pub mod Table
mod Runs
use embag.Prelude.{ℕ, Bool, true, false, List, [], ◌∷◌, ◌||◌}
use embag.Bytes.{Bytes, codes}
use embag.Result.{Result, ok, err, no_static_size, no_format}
use embag.Assoc.{Assoc}

pub data RosType : Type 0 where
  ros_bool int8 uint8 int16 uint16 int32 uint32 int64 uint64 : RosType
  float32 float64 string ros_time ros_duration : RosType
  object array primitive_array : RosType

pub RosType-discrete : Discrete RosType
RosType-discrete = hlevel

-- operator== of the enum.
abbrev pub is_object : RosType → Bool
is_object object = true
is_object _ = false

abbrev pub is_string : RosType → Bool
is_string string = true
is_string _ = false

abbrev pub is_array : RosType → Bool
is_array array = true
is_array _ = false

abbrev pub is_primitive_array : RosType → Bool
is_primitive_array primitive_array = true
is_primitive_array _ = false

unfoldable pub primitive_type_to_size : RosType → Result ℕ
primitive_type_to_size ros_bool = ok 1
primitive_type_to_size int8 = ok 1
primitive_type_to_size uint8 = ok 1
primitive_type_to_size int16 = ok 2
primitive_type_to_size uint16 = ok 2
primitive_type_to_size int32 = ok 4
primitive_type_to_size uint32 = ok 4
primitive_type_to_size int64 = ok 8
primitive_type_to_size uint64 = ok 8
primitive_type_to_size float32 = ok 4
primitive_type_to_size float64 = ok 8
primitive_type_to_size ros_time = ok 8
primitive_type_to_size ros_duration = ok 8
primitive_type_to_size _ = err no_static_size

unfoldable pub primitive_type_to_format : RosType → Result Bytes
primitive_type_to_format ros_bool = ok (codes "?")
primitive_type_to_format int8 = ok (codes "b")
primitive_type_to_format uint8 = ok (codes "B")
primitive_type_to_format int16 = ok (codes "h")
primitive_type_to_format uint16 = ok (codes "H")
primitive_type_to_format int32 = ok (codes "i")
primitive_type_to_format uint32 = ok (codes "I")
primitive_type_to_format int64 = ok (codes "q")
primitive_type_to_format uint64 = ok (codes "Q")
primitive_type_to_format float32 = ok (codes "f")
primitive_type_to_format float64 = ok (codes "d")
primitive_type_to_format ros_time = ok (codes "II")
primitive_type_to_format ros_duration = ok (codes "II")
primitive_type_to_format _ = err no_format

unfoldable pub primitive_type_map : Assoc RosType
primitive_type_map =
    (codes "bool", ros_bool)
    ∷ (codes "int8", int8)
    ∷ (codes "uint8", uint8)
    ∷ (codes "int16", int16)
    ∷ (codes "uint16", uint16)
    ∷ (codes "int32", int32)
    ∷ (codes "uint32", uint32)
    ∷ (codes "int64", int64)
    ∷ (codes "uint64", uint64)
    ∷ (codes "float32", float32)
    ∷ (codes "float64", float64)
    ∷ (codes "string", string)
    ∷ (codes "time", ros_time)
    ∷ (codes "duration", ros_duration)
    ∷ (codes "byte", int8)
    ∷ (codes "char", uint8)
    ∷ []
