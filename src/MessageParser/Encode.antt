-- ===== src/MessageParser/Encode.antt =====
-- The bytes of a message by the ROS serialisation, read back by MessageParser
-- (lib/message_parser.cc).
use embag.Prelude.{
  ℕ, zero, suc, ◌*◌, ◌<◌, ◌^◌, ◌≡◌, Bool, true, false, some, List, [], ◌∷◌, ◌++◌, drop, length,
}
use embag.Bytes.{Bytes, copy_n, encode_le}
use embag.Result.{ok}
use embag.Assoc.{Assoc}
use embag.Prelude.Int.{to_u32}
use embag.RosType.{is_object, is_string}
use embag.Schema.{FieldDef, MemberDef, field_def, constant_def, BaseMsgDef, field_type_size}
use embag.Value.{primitive_info, as_string}
use embag.MessageParser.{is_zero, is_minus_one, has_item_values, type_definition_of}
use embag.MessageParser.Layout.{Layout, leaf, packed, items, fields, Layouts, nil, cons}

-- The data of a message: the bytes of a scalar; a text; the bytes of n scalars; the items of an
-- array; the fields of an object. An array of no fixed length is `counted`.
mutual
  pub data Datum : Type 0 where
    scalar : Bytes → Datum
    text : Bytes → Datum
    block : (counted : Bool) (n : ℕ) → Bytes → Datum
    item_data : (counted : Bool) → Data → Datum
    field_data : Data → Datum

  pub data Data : Type 0 where
    no_data : Data
    more_data : Datum → Data → Data

abbrev pub how_many : Data → ℕ
how_many no_data = 0
how_many (more_data d ds) = suc (how_many ds)

abbrev pub count_bytes : Bool → ℕ → Bytes
count_bytes true n = encode_le 4 n
count_bytes false n = []

abbrev mutual
  pub encode : Datum → Bytes
  encode (scalar s) = s
  encode (text s) = encode_le 4 (length s) ++ s
  encode (block counted n s) = count_bytes counted n ++ s
  encode (item_data counted ds) = count_bytes counted (how_many ds) ++ encode_all ds
  encode (field_data ds) = encode_all ds

  pub encode_all : Data → Bytes
  encode_all no_data = []
  encode_all (more_data d ds) = encode d ++ encode_all ds

abbrev pub fields_of : List MemberDef → List FieldDef
fields_of [] = []
fields_of (constant_def c ∷ ms) = fields_of ms
fields_of (field_def f ∷ ms) = f ∷ fields_of ms

-- The length of an array: a number of 32 bits, or that of the definition.
abbrev pub IsLength : FieldDef → Bool → ℕ → Type 0
IsLength f true n = (is_minus_one f.parsed_info.array_size ≡ true) × (n < 256 ^ 4)
IsLength f false n =
    (is_minus_one f.parsed_info.array_size ≡ false) × (to_u32 f.parsed_info.array_size ≡ n)

module _ (definitions : Assoc BaseMsgDef) (IsObject : BaseMsgDef → Data → Type 0) where
  -- Data of the type of a field, not counting its array.
  abbrev pub IsItem : FieldDef → Datum → Type 0
  IsItem f (scalar s) =
      (is_object f.ros_type ≡ false)
      × (is_string f.ros_type ≡ false)
      × (field_type_size f ≡ ok (length s))
  IsItem f (text s) =
      (is_object f.ros_type ≡ false) × (is_string f.ros_type ≡ true) × (length s < 256 ^ 4)
  IsItem f (field_data ds) =
      (d : BaseMsgDef) × (is_object f.ros_type ≡ true)
      × (type_definition_of definitions [] f ≡ ok d)
      × IsObject d ds
  IsItem f _ = ⊥

  abbrev pub AreItems : FieldDef → Data → Type 0
  AreItems f no_data = Unit
  AreItems f (more_data d ds) = IsItem f d × AreItems f ds

  abbrev pub IsField : FieldDef → Datum → Type 0
  IsField f (block counted n s) =
      (size : ℕ) × (is_zero f.parsed_info.array_size ≡ false)
      × (has_item_values f.ros_type ≡ false)
      × IsLength f counted n
      × (field_type_size f ≡ ok size)
      × (length s ≡ n * size)
  IsField f (item_data counted ds) =
      (is_zero f.parsed_info.array_size ≡ false)
      × (has_item_values f.ros_type ≡ true)
      × IsLength f counted (how_many ds)
      × AreItems f ds
  IsField f d = (is_zero f.parsed_info.array_size ≡ true) × IsItem f d

  abbrev pub AreFields : List FieldDef → Data → Type 0
  AreFields [] no_data = Unit
  AreFields [] (more_data d ds) = ⊥
  AreFields (f ∷ fs) no_data = ⊥
  AreFields (f ∷ fs) (more_data d ds) = IsField f d × AreFields fs ds

-- Data of the type of a definition, whose types are nested at most n deep.
unfoldable pub IsObject : Assoc BaseMsgDef → ℕ → BaseMsgDef → Data → Type 0
IsObject definitions zero d ds = ⊥
IsObject definitions (suc n) d ds =
    AreFields definitions (IsObject definitions n) (fields_of d.members) ds

module _ (buffer : Bytes) where
  -- A layout leads to the data: a scalar and a block to their bytes, a text to what as<std::string>
  -- reads.
  unfoldable mutual
    pub Holds : Datum → Layout → Type 0
    Holds (scalar s) (leaf t o) = copy_n (length s) (drop o buffer) ≡ some s
    Holds (text s) (leaf t o) = as_string (primitive_info t o (some buffer)) ≡ ok s
    Holds (block counted n s) (packed t o m) =
        (m ≡ n) × (copy_n (length s) (drop o buffer) ≡ some s)
    Holds (item_data counted ds) (items ts) = HoldAll ds ts
    Holds (field_data ds) (fields m ts) = HoldAll ds ts
    Holds d t = ⊥

    pub HoldAll : Data → Layouts → Type 0
    HoldAll no_data nil = Unit
    HoldAll (more_data d ds) (cons t ts) = Holds d t × HoldAll ds ts
    HoldAll ds ts = ⊥
