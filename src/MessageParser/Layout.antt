-- ===== src/MessageParser/Layout.antt =====
-- Where the parts of a message stand in its bytes, read field by field with no vector of values; and
-- how such a layout stands in a vector.
use embag.Prelude.{
  ℕ, zero, suc, ◌+◌, ◌*◌, ◌≤◌, ◌≡◌, true, some, List, [], ◌∷◌, if◌then◌else◌, get_elem?,
}
use embag.Bytes.{Bytes}
use embag.Result.{Result, ok, err, ◌>>=◌, stuck}
use embag.Assoc.{Assoc}
use embag.RosType.{RosType, is_object, is_string}
use embag.Schema.{FieldDef, MemberDef, field_def, constant_def, BaseMsgDef, field_type_size}
use embag.Value.{RosValue, primitive_info, primitive_array_info, array_info, object_info}
use embag.MessageParser.{is_zero, has_item_values, type_definition_of, array_length}
use embag.Wrapper.{u32_at}

-- A primitive value at an offset; n packed elements from an offset on; the items of an array; the
-- fields of an object.
mutual
  pub data Layout : Type 0 where
    leaf : RosType → ℕ → Layout
    packed : RosType → ℕ → ℕ → Layout
    items : Layouts → Layout
    fields : Assoc ℕ → Layouts → Layout

  pub data Layouts : Type 0 where
    nil : Layouts
    cons : Layout → Layouts → Layouts

abbrev pub count : Layouts → ℕ
count nil = 0
count (cons t ts) = suc (count ts)

-- n layouts one behind the other.
unfoldable pub layout_many : (ℕ → Result (Layout × ℕ)) → ℕ → ℕ → Result (Layouts × ℕ)
layout_many layout zero o = ok (nil, o)
layout_many layout (suc n) o = do
  (t, o1) ← layout o
  (ts, o2) ← layout_many layout n o1
  ok (cons t ts, o2)

module _ (definitions : Assoc BaseMsgDef) (buffer : Bytes) where
  unfoldable pub layout_primitive : FieldDef → ℕ → Result (Layout × ℕ)
  layout_primitive f o = do
    taken ←
        (if is_string f.ros_type then (do n ← u32_at buffer o; ok (n + 4)) else field_type_size f)
    ok (leaf f.ros_type o, o + taken)

  module _ (layout_object : BaseMsgDef → ℕ → Result (Layout × ℕ)) where
    unfoldable pub layout_item : FieldDef → ℕ → Result (Layout × ℕ)
    layout_item f o =
        if is_object f.ros_type
        then (do d ← type_definition_of definitions buffer f; layout_object d o)
        else layout_primitive f o

    unfoldable pub layout_array : FieldDef → ℕ → Result (Layout × ℕ)
    layout_array f o = do
      (n, o1) ← array_length definitions buffer f o
      (if has_item_values f.ros_type
          then (do (ts, o2) ← layout_many (layout_item f) n o1; ok (items ts, o2))
          else (do
            element_size ← field_type_size f
            ok (packed f.ros_type o1 n, o1 + n * element_size)))

    unfoldable pub layout_field : FieldDef → ℕ → Result (Layout × ℕ)
    layout_field f o =
        if is_zero f.parsed_info.array_size then layout_item f o else layout_array f o

    unfoldable pub layout_fields : List MemberDef → ℕ → Result (Layouts × ℕ)
    layout_fields [] o = ok (nil, o)
    layout_fields (constant_def c ∷ ms) o = layout_fields ms o
    layout_fields (field_def f ∷ ms) o = do
      (t, o1) ← layout_field f o
      (ts, o2) ← layout_fields ms o1
      ok (cons t ts, o2)

  unfoldable pub layout_object : ℕ → BaseMsgDef → ℕ → Result (Layout × ℕ)
  layout_object zero d o = err stuck
  layout_object (suc fuel) d o = do
    (ts, o') ← layout_fields (layout_object fuel) d.members o
    ok (fields d.field_indexes ts, o')

-- A layout stands at `slot`, and all below it from lo to hi: the children first, next to one
-- another, and then what is below each of them, with no position left over.
module _ (buffer : Bytes) (vs : List RosValue) where
  unfoldable mutual
    pub Shows : ℕ → ℕ → ℕ → Layout → Type 0
    Shows lo hi slot (leaf t o) =
        (lo ≡ hi) × (get_elem? vs slot ≡ some (primitive_info t o (some buffer)))
    Shows lo hi slot (packed e o n) =
        (lo ≡ hi) × (get_elem? vs slot ≡ some (primitive_array_info e o n (some buffer)))
    Shows lo hi slot (items ts) =
        (get_elem? vs slot
          ≡ some (array_info (record { has_base = true; offset = lo; len = count ts })))
        × (lo + count ts ≤ hi)
        × ShowsAll (lo + count ts) hi lo ts
    Shows lo hi slot (fields m ts) =
        (get_elem? vs slot
          ≡ some (object_info (record { has_base = true; offset = lo; len = count ts }) m))
        × (lo + count ts ≤ hi)
        × ShowsAll (lo + count ts) hi lo ts

    pub ShowsAll : ℕ → ℕ → ℕ → Layouts → Type 0
    ShowsAll lo hi slot nil = lo ≡ hi
    ShowsAll lo hi slot (cons t ts) =
        (mid : ℕ) × (lo ≤ mid) × (mid ≤ hi) × Shows lo mid slot t × ShowsAll mid hi (suc slot) ts
