-- ===== src/Schema/Build.antt =====
-- What the constructors of FieldDef, BaseMsgDef and MsgDef compute (lib/ros_msg_types.h).
use embag.Prelude.{ℕ, suc, ◌+◌, ◌≡◌, Option, none, some, List, [], ◌∷◌, arith, if◌then◌else◌}
use embag.Bytes.{Bytes, bytes_eq}
use embag.Assoc.{Assoc, find, emplace, find-emplace}
use embag.Schema.{MemberInfo, field_info, constant_info, index_fields, make_base}

-- The position of the first field with a name among the fields, constants not counted.
abbrev pub field_position : Bytes → List MemberInfo → Option ℕ
field_position k [] = none
field_position k (field_info i ∷ is) =
    if bytes_eq i.field_name k
    then some 0
    else (elim (field_position k is) [ none ↦ none | some n ↦ some (suc n) ])
field_position k (constant_info c ∷ is) = field_position k is

abbrev offset_by : ℕ → Option ℕ → Option ℕ
offset_by n none = none
offset_by n (some i) = some (n + i)

abbrev or_else : Option ℕ → Option ℕ → Option ℕ
or_else none o = o
or_else (some n) o = some n

find-index_fields :
    (k : Bytes) (is : List MemberInfo) (n : ℕ) (m : Assoc ℕ)
    → find k (index_fields n is m) ≡ or_else (find k m) (offset_by n (field_position k is))
unfolding index_fields
find-index_fields k [] n m = ground arith
find-index_fields k (constant_info c ∷ is) n m = find-index_fields k is n m
find-index_fields k (field_info i ∷ is) n m = ground (
  arith,
  find-index_fields k is (suc n) (emplace i.field_name n m),
  find-emplace i.field_name k n m,
)

-- The index that a definition keeps for a name is the position of the first field so named among
-- its fields, constants not counted, and no other name has an index.
pub find-make_base :
    (k : Bytes) (is : List MemberInfo) (name : Bytes)
    → find k (make_base is name).field_indexes ≡ field_position k is
unfolding make_base find
find-make_base k is name = ground (arith, find-index_fields k is 0 [])
