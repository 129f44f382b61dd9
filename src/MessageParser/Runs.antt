-- ===== src/MessageParser/Runs.antt =====
-- A message with a text and a list of points, parsed.
use embag.Prelude.{length, drop, ◌++◌, true, ℕ, ◌≡◌, ◌≢◌, refl, List, [], ◌∷◌, All, arith}
use embag.Prelude.Int.{pos, negsuc}
use embag.Bytes.{Bytes, codes, bytes_eq, read_le, encode_le}
use embag.Result.{Result, ok, err, ◌>>=◌, stuck}
use embag.Assoc.{find, find-All, emplace, contains}
use embag.Assoc
use embag.RosType.{primitive_type_map, uint16, string, primitive_type_to_size}
use embag.Schema.{
  FieldInfo, MsgInfo, MsgDef, BaseMsgDef, field_info, make_msg_def, make_base,
  initialize_field_type_definitions, init_embedded, scope_of, set_type_definition, field_type_size,
}
use embag.Value.{in_vector}
use embag.Value
use embag.Value.Text.{to_string, decimal}
use embag.MessageParser.{parse, array_length, type_definition_of}
use embag.MessageParser.Layout.{
  Layout, leaf, items, fields, nil, cons, layout_object, layout_fields, layout_field, layout_item,
  layout_primitive, layout_array, layout_many, Shows,
}
use embag.MessageParser.Refines.{IsParsable, layout_message, ParsesAs, parse-layout_message}
use embag.MessageParser.Walk.{
  Step, field, index, follow, sub_path, sub_layout, pick, LeadsTo, follow-sub_path,
}
use embag.MessageParser.Fuel.{IsRanked, IsRankedMember, parse-not_stuck}
use embag.MessageParser.Text.{layout_text}
use embag.MessageParser.Printed.{parse-to_string}
use embag.MessageParser.Encode.{
  Datum, scalar, text, item_data, field_data, Data, no_data, more_data, encode_all, IsObject, Holds,
}
use embag.MessageParser.Decode.{parse-encode_all}
use embag.MessageParser.FromSchema.{make_msg_def-IsParsable}
use embag.Wrapper.{u32_at}

abbrev x_field : FieldInfo
x_field = record { type_name = codes "uint16"; array_size = pos 0; field_name = codes "x" }

abbrev path_info : MsgInfo
path_info = record {
  members =
      field_info
        (record { type_name = codes "string"; array_size = pos 0; field_name = codes "name" })
      ∷ field_info
          (record { type_name = codes "Point"; array_size = negsuc 0; field_name = codes "points" })
      ∷ [];
  embedded_definitions =
      record { members = field_info x_field ∷ []; type_name = codes "geo/Point" } ∷ [];
}

abbrev or_empty : Result MsgDef → MsgDef
or_empty (ok d) = d
or_empty (err e) = record {
  base = record { field_indexes = []; members = []; name = []; scope = [] };
  embedded_definition_map = [];
}

path_def : MsgDef
path_def = or_empty (make_msg_def path_info (codes "geo/Path"))

path_def-made : make_msg_def path_info (codes "geo/Path") ≡ ok path_def
unfolding path_def make_msg_def find contains initialize_field_type_definitions init_embedded
    make_base scope_of bytes_eq primitive_type_map set_type_definition emplace
path_def-made = refl

-- "ab", and the points 5 and 6.
abbrev path_bytes : Bytes
path_bytes = 2 ∷ 0 ∷ 0 ∷ 0 ∷ b'a' ∷ b'b' ∷ 2 ∷ 0 ∷ 0 ∷ 0 ∷ 5 ∷ 0 ∷ 6 ∷ 0 ∷ []

make_msg_def-IsParsable_example : IsParsable path_def
make_msg_def-IsParsable_example = make_msg_def-IsParsable path_info (codes "geo/Path") path_def-made

parse-layout_message_example :
    ParsesAs path_bytes (layout_message 2 path_def path_bytes 0) (parse 2 path_def path_bytes 0)
parse-layout_message_example =
    parse-layout_message 2 path_def path_bytes 0
      (make_msg_def-IsParsable path_info (codes "geo/Path") path_def-made)

abbrev point_layout : ℕ → Layout
point_layout o = fields ((codes "x", 0) ∷ []) (cons (leaf uint16 o) nil)

abbrev path_layout : Layout
path_layout =
    fields ((codes "name", 0) ∷ (codes "points", 1) ∷ []) (
      cons (leaf string 0) (cons (items (cons (point_layout 10) (cons (point_layout 12) nil))) nil))

path_layout-read : layout_message 2 path_def path_bytes 0 ≡ ok (path_layout, 14)
unfolding path_def layout_message layout_object make_msg_def find contains
    initialize_field_type_definitions init_embedded make_base scope_of bytes_eq primitive_type_map
    set_type_definition emplace u32_at field_type_size layout_fields layout_field layout_item
    layout_primitive read_le layout_array array_length layout_many type_definition_of
    primitive_type_to_size
path_layout-read = refl

-- points[1].x
abbrev second_x : List Step
second_x = field (codes "points") ∷ index 1 ∷ field (codes "x") ∷ []

follow-sub_path_example :
    (vs : _) × (parse 2 path_def path_bytes 0 ≡ ok (in_vector 0, vs))
    × LeadsTo path_bytes vs (follow vs second_x (in_vector 0)) (sub_path second_x path_layout)
follow-sub_path_example =
    follow-sub_path 2 path_def path_bytes 0 second_x path_layout 14
      (make_msg_def-IsParsable path_info (codes "geo/Path") path_def-made) path_layout-read

second_x_found : sub_path second_x path_layout ≡ ok (leaf uint16 12)
unfolding sub_path sub_layout pick Assoc.at find bytes_eq
second_x_found = refl

abbrev flat : Bytes → ℕ
flat k = 0

path_def-IsRanked : IsRanked flat 1 path_def
unfolding path_def make_msg_def find contains initialize_field_type_definitions init_embedded
    make_base scope_of bytes_eq primitive_type_map set_type_definition emplace
path_def-IsRanked = (
  ((λ k o t. omega arith), ((λ k o t. omega arith), tt)),
  λ k e found.
      find-All (λ (d : BaseMsgDef). All (IsRankedMember flat 0) d.members) k
        path_def.embedded_definition_map (((λ k' o t. cc), tt), tt) found,
)

parse-not_stuck_example : parse 2 path_def path_bytes 0 ≢ err stuck
parse-not_stuck_example =
    parse-not_stuck flat 1 2 path_def path_bytes 0
      (make_msg_def-IsParsable path_info (codes "geo/Path") path_def-made) path_def-IsRanked
      (omega arith)

parse-to_string_example :
    (vs : _) × (parse 2 path_def path_bytes 0 ≡ ok (in_vector 0, vs))
    × ((Value.deref vs (in_vector 0) >>= λ v. to_string decimal decimal 5 vs [] v)
        ≡ layout_text decimal decimal path_bytes 5 [] path_layout)
    × (layout_text decimal decimal path_bytes 5 [] path_layout ≢ err stuck)
parse-to_string_example =
    parse-to_string decimal decimal 2 5 path_def path_bytes 0 [] path_layout 14
      (make_msg_def-IsParsable path_info (codes "geo/Path") path_def-made) path_layout-read
      (omega arith)

abbrev point_data : ℕ → Datum
point_data x = field_data (more_data (scalar (x ∷ 0 ∷ [])) no_data)

abbrev path_data : Data
path_data = more_data (text (codes "ab")) (
    more_data (item_data true (more_data (point_data 5) (more_data (point_data 6) no_data)))
      no_data)

path_data-IsObject : IsObject path_def.embedded_definition_map 2 path_def.base path_data
unfolding path_def make_msg_def find contains initialize_field_type_definitions init_embedded
    make_base scope_of bytes_eq primitive_type_map set_type_definition emplace IsObject
    type_definition_of field_type_size primitive_type_to_size
path_data-IsObject = (
  (refl, (refl, refl, omega arith)),
  (
    (
      refl,
      refl,
      (refl, omega arith),
      (
        (_, refl, refl, ((refl, (refl, refl, refl)), tt)),
        ((_, refl, refl, ((refl, (refl, refl, refl)), tt)), tt),
      ),
    ),
    tt,
  ),
)

path_bytes-encode_all : drop 0 path_bytes ≡ encode_all path_data ++ []
unfolding encode_le
path_bytes-encode_all = refl

parse-encode_all_example :
    (t : Layout) × (o : ℕ) × (vs : _) × (parse 2 path_def path_bytes 0 ≡ ok (in_vector 0, vs))
    × Shows path_bytes vs 1 (length vs) 0 t
    × Holds path_bytes (field_data path_data) t
    × (layout_message 2 path_def path_bytes 0 ≡ ok (t, o))
    × (drop o path_bytes ≡ [])
parse-encode_all_example =
    parse-encode_all 2 path_def path_bytes 0 path_data []
      (make_msg_def-IsParsable path_info (codes "geo/Path") path_def-made) path_data-IsObject
      path_bytes-encode_all
