-- ===== src/Sample/Definitions.antt =====
-- A grammar for one message definition, and the definition.
use embag.Prelude.{◌≡◌, refl, Option, none, some, true, List, [], ◌∷◌}
use embag.Prelude.Int.{pos}
use embag.Bytes.{Bytes, codes, bytes_eq}
use embag.Result.{Result, ok, err}
use embag.Assoc.{find, emplace}
use embag.RosType.{uint8, primitive_type_map, primitive_type_to_size}
use embag.MessageParser.Layout.{
  Layout, leaf, fields, nil, cons, layout_object, layout_fields, layout_field, layout_item,
  layout_primitive,
}
use embag.MessageParser.Refines.{layout_message}
use embag.MessageParser.{
  parse, init_object, init_children, init_child, init_primitive, count_child, value_of_field,
  emplace_fields, with_children, with_place,
}
use embag.Value.{RosValue, object_info, primitive_info, in_vector, make_primitive}
use embag.Schema.{
  MsgInfo, MsgDef, field_info, make_msg_def, make_base, initialize_field_type_definitions,
  init_embedded, scope_of, field_type_size,
}
use embag.Sample.Bags.{bag}
use embag.Topics.{parse_msg_def}
use embag.Topics.Cache.{IsCache, fresh_definition}

abbrev pub info : MsgInfo
info = record {
  members =
      field_info
        (record { type_name = codes "uint8"; array_size = pos 0; field_name = codes "data" })
      ∷ [];
  embedded_definitions = [];
}

-- A grammar that knows one text.
abbrev pub grammar : Bytes → Option MsgInfo
grammar def = some info

pub empty-IsCache : IsCache grammar bag []
empty-IsCache topic d e = let never : none ≡ some d = unfold find in e in cc

abbrev pub or_nothing : Result MsgDef → MsgDef
or_nothing (ok d) = d
or_nothing (err e) = record {
  base = record { field_indexes = []; members = []; name = []; scope = [] };
  embedded_definition_map = [];
}

pub definition : MsgDef
definition = or_nothing (fresh_definition grammar bag (codes "/n"))

pub definition-fresh : fresh_definition grammar bag (codes "/n") ≡ ok definition
unfolding definition fresh_definition parse_msg_def make_msg_def find
    initialize_field_type_definitions init_embedded make_base scope_of bytes_eq primitive_type_map
    emplace
definition-fresh = refl

pub definition-made : make_msg_def info (codes "std_msgs/UInt8") ≡ ok definition
unfolding definition fresh_definition parse_msg_def make_msg_def find
    initialize_field_type_definitions init_embedded make_base scope_of bytes_eq primitive_type_map
    emplace
definition-made = refl

abbrev pub sample_buffer : Bytes
sample_buffer = codes "header and data"

abbrev pub definition_layout : Layout
definition_layout = fields ((codes "data", 0) ∷ []) (cons (leaf uint8 11) nil)

pub definition-read : layout_message 1 definition sample_buffer 11 ≡ ok (definition_layout, 12)
unfolding definition fresh_definition parse_msg_def make_msg_def find
    initialize_field_type_definitions init_embedded make_base scope_of bytes_eq primitive_type_map
    emplace layout_message layout_object layout_fields layout_field layout_item layout_primitive
    field_type_size primitive_type_to_size
definition-read = refl

abbrev pub definition_values : List RosValue
definition_values =
    object_info (record { has_base = true; offset = 1; len = 1 }) ((codes "data", 0) ∷ [])
    ∷ primitive_info uint8 11 (some sample_buffer)
    ∷ []

pub definition-parsed : parse 1 definition sample_buffer 11 ≡ ok (in_vector 0, definition_values)
unfolding definition fresh_definition parse_msg_def make_msg_def find
    initialize_field_type_definitions init_embedded make_base scope_of bytes_eq primitive_type_map
    emplace field_type_size primitive_type_to_size parse make_primitive init_object init_children
    init_child init_primitive count_child value_of_field emplace_fields with_children with_place
definition-parsed = refl
