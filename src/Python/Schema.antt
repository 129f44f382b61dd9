-- ===== src/Python/Schema.antt =====
-- SchemaBuilder (python/schema_builder.h, python/schema_builder.cc).
use embag.Prelude.{ℕ, zero, suc, Bool, Option, List, [], ◌∷◌, if◌then◌else◌}
use embag.Bytes.{Bytes, codes}
use embag.Result.{Result, ok, err, ◌>>=◌, guard, ◌>>◌, stuck, topic_not_found}
use embag.Assoc.{Assoc, contains}
use embag.RosType.{primitive_type_map}
use embag.Schema.{FieldDef, MemberDef, field_def, constant_def, BaseMsgDef, MsgInfo, MsgDef}
use embag.Bag.{Bag}
use embag.Topics.{topic_in_bag, msg_def_for_topic, connections_for_topic}
use embag.MessageParser.{is_zero, type_definition_of}
use embag.Python.{PyObject, py_str, py_dict, PyDict, empty_dict, set_item, c_str}

-- The loops over the members: an entry for each field, by its name.
unfoldable pub schema_loop : (FieldDef → Result PyObject) → List MemberDef → PyDict → Result PyDict
schema_loop schema [] dict = ok dict
schema_loop schema (constant_def c ∷ ms) dict = schema_loop schema ms dict
schema_loop schema (field_def f ∷ ms) dict = do
  o ← schema f
  schema_loop schema ms (set_item (c_str f.parsed_info.field_name) o dict)

abbrev pub is_primitive : FieldDef → Bool
is_primitive f = contains f.parsed_info.type_name primitive_type_map

abbrev pub primitive_schema : Bytes → PyDict
primitive_schema type_name = set_item (codes "type") (py_str type_name) empty_dict

abbrev pub object_schema : PyDict → PyDict
object_schema children =
    set_item (codes "children") (py_dict children)
      (set_item (codes "type") (py_str (codes "object")) empty_dict)

abbrev pub primitive_array_schema : Bytes → PyDict
primitive_array_schema type_name =
    set_item (codes "type") (py_str (codes "array"))
      (set_item (codes "member_type") (py_str type_name) empty_dict)

abbrev pub object_array_schema : PyDict → PyDict
object_array_schema children =
    set_item (codes "type") (py_str (codes "array"))
      (set_item (codes "children") (py_dict children) empty_dict)

module _ (definitions : Assoc BaseMsgDef) where
  -- The children of a field of an embedded type.
  unfoldable pub embedded_schema : (FieldDef → Result PyObject) → FieldDef → Result PyDict
  unfolding schema_loop
  embedded_schema schema f = do
    d ← type_definition_of definitions [] f
    schema_loop schema d.members empty_dict

  -- SchemaBuilder::schemaForField; `fuel` bounds the depth of the types.
  unfoldable pub schema_for_field : ℕ → FieldDef → Result PyObject
  unfolding embedded_schema
  schema_for_field zero f = err stuck
  schema_for_field (suc fuel) f =
      if is_primitive f
      then ok (
          py_dict (
            if is_zero f.parsed_info.array_size
            then primitive_schema f.parsed_info.type_name
            else primitive_array_schema f.parsed_info.type_name))
      else (do
        children ← embedded_schema (schema_for_field fuel) f
        ok (
            py_dict (
              if is_zero f.parsed_info.array_size
              then object_schema children
              else object_array_schema children)))

-- SchemaBuilder::generateSchema, with the bag and its message_schemata_ after the call. What
-- connectionsForTopic returns is not used.
unfoldable pub generate_schema :
    (Bytes → Option MsgInfo)
    → ℕ
    → Bag
    → Bytes
    → Assoc MsgDef
    → Result (PyObject × (Bag × Assoc MsgDef))
unfolding schema_for_field schema_loop
generate_schema grammar fuel bag topic schemata = do
  guard (topic_in_bag topic bag) (topic_not_found topic)
  (d, schemata') ← msg_def_for_topic grammar bag topic schemata
  let connections = connections_for_topic topic bag
  schema ← schema_loop (schema_for_field d.embedded_definition_map fuel) d.base.members empty_dict
  ok (py_dict schema, (connections.1, schemata'))
