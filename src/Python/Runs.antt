-- ===== src/Python/Runs.antt =====
-- Conversions to Python at the sample bag and at small arrays.
use embag.Prelude.{
  ℕ, ◌≡◌, ◌≢◌, refl, true, false, none, some, List, [], ◌∷◌, arith, All, length, inl, inr,
}
use embag.Prelude.Int.{pos, negsuc}
use embag.Bytes.{Bytes, codes, bytes_eq}
use embag.Result.{ok, err, out_of_range, stuck}
use embag.Assoc.{Assoc, find, find-All, contains}
use embag.Schema.{MsgDef, FieldDef, BaseMsgDef, field_def}
use embag.RosType.{uint8, object, primitive_type_map}
use embag.Topics.Cache.{IsCache}
use embag.Value.{RosValue, primitive_array_info, in_vector, deref}
use embag.View.{new_wrapper}
use embag.Wrapper.{Wrapper}
use embag.Sample.Bags.{bag, connection}
use embag.Sample.Definitions.{
  grammar, empty-IsCache, definition, definition-fresh, definition-made, info, sample_buffer,
  definition_layout, definition-read,
}
use embag.Message.{MessageState}
use embag.MessageParser.Layout.{Shows}
use embag.MessageParser.Fuel.{IsRankedMember}
use embag.MessageParser.FromSchema.{make_msg_def-IsParsable}
use embag.Python.{
  Options, keep_time, default_array_blob_types, blob_bytes, py_bytes, py_list, empty_list,
  ros_value_to_list, primitive_array_to_py_object,
}
use embag.Python.Api.{compat_message}
use embag.Python.Messages.{compat_message-Shows}
use embag.Python.Blobs.{append_ints, blob_bytes-ros_value_to_list, empty_blob_throws}
use embag.Python.Schema.{is_primitive, schema_for_field}
use embag.Python.SchemaEnds.{IsNamedMember, schema_for_field-not_stuck}

abbrev at_message : Wrapper
unfolding new_wrapper
at_message = record (new_wrapper bag [] (0 ∷ [])) {
  current_message_buffer = some sample_buffer;
  current_message_data_offset = 11;
  current_message_len = 1;
}

compat_message-Shows_example :
    (m : MessageState) × (after : Assoc MsgDef) × (compat_message grammar 1 at_message []
      ≡ ok (codes "/n", in_vector 0, record { secs = 0; nsecs = 0 }, m, after))
    × Shows sample_buffer m.values 1 (length m.values) 0 definition_layout
    × IsCache grammar bag after
unfolding at_message
compat_message-Shows_example =
    compat_message-Shows grammar 1 at_message [] connection definition sample_buffer
      definition_layout 12 empty-IsCache refl definition-fresh
      (make_msg_def-IsParsable info (codes "std_msgs/UInt8") definition-made) refl definition-read

abbrev options : Options
options = record {
  array_blob_types = default_array_blob_types;
  blob_types_as_memoryview = false;
  ros_time_py_type = keep_time;
}

-- Two bytes at 3, and no byte at 5.
abbrev arrays : List RosValue
arrays =
    primitive_array_info uint8 3 2 (some (codes "abcde"))
    ∷ primitive_array_info uint8 5 0 (some (codes "abcde"))
    ∷ []

first_array :
    deref arrays (in_vector 0) ≡ ok (primitive_array_info uint8 3 2 (some (codes "abcde")))
unfolding deref
first_array = refl

second_array :
    deref arrays (in_vector 1) ≡ ok (primitive_array_info uint8 5 0 (some (codes "abcde")))
unfolding deref
second_array = refl

blob_bytes-ros_value_to_list_example :
    (blob_bytes arrays (primitive_array_info uint8 3 2 (some (codes "abcde")))
      ≡ ok (py_bytes (codes "de")))
    × (ros_value_to_list arrays 1 options (in_vector 0)
        ≡ ok (py_list (append_ints (codes "de") empty_list)))
blob_bytes-ros_value_to_list_example =
    blob_bytes-ros_value_to_list arrays (in_vector 0) 3 1 (codes "abcde") (codes "de") 0 options
      first_array refl (omega arith)

empty_blob_throws_example :
    primitive_array_to_py_object arrays 1 options (in_vector 1) ≡ err out_of_range
empty_blob_throws_example =
    empty_blob_throws arrays (in_vector 1) 5 (codes "abcde") 0 options second_array (omega arith)
      (omega arith) (unfold default_array_blob_types in refl) refl

abbrev data_field : FieldDef
data_field = record {
  parsed_info = record { type_name = codes "uint8"; array_size = pos 0; field_name = codes "x" };
  ros_type = uint8;
  type_size = 1;
  type_definition = none;
}

abbrev points_field : FieldDef
points_field = record {
  parsed_info = record {
    type_name = codes "Point";
    array_size = negsuc 0;
    field_name = codes "points";
  };
  ros_type = object;
  type_size = 0;
  type_definition = some (codes "Point");
}

abbrev point_definitions : Assoc BaseMsgDef
point_definitions =
    (
      codes "Point",
      record {
        field_indexes = (codes "x", 0) ∷ [];
        members = field_def data_field ∷ [];
        name = codes "Point";
        scope = [];
      },
    )
    ∷ []

data_field-named : is_primitive data_field ≡ true
unfolding contains find bytes_eq primitive_type_map
data_field-named = refl

abbrev flat : Bytes → ℕ
flat k = 0

schema_for_field-not_stuck_example : schema_for_field point_definitions 2 points_field ≢ err stuck
schema_for_field-not_stuck_example =
    schema_for_field-not_stuck point_definitions flat
      (λ k d e.
        find-All
          (λ (d : BaseMsgDef). All (λ m. IsRankedMember flat 0 m × IsNamedMember m) d.members) k
          point_definitions ((((λ k' o t. cc), inl data_field-named), tt), tt) e)
      2 1 points_field (omega arith) ((λ k o t. omega arith), inr refl)
