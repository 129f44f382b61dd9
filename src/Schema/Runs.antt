-- ===== src/Schema/Runs.antt =====
-- A message definition with an embedded one.
use embag.Prelude.{◌≡◌, refl, [], ◌∷◌}
use embag.Prelude.Int.{pos, negsuc}
use embag.Bytes.{codes, bytes_eq}
use embag.Result.{Result, ok, err}
use embag.Assoc.{Assoc, find, contains, emplace}
use embag.RosType.{primitive_type_map}
use embag.Schema.{
  FieldInfo, field_info, constant_info, MsgInfo, MsgDef, BaseMsgDef,
  initialize_field_type_definitions, init_embedded, scope_of, make_base, make_msg_def,
  set_type_definition,
}
use embag.Schema.Build.{field_position, find-make_base}
use embag.Schema.Links.{BaseOutcome, initialize_field_type_definitions-Outcome}
use embag.Schema.Resolve.{AllResolved, make_msg_def-AllResolved}

abbrev origin_field : FieldInfo
origin_field = record {
  type_name = codes "Point";
  array_size = negsuc 0;
  field_name = codes "origin";
}

abbrev x_field : FieldInfo
x_field = record { type_name = codes "float64"; array_size = pos 0; field_name = codes "x" }

abbrev grid_info : MsgInfo
grid_info = record {
  members =
      constant_info
        (record { type_name = codes "uint8"; constant_name = codes "FREE"; value = codes "0" })
      ∷ field_info x_field
      ∷ field_info origin_field
      ∷ [];
  embedded_definitions =
      record { members = field_info x_field ∷ []; type_name = codes "geometry_msgs/Point" } ∷ [];
}

abbrev or_empty : Result MsgDef → MsgDef
or_empty (ok d) = d
or_empty (err e) = record {
  base = record { field_indexes = []; members = []; name = []; scope = [] };
  embedded_definition_map = [];
}

grid_def : MsgDef
grid_def = or_empty (make_msg_def grid_info (codes "geometry_msgs/Grid"))

grid_def-made : make_msg_def grid_info (codes "geometry_msgs/Grid") ≡ ok grid_def
unfolding grid_def make_msg_def find contains initialize_field_type_definitions init_embedded
    make_base scope_of bytes_eq primitive_type_map set_type_definition emplace
grid_def-made = refl

make_msg_def-AllResolved_example : AllResolved grid_def
make_msg_def-AllResolved_example =
    make_msg_def-AllResolved grid_info (codes "geometry_msgs/Grid") grid_def-made

abbrev two_points : Assoc BaseMsgDef
two_points =
    (codes "Point", make_base [] (codes "Point"))
    ∷ (codes "geometry_msgs/Point", make_base [] (codes "geometry_msgs/Point"))
    ∷ []

initialize_field_type_definitions-Outcome_example :
    BaseOutcome two_points grid_info.members (codes "geometry_msgs/Grid") (
      initialize_field_type_definitions two_points
        (make_base grid_info.members (codes "geometry_msgs/Grid")))
initialize_field_type_definitions-Outcome_example =
    initialize_field_type_definitions-Outcome two_points grid_info.members
      (codes "geometry_msgs/Grid")

find-make_base_example :
    find (codes "origin") (make_base grid_info.members (codes "geometry_msgs/Grid")).field_indexes
    ≡ field_position (codes "origin") grid_info.members
find-make_base_example =
    find-make_base (codes "origin") grid_info.members (codes "geometry_msgs/Grid")
