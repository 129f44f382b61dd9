-- ===== src/Value/Runs.antt =====
-- A value of a primitive array, visited.
use embag.Prelude.{◌≡◌, some, [], ◌∷◌}
use embag.RosType.{uint16}
use embag.Value.{RosValue, primitive_array_info, get_values}
use embag.Value.Visit.{visit_all, visit_all-get_values}

abbrev two_numbers : RosValue
two_numbers = primitive_array_info uint16 0 2 (some (5 ∷ 0 ∷ 6 ∷ 0 ∷ []))

visit_all-get_values_example : visit_all two_numbers ≡ get_values two_numbers
visit_all-get_values_example = visit_all-get_values two_numbers
