-- ===== src/RosType/Runs.antt =====
-- The tables of types at concrete types.
use embag.Prelude.{ℕ, ◌≤◌, ◌≡◌, ◌⊎◌}
use embag.Bytes.{Bytes}
use embag.Result.{ok, err, no_static_size, no_format}
use embag.RosType.{RosType, primitive_type_to_size, primitive_type_to_format}
use embag.RosType.Table.{format_size, size-format_agree}

size-format_agree_example :
    ((n : ℕ) × (f : Bytes) × (primitive_type_to_size RosType.uint16 ≡ ok n)
      × (primitive_type_to_format RosType.uint16 ≡ ok f)
      × (format_size f ≡ n)
      × (1 ≤ n)
      × (n ≤ 8))
    ⊎ ((primitive_type_to_size RosType.uint16 ≡ err no_static_size)
        × (primitive_type_to_format RosType.uint16 ≡ err no_format))
size-format_agree_example = size-format_agree RosType.uint16
