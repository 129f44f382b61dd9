-- ===== src/RosType/Table.antt =====
-- The tables of RosValue::Type against one another (lib/ros_value.cc, lib/embag.cc).
use embag.Prelude.{
  ℕ, ◌+◌, ◌≤◌, ◌≡◌, refl, ◌⊎◌, inl, inr, some, [], ◌∷◌, arith, ◌==◌, if◌then◌else◌, All,
}
use embag.Bytes.{Bytes, codes}
use embag.Result.{ok, err, no_static_size, no_format}
use embag.Assoc.{find, find-All}
use embag.RosType.{
  RosType, string, primitive_type_to_size, primitive_type_to_format, primitive_type_map,
}

-- The bytes of a struct format in Python's table of standard sizes.
abbrev pub format_size : Bytes → ℕ
format_size [] = 0
format_size (c ∷ s) =
    (if c == b'?'
      then 1
      else (if c == b'b'
          then 1
          else (if c == b'B'
              then 1
              else (if c == b'h'
                  then 2
                  else (if c == b'H'
                      then 2
                      else (if c == b'i'
                          then 4
                          else (if c == b'I'
                              then 4
                              else (if c == b'q'
                                  then 8
                                  else (if c == b'Q'
                                      then 8
                                      else (if c == b'f'
                                          then 4
                                          else (if c == b'd' then 8 else 0)))))))))))
    + format_size s

-- A type either has both a size and a struct format, and the format stands for that many bytes
-- without padding, with a size from 1 to 8; or asking for either throws.
pub size-format_agree :
    (t : RosType)
    → ((n : ℕ) × (f : Bytes) × (primitive_type_to_size t ≡ ok n)
        × (primitive_type_to_format t ≡ ok f)
        × (format_size f ≡ n)
        × (1 ≤ n)
        × (n ≤ 8))
      ⊎ ((primitive_type_to_size t ≡ err no_static_size)
          × (primitive_type_to_format t ≡ err no_format))
unfolding primitive_type_to_size primitive_type_to_format
size-format_agree RosType.ros_bool = inl (1, codes "?", refl, refl, refl, omega arith, omega arith)
size-format_agree RosType.int8 = inl (1, codes "b", refl, refl, refl, omega arith, omega arith)
size-format_agree RosType.uint8 = inl (1, codes "B", refl, refl, refl, omega arith, omega arith)
size-format_agree RosType.int16 = inl (2, codes "h", refl, refl, refl, omega arith, omega arith)
size-format_agree RosType.uint16 = inl (2, codes "H", refl, refl, refl, omega arith, omega arith)
size-format_agree RosType.int32 = inl (4, codes "i", refl, refl, refl, omega arith, omega arith)
size-format_agree RosType.uint32 = inl (4, codes "I", refl, refl, refl, omega arith, omega arith)
size-format_agree RosType.int64 = inl (8, codes "q", refl, refl, refl, omega arith, omega arith)
size-format_agree RosType.uint64 = inl (8, codes "Q", refl, refl, refl, omega arith, omega arith)
size-format_agree RosType.float32 = inl (4, codes "f", refl, refl, refl, omega arith, omega arith)
size-format_agree RosType.float64 = inl (8, codes "d", refl, refl, refl, omega arith, omega arith)
size-format_agree RosType.ros_time = inl (8, codes "II", refl, refl, refl, omega arith, omega arith)
size-format_agree RosType.ros_duration =
    inl (8, codes "II", refl, refl, refl, omega arith, omega arith)
size-format_agree _ = inr (refl, refl)

-- A scalar type: a string, or a type with a size.
abbrev pub IsScalar : RosType → Type 0
IsScalar t = (t ≡ string) ⊎ ((n : ℕ) × (primitive_type_to_size t ≡ ok n))

-- Each name of the type map, the deprecated ones included, stands for a scalar type.
pub primitive_type_map-IsScalar :
    (k : Bytes) (t : RosType) → find k primitive_type_map ≡ some t → IsScalar t
unfolding primitive_type_map
primitive_type_map-IsScalar k t e = find-All IsScalar k primitive_type_map all e
  where
    all : All (λ e. IsScalar e.1) primitive_type_map
    all =
        unfold primitive_type_to_size in
        (
          inr (1, refl),
          (
            inr (1, refl),
            (
              inr (1, refl),
              (
                inr (2, refl),
                (
                  inr (2, refl),
                  (
                    inr (4, refl),
                    (
                      inr (4, refl),
                      (
                        inr (8, refl),
                        (
                          inr (8, refl),
                          (
                            inr (4, refl),
                            (
                              inr (8, refl),
                              (
                                inl refl,
                                (
                                  inr (8, refl),
                                  (inr (8, refl), (inr (1, refl), (inr (1, refl), tt))),
                                ),
                              ),
                            ),
                          ),
                        ),
                      ),
                    ),
                  ),
                ),
              ),
            ),
          ),
        )
