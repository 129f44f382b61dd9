-- ===== src/Header/Runs.antt =====
-- readFields at concrete bytes.
use embag.Prelude.{◌≡◌, refl, List, [], ◌∷◌, ◌++◌, arith}
use embag.Bytes.{codes, encode_le}
use embag.Result.{ok}
use embag.Header.{read_fields, find_byte}
use embag.Header.Loop.{Outcome, read_fields_ends}
use embag.Header.Encode.{
  Entry, encode_entry, encode_entries, assign_all, read_fields-encode_entries,
}

abbrev two_fields : List Entry
two_fields = (codes "topic", codes "/a=b") ∷ (codes "type", codes "std_msgs/Bool") ∷ []

read_fields-encode_entries_example :
    read_fields (encode_entries two_fields ++ codes "behind") 36 ≡ ok (assign_all two_fields [])
unfolding encode_entries encode_entry encode_le find_byte
read_fields-encode_entries_example =
    read_fields-encode_entries two_fields (codes "behind")
      ((refl, omega arith), ((refl, omega arith), tt))

read_fields_ends_example : Outcome (read_fields (255 ∷ 0 ∷ 0 ∷ 0 ∷ codes "a=b") 7)
read_fields_ends_example = read_fields_ends (255 ∷ 0 ∷ 0 ∷ 0 ∷ codes "a=b") 7
