-- ===== src/Header.antt =====
-- RosBagTypes::header_t and Bag::readFields (lib/ros_bag_types.h, lib/embag.cc).
pub mod Loop
pub mod Encode
mod Runs
use embag.Prelude.{
  ℕ, zero, suc, ◌+◌, ◌-◌, ◌*◌, ◌^◌, ◌%◌, ◌/◌, ◌≡◌, Option, none, some, List, [], ◌∷◌, ◌++◌, arith,
  ◌==◌, if◌then◌else◌, length, take, drop,
}
use embag.Bytes.{Bytes, codes, copy_n, read_u32, read_u64, read_le}
use embag.Result.{Error, Result, ok, err, undefined, stuck, missing_equals, or_err, ◌>>=◌}
use embag.Assoc.{Assoc, assign, at}
use embag.Time.{Time}

abbrev pub Fields : Type 0
Fields = Assoc Bytes

-- s.find(c): npos is none.
unfoldable pub find_byte : ℕ → Bytes → Option ℕ
find_byte c [] = none
find_byte c (b ∷ s) =
    if b == c then some 0 else (elim (find_byte c s) [ none ↦ none | some i ↦ some (suc i) ])

-- The name and the value of the text of a field.
unfoldable pub split_field : Bytes → Result (Bytes × Bytes)
unfolding find_byte
split_field buffer = do
  sep ← or_err missing_equals (find_byte b'=' buffer)
  ok (take sep buffer, drop (suc sep) buffer)

-- The loop of readFields: `p` is the pointer and `left` is end - p, 0 once p reaches end.
unfoldable pub fields_loop : ℕ → Bytes → ℕ → Fields → Result Fields
unfolding split_field
fields_loop fuel p zero fields = ok fields
fields_loop zero p (suc left) fields = err stuck
fields_loop (suc fuel) p (suc left) fields = do
  field_len ← or_err undefined (read_u32 p)
  buffer ← or_err undefined (copy_n field_len (drop 4 p))
  (name, value) ← split_field buffer
  fields_loop fuel (drop field_len (drop 4 p)) (suc left - (4 + field_len))
      (assign name value fields)

-- Bag::readFields. Each round takes four bytes at least, so `len` rounds are enough.
unfoldable pub read_fields : Bytes → ℕ → Result Fields
unfolding fields_loop
read_fields p len = fields_loop len p len []

pub record Header : Type 0 where
  pub fields : Fields

-- The bytes that fields->at(name).data() points to: the value, and the NUL behind it.
unfoldable pub field_data : Bytes → Header → Result Bytes
unfolding at
field_data name h = do value ← at name h.fields; ok (value ++ 0 ∷ [])

-- header_t::getField for a string, a uint32_t, a uint64_t and a ros_time_t.
unfoldable pub get_string : Bytes → Header → Result Bytes
unfolding at
get_string name h = at name h.fields

unfoldable pub get_u32 : Bytes → Header → Result ℕ
unfolding field_data
get_u32 name h = do p ← field_data name h; or_err undefined (read_u32 p)

unfoldable pub get_u64 : Bytes → Header → Result ℕ
unfolding field_data
get_u64 name h = do p ← field_data name h; or_err undefined (read_u64 p)

abbrev pub make_time : Option ℕ → Option ℕ → Option Time
make_time none n = none
make_time (some s) none = none
make_time (some s) (some n) = some (record { secs = s; nsecs = n })

-- A ros_time_t at p: two uint32_t, one after the other.
unfoldable pub read_time : Bytes → Option Time
read_time p = make_time (read_u32 p) (read_u32 (drop 4 p))

unfoldable pub get_time : Bytes → Header → Result Time
unfolding field_data read_time
get_time name h = do p ← field_data name h; or_err undefined (read_time p)

-- header_t::op.
pub data Op : Type 0 where
  message_data bag_header index_data chunk chunk_info connection unset : Op
  other : ℕ → Op

-- op(c) of a byte: an enum may hold a number that no enumerator names. A char is signed, so that no
-- byte gives UNSET, which is 255.
unfoldable pub to_op : ℕ → Op
to_op c =
    if c == 0x02
    then message_data
    else (if c == 0x03
        then bag_header
        else (if c == 0x04
            then index_data
            else (if c == 0x05
                then chunk
                else (if c == 0x06
                    then chunk_info
                    else (if c == 0x07 then connection else other c)))))

-- The byte that a pointer points to.
abbrev pub deref : Bytes → Result ℕ
deref [] = err undefined
deref (b ∷ p) = ok b

-- header_t::getOp.
unfoldable pub get_op : Header → Result Op
unfolding field_data to_op
get_op h = do p ← field_data (codes "op") h; c ← deref p; ok (to_op c)
