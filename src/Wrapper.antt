-- ===== src/Wrapper.antt =====
-- View::iterator::bag_wrapper_t with readHeader and readMessage (lib/view.h, lib/view.cc): the
-- messages of one bag, chunk by chunk.
pub mod FastLoop
pub mod FastAgrees
pub mod Items
pub mod Scan
pub mod EmptyMessage
pub mod Messages
mod Runs
use embag.Prelude.{
  ℕ, zero, suc, ◌+◌, ◌-◌, ◌<◌, ◌≡◌, Bool, true, false, Option, none, some, List, [], ◌∷◌, ◌++◌, ltb,
  ◌==◌, if◌then◌else◌, length, drop,
}
use embag.Bytes.{Bytes, read_u32}
use embag.Result.{
  Result, ok, err, ◌>>=◌, undefined, stuck, out_of_range, unknown_record_type, or_err, guard, ◌>>◌,
}
use embag.Time.{Time}
use embag.Header.{Op, message_data, connection, unset, to_op, read_time, deref}
use embag.Bag.{Bag, Chunk}

-- View::iterator::header_t.
pub record FastHeader : Type 0 where
  pub op : Op
  pub connection_id : ℕ
  pub timestamp : Time

abbrev pub no_header : FastHeader
no_header = record { op = unset; connection_id = 0; timestamp = record { secs = 0; nsecs = 0 } }

-- strstr(p, "="): none is the null pointer; without a NUL it runs past the buffer.
unfoldable pub find_equals : Bytes → Result (Option Bytes)
find_equals [] = err undefined
find_equals (b ∷ p) =
    if b == 0 then ok none else (if b == b'=' then ok (some (b ∷ p)) else find_equals p)

-- strstr(p, "=") + 1. One past the null pointer is no null pointer, so that the check behind never
-- throws; that pointer is none here, and only reading through it is an error.
abbrev pub value_pointer : Option Bytes → Option Bytes
value_pointer none = none
value_pointer (some p) = some (drop 1 p)

-- The field that starts at p, with its value at v.
unfoldable pub use_field : ℕ → Option Bytes → FastHeader → Result FastHeader
use_field c v h =
    if c == b'o'
    then (do p ← or_err undefined v; b ← deref p; ok (record h { op = to_op b }))
    else (if c == b'c'
        then (do
          p ← or_err undefined v
          n ← or_err undefined (read_u32 p)
          ok (record h { connection_id = n }))
        else (if c == b't'
            then (do
              p ← or_err undefined v
              t ← or_err undefined (read_time p)
              ok (record h { timestamp = t }))
            else ok h))

-- The loop of readHeader: `p` is the pointer and `left` is end - p, 0 once p reaches end.
unfoldable pub fast_loop : ℕ → Bytes → ℕ → FastHeader → Result FastHeader
unfolding use_field find_equals
fast_loop fuel p zero h = ok h
fast_loop zero p (suc left) h = err stuck
fast_loop (suc fuel) p (suc left) h = do
  field_len ← or_err undefined (read_u32 p)
  let q = drop 4 p
  found ← find_equals q
  c ← deref q
  h' ← use_field c (value_pointer found) h
  fast_loop fuel (drop field_len q) (suc left - (4 + field_len)) h'

-- View::iterator::readHeader. Each round takes four bytes at least.
unfoldable pub fast_read_header : Bytes → ℕ → Result FastHeader
unfolding fast_loop
fast_read_header p len = fast_loop len p len no_header

-- chunk_iter is the list of the chunks from it to the end; a message's data pointer is kept as its
-- offset in the message's buffer.
pub record Wrapper : Type 0 where
  pub bag : Bag
  pub processed_bytes : ℕ
  pub uncompressed_size : ℕ
  pub current_buffer : Option Bytes
  pub chunks_to_parse : List Chunk
  pub chunk_iter : List Chunk
  pub connection_ids : List ℕ
  pub current_connection_id : ℕ
  pub current_message_buffer : Option Bytes
  pub current_message_data_offset : ℕ
  pub current_message_len : ℕ
  pub current_timestamp : Time

-- &buffer->at(i)
unfoldable pub at_pointer : Bytes → ℕ → Result Bytes
at_pointer buffer i = if ltb i (length buffer) then ok (drop i buffer) else err out_of_range

-- The uint32_t that memcpy takes from &buffer->at(i).
unfoldable pub u32_at : Bytes → ℕ → Result ℕ
unfolding at_pointer
u32_at buffer i = do p ← at_pointer buffer i; or_err undefined (read_u32 p)

-- A record of a chunk: its header, the offset and length of its data, and the bytes processed then.
pub record ChunkRecord : Type 0 where
  pub header : FastHeader
  pub data_offset : ℕ
  pub data_len : ℕ
  pub next : ℕ

-- The body of the inner loop up to the switch.
unfoldable pub next_record : Bytes → ℕ → Result ChunkRecord
next_record buffer processed = do
  header_len ← u32_at buffer processed
  header_p ← at_pointer buffer (processed + 4)
  data_len ← u32_at buffer (processed + 4 + header_len)
  _ ← at_pointer buffer (processed + 4 + header_len + 4)
  header ← fast_read_header header_p header_len
  ok (record {
    header = header;
    data_offset = processed + 4 + header_len + 4;
    data_len = data_len;
    next = processed + 4 + header_len + 4 + data_len;
  })

-- connection_ids.count(id) != 0
unfoldable pub has_id : ℕ → List ℕ → Bool
has_id id [] = false
has_id id (i ∷ is) = if i == id then true else has_id id is

-- What the switch does with a record: keep the message, go on, or throw.
pub data Verdict : Type 0 where
  keep go_on reject : Verdict

unfoldable pub judge : Op → Bool → Verdict
judge message_data wanted = if wanted then keep else go_on
judge connection wanted = go_on
judge _ wanted = reject

-- The wrapper with the message of a record.
unfoldable pub keep_message : Bytes → ChunkRecord → Wrapper → Wrapper
keep_message buffer r w = record w {
  processed_bytes = r.next;
  current_message_buffer = some buffer;
  current_message_data_offset = r.data_offset;
  current_message_len = r.data_len;
  current_connection_id = r.header.connection_id;
  current_timestamp = r.header.timestamp;
}

-- The branches of the switch, `rest` being what the loop does from the next record on.
abbrev pub act : Verdict → Wrapper → Result (Wrapper × Bool) → Result (Wrapper × Bool)
act keep w rest = ok (w, true)
act go_on w rest = rest
act reject w rest = err unknown_record_type

-- The inner loop over the records of the buffer; true: a message was found and the function returns.
unfoldable pub scan_records : ℕ → Bytes → Wrapper → Result (Wrapper × Bool)
unfolding judge
scan_records zero buffer w =
    if ltb w.processed_bytes w.uncompressed_size then err stuck else ok (w, false)
scan_records (suc fuel) buffer w =
    if ltb w.processed_bytes w.uncompressed_size
    then (do
      r ← next_record buffer w.processed_bytes
      let rest = scan_records fuel buffer (record w { processed_bytes = r.next })
      act (judge r.header.op (has_id r.header.connection_id w.connection_ids))
          (keep_message buffer r w) rest)
    else ok (w, false)

-- A message ends the function; otherwise the loop goes on, without a buffer, with the next chunk.
abbrev pub after_scan :
    (Wrapper → Result (Wrapper × Bool)) → Wrapper × Bool → Result (Wrapper × Bool)
after_scan next_chunk (w, true) = ok (w, true)
after_scan next_chunk (w, false) =
    next_chunk (record w { current_buffer = none; processed_bytes = 0 })

module _ (decompress : Chunk → Result Bytes) where
  -- A fresh buffer holds the chunk; at(0) throws where the chunk has no bytes.
  unfoldable pub fill_buffer : Chunk → Wrapper → Result (Bytes × Wrapper)
  fill_buffer chunk w = elim w.current_buffer [
    | some b ↦ ok (b, w)
    | none ↦ do
      guard (ltb 0 chunk.uncompressed_size) out_of_range
      b ← decompress chunk
      ok (b, record w { current_buffer = some b; uncompressed_size = chunk.uncompressed_size })
  ]

  -- The outer loop of readMessage over the chunks from chunk_iter on.
  unfoldable pub read_chunks : List Chunk → Wrapper → Result (Wrapper × Bool)
  read_chunks [] w = ok (record w { chunk_iter = [] }, false)
  read_chunks (chunk ∷ chunks) w = do
    (b, w1) ← fill_buffer chunk (record w { chunk_iter = chunk ∷ chunks })
    scanned ← scan_records w1.uncompressed_size b w1
    after_scan (λ w'. read_chunks chunks w') scanned

  -- View::iterator::readMessage; true: the wrapper is pushed on the queue.
  unfoldable pub read_message : Wrapper → Result (Wrapper × Bool)
  read_message w = read_chunks w.chunk_iter w
