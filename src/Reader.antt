-- ===== src/Reader.antt =====
-- Bag::readStream and Bag::readRecords over a stream (lib/embag.cc).
pub mod Format
mod Runs
pub mod Invariant
use embag.Prelude.{
  ℕ, zero, suc, ◌+◌, ◌-◌, ◌^◌, ◌%◌, ◌≡◌, Bool, true, false, ◌||◌, Option, none, some, List, [], ◌∷◌,
  ◌++◌, if◌then◌else◌, length, get_elem?, set, replicate, take,
}
use embag.Bytes.{Bytes, codes, bytes_eq}
use embag.Result.{
  Result, ok, err, ◌>>=◌, guard, ◌>>◌, undefined, or_err, not_a_bag_file, unsupported_version,
  missing_newline,
}
use embag.Header.{get_string, get_u32, get_u64}
use embag.Stream.{Device, Stream, Record, stream_read, seek_to, read_record, read_header}
use embag.Bag.{
  Bag, ConnectionRecord, ChunkInfo, Chunk, magic_string, empty_connection, empty_chunk_info,
  add_connection, make_chunk_info, count_messages, make_chunk, push_chunk,
}

-- tellg as a uint64_t: -1 on a failed stream.
unfoldable pub tell_offset : Stream → ℕ
tell_offset s = if s.failed then 2 ^ 64 - 1 else s.pos

abbrev pub State : Type 0
State = Stream × Bag

-- for (size_t i = first; i < first + n; i++)
abbrev pub for_each : ℕ → ℕ → (ℕ → State → Result State) → State → Result State
for_each zero i body st = ok st
for_each (suc n) i body st = body i st >>= λ st'. for_each n (suc i) body st'

-- The vectors as the BAG_HEADER record sizes them.
unfoldable pub sized_bag : ℕ → ℕ → ℕ → Bag
sized_bag connection_count chunk_count index_pos = record {
  connections = replicate connection_count empty_connection;
  topic_connection_map = [];
  chunk_infos = replicate chunk_count empty_chunk_info;
  chunks = [];
  index_pos = index_pos;
}

module _ (d : Device) where
  unfoldable pub read_connection : ℕ → State → Result State
  read_connection i (s, bag) = do
    let (r, s') = read_record d s
    h ← read_header r
    id ← get_u32 (codes "conn") h
    topic ← get_string (codes "topic") h
    bag' ← add_connection id topic r bag
    ok (s', bag')

  unfoldable pub read_chunk_info : ℕ → State → Result State
  read_chunk_info i (s, bag) = do
    let (r, s') = read_record d s
    h ← read_header r
    info ← make_chunk_info h
    ok (s', record bag { chunk_infos = set bag.chunk_infos i info })

  -- One INDEX_DATA record behind chunk i.
  unfoldable pub read_index_data : ℕ → ℕ → State → Result State
  read_index_data i j (s, bag) = do
    let (r, s') = read_record d s
    h ← read_header r
    _ ← get_u32 (codes "ver") h
    id ← get_u32 (codes "conn") h
    msg_count ← get_u32 (codes "count") h
    bag' ← count_messages i id msg_count bag
    ok (s', bag')

  unfoldable pub read_chunk : ℕ → State → Result State
  read_chunk i (s, bag) = do
    info ← or_err undefined (get_elem? bag.chunk_infos i)
    let (r, s') = read_record d (seek_to d info.chunk_pos s)
    h ← read_header r
    chunk ← make_chunk (tell_offset s') r h
    (s'', bag') ← for_each info.connection_count 0 (read_index_data i) (s', bag)
    bag'' ← push_chunk i chunk bag'
    ok (s'', bag'')

  -- Bag::readRecords.
  unfoldable pub read_records : Stream → Result Bag
  read_records s = do
    let (r, s') = read_record d s
    h ← read_header r
    connection_count ← get_u32 (codes "conn_count") h
    chunk_count ← get_u32 (codes "chunk_count") h
    index_pos ← get_u64 (codes "index_pos") h
    let start : State = (seek_to d index_pos s', sized_bag connection_count chunk_count index_pos)
    connected ← for_each connection_count 0 read_connection start
    informed ← for_each chunk_count 0 read_chunk_info connected
    done ← for_each chunk_count 0 read_chunk informed
    ok done.1

  -- Bag::readStream.
  unfoldable pub read_stream : Bytes → Result Bag
  read_stream buffer = do
    let (temp, s) =
        stream_read 9 (replicate 9 0) (record { buffer = buffer; pos = 0; failed = false })
    guard (bytes_eq temp magic_string) not_a_bag_file
    let (version, s') = stream_read 3 (take 3 temp) s
    guard (bytes_eq (codes "2.0") version) (unsupported_version version)
    let (newline, s'') = stream_read 1 (take 1 version) s'
    guard (bytes_eq (10 ∷ []) newline) missing_newline
    read_records s''
