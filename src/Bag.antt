-- ===== src/Bag.antt =====
-- The data of Bag (lib/embag.h, lib/ros_bag_types.h) and the stores that Bag::readRecords makes in
-- it (lib/embag.cc).
pub mod Valid
use embag.Prelude.{
  ℕ, zero, suc, ◌+◌, ◌-◌, ◌^◌, ◌%◌, ◌≡◌, Bool, true, false, ◌||◌, ◌&&◌, not, Option, none, some,
  List, [], ◌∷◌, ◌++◌, ltb, ◌==◌, if◌then◌else◌, length, get_elem?, set, replicate, take, map,
}
use embag.Bytes.{Bytes, codes, bytes_eq}
use embag.Result.{
  Result, ok, err, ◌>>=◌, guard, ◌>>◌, undefined, or_err, not_a_bag_file, unsupported_version,
  missing_newline, unsupported_compression,
}
use embag.Assoc.{Assoc, find, assign, at, contains}
use embag.Header.{Header, Fields, find_byte, get_string, get_u32, get_u64, get_time}
use embag.Schema.{scope_of}
use embag.Stream.{Device, Stream, Record, stream_read, seek_to, read_record, read_header, fields_at}
use embag.Time.{Time}

pub record ConnectionData : Type 0 where
  pub topic : Bytes
  pub type_name : Bytes
  pub scope : Bytes
  pub md5sum : Bytes
  pub message_definition : Bytes
  pub callerid : Bytes
  pub latching : Bool
  pub message_count : ℕ

pub record ChunkInfo : Type 0 where
  pub chunk_pos : ℕ
  pub start_time : Time
  pub end_time : Time
  pub message_count : ℕ
  pub connection_count : ℕ

pub record Chunk : Type 0 where
  pub offset : ℕ
  pub info : ChunkInfo
  pub compression : Bytes
  pub uncompressed_size : ℕ
  pub chunk_record : Record

-- `blocks` holds the indexes in chunks_ that the into_chunk pointers stand for.
pub record ConnectionRecord : Type 0 where
  pub id : ℕ
  pub blocks : List ℕ
  pub topic : Bytes
  pub info : ConnectionData

-- The values of topic_connection_map_ are indexes in connections_, for the pointers to it.
-- chunk_infos_ is the reserved storage, which the code writes by index.
pub record Bag : Type 0 where
  pub connections : List ConnectionRecord
  pub topic_connection_map : Assoc (List ℕ)
  pub chunk_infos : List ChunkInfo
  pub chunks : List Chunk
  pub index_pos : ℕ

abbrev pub magic_string : Bytes
magic_string = codes "#ROSBAG V"

abbrev pub empty_connection_data : ConnectionData
empty_connection_data = record {
  topic = [];
  type_name = [];
  scope = [];
  md5sum = [];
  message_definition = [];
  callerid = [];
  latching = false;
  message_count = 0;
}

abbrev pub empty_connection : ConnectionRecord
empty_connection = record { id = 0; blocks = []; topic = []; info = empty_connection_data }

abbrev pub empty_chunk_info : ChunkInfo
empty_chunk_info = record {
  chunk_pos = 0;
  start_time = record { secs = 0; nsecs = 0 };
  end_time = record { secs = 0; nsecs = 0 };
  message_count = 0;
  connection_count = 0;
}

abbrev bool_eq : Bool → Bool → Bool
bool_eq true b = b
bool_eq false b = not b

-- connection_data_t::operator==.
unfoldable pub connection_data_eq : ConnectionData → ConnectionData → Bool
connection_data_eq a b =
    bytes_eq b.topic a.topic
    && (bytes_eq b.type_name a.type_name
        && (bytes_eq b.md5sum a.md5sum
            && (bytes_eq b.callerid a.callerid && bool_eq b.latching a.latching)))

-- topic_connection_map_[topic]: an empty vector where the key is new.
abbrev pub pointers_or_empty : Option (List ℕ) → List ℕ
pointers_or_empty none = []
pointers_or_empty (some is) = is

-- topic_connection_map_[topic].push_back(index)
unfoldable pub push_connection : Bytes → ℕ → Assoc (List ℕ) → Assoc (List ℕ)
push_connection topic i m = assign topic (pointers_or_empty (find topic m) ++ (i ∷ [])) m

-- A field that the header may lack.
unfoldable pub value_or_empty : Bytes → Fields → Bytes
value_or_empty name fields = elim (find name fields) [ none ↦ [] | some v ↦ v ]

-- The connection_data of a CONNECTION record's data.
unfoldable pub read_connection_data : Bytes → Fields → Result ConnectionData
unfolding value_or_empty
read_connection_data topic fields = do
  type_name ← at (codes "type") fields
  md5sum ← at (codes "md5sum") fields
  message_definition ← at (codes "message_definition") fields
  ok (record {
    topic = topic;
    type_name = type_name;
    scope = scope_of type_name;
    md5sum = md5sum;
    message_definition = message_definition;
    callerid = value_or_empty (codes "callerid") fields;
    latching = bytes_eq (value_or_empty (codes "latching") fields) (codes "1");
    message_count = 0;
  })

-- connections_[id] gets the data, and the topic a pointer to it.
unfoldable pub store_connection : ℕ → Bytes → ConnectionData → Bag → Result Bag
unfolding push_connection
store_connection id topic info bag = do
  c ← or_err undefined (get_elem? bag.connections id)
  ok (record bag {
    connections = set bag.connections id (record c { id = id; topic = topic; info = info });
    topic_connection_map = push_connection topic id bag.topic_connection_map;
  })

-- The record without a topic is skipped.
unfoldable pub add_connection : ℕ → Bytes → Record → Bag → Result Bag
add_connection id [] r bag = ok bag
add_connection id (b ∷ topic) r bag = do
  fields ← fields_at r.content r.data_len
  info ← read_connection_data (b ∷ topic) fields
  store_connection id (b ∷ topic) info bag

-- The chunk_info of a CHUNK_INFO record's header.
unfoldable pub make_chunk_info : Header → Result ChunkInfo
make_chunk_info h = do
  _ ← get_u32 (codes "ver") h
  chunk_pos ← get_u64 (codes "chunk_pos") h
  start_time ← get_time (codes "start_time") h
  end_time ← get_time (codes "end_time") h
  count ← get_u32 (codes "count") h
  ok (record {
    chunk_pos = chunk_pos;
    start_time = start_time;
    end_time = end_time;
    message_count = 0;
    connection_count = count;
  })

-- The counts and the block of one INDEX_DATA record of chunk i.
unfoldable pub count_messages : ℕ → ℕ → ℕ → Bag → Result Bag
count_messages i id msg_count bag = do
  info ← or_err undefined (get_elem? bag.chunk_infos i)
  c ← or_err undefined (get_elem? bag.connections id)
  let messages = (c.info.message_count + msg_count) % 2 ^ 64
  ok (record bag {
    chunk_infos =
        set bag.chunk_infos i
          (record info { message_count = (info.message_count + msg_count) % 2 ^ 32 });
    connections = set bag.connections id (record c {
      blocks = c.blocks ++ (i ∷ []);
      info = record (c.info) { message_count = messages };
    });
  })

-- chunk.info = info; chunks_.push_back(chunk)
unfoldable pub push_chunk : ℕ → Chunk → Bag → Result Bag
push_chunk i chunk bag = do
  info ← or_err undefined (get_elem? bag.chunk_infos i)
  ok (record bag { chunks = bag.chunks ++ (record chunk { info = info } ∷ []) })

unfoldable pub is_known_compression : Bytes → Bool
is_known_compression c =
    bytes_eq c (codes "lz4") || (bytes_eq c (codes "bz2") || bytes_eq c (codes "none"))

-- The chunk of a CHUNK record, `offset` being the position behind it.
unfoldable pub make_chunk : ℕ → Record → Header → Result Chunk
unfolding is_known_compression
make_chunk offset r h = do
  compression ← get_string (codes "compression") h
  size ← get_u32 (codes "size") h
  guard (is_known_compression compression) (unsupported_compression compression)
  ok (record {
    offset = offset;
    info = empty_chunk_info;
    compression = compression;
    uncompressed_size = size;
    chunk_record = r;
  })
