-- ===== src/Sample.antt =====
-- A small bag file: one topic with one connection, one chunk with one message.
pub mod Chunks
pub mod Bags
pub mod Definitions
use embag.Prelude.{ℕ, ◌+◌, ◌≤◌, ◌≡◌, true, false, List, [], ◌∷◌, ◌++◌, arith, leb, length}
use embag.Bytes.{Bytes, codes, encode_le}
use embag.Header.Encode.{Entry, encode_entries}
use embag.Stream.{Device, Stream}
use embag.Stream.Reads.{encode_record}

pub le→leb : (size target : ℕ) → target ≤ size → leb target size ≡ true
le→leb size target h = ground arith

-- A device that goes to no position beyond its bytes.
abbrev pub strict_device : Device
strict_device = record { seekable = λ size target. leb target size; seekable_within = le→leb }

abbrev pub record_bytes : List Entry → Bytes → Bytes
unfolding encode_record encode_entries
record_bytes fields content = encode_record (encode_entries fields) content

abbrev pub message_bytes : Bytes
message_bytes =
    record_bytes
      ((codes "op", 2 ∷ [])
        ∷ (codes "conn", encode_le 4 0)
        ∷ (codes "time", encode_le 4 7 ++ encode_le 4 500)
        ∷ [])
      (42 ∷ [])

abbrev pub chunk_bytes : Bytes
chunk_bytes =
    record_bytes
      ((codes "op", 5 ∷ [])
        ∷ (codes "compression", codes "none")
        ∷ (codes "size", encode_le 4 (length message_bytes))
        ∷ [])
      message_bytes

abbrev pub index_bytes : Bytes
index_bytes =
    record_bytes
      ((codes "op", 4 ∷ [])
        ∷ (codes "ver", encode_le 4 1)
        ∷ (codes "conn", encode_le 4 0)
        ∷ (codes "count", encode_le 4 1)
        ∷ [])
      (encode_le 4 7 ++ (encode_le 4 500 ++ encode_le 4 0))

abbrev pub connection_bytes : Bytes
connection_bytes =
    record_bytes
      ((codes "op", 7 ∷ []) ∷ (codes "conn", encode_le 4 0) ∷ (codes "topic", codes "/n") ∷ [])
      (encode_entries (
        (codes "topic", codes "/n")
        ∷ (codes "type", codes "std_msgs/UInt8")
        ∷ (codes "md5sum", codes "7c8164229e7d2c17eb95e9231617fdee")
        ∷ (codes "message_definition", codes "uint8 data")
        ∷ []))

abbrev pub bag_header_bytes : ℕ → Bytes
bag_header_bytes index_pos =
    record_bytes
      ((codes "op", 3 ∷ [])
        ∷ (codes "index_pos", encode_le 8 index_pos)
        ∷ (codes "conn_count", encode_le 4 1)
        ∷ (codes "chunk_count", encode_le 4 1)
        ∷ [])
      (codes "    ")

abbrev pub chunk_info_bytes : ℕ → Bytes
chunk_info_bytes chunk_pos =
    record_bytes
      ((codes "op", 6 ∷ [])
        ∷ (codes "ver", encode_le 4 1)
        ∷ (codes "chunk_pos", encode_le 8 chunk_pos)
        ∷ (codes "start_time", encode_le 4 7 ++ encode_le 4 500)
        ∷ (codes "end_time", encode_le 4 7 ++ encode_le 4 500)
        ∷ (codes "count", encode_le 4 1)
        ∷ [])
      (encode_le 4 0 ++ encode_le 4 1)

abbrev pub file_bytes : Bytes
file_bytes =
    let start : ℕ = 13 + length (bag_header_bytes 0) in
    let index_pos : ℕ = start + length chunk_bytes + length index_bytes in
    codes "#ROSBAG V2.0"
    ++ (10
        ∷ (bag_header_bytes index_pos
            ++ (chunk_bytes ++ (index_bytes ++ (connection_bytes ++ chunk_info_bytes start)))))

abbrev pub file_stream : Stream
file_stream = record { buffer = file_bytes; pos = 13; failed = false }
