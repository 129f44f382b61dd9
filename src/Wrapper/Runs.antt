-- ===== src/Wrapper/Runs.antt =====
-- The reading of records at concrete bytes.
use embag.Prelude.{◌≡◌, ◌≢◌, refl, [], ◌∷◌, ◌++◌, none, some, arith}
use embag.Bytes.{codes, encode_le}
use embag.Result.{ok, err, out_of_range, missing_equals}
use embag.Header.{read_fields}
use embag.Header.Encode.{encode_entry, encode_entries, assign_all}
use embag.Stream.Reads.{encode_record}
use embag.Wrapper.{Wrapper, scan_records, fast_read_header, no_header}
use embag.Wrapper.FastLoop.{OnlyUndefined, fast_read_header-OnlyUndefined}
use embag.Wrapper.FastAgrees.{Agrees, after_fields, fast_read_header-Agrees}
use embag.Wrapper.Items.{Item, encode_item}
use embag.Wrapper.EmptyMessage.{empty_last_record_throws}
use embag.Sample.Chunks.{message_entries, are_fields, are_entries, sample_item, sample_item-IsItem}

fast_read_header-OnlyUndefined_example :
    OnlyUndefined (fast_read_header (6 ∷ 0 ∷ 0 ∷ 0 ∷ codes "conn 1") 10)
    × (fast_read_header (6 ∷ 0 ∷ 0 ∷ 0 ∷ codes "conn 1") 10 ≢ err missing_equals)
fast_read_header-OnlyUndefined_example =
    fast_read_header-OnlyUndefined (6 ∷ 0 ∷ 0 ∷ 0 ∷ codes "conn 1") 10

fast_read_header-Agrees_example :
    (read_fields (encode_entries (message_entries 3 7) ++ codes "rest") 38
      ≡ ok (assign_all (message_entries 3 7) []))
    × (fast_read_header (encode_entries (message_entries 3 7) ++ codes "rest") 38
        ≡ ok (
            after_fields
              (message_entries 3 7)
              (are_fields 3 7 (omega arith) (omega arith))
              no_header))
    × Agrees
        (assign_all (message_entries 3 7) [])
        (after_fields (message_entries 3 7) (are_fields 3 7 (omega arith) (omega arith)) no_header)
unfolding encode_entries encode_entry encode_le
fast_read_header-Agrees_example =
    fast_read_header-Agrees (message_entries 3 7) (codes "rest")
      (are_fields 3 7 (omega arith) (omega arith)) (are_entries 3 7)

abbrev empty_message : Item
empty_message = sample_item 0 5 []

abbrev at_empty_message : Wrapper
at_empty_message = record {
  bag = record {
    connections = [];
    topic_connection_map = [];
    chunk_infos = [];
    chunks = [];
    index_pos = 0;
  };
  processed_bytes = 0;
  uncompressed_size = 46;
  current_buffer = some (encode_item empty_message);
  chunks_to_parse = [];
  chunk_iter = [];
  connection_ids = 0 ∷ [];
  current_connection_id = 0;
  current_message_buffer = none;
  current_message_data_offset = 0;
  current_message_len = 0;
  current_timestamp = record { secs = 0; nsecs = 0 };
}

empty_last_record_throws_example :
    scan_records 46 (encode_item empty_message) at_empty_message ≡ err out_of_range
unfolding encode_record encode_entries encode_entry encode_le
empty_last_record_throws_example =
    empty_last_record_throws [] empty_message
      (sample_item-IsItem 0 5 [] (omega arith) (omega arith) (omega arith)) refl 45
      (encode_item empty_message) at_empty_message refl refl refl
