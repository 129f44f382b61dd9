-- ===== src/Reader/Runs.antt =====
-- The reader at a small file.
use embag.Prelude.{◌≡◌, refl, [], ◌∷◌, ◌++◌, map}
use embag.Bytes.{Bytes, codes, bytes_eq, encode_le, read_le}
use embag.Result.{Result, ok, err}
use embag.Assoc.{assign, find, at}
use embag.Header.{
  fields_loop, find_byte, field_data, get_u32, get_u64, get_time, get_string, read_time,
  read_fields,
}
use embag.Header.Encode.{encode_entry, encode_entries}
use embag.Stream.{
  stream_read, stream_read_u32, seek_to, seek_by, tell_pointer, read_record, read_header, fields_at,
}
use embag.Stream.Reads.{encode_record}
use embag.Bag.{
  Bag, add_connection, make_chunk_info, make_chunk, count_messages, push_chunk,
  read_connection_data, store_connection,
}
use embag.Reader.{
  read_stream, read_records, read_connection, read_chunk_info, read_index_data, read_chunk,
  sized_bag,
}
use embag.Schema.{scope_of}
use embag.Reader.Format.{version_line, opened, read_stream-version_line, read_stream-ok}
use embag.Reader.Invariant.{IsValid, read_records-IsValid}
use embag.Sample.{strict_device, file_bytes, file_stream}

abbrev or_empty : Result Bag → Bag
or_empty (ok bag) = bag
or_empty (err e) = record {
  connections = [];
  topic_connection_map = [];
  chunk_infos = [];
  chunks = [];
  index_pos = 0;
}

sample_bag : Bag
sample_bag = or_empty (read_records strict_device file_stream)

sample_bag-read : read_records strict_device file_stream ≡ ok sample_bag
unfolding read_records read_connection read_chunk_info read_index_data read_chunk sized_bag
    stream_read stream_read_u32 seek_to seek_by tell_pointer read_record read_header fields_at
    read_fields encode_entries encode_entry encode_record encode_le get_u32 get_u64 get_time
    get_string read_time bytes_eq read_le assign find at field_data fields_loop find_byte
    add_connection make_chunk_info make_chunk count_messages push_chunk read_connection_data
    store_connection scope_of sample_bag
sample_bag-read = refl

read_stream-sample : read_stream strict_device file_bytes ≡ ok sample_bag
unfolding read_stream read_records read_connection read_chunk_info read_index_data read_chunk
    sized_bag stream_read stream_read_u32 seek_to seek_by tell_pointer read_record read_header
    fields_at read_fields encode_entries encode_entry encode_record encode_le get_u32 get_u64
    get_time get_string read_time bytes_eq read_le assign find at field_data fields_loop find_byte
    add_connection make_chunk_info make_chunk count_messages push_chunk read_connection_data
    store_connection scope_of sample_bag
read_stream-sample = refl

sample_messages : map (λ c. c.info.message_count) sample_bag.connections ≡ 1 ∷ []
unfolding read_records read_connection read_chunk_info read_index_data read_chunk sized_bag
    stream_read stream_read_u32 seek_to seek_by tell_pointer read_record read_header fields_at
    read_fields encode_entries encode_entry encode_record encode_le get_u32 get_u64 get_time
    get_string read_time bytes_eq read_le assign find at field_data fields_loop find_byte
    add_connection make_chunk_info make_chunk count_messages push_chunk read_connection_data
    store_connection scope_of sample_bag
sample_messages = refl

read_records-IsValid_example : IsValid sample_bag
read_records-IsValid_example = read_records-IsValid strict_device file_stream sample_bag-read

read_stream-ok_example :
    (p : Bytes) × (file_bytes ≡ version_line ++ p)
    × (read_records strict_device (record (opened file_bytes) { pos = 13 }) ≡ ok sample_bag)
read_stream-ok_example = read_stream-ok strict_device file_bytes read_stream-sample

read_stream-version_line_example :
    read_stream strict_device (version_line ++ codes "a bag")
    ≡ read_records strict_device (record (opened (version_line ++ codes "a bag")) { pos = 13 })
read_stream-version_line_example = read_stream-version_line strict_device (codes "a bag")
