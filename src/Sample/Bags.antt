-- ===== src/Sample/Bags.antt =====
-- A bag with one topic, whose connection has three messages in one chunk.
use embag.Prelude.{refl, none, false, [], ◌∷◌, arith}
use embag.Bytes.{codes}
use embag.Bag.{Bag, Chunk, ConnectionRecord, empty_chunk_info}
use embag.Reader.Invariant.{IsValid}

abbrev pub chunk : Chunk
chunk = record {
  offset = 4117;
  info = record empty_chunk_info { message_count = 3 };
  compression = codes "none";
  uncompressed_size = 0;
  chunk_record = record { header_len = 0; header = none; data_len = 0; content = none };
}

abbrev pub connection : ConnectionRecord
connection = record {
  id = 0;
  blocks = 0 ∷ [];
  topic = codes "/n";
  info = record {
    topic = codes "/n";
    type_name = codes "std_msgs/UInt8";
    scope = codes "std_msgs";
    md5sum = [];
    message_definition = codes "uint8 data";
    callerid = [];
    latching = false;
    message_count = 3;
  };
}

abbrev pub bag : Bag
bag = record {
  connections = connection ∷ [];
  topic_connection_map = (codes "/n", 0 ∷ []) ∷ [];
  chunk_infos = (record empty_chunk_info { message_count = 3 }) ∷ [];
  chunks = chunk ∷ [];
  index_pos = 0;
}

pub bag-IsValid : IsValid bag
bag-IsValid = record {
  topics = ((omega arith, (omega arith, tt)), tt);
  blocks = ((omega arith, tt), tt);
  stored = refl;
  counts = refl;
}
