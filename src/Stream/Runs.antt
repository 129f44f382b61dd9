-- ===== src/Stream/Runs.antt =====
-- readRecord at concrete bytes.
use embag.Prelude.{◌≡◌, refl, ◌++◌, some, false, arith}
use embag.Bytes.{codes, encode_le}
use embag.Stream.{Stream, read_record}
use embag.Stream.Reads.{encode_record, At, read_record-At}
use embag.Sample.{strict_device}

abbrev one_record : Stream
unfolding encode_record
one_record = record {
  buffer = encode_record (codes "head") (codes "content") ++ codes "rest";
  pos = 0;
  failed = false;
}

read_record-At_example :
    ((read_record strict_device one_record).0 ≡ record {
      header_len = 4;
      header = some (codes "head" ++ (encode_le 4 7 ++ (codes "content" ++ codes "rest")));
      data_len = 7;
      content = some (codes "content" ++ codes "rest");
    })
    × At (read_record strict_device one_record).1 (codes "rest")
    × ((read_record strict_device one_record).1.pos ≡ 19)
unfolding one_record encode_record encode_le
read_record-At_example =
    read_record-At strict_device one_record (codes "head") (codes "content") (codes "rest")
      (omega arith) (omega arith) (record { good = refl; unread = refl; within = omega arith })
