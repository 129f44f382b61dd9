-- ===== src/Stream.antt =====
-- The std::istream that a bag is read from (boost::iostreams::stream over an array or a mapped
-- file), and Bag::readRecord (lib/embag.cc).
pub mod Reads
mod Runs
use embag.Prelude.{
  ℕ, zero, suc, ◌+◌, ◌-◌, ◌≤◌, ◌<◌, ◌≡◌, Bool, true, false, Option, none, some, List, [], ◌∷◌, ◌++◌,
  ltb, if◌then◌else◌, length, take, drop,
}
use embag.Bytes.{Bytes, read_u32}
use embag.Result.{Result, ok, err, undefined, or_err, ◌>>=◌}
use embag.Header.{Header, read_fields}

-- Whether the device can be positioned at a target, given its size: within the bytes it always can,
-- beyond them that is up to boost.
pub record Device : Type 0 where
  pub seekable : ℕ → ℕ → Bool
  pub seekable_within : (size target : ℕ) → target ≤ size → seekable size target ≡ true

pub record Stream : Type 0 where
  pub buffer : Bytes
  pub pos : ℕ
  pub failed : Bool

-- read(&dest, n): what the stream holds overwrites the front of dest, whose length is n; a stream
-- that ends before is marked as failed, and a failed stream reads nothing.
unfoldable pub stream_read : ℕ → Bytes → Stream → Bytes × Stream
stream_read n dest s =
    let got = take n (drop s.pos s.buffer) in
    if s.failed then (dest, s) else (
      got ++ drop (length got) dest,
      record s { pos = s.pos + length got; failed = ltb (length got) n },
    )

-- The pointer bag_bytes_ + tellg(); tellg is -1 on a failed stream, and the pointer then stands
-- before the buffer.
unfoldable pub tell_pointer : Stream → Option Bytes
tell_pointer s = if s.failed then none else some (drop s.pos s.buffer)

-- record_t. A pointer before the buffer is none.
pub record Record : Type 0 where
  pub header_len : ℕ
  pub header : Option Bytes
  pub data_len : ℕ
  pub content : Option Bytes

abbrev pub zeros : Bytes
zeros = 0 ∷ 0 ∷ 0 ∷ 0 ∷ []

abbrev pub value_or_zero : Option ℕ → ℕ
value_or_zero none = 0
value_or_zero (some v) = v

-- Reading a uint32_t that holds 0 before.
unfoldable pub stream_read_u32 : Stream → ℕ × Stream
stream_read_u32 s = let (bytes, s') = stream_read 4 zeros s in (value_or_zero (read_u32 bytes), s')

module _ (d : Device) where
  -- seekg(target, beg).
  unfoldable pub seek_to : ℕ → Stream → Stream
  seek_to target s =
      if s.failed
      then s
      else (if d.seekable (length s.buffer) target
          then record s { pos = target }
          else record s { failed = true })

  -- seekg(offset, cur).
  unfoldable pub seek_by : ℕ → Stream → Stream
  seek_by offset s = seek_to (s.pos + offset) s

  -- Bag::readRecord.
  unfoldable pub read_record : Stream → Record × Stream
  read_record s =
      let (header_len, s1) = stream_read_u32 s in
      let s2 = seek_by header_len s1 in
      let (data_len, s3) = stream_read_u32 s2 in
      (
        record {
          header_len = header_len;
          header = tell_pointer s1;
          data_len = data_len;
          content = tell_pointer s3;
        },
        seek_by data_len s3,
      )

-- readFields at a pointer of a record; nothing is read where the length is 0.
unfoldable pub fields_at : Option Bytes → ℕ → Result (List (Bytes × Bytes))
fields_at (some p) len = read_fields p len
fields_at none zero = ok []
fields_at none (suc len) = err undefined

-- Bag::readHeader.
unfoldable pub read_header : Record → Result Header
read_header r = do fields ← fields_at r.header r.header_len; ok (record { fields = fields })
