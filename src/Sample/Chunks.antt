-- ===== src/Sample/Chunks.antt =====
-- Chunks with a few messages, and a decompressor that copies two bytes on a call.
use embag.Prelude.{
  ℕ, zero, suc, ◌≤◌, ◌≡◌, refl, subst, none, some, true, List, [], ◌∷◌, ◌++◌, arith, length, take,
  ap, All,
}
use embag.Bytes.{Bytes, codes, encode_le, IsU32}
use embag.Header.{find_byte, to_op}
use embag.Header.Encode.{Entry, encode_entry, encode_entries, IsEntry}
use embag.Bag.{Chunk, empty_chunk_info}
use embag.Decompress.{Codecs, Lz4Step}
use embag.Decompress.Laws.{Progress}
use embag.Wrapper.FastAgrees.{
  IsMessageField, op_field, conn_field, time_field, after_fields, after_field,
  fast_read_header-Agrees,
}
use embag.Wrapper.Items.{Item, IsItem}

abbrev pub message_entries : ℕ → ℕ → List Entry
message_entries conn secs =
    (codes "op", 2 ∷ [])
    ∷ (codes "conn", encode_le 4 conn)
    ∷ (codes "time", encode_le 4 secs ++ encode_le 4 0)
    ∷ []

abbrev pub sample_item : ℕ → ℕ → Bytes → Item
sample_item conn secs payload = record {
  is_message = true;
  connection_id = conn;
  timestamp = record { secs = secs; nsecs = 0 };
  entries = message_entries conn secs;
  payload = payload;
}

abbrev pub are_fields :
    (conn secs : ℕ) → IsU32 conn → IsU32 secs → All IsMessageField (message_entries conn secs)
unfolding encode_le
are_fields conn secs hc hs =
    (op_field 2 [], (conn_field conn [] hc, (time_field secs 0 [] hs (omega arith), tt)))

pub are_entries : (conn secs : ℕ) → All IsEntry (message_entries conn secs)
unfolding encode_le find_byte
are_entries conn secs = ((refl, omega arith), ((refl, omega arith), ((refl, omega arith), tt)))

pub sample_item-IsItem :
    (conn secs : ℕ) (payload : Bytes)
    → IsU32 conn
    → IsU32 secs
    → IsU32 (length payload)
    → IsItem (sample_item conn secs payload)
sample_item-IsItem conn secs payload hc hs hp = record {
  header_fits = unfold encode_entries encode_entry encode_le in omega arith;
  payload_fits = hp;
  reads = λ p.
      unfold after_fields after_field are_fields to_op in
      (fast_read_header-Agrees (message_entries conn secs) p (are_fields conn secs hc hs)
        (are_entries conn secs)).1;
}

-- A chunk of the records of messages, stored as they are.
unfoldable pub stored_chunk : Bytes → Chunk
stored_chunk bytes = record {
  offset = 4117;
  info = empty_chunk_info;
  compression = codes "none";
  uncompressed_size = length bytes;
  chunk_record = record {
    header_len = 0;
    header = none;
    data_len = length bytes;
    content = some bytes;
  };
}

-- LZ4 calls that take two bytes at most; bz2 calls that fail.
abbrev pub two_bytes : ℕ → Bytes → Bytes
two_bytes room src = take 2 (take room src)

pub take-le : (n : ℕ) (xs : Bytes) → (length (take n xs) ≤ n) × (length (take n xs) ≤ length xs)
take-le zero xs = (omega arith, omega arith)
take-le (suc n) [] = (omega arith, omega arith)
take-le (suc n) (x ∷ xs) = let (a, b) = take-le n xs in (omega arith, omega arith)

pub two_bytes-le :
    (room : ℕ) (src : Bytes)
    → (length (two_bytes room src) ≤ room) × (length (two_bytes room src) ≤ length src)
two_bytes-le room src = (
  omega (arith, (take-le 2 (take room src)).1, (take-le room src).0),
  omega (arith, (take-le 2 (take room src)).1, (take-le room src).1),
)

abbrev pub two_bytes_step : ℕ → Bytes → Lz4Step Unit
two_bytes_step room src = record {
  after = tt;
  bytes_read = length (two_bytes room src);
  written = two_bytes room src;
}

pub some-inj : {A : Type 0} {a b : A} → some a ≡ some b → a ≡ b
some-inj e = cc

abbrev pub copying_codecs : Codecs Unit
copying_codecs = record {
  ready = tt;
  lz4 = λ c room src. some (two_bytes_step room src);
  lz4_reads_within = λ c room src s e.
      subst (λ (t : Lz4Step Unit). t.bytes_read ≤ length src) (some-inj e)
        (two_bytes-le room src).1;
  lz4_writes_within = λ c room src s e.
      subst (λ (t : Lz4Step Unit). length t.written ≤ room) (some-inj e) (two_bytes-le room src).0;
  bz2 = λ room source. none;
}

pub copying-Progress : Progress copying_codecs
copying-Progress c (suc room) (b ∷ src) s hr hs e =
    let bytes : s.written ≡ two_bytes (suc room) (b ∷ src) = ground (arith, e) in
    omega (arith, ap length bytes)
copying-Progress c zero src s hr hs e = absurd (omega arith)
copying-Progress c (suc room) [] s hr hs e = absurd (omega arith)
