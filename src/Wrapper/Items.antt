-- ===== src/Wrapper/Items.antt =====
-- The bytes of an uncompressed chunk as a list of records, and one record read from them
-- (View::iterator::readMessage, lib/view.cc).
use embag.Prelude.{
  ℕ, ◌+◌, ◌≤◌, ◌<◌, ◌≡◌, refl, sym, ap, ◌∙◌, Bool, true, List, [], ◌∷◌, ◌++◌, arith, ltb, lt→ltb,
  drop, take, length, if◌then◌else◌, ◌&&◌, append_assoc, drop-append, take-append, length-append,
}
use embag.Bytes.{Bytes, encode_le, length-encode_le, read_le-encode_le, IsU32}
use embag.Result.{ok}
use embag.Time.{Time}
use embag.Header.{message_data, connection}
use embag.Header.Encode.{Entry, encode_entries}
use embag.Stream.Reads.{encode_record}
use embag.Wrapper.{
  FastHeader, fast_read_header, at_pointer, u32_at, ChunkRecord, next_record, has_id,
}

-- A message, or a record of a connection, with the entries of its header.
pub record Item : Type 0 where
  pub is_message : Bool
  pub connection_id : ℕ
  pub timestamp : Time
  pub entries : List Entry
  pub payload : Bytes

-- What a reader takes from a message.
pub record Msg : Type 0 where
  pub connection_id : ℕ
  pub timestamp : Time
  pub payload : Bytes

abbrev pub msg : Item → Msg
msg i = record { connection_id = i.connection_id; timestamp = i.timestamp; payload = i.payload }

abbrev pub header_of : Item → FastHeader
header_of i = record {
  op = if i.is_message then message_data else connection;
  connection_id = i.connection_id;
  timestamp = i.timestamp;
}

-- The messages of the wanted connections, in order.
unfoldable pub wanted : List ℕ → List Item → List Msg
wanted ids [] = []
wanted ids (i ∷ is) =
    if i.is_message && has_id i.connection_id ids then msg i ∷ wanted ids is else wanted ids is

abbrev pub encode_item : Item → Bytes
encode_item i = encode_record (encode_entries i.entries) i.payload

unfoldable pub encode_items : List Item → Bytes
encode_items [] = []
encode_items (i ∷ is) = encode_item i ++ encode_items is

-- The lengths fit, and the bytes of the header read as the header.
pub record IsItem (i : Item) : Type 0 where
  pub header_fits : IsU32 (length (encode_entries i.entries))
  pub payload_fits : IsU32 (length i.payload)
  pub reads :
      (p : Bytes)
      → fast_read_header (encode_entries i.entries ++ p) (length (encode_entries i.entries))
        ≡ ok (header_of i)

-- Each record is sound, and its payload does not begin at the end of the buffer.
abbrev pub AreItems : List Item → Type 0
AreItems [] = Unit
AreItems (i ∷ is) = IsItem i × (0 < length i.payload + length (encode_items is)) × AreItems is

pub at_pointer-split :
    (b pre q : Bytes) (n : ℕ) → b ≡ pre ++ q → n ≡ length pre → 0 < length q → at_pointer b n ≡ ok q
unfolding at_pointer
at_pointer-split b pre q n e en h =
    let inside : ltb n (length b) ≡ true =
      lt→ltb n (length b) (omega (arith, ap length e, length-append pre q)) in
    let rest : drop n b ≡ q =
      ap (λ k. drop k b) en ∙ ap (drop (length pre)) e ∙ drop-append pre q in
    rw (inside, rest)

pub u32_at-split :
    (b pre q : Bytes) (n v : ℕ)
    → b ≡ pre ++ (encode_le 4 v ++ q)
    → n ≡ length pre
    → IsU32 v
    → u32_at b n ≡ ok v
unfolding u32_at
u32_at-split b pre q n v e en h =
    let some_bytes : 0 < length (encode_le 4 v ++ q) =
      omega (arith, length-append (encode_le 4 v) q, length-encode_le 4 v) in
    rw (at_pointer-split b pre (encode_le 4 v ++ q) n e en some_bytes, read_le-encode_le 4 v q h)

pub length-encode_item : (i : Item) → 8 ≤ length (encode_item i)
unfolding encode_record
length-encode_item i = omega (
  arith,
  length-append (encode_le 4 (length (encode_entries i.entries)))
      (encode_entries i.entries ++ (encode_le 4 (length i.payload) ++ i.payload)),
  length-append (encode_entries i.entries) (encode_le 4 (length i.payload) ++ i.payload),
  length-append (encode_le 4 (length i.payload)) i.payload,
  length-encode_le 4 (length (encode_entries i.entries)),
  length-encode_le 4 (length i.payload),
)

pub length-encode_items :
    (i : Item) (is : List Item)
    → length (encode_items (i ∷ is)) ≡ length (encode_item i) + length (encode_items is)
unfolding encode_items
length-encode_items i is = length-append (encode_item i) (encode_items is)

-- The record that starts at the end of pre.
module _ (pre tail : Bytes) (i : Item) (s : IsItem i) where
  abbrev pub hdr : Bytes
  hdr = encode_entries i.entries

  abbrev pub behind_header : Bytes
  behind_header = encode_le 4 (length i.payload) ++ (i.payload ++ tail)

  pub spread :
      (pre ++ (encode_item i ++ tail) ≡ pre ++ (encode_le 4 (length hdr) ++ (hdr ++ behind_header)))
      × (pre ++ (encode_item i ++ tail)
          ≡ (pre ++ encode_le 4 (length hdr)) ++ (hdr ++ behind_header))
      × (pre ++ (encode_item i ++ tail)
          ≡ ((pre ++ encode_le 4 (length hdr)) ++ hdr) ++ behind_header)
      × (pre ++ (encode_item i ++ tail)
          ≡ (((pre ++ encode_le 4 (length hdr)) ++ hdr) ++ encode_le 4 (length i.payload))
            ++ (i.payload ++ tail))
      × (pre ++ (encode_item i ++ tail) ≡ (pre ++ encode_item i) ++ tail)
  unfolding encode_record
  spread = (
    simp append_assoc,
    simp append_assoc,
    simp append_assoc,
    simp append_assoc,
    simp append_assoc,
  )

  pub sizes :
      (length (pre ++ encode_le 4 (length hdr)) ≡ length pre + 4)
      × (length ((pre ++ encode_le 4 (length hdr)) ++ hdr) ≡ length pre + 4 + length hdr)
      × (length (((pre ++ encode_le 4 (length hdr)) ++ hdr) ++ encode_le 4 (length i.payload))
          ≡ length pre + 4 + length hdr + 4)
      × (length (pre ++ encode_item i) ≡ length pre + 4 + length hdr + 4 + length i.payload)
  unfolding encode_record
  sizes = omega (
    arith,
    length-append pre (encode_le 4 (length hdr)),
    length-append (pre ++ encode_le 4 (length hdr)) hdr,
    length-append ((pre ++ encode_le 4 (length hdr)) ++ hdr) (encode_le 4 (length i.payload)),
    length-append pre (encode_item i),
    length-append (encode_le 4 (length hdr)) (hdr ++ (encode_le 4 (length i.payload) ++ i.payload)),
    length-append hdr (encode_le 4 (length i.payload) ++ i.payload),
    length-append (encode_le 4 (length i.payload)) i.payload,
    length-encode_le 4 (length hdr),
    length-encode_le 4 (length i.payload),
  )

  -- The record as the loop body sees it, `next` behind it.
  abbrev pub record_of : ChunkRecord
  record_of = record {
    header = header_of i;
    data_offset = length pre + 4 + length hdr + 4;
    data_len = length i.payload;
    next = length pre + 4 + length hdr + 4 + length i.payload;
  }

  pub next_record-item :
      0 < length i.payload + length tail
      → next_record (pre ++ (encode_item i ++ tail)) (length pre) ≡ ok record_of
  unfolding next_record
  next_record-item h =
      let b = pre ++ (encode_item i ++ tail) in
      let some_header : 0 < length (hdr ++ behind_header) = omega (
        arith,
        length-append hdr behind_header,
        length-append (encode_le 4 (length i.payload)) (i.payload ++ tail),
        length-encode_le 4 (length i.payload),
      ) in
      rw (
        u32_at-split b pre (hdr ++ behind_header) (length pre) (length hdr) spread.0 refl
            s.header_fits,
        at_pointer-split b _ (hdr ++ behind_header) (length pre + 4) spread.1 (sym sizes.0)
            some_header,
        u32_at-split b _ (i.payload ++ tail) (length pre + 4 + length hdr) (length i.payload)
            spread.2 (sym sizes.1) s.payload_fits,
        at_pointer-split b _ (i.payload ++ tail) (length pre + 4 + length hdr + 4) spread.3
            (sym sizes.2) (omega (arith, length-append i.payload tail)),
        s.reads behind_header,
      )

  -- The payload where the record says it is.
  pub payload-item :
      take
        (length i.payload)
        (drop (length pre + 4 + length hdr + 4) (pre ++ (encode_item i ++ tail)))
      ≡ i.payload
  payload-item =
      let n = length i.payload in
      let front = ((pre ++ encode_le 4 (length hdr)) ++ hdr) ++ encode_le 4 n in
      ap (λ k. take n (drop k (pre ++ (encode_item i ++ tail)))) (sym sizes.2)
      ∙ ap (λ b. take n (drop (length front) b)) spread.3
      ∙ ap (take n) (drop-append front (i.payload ++ tail))
      ∙ take-append i.payload tail

  pub next-item :
      (record_of.next ≡ length (pre ++ encode_item i))
      × (pre ++ (encode_item i ++ tail) ≡ (pre ++ encode_item i) ++ tail)
  next-item = (sym sizes.3, spread.4)
