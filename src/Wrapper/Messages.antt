-- ===== src/Wrapper/Messages.antt =====
-- View::iterator::readMessage (lib/view.cc), call after call, against the messages of the chunks.
use embag.Prelude.{
  ℕ, ◌<◌, ◌≡◌, refl, sym, ap, ◌∙◌, subst, Bool, true, false, Option, none, some, List, [], ◌∷◌,
  ◌++◌, arith, drop, take, length, length-append,
}
use embag.Bytes.{Bytes}
use embag.Result.{Result, ok, ◌>>=◌}
use embag.Bag.{Chunk}
use embag.Wrapper.{
  Wrapper, after_scan, keep_message, scan_records, fill_buffer, read_chunks, read_message,
}
use embag.Wrapper.Items.{Item, Msg, wanted, encode_items, AreItems}
use embag.Wrapper.Scan.{Scanned, scan-items}

abbrev pub buffer_or_empty : Option Bytes → Bytes
buffer_or_empty none = []
buffer_or_empty (some b) = b

-- The message that a wrapper stands at, as operator* reads it.
abbrev pub current_msg : Wrapper → Msg
current_msg w = record {
  connection_id = w.current_connection_id;
  timestamp = w.current_timestamp;
  payload =
      take w.current_message_len
        (drop w.current_message_data_offset (buffer_or_empty w.current_message_buffer));
}

-- The wanted messages of the chunks, chunk by chunk.
abbrev pub wanted_all : List ℕ → List (List Item) → List Msg
wanted_all ids [] = []
wanted_all ids (is ∷ iss) = wanted ids is ++ wanted_all ids iss

module _ (decompress : Chunk → Result Bytes) where
  -- Each chunk decompresses to the bytes of its records, of which it has the size, not 0.
  abbrev pub AreChunks : List Chunk → List (List Item) → Type 0
  AreChunks [] [] = Unit
  AreChunks [] (is ∷ iss) = ⊥
  AreChunks (c ∷ cs) [] = ⊥
  AreChunks (c ∷ cs) (is ∷ iss) =
      (decompress c ≡ ok (encode_items is))
      × (c.uncompressed_size ≡ length (encode_items is))
      × (0 < length (encode_items is))
      × AreItems is
      × AreChunks cs iss

  -- ms are the wanted messages that a wrapper has still to read: before a chunk, or in one.
  pub data Future (ids : List ℕ) (w : Wrapper) (ms : List Msg) : Type 0 where
    before :
        (iss : List (List Item))
        → w.connection_ids ≡ ids
        → w.current_buffer ≡ none
        → w.processed_bytes ≡ 0
        → AreChunks w.chunk_iter iss
        → ms ≡ wanted_all ids iss
        → Future ids w ms
    within :
        (c : Chunk) (cs : List Chunk) (b pre : Bytes) (is : List Item) (iss : List (List Item))
        → w.connection_ids ≡ ids
        → w.chunk_iter ≡ c ∷ cs
        → w.current_buffer ≡ some b
        → b ≡ pre ++ encode_items is
        → w.processed_bytes ≡ length pre
        → w.uncompressed_size ≡ length b
        → AreItems is
        → AreChunks cs iss
        → ms ≡ wanted ids is ++ wanted_all ids iss
        → Future ids w ms

  -- Without a message ahead nothing is found; otherwise the first one is, with the others ahead.
  abbrev pub Reads : List ℕ → List Msg → Result (Wrapper × Bool) → Type 0
  Reads ids [] r = (w : Wrapper) × (r ≡ ok (w, false))
  Reads ids (m ∷ ms) r = (w : Wrapper) × (r ≡ ok (w, true)) × (current_msg w ≡ m) × Future ids w ms

  module _ (ids : List ℕ) (iss : List (List Item)) (next : Wrapper → Result (Wrapper × Bool)) where
    -- What the later chunks do.
    abbrev Later : Type 0
    Later =
        (w : Wrapper)
        → w.connection_ids ≡ ids
        → w.current_buffer ≡ none
        → w.processed_bytes ≡ 0
        → Reads ids (wanted_all ids iss) (next w)

    -- After the scan of a filled buffer.
    Scanned-Reads :
        (c : Chunk) (cs : List Chunk) (w : Wrapper) (b : Bytes) (ms : List Msg)
        (r : Result (Wrapper × Bool))
        → w.connection_ids ≡ ids
        → w.chunk_iter ≡ c ∷ cs
        → w.current_buffer ≡ some b
        → w.uncompressed_size ≡ length b
        → AreChunks cs iss
        → Later
        → Scanned b w ms r
        → Reads ids (ms ++ wanted_all ids iss) (r >>= after_scan next)
    Scanned-Reads c cs w b [] r ei ec eb es hc later done = rw done (later _ ei refl refl)
    Scanned-Reads c cs w b (m ∷ ms) r ei ec eb es hc later (cr, pre, is, er, e, en, em, ew, hi) =
        rw er (
          keep_message b cr w,
          refl,
          unfold keep_message in em,
          unfold keep_message in
              within c cs b pre is iss ei ec eb e en es hi hc
                (sym (ap (λ l. l ++ wanted_all ids iss) (ap (λ i. wanted i is) (sym ei) ∙ ew))),
        )

  -- The round on a chunk whose buffer is filled.
  filled-Reads :
      (ids : List ℕ) (c : Chunk) (cs : List Chunk) (w w1 : Wrapper) (b pre : Bytes) (is : List Item)
      (iss : List (List Item))
      → fill_buffer decompress c (record w { chunk_iter = c ∷ cs }) ≡ ok (b, w1)
      → w1.connection_ids ≡ ids
      → w1.chunk_iter ≡ c ∷ cs
      → w1.current_buffer ≡ some b
      → b ≡ pre ++ encode_items is
      → w1.processed_bytes ≡ length pre
      → w1.uncompressed_size ≡ length b
      → AreItems is
      → AreChunks cs iss
      → Later ids iss (read_chunks decompress cs)
      → Reads ids (wanted ids is ++ wanted_all ids iss) (read_chunks decompress (c ∷ cs) w)
  unfolding read_chunks
  filled-Reads ids c cs w w1 b pre is iss ef ei ec eb e ep es hi hc later =
      let scanned =
        subst (λ ids. Scanned b w1 (wanted ids is) (scan_records w1.uncompressed_size b w1)) ei
          (scan-items is w1.uncompressed_size pre b w1 e ep es
            (omega (arith, ap length e, length-append pre (encode_items is))) hi) in
      rw ef (
        Scanned-Reads ids iss (read_chunks decompress cs) c cs w1 b (wanted ids is) _ ei ec eb es hc
          later scanned)

  fill-fresh :
      (c : Chunk) (w : Wrapper) (b : Bytes)
      → w.current_buffer ≡ none
      → 0 < c.uncompressed_size
      → decompress c ≡ ok b
      → fill_buffer decompress c w
        ≡ ok (b, record w { current_buffer = some b; uncompressed_size = c.uncompressed_size })
  unfolding fill_buffer
  fill-fresh c w b e h d = ground (arith, e, h, d)

  fill-filled :
      (c : Chunk) (w : Wrapper) (b : Bytes)
      → w.current_buffer ≡ some b
      → fill_buffer decompress c w ≡ ok (b, w)
  unfolding fill_buffer
  fill-filled c w b e = ground (arith, e)

  before-Reads :
      (ids : List ℕ) (cs : List Chunk) (iss : List (List Item))
      → AreChunks cs iss
      → Later ids iss (read_chunks decompress cs)
  before-Reads ids [] [] hc w ei en ep = (record w { chunk_iter = [] }, unfold read_chunks in refl)
  before-Reads ids [] (is ∷ iss) hc w ei en ep = absurd hc
  before-Reads ids (c ∷ cs) [] hc w ei en ep = absurd hc
  before-Reads ids (c ∷ cs) (is ∷ iss) (ed, es, hp, hi, hc) w ei en ep =
      let b = encode_items is in
      let w0 : Wrapper = record w { chunk_iter = c ∷ cs } in
      filled-Reads ids c cs w
        (record w0 { current_buffer = some b; uncompressed_size = c.uncompressed_size }) b [] is iss
        (fill-fresh c w0 b en (omega arith) ed) ei refl refl refl ep es hi hc
        (before-Reads ids cs iss hc)

  -- A wrapper whose chunks hold records, and which stands before a chunk or behind a record of one,
  -- finds on a call of readMessage the next message of its connections, with all the others still
  -- ahead, and finds none only where no message is ahead.
  pub read_message-Reads :
      (ids : List ℕ) (w : Wrapper) (ms : List Msg)
      → Future ids w ms
      → Reads ids ms (read_message decompress w)
  unfolding read_message
  read_message-Reads ids w ms (before iss ei en ep hc em) =
      subst (λ l. Reads ids l (read_chunks decompress w.chunk_iter w)) (sym em)
        (before-Reads ids w.chunk_iter iss hc w ei en ep)
  read_message-Reads ids w ms (within c cs b pre is iss ei ec eb e ep es hi hc em) =
      subst (λ l. Reads ids l (read_chunks decompress w.chunk_iter w)) (sym em)
        (subst (λ l. Reads ids (wanted ids is ++ wanted_all ids iss) (read_chunks decompress l w))
          (sym ec)
          (filled-Reads ids c cs w (record w { chunk_iter = c ∷ cs }) b pre is iss
            (fill-filled c (record w { chunk_iter = c ∷ cs }) b eb) ei refl eb e ep es hi hc
            (before-Reads ids cs iss hc)))
