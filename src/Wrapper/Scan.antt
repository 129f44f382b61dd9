-- ===== src/Wrapper/Scan.antt =====
-- The inner loop of View::iterator::readMessage (lib/view.cc) over the records of a chunk.
use embag.Prelude.{
  ℕ, zero, suc, ◌≤◌, ◌<◌, ◌≡◌, refl, sym, ap, ◌∙◌, subst, Bool, true, false, List, [], ◌∷◌, ◌++◌,
  arith, lt→ltb, le→ltb, drop, take, length, if◌then◌else◌, ◌&&◌, Bool-cases, inl, inr, append-nil,
  length-append,
}
use embag.Bytes.{Bytes}
use embag.Result.{Result, ok}
use embag.Header.{message_data, connection}
use embag.Wrapper.{
  Wrapper, ChunkRecord, next_record, has_id, judge, keep_message, scan_records, keep, go_on,
}
use embag.Wrapper.Items.{
  Item, Msg, wanted, encode_item, encode_items, AreItems, record_of, next_record-item, payload-item,
  next-item, length-encode_item, length-encode_items,
}

-- The message that a record of the buffer holds.
abbrev pub msg_in : Bytes → ChunkRecord → Msg
msg_in b r = record {
  connection_id = r.header.connection_id;
  timestamp = r.header.timestamp;
  payload = take r.data_len (drop r.data_offset b);
}

scan-keep :
    (fuel : ℕ) (b : Bytes) (w : Wrapper) (r : ChunkRecord)
    → w.processed_bytes < w.uncompressed_size
    → next_record b w.processed_bytes ≡ ok r
    → judge r.header.op (has_id r.header.connection_id w.connection_ids) ≡ keep
    → scan_records (suc fuel) b w ≡ ok (keep_message b r w, true)
unfolding scan_records
scan-keep fuel b w r h e j = rw (lt→ltb _ _ h, e) (rw j)

scan-go_on :
    (fuel : ℕ) (b : Bytes) (w : Wrapper) (r : ChunkRecord)
    → w.processed_bytes < w.uncompressed_size
    → next_record b w.processed_bytes ≡ ok r
    → judge r.header.op (has_id r.header.connection_id w.connection_ids) ≡ go_on
    → scan_records (suc fuel) b w ≡ scan_records fuel b (record w { processed_bytes = r.next })
unfolding scan_records
scan-go_on fuel b w r h e j = rw (lt→ltb _ _ h, e) (rw j)

scan-end :
    (fuel : ℕ) (b : Bytes) (w : Wrapper)
    → w.uncompressed_size ≤ w.processed_bytes
    → scan_records fuel b w ≡ ok (w, false)
unfolding scan_records
scan-end zero b w h = rw (le→ltb _ _ h)
scan-end (suc fuel) b w h = rw (le→ltb _ _ h)

-- What the loop does where the wanted messages ahead are ms: without any it ends behind the
-- buffer; otherwise it stops behind the first one, with the others ahead.
abbrev pub Scanned : Bytes → Wrapper → List Msg → Result (Wrapper × Bool) → Type 0
Scanned b w [] r = r ≡ ok (record w { processed_bytes = length b }, false)
Scanned b w (m ∷ ms) r =
    (c : ChunkRecord) × (pre : Bytes) × (is : List Item) × (r ≡ ok (keep_message b c w, true))
    × (b ≡ pre ++ encode_items is)
    × (c.next ≡ length pre)
    × (msg_in b c ≡ m)
    × (wanted w.connection_ids is ≡ ms)
    × AreItems is

judge-of :
    (i : Item) (ids : List ℕ)
    → judge (if i.is_message then message_data else connection) (has_id i.connection_id ids)
      ≡ (if i.is_message && has_id i.connection_id ids then keep else go_on)
unfolding judge
judge-of i ids = ground arith

Scanned-processed :
    (b : Bytes) (w : Wrapper) (n : ℕ) (ms : List Msg) (r : Result (Wrapper × Bool))
    → Scanned b (record w { processed_bytes = n }) ms r
    → Scanned b w ms r
unfolding keep_message
Scanned-processed b w n [] r h = h
Scanned-processed b w n (m ∷ ms) r h = h

pub scan-items :
    (is : List Item) (fuel : ℕ) (pre b : Bytes) (w : Wrapper)
    → b ≡ pre ++ encode_items is
    → w.processed_bytes ≡ length pre
    → w.uncompressed_size ≡ length b
    → length (encode_items is) ≤ fuel
    → AreItems is
    → Scanned b w (wanted w.connection_ids is) (scan_records fuel b w)
unfolding wanted
scan-items [] fuel pre b w e ep es hf hi =
    let whole : length pre ≡ length b =
      sym (ap length (e ∙ unfold encode_items in append-nil pre)) in
    scan-end fuel b w (omega arith)
    ∙ ap (λ n. ok (record w { processed_bytes = n }, false)) (ep ∙ whole)
scan-items (i ∷ is) zero pre b w e ep es hf hi =
    absurd (omega (arith, length-encode_item i, length-encode_items i is))
scan-items (i ∷ is) (suc fuel) pre b w e ep es hf (hi, more, his) =
    let tail = encode_items is in
    let c = record_of pre tail i hi in
    let e' : b ≡ pre ++ (encode_item i ++ tail) = e ∙ unfold encode_items in refl in
    let at_record : next_record b w.processed_bytes ≡ ok c =
      ap (next_record b) ep
      ∙ ap (λ k. next_record k (length pre)) e'
      ∙ next_record-item pre tail i hi more in
    let inside : w.processed_bytes < w.uncompressed_size = omega (
      arith,
      ap length e,
      length-append pre (encode_items (i ∷ is)),
      length-encode_items i is,
      length-encode_item i,
    ) in
    let (behind, split) = next-item pre tail i hi in
    let verdict = judge-of i w.connection_ids in
    elim (Bool-cases (i.is_message && has_id i.connection_id w.connection_ids)) [
      | inl kept ↦ rw kept (
        c,
        pre ++ encode_item i,
        is,
        scan-keep fuel b w c inside at_record (verdict ∙ rw kept),
        e' ∙ split,
        behind,
        ap (λ p. record { connection_id = i.connection_id; timestamp = i.timestamp; payload = p })
            (ap (λ k. take (length i.payload) (drop c.data_offset k)) e'
              ∙ payload-item pre tail i hi),
        refl,
        his,
      )
      | inr passed ↦
          let w' : Wrapper = record w { processed_bytes = c.next } in
          let rest =
            scan-items is fuel (pre ++ encode_item i) b w' (e' ∙ split) behind es
              (omega (arith, length-encode_items i is, length-encode_item i)) his in
          let step = scan-go_on fuel b w c inside at_record (verdict ∙ rw passed) in
          rw passed (
            subst (Scanned b w (wanted w.connection_ids is)) (sym step)
              (Scanned-processed b w c.next (wanted w.connection_ids is) _ rest))
    ]
