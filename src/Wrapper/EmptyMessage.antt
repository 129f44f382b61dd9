-- ===== src/Wrapper/EmptyMessage.antt =====
-- A record without data at the end of a chunk (View::iterator::readMessage, lib/view.cc).
use embag.Prelude.{
  ℕ, suc, ◌+◌, ◌≤◌, ◌<◌, ◌≡◌, refl, sym, ap, ◌∙◌, [], ◌++◌, arith, lt→ltb, le→ltb, length,
  append-nil, length-append,
}
use embag.Bytes.{Bytes, encode_le, length-encode_le}
use embag.Result.{err, out_of_range}
use embag.Header.Encode.{encode_entries}
use embag.Wrapper.{Wrapper, at_pointer, next_record, scan_records}
use embag.Wrapper.Items.{
  Item, IsItem, encode_item, length-encode_item, at_pointer-split, u32_at-split, spread, sizes,
}

past_end : (b : Bytes) (n : ℕ) → length b ≤ n → at_pointer b n ≡ err out_of_range
unfolding at_pointer
past_end b n h = rw (le→ltb n (length b) h)

module _ (pre : Bytes) (i : Item) (s : IsItem i) (empty : i.payload ≡ []) where
  next_record-empty : next_record (pre ++ (encode_item i ++ [])) (length pre) ≡ err out_of_range
  unfolding next_record
  next_record-empty =
      let h = encode_entries i.entries in
      let b = pre ++ (encode_item i ++ []) in
      let (a0, a1, a2, a3, a4) = spread pre [] i s in
      let (n0, n1, n2, n3) = sizes pre [] i s in
      let behind = encode_le 4 (length i.payload) ++ (i.payload ++ []) in
      let some_header : 0 < length (h ++ behind) = omega (
        arith,
        length-append h behind,
        length-append (encode_le 4 (length i.payload)) (i.payload ++ []),
        length-encode_le 4 (length i.payload),
      ) in
      let ends : length b ≤ length pre + 4 + length h + 4 =
        omega (arith, ap length a4, length-append (pre ++ encode_item i) [], n3, ap length empty) in
      rw (
        u32_at-split b pre (h ++ behind) (length pre) (length h) a0 refl s.header_fits,
        at_pointer-split b _ (h ++ behind) (length pre + 4) a1 (sym n0) some_header,
        u32_at-split b _ (i.payload ++ []) (length pre + 4 + length h) (length i.payload) a2
            (sym n1) s.payload_fits,
        past_end b (length pre + 4 + length h + 4) ends,
      )

  -- Where the last record of a chunk is sound but has no data, as a message of an empty type, the
  -- loop that reaches it throws std::out_of_range, whatever its connection is.
  pub empty_last_record_throws :
      (fuel : ℕ) (b : Bytes) (w : Wrapper)
      → b ≡ pre ++ encode_item i
      → w.processed_bytes ≡ length pre
      → w.uncompressed_size ≡ length b
      → scan_records (suc fuel) b w ≡ err out_of_range
  unfolding scan_records
  empty_last_record_throws fuel b w e ep es =
      let inside : w.processed_bytes < w.uncompressed_size =
        omega (arith, ap length e, length-append pre (encode_item i), length-encode_item i) in
      let whole : b ≡ pre ++ (encode_item i ++ []) =
        e ∙ ap (◌++◌ pre) (sym (append-nil (encode_item i))) in
      let thrown : next_record b w.processed_bytes ≡ err out_of_range =
        ap (next_record b) ep ∙ ap (λ k. next_record k (length pre)) whole ∙ next_record-empty in
      rw (lt→ltb _ _ inside, thrown)
