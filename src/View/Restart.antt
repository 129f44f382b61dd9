-- ===== src/View/Restart.antt =====
-- A second begin() of a view whose iteration was left in a chunk (lib/view.cc).
use embag.Prelude.{ℕ, ◌≡◌, refl, sym, some, List, [], ◌∷◌, ◌++◌, length}
use embag.Bytes.{Bytes}
use embag.Result.{Result, ok}
use embag.Bag.{Chunk}
use embag.Wrapper.{Wrapper}
use embag.Wrapper.Items.{Item, Msg, wanted, encode_items, AreItems}
use embag.Wrapper.Messages.{AreChunks, Future, within, wanted_all, current_msg, read_message-Reads}
use embag.View.{begin_queue, read_and_push}

-- Where a wrapper is still in the buffer of some chunk when begin() starts it again, its chunks hold
-- records, and a wanted message is left in that buffer or in a chunk behind the first: begin() leaves
-- it at the first such message; ahead are the others left in the buffer, and then those of all its
-- chunks but the first, whose messages do not come.
pub begin_queue-left_chunk :
    (decompress : Chunk → Result Bytes) (a : ℕ) (w : Wrapper) (c : Chunk) (cs : List Chunk)
    (b pre : Bytes) (is : List Item) (iss : List (List Item)) (m : Msg) (ms : List Msg)
    → w.chunks_to_parse ≡ c ∷ cs
    → w.current_buffer ≡ some b
    → b ≡ pre ++ encode_items is
    → w.processed_bytes ≡ length pre
    → w.uncompressed_size ≡ length b
    → AreItems is
    → AreChunks decompress cs iss
    → wanted w.connection_ids is ++ wanted_all w.connection_ids iss ≡ m ∷ ms
    → (w' : Wrapper) × (begin_queue decompress ((a, w) ∷ []) [] ≡ ok (w' ∷ []))
      × (current_msg w' ≡ m)
      × Future decompress w.connection_ids w' ms
unfolding begin_queue read_and_push
begin_queue-left_chunk decompress a w c cs b pre is iss m ms ec eb e ep es hi hc em =
    let w0 : Wrapper = record w { chunk_iter = w.chunks_to_parse } in
    let (w', er, ew, f) =
      read_message-Reads decompress w.connection_ids w0 (m ∷ ms)
        (within c cs b pre is iss refl ec eb e ep es hi hc (sym em)) in
    (w', rw er, ew, f)
