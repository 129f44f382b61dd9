-- ===== src/Decompress/Runs.antt =====
-- chunk_t::decompress at a chunk of four bytes.
use embag.Prelude.{◌-◌, ◌≡◌, ◌≢◌, refl, List, [], ◌∷◌, drop, length, replicate, total}
use embag.Bytes.{Bytes, codes, bytes_eq}
use embag.Result.{ok, err, stuck}
use embag.Bag.{Chunk}
use embag.Decompress.{Lz4Step, write_front, lz4_loop, decompress_lz4_chunk, decompress}
use embag.Decompress.Laws.{decompress-stored, decompress_ends}
use embag.Decompress.Calls.{AreCalls, written_length, longest, write_all, lz4_calls_write_front}
use embag.Sample.Chunks.{stored_chunk, copying_codecs, copying-Progress}

abbrev lz4_chunk : Chunk
unfolding stored_chunk
lz4_chunk = record (stored_chunk (codes "abcd")) { compression = codes "lz4" }

decompress-stored_example :
    decompress copying_codecs (stored_chunk (codes "abcd")) ≡ ok (codes "abcd")
unfolding stored_chunk
decompress-stored_example =
    decompress-stored copying_codecs (stored_chunk (codes "abcd")) (codes "abcd") [] refl refl refl

decompress_ends_example : decompress copying_codecs lz4_chunk ≢ err stuck
decompress_ends_example = decompress_ends copying_codecs copying-Progress lz4_chunk

abbrev left_bytes : Bytes
left_bytes = b'a' ∷ b'b' ∷ 0 ∷ 0 ∷ []

lz4_chunk_runs : decompress copying_codecs lz4_chunk ≡ ok left_bytes
unfolding decompress write_front decompress_lz4_chunk lz4_loop bytes_eq lz4_chunk
lz4_chunk_runs = refl

-- The first two bytes come twice, with zeros behind them instead of "cd".
lz4_calls_write_front_example :
    (calls : List (Lz4Step Unit)) × AreCalls copying_codecs tt (codes "abcd") 4 4 calls
    × (total (written_length copying_codecs) calls ≡ 4)
    × (length left_bytes ≡ 4)
    × (left_bytes ≡ write_all copying_codecs calls (replicate 4 0))
    × (drop (longest copying_codecs calls) left_bytes
        ≡ replicate (4 - longest copying_codecs calls) 0)
unfolding lz4_chunk
lz4_calls_write_front_example =
    lz4_calls_write_front copying_codecs lz4_chunk (codes "abcd") [] left_bytes refl refl refl
      lz4_chunk_runs
