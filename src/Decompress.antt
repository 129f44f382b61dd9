-- ===== src/Decompress.antt =====
-- chunk_t::decompress (lib/ros_bag_types.h). The LZ4 and BZ2 libraries are parameters; dst is the
-- zero-filled buffer of the chunk's uncompressed size that readMessage passes (lib/view.cc).
pub mod Laws
mod Calls
mod Runs
use embag.Prelude.{
  ℕ, zero, suc, ◌+◌, ◌-◌, ◌≤◌, ◌≡◌, Bool, true, false, ◌||◌, ◌&&◌, Option, none, some, List, [],
  ◌∷◌, ◌++◌, ◌==◌, if◌then◌else◌, length, take, drop, replicate,
}
use embag.Bytes.{Bytes, codes, bytes_eq, copy_n}
use embag.Result.{
  Result, ok, err, ◌>>=◌, guard, ◌>>◌, or_err, undefined, stuck, lz4_failed, lz4_left, bz2_failed,
}
use embag.Bag.{Chunk}

-- What a call of LZ4F_decompress gives: the context after it, the number of bytes it has read, and
-- the bytes it has written.
pub record Lz4Step (Context : Type 0) : Type 0 where
  pub after : Context
  pub bytes_read : ℕ
  pub written : Bytes

-- LZ4F_decompress takes the context, the size of the room at dst and the bytes at src, none being an
-- error code; BZ2_bzBuffToBuffDecompress takes the size of the room and the bytes at source, none
-- being a code other than BZ_OK. Neither goes beyond the sizes that it is given. `ready` is the
-- context of Lz4DecompressionCtx (lib/decompression.h) at the start of a frame.
pub record Codecs (Context : Type 0) : Type 0 where
  pub ready : Context
  pub lz4 : Context → ℕ → Bytes → Option (Lz4Step Context)
  pub lz4_reads_within :
      (c : Context) (room : ℕ) (src : Bytes) (s : Lz4Step Context)
      → lz4 c room src ≡ some s
      → s.bytes_read ≤ length src
  pub lz4_writes_within :
      (c : Context) (room : ℕ) (src : Bytes) (s : Lz4Step Context)
      → lz4 c room src ≡ some s
      → length s.written ≤ room
  pub bz2 : ℕ → Bytes → Option Bytes

-- Bytes written at dst.
unfoldable pub write_front : Bytes → Bytes → Bytes
write_front bytes dst = bytes ++ drop (length bytes) dst

module _ {Context : Type 0} (codecs : Codecs Context) where
  -- The loop of decompressLz4Chunk, and the check behind it: each call gets the same pointers `src`
  -- and `dst`, with the sizes that are left.
  unfoldable pub lz4_loop : ℕ → Context → Bytes → ℕ → ℕ → Bytes → Result Bytes
  lz4_loop zero c src src_left dst_left dst =
      if dst_left == 0 || src_left == 0
      then (guard ((src_left == 0) && (dst_left == 0)) (lz4_left src_left dst_left) >> ok dst)
      else err stuck
  lz4_loop (suc fuel) c src src_left dst_left dst =
      if dst_left == 0 || src_left == 0
      then (guard ((src_left == 0) && (dst_left == 0)) (lz4_left src_left dst_left) >> ok dst)
      else (do
        s ← or_err lz4_failed (codecs.lz4 c dst_left (take src_left src))
        lz4_loop fuel s.after src (src_left - s.bytes_read) (dst_left - length s.written)
            (write_front s.written dst))

  -- chunk_t::decompressLz4Chunk, with a round for each byte.
  unfoldable pub decompress_lz4_chunk : Chunk → Bytes → Result Bytes
  unfolding lz4_loop
  decompress_lz4_chunk chunk dst = do
    p ← or_err undefined chunk.chunk_record.content
    src ← or_err undefined (copy_n chunk.chunk_record.data_len p)
    lz4_loop (length src + chunk.uncompressed_size) codecs.ready src (length src)
        chunk.uncompressed_size dst

  -- chunk_t::decompressBz2Chunk.
  unfoldable pub decompress_bz2_chunk : Chunk → Bytes → Result Bytes
  unfolding write_front
  decompress_bz2_chunk chunk dst = do
    p ← or_err undefined chunk.chunk_record.content
    source ← or_err undefined (copy_n chunk.chunk_record.data_len p)
    bytes ← or_err bz2_failed (codecs.bz2 chunk.uncompressed_size source)
    ok (write_front bytes dst)

  -- chunk_t::decompress at a buffer of zeros. No other compression changes the buffer.
  unfoldable pub decompress : Chunk → Result Bytes
  decompress chunk =
      let dst = replicate chunk.uncompressed_size 0 in
      if bytes_eq chunk.compression (codes "lz4")
      then decompress_lz4_chunk chunk dst
      else (if bytes_eq chunk.compression (codes "bz2")
          then decompress_bz2_chunk chunk dst
          else (if bytes_eq chunk.compression (codes "none")
              then (do
                p ← or_err undefined chunk.chunk_record.content
                or_err undefined (copy_n chunk.uncompressed_size p))
              else ok dst))
