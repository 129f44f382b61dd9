-- ===== src/Decompress/Laws.antt =====
-- chunk_t::decompress (lib/ros_bag_types.h), for each compression.
use embag.Prelude.{
  ℕ, zero, suc, ◌+◌, ◌-◌, ◌≤◌, ◌<◌, ◌≡◌, ◌≢◌, refl, Bool, true, false, Option, none, some, [], ◌∷◌,
  ◌++◌, if◌then◌else◌, length, take, replicate, arith, Option-cases, inl, inr,
}
use embag.Bytes.{Bytes, codes, bytes_eq, copy_n, copy_n-append}
use embag.Result.{Error, Result, ok, err, ◌>>=◌, or_err, undefined, stuck, bz2_failed}
use embag.Bag.{Chunk}
use embag.Decompress.{
  Lz4Step, Codecs, lz4_loop, write_front, decompress_lz4_chunk, decompress_bz2_chunk, decompress,
}

length-take-le : (n : ℕ) (xs : Bytes) → length (take n xs) ≤ n
length-take-le zero xs = omega arith
length-take-le (suc n) [] = omega arith
length-take-le (suc n) (x ∷ xs) = omega (arith, length-take-le n xs)

take-some : (n : ℕ) (xs : Bytes) → 0 < n → n ≤ length xs → 0 < length (take n xs)
take-some zero xs h k = absurd (omega arith)
take-some (suc n) [] h k = absurd (omega arith)
take-some (suc n) (x ∷ xs) h k = omega arith

module _ {Context : Type 0} (codecs : Codecs Context) where
  -- A chunk of compression "none" gives the first uncompressed_size bytes of its data.
  pub decompress-stored :
      (chunk : Chunk) (stored p : Bytes)
      → chunk.compression ≡ codes "none"
      → chunk.chunk_record.content ≡ some (stored ++ p)
      → chunk.uncompressed_size ≡ length stored
      → decompress codecs chunk ≡ ok stored
  unfolding decompress
  decompress-stored chunk stored p en ec es =
      rw (en, ec, es, copy_n-append stored p) (unfold bytes_eq in refl)

  -- A call of the library with bytes to read and room to write makes progress.
  abbrev pub Progress : Type 0
  Progress =
      (c : Context) (room : ℕ) (src : Bytes) (s : Lz4Step Context)
      → 0 < room
      → 0 < length src
      → codecs.lz4 c room src ≡ some s
      → 0 < s.bytes_read + length s.written

  -- No call takes more than the bytes at src, or writes more than the room.
  lz4_loop-ends :
      Progress
      → (fuel : ℕ) (c : Context) (src : Bytes) (src_left dst_left : ℕ) (dst : Bytes)
      → src_left ≤ length src
      → src_left + dst_left ≤ fuel
      → lz4_loop codecs fuel c src src_left dst_left dst ≢ err stuck
  unfolding lz4_loop
  lz4_loop-ends pr zero c src src_left dst_left dst h hf = ground arith
  lz4_loop-ends pr (suc fuel) c src src_left dst_left dst h hf =
      let some_left : 0 < src_left → 0 < length (take src_left src) =
        λ p. take-some src_left src p h in
      elim (Option-cases (codecs.lz4 c dst_left (take src_left src))) [
        | inl e ↦ ground (arith, e)
        | inr (s, e) ↦ ground (
          arith,
          e,
          some_left,
          length-take-le src_left src,
          pr c dst_left (take src_left src) s,
          codecs.lz4_reads_within c dst_left (take src_left src) s e,
          codecs.lz4_writes_within c dst_left (take src_left src) s e,
          lz4_loop-ends pr fuel s.after src (src_left - s.bytes_read) (dst_left - length s.written)
              (write_front s.written dst),
        )
      ]

  ends-or_err :
      {A : Type 0} (o : Option A) (e : Error) (f : A → Result Bytes)
      → e ≢ stuck
      → ((a : A) → f a ≢ err stuck)
      → (or_err e o >>= f) ≢ err stuck
  ends-or_err none e f h k = λ p. let same : e ≡ stuck = cc in h same
  ends-or_err (some a) e f h k = k a

  ok-not_stuck : (b : Bytes) → ok b ≢ err stuck
  ok-not_stuck b = λ e. cc

  ends-copy : (o : Option Bytes) → or_err undefined o ≢ err stuck
  ends-copy none = λ e. cc
  ends-copy (some b) = λ e. cc

  ends-branches :
      (x y z : Bool) (a b c : Result Bytes) (dst : Bytes)
      → a ≢ err stuck
      → b ≢ err stuck
      → c ≢ err stuck
      → (if x then a else (if y then b else (if z then c else ok dst))) ≢ err stuck
  ends-branches true y z a b c dst ha hb hc = ha
  ends-branches false true z a b c dst ha hb hc = hb
  ends-branches false false true a b c dst ha hb hc = hc
  ends-branches false false false a b c dst ha hb hc = λ e. cc

  -- Where each call of the LZ4 library with bytes and room makes progress, decompress ends, for
  -- every compression: with the bytes, or with an error that it throws, or with a read past the data.
  pub decompress_ends : Progress → (chunk : Chunk) → decompress codecs chunk ≢ err stuck
  unfolding decompress decompress_lz4_chunk decompress_bz2_chunk
  decompress_ends pr chunk =
      let zeros : Bytes = replicate chunk.uncompressed_size 0 in
      let lz4_ends : decompress_lz4_chunk codecs chunk zeros ≢ err stuck =
        ends-or_err chunk.chunk_record.content undefined _ (λ e. cc)
          λ p.
            ends-or_err (copy_n chunk.chunk_record.data_len p) undefined _ (λ e. cc)
              λ src.
                lz4_loop-ends pr (length src + chunk.uncompressed_size) codecs.ready src
                  (length src) chunk.uncompressed_size zeros (omega arith) (omega arith) in
      let bz2_ends : decompress_bz2_chunk codecs chunk zeros ≢ err stuck =
        ends-or_err chunk.chunk_record.content undefined _ (λ e. cc)
          λ p.
            ends-or_err (copy_n chunk.chunk_record.data_len p) undefined _ (λ e. cc)
              λ source.
                ends-or_err (codecs.bz2 chunk.uncompressed_size source) bz2_failed _ (λ e. cc)
                  λ bytes. ok-not_stuck (write_front bytes zeros) in
      let copy_ends : (or_err undefined chunk.chunk_record.content >>= λ p.
      or_err undefined (copy_n chunk.uncompressed_size p))
          ≢ err stuck =
        ends-or_err chunk.chunk_record.content undefined _ (λ e. cc)
          λ p. ends-copy (copy_n chunk.uncompressed_size p) in
      ends-branches (bytes_eq chunk.compression (codes "lz4"))
        (bytes_eq chunk.compression (codes "bz2")) (bytes_eq chunk.compression (codes "none")) _ _ _
        zeros lz4_ends bz2_ends copy_ends
