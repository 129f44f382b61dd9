-- ===== src/Decompress/Calls.antt =====
-- What chunk_t::decompressLz4Chunk (lib/ros_bag_types.h) leaves in the buffer, for any sequence of
-- calls of the LZ4 library: each call is passed the start of the data and the start of dst.
use embag.Prelude.{
  ℕ, zero, suc, ◌+◌, ◌-◌, ◌≤◌, ◌<◌, ◌≡◌, refl, sym, ap, ◌∙◌, true, false, ◌||◌, ◌&&◌, some, List,
  [], ◌∷◌, ◌++◌, ◌==◌, if◌then◌else◌, length, take, drop, replicate, total, All, arith,
  Option-cases, Bool-cases, inl, inr, ltb, length-append, length-drop, length-replicate, All-map,
}
use embag.Bytes.{Bytes, codes, bytes_eq, copy_n-append}
use embag.Result.{Result, ok, err, guard, ◌>>◌, Ensures, Ensures-ok, lz4_left}
use embag.Bag.{Chunk}
use embag.Decompress.{Lz4Step, Codecs, lz4_loop, write_front, decompress_lz4_chunk, decompress}

drop-nil : (n : ℕ) → drop {A = ℕ} n [] ≡ []
drop-nil zero = refl
drop-nil (suc n) = refl

drop-write_front :
    (n : ℕ) (bytes dst : Bytes) → length bytes ≤ n → drop n (write_front bytes dst) ≡ drop n dst
unfolding write_front
drop-write_front n [] dst h = refl
drop-write_front zero (b ∷ bytes) dst h = absurd (omega arith)
drop-write_front (suc n) (b ∷ bytes) [] h =
    ap (λ z. drop n (bytes ++ z)) (sym (drop-nil (length bytes)))
    ∙ drop-write_front n bytes [] (omega arith)
    ∙ drop-nil n
drop-write_front (suc n) (b ∷ bytes) (d ∷ dst) h = drop-write_front n bytes dst (omega arith)

length-write_front :
    (bytes dst : Bytes) → length bytes ≤ length dst → length (write_front bytes dst) ≡ length dst
unfolding write_front
length-write_front bytes dst h =
    omega (arith, length-append bytes (drop (length bytes) dst), length-drop (length bytes) dst)

drop-replicate : (n k : ℕ) → drop n (replicate {A = ℕ} k 0) ≡ replicate (k - n) 0
drop-replicate zero k = let all : k - 0 ≡ k = omega arith in rw all refl
drop-replicate (suc n) zero = let none_left : 0 - suc n ≡ 0 = omega arith in rw none_left refl
drop-replicate (suc n) (suc k) =
    let same : suc k - suc n ≡ k - n = omega arith in rw same (drop-replicate n k)

module _ {Context : Type 0} (codecs : Codecs Context) where
  -- The calls of the loop, each while there are data to read and room to write, until nothing is left
  -- of either: each has the context that the one before has left, the first bytes of the data, as
  -- many as are left to read, and the size of the room that is left.
  abbrev pub AreCalls : Context → Bytes → ℕ → ℕ → List (Lz4Step Context) → Type 0
  AreCalls c src src_left dst_left [] = (src_left ≡ 0) × (dst_left ≡ 0)
  AreCalls c src src_left dst_left (s ∷ ss) =
      (0 < src_left)
      × (0 < dst_left)
      × (codecs.lz4 c dst_left (take src_left src) ≡ some s)
      × AreCalls s.after src (src_left - s.bytes_read) (dst_left - length s.written) ss

  -- The bytes that a call has written.
  abbrev pub written_length : Lz4Step Context → ℕ
  written_length s = length s.written

  -- The bytes of the call that has written the most.
  abbrev pub longest : List (Lz4Step Context) → ℕ
  longest [] = 0
  longest (s ∷ ss) = if ltb (longest ss) (written_length s) then written_length s else longest ss

  -- The buffer after calls that have each written at its start.
  abbrev pub write_all : List (Lz4Step Context) → Bytes → Bytes
  write_all [] dst = dst
  write_all (s ∷ ss) dst = write_all ss (write_front s.written dst)

  longest-All : (ss : List (Lz4Step Context)) → All (λ s. written_length s ≤ longest ss) ss
  longest-All [] = tt
  longest-All (s ∷ ss) = (
    ground arith,
    All-map (λ t. written_length t ≤ longest ss) (λ t. written_length t ≤ longest (s ∷ ss)) ss
        (λ t h. ground (arith, h)) (longest-All ss),
  )

  drop-write_all :
      (n : ℕ) (ss : List (Lz4Step Context)) (dst : Bytes)
      → All (λ s. written_length s ≤ n) ss
      → drop n (write_all ss dst) ≡ drop n dst
  drop-write_all n [] dst h = refl
  drop-write_all n (s ∷ ss) dst h =
      drop-write_all n ss (write_front s.written dst) h.1 ∙ drop-write_front n s.written dst h.0

  calls-length :
      (c : Context) (src : Bytes) (src_left dst_left : ℕ) (ss : List (Lz4Step Context))
      (dst : Bytes)
      → AreCalls c src src_left dst_left ss
      → dst_left ≤ length dst
      → length (write_all ss dst) ≡ length dst
  calls-length c src src_left dst_left [] dst h k = refl
  calls-length c src src_left dst_left (s ∷ ss) dst (hs, hd, e, h) k =
      let fits = codecs.lz4_writes_within c dst_left (take src_left src) s e in
      let same = length-write_front s.written dst (omega arith) in
      calls-length s.after src _ (dst_left - length s.written) ss (write_front s.written dst) h
        (omega arith)
      ∙ same

  calls-written :
      (c : Context) (src : Bytes) (src_left dst_left : ℕ) (ss : List (Lz4Step Context))
      → AreCalls c src src_left dst_left ss
      → total written_length ss ≡ dst_left
  calls-written c src src_left dst_left [] (a, b) = omega arith
  calls-written c src src_left dst_left (s ∷ ss) (hs, hd, e, h) = omega (
    arith,
    codecs.lz4_writes_within c dst_left (take src_left src) s e,
    calls-written s.after src (src_left - s.bytes_read) (dst_left - length s.written) ss h,
  )

  -- A run of the loop from `dst` on that ends with `out`.
  record Run (c : Context) (src : Bytes) (src_left dst_left : ℕ) (dst out : Bytes) : Type 0 where
    calls : List (Lz4Step Context)
    made : AreCalls c src src_left dst_left calls
    left : out ≡ write_all calls dst

  loop_end :
      (c : Context) (src : Bytes) (src_left dst_left : ℕ) (dst : Bytes)
      → Ensures
          (Run c src src_left dst_left dst)
          (guard ((src_left == 0) && (dst_left == 0)) (lz4_left src_left dst_left) >> ok dst)
  loop_end c src src_left dst_left dst = elim (Bool-cases ((src_left == 0) && (dst_left == 0))) [
    | inl e ↦
        rw e (record { calls = []; made = (ground (arith, e), ground (arith, e)); left = refl })
    | inr e ↦ rw e tt
  ]

  one_more :
      (c : Context) (src : Bytes) (src_left dst_left : ℕ) (dst : Bytes) (s : Lz4Step Context)
      (r : Result Bytes)
      → ((dst_left == 0) || (src_left == 0)) ≡ false
      → codecs.lz4 c dst_left (take src_left src) ≡ some s
      → Ensures
          (Run s.after src
            (src_left - s.bytes_read)
            (dst_left - length s.written)
            (write_front s.written dst))
          r
      → Ensures (Run c src src_left dst_left dst) r
  one_more c src src_left dst_left dst s (err x) e call h = tt
  one_more c src src_left dst_left dst s (ok out) e call h = record {
    calls = s ∷ h.calls;
    made = (ground (arith, e), ground (arith, e), call, h.made);
    left = h.left;
  }

  lz4_loop-Run :
      (fuel : ℕ) (c : Context) (src : Bytes) (src_left dst_left : ℕ) (dst : Bytes)
      → Ensures (Run c src src_left dst_left dst) (lz4_loop codecs fuel c src src_left dst_left dst)
  unfolding lz4_loop
  lz4_loop-Run zero c src src_left dst_left dst =
      elim (Bool-cases ((dst_left == 0) || (src_left == 0))) [
        | inl e ↦ rw e (loop_end c src src_left dst_left dst)
        | inr e ↦ rw e tt
      ]
  lz4_loop-Run (suc fuel) c src src_left dst_left dst =
      elim (Bool-cases ((dst_left == 0) || (src_left == 0))) [
        | inl e ↦ rw e (loop_end c src src_left dst_left dst)
        | inr e ↦ rw e (elim (Option-cases (codecs.lz4 c dst_left (take src_left src))) [
          | inl n ↦ rw n tt
          | inr (s, call) ↦ rw call (
              one_more c src src_left dst_left dst s _ e call (lz4_loop-Run fuel s.after src _ _ _))
        ])
      ]

  chunk-Run :
      (chunk : Chunk) (src p : Bytes)
      → chunk.compression ≡ codes "lz4"
      → chunk.chunk_record.content ≡ some (src ++ p)
      → chunk.chunk_record.data_len ≡ length src
      → Ensures
          (Run codecs.ready src
            (length src)
            chunk.uncompressed_size
            (replicate chunk.uncompressed_size 0))
          (decompress codecs chunk)
  unfolding decompress decompress_lz4_chunk
  chunk-Run chunk src p ez ec el =
      let is_lz4 : bytes_eq (codes "lz4") (codes "lz4") ≡ true = unfold bytes_eq in refl in
      rw (ez, is_lz4, ec, el, copy_n-append src p)
        (lz4_loop-Run (length src + chunk.uncompressed_size) codecs.ready src (length src)
          chunk.uncompressed_size (replicate chunk.uncompressed_size 0))

  -- Where decompress returns for an LZ4 chunk, the outputs of the calls that the loop has made of the
  -- library are of the uncompressed size together, but the buffer, of that size too, is what the calls
  -- leave that each write at its start: all bytes behind the longest output of a single call are
  -- zero.
  pub lz4_calls_write_front :
      (chunk : Chunk) (src p dst : Bytes)
      → chunk.compression ≡ codes "lz4"
      → chunk.chunk_record.content ≡ some (src ++ p)
      → chunk.chunk_record.data_len ≡ length src
      → decompress codecs chunk ≡ ok dst
      → (calls : List (Lz4Step Context)) × AreCalls codecs.ready src
          (length src)
          chunk.uncompressed_size
          calls
        × (total written_length calls ≡ chunk.uncompressed_size)
        × (length dst ≡ chunk.uncompressed_size)
        × (dst ≡ write_all calls (replicate chunk.uncompressed_size 0))
        × (drop (longest calls) dst ≡ replicate (chunk.uncompressed_size - longest calls) 0)
  lz4_calls_write_front chunk src p dst ez ec el e =
      let size = chunk.uncompressed_size in
      let zeros : Bytes = replicate size 0 in
      let r =
        Ensures-ok (Run codecs.ready src (length src) size zeros) (decompress codecs chunk)
          (chunk-Run chunk src p ez ec el) e in
      (
        r.calls,
        r.made,
        calls-written codecs.ready src (length src) size r.calls r.made,
        ap length r.left
            ∙ calls-length codecs.ready src (length src) size r.calls zeros r.made
                (omega (arith, length-replicate {A = ℕ} size 0))
            ∙ length-replicate size 0,
        r.left,
        ap (drop (longest r.calls)) r.left
            ∙ drop-write_all (longest r.calls) r.calls zeros (longest-All r.calls)
            ∙ drop-replicate (longest r.calls) size,
      )
