-- ===== src/Stream/Reads.antt =====
-- Bag::readRecord (lib/embag.cc) on a well-formed record.
use embag.Prelude.{
  ℕ, zero, suc, ◌+◌, ◌≤◌, ◌≡◌, refl, subst, sym, ap, ◌∙◌, false, some, List, [], ◌∷◌, ◌++◌, arith,
  ltb, le→ltb, length, take, drop, length-append, append_assoc, append-nil, take-append,
  drop-append, length-drop,
}
use native.Mathlib.Nat.{zero-add}
use Prim.Native.Nat.add
use embag.Bytes.{Bytes, read_u32, encode_le, length-encode_le, read_le-encode_le, IsU32}
use embag.Stream.{
  Device, Stream, zeros, stream_read, stream_read_u32, tell_pointer, seek_to, seek_by, read_record,
}

-- The bytes of a record: the lengths in four bytes each, in front of what they count.
unfoldable pub encode_record : Bytes → Bytes → Bytes
encode_record h c = encode_le 4 (length h) ++ (h ++ (encode_le 4 (length c) ++ c))

-- The stream is not failed, and what it has not read is p.
pub record At (s : Stream) (p : Bytes) : Type 0 where
  pub good : s.failed ≡ false
  pub unread : drop s.pos s.buffer ≡ p
  pub within : s.pos ≤ length s.buffer

pub drop-drop {ℓ} : {A : Type ℓ} (m n : ℕ) (xs : List A) → drop n (drop m xs) ≡ drop (m + n) xs
drop-drop zero n xs = rw zero-add
drop-drop (suc m) zero [] = rw (add.suc m zero)
drop-drop (suc m) (suc n) [] = rw (add.suc m (suc n))
drop-drop (suc m) n (x ∷ xs) = rw (add.suc m n) (drop-drop m n xs)

drop-all {ℓ} : {A : Type ℓ} (xs : List A) → drop (length xs) xs ≡ []
drop-all [] = refl
drop-all (x ∷ xs) = drop-all xs

At-length : {s : Stream} {p : Bytes} → At s p → s.pos + length p ≡ length s.buffer
At-length {s} a = omega (arith, length-drop s.pos s.buffer, ap length a.unread, a.within)

abbrev pub advance : ℕ → Stream → Stream
advance n s = record s { pos = s.pos + n }

pub At-advance : (s : Stream) (q p : Bytes) → At s (q ++ p) → At (advance (length q) s) p
At-advance s q p a = record {
  good = a.good;
  unread =
      sym (drop-drop s.pos (length q) s.buffer) ∙ ap (drop (length q)) a.unread ∙ drop-append q p;
  within = omega (arith, At-length a, length-append q p);
}

-- Reading the bytes q that come next.
pub stream_read-At :
    (n : ℕ) (s : Stream) (q p dest : Bytes)
    → n ≡ length q
    → length dest ≡ n
    → At s (q ++ p)
    → stream_read n dest s ≡ (q, advance n s)
unfolding stream_read
stream_read-At n s q p dest e ed a =
    let got : take n (drop s.pos s.buffer) ≡ q =
      ap (take n) a.unread ∙ ap (λ k. take k (q ++ p)) e ∙ take-append q p in
    let left : drop n dest ≡ [] = ap (λ k. drop k dest) (sym ed) ∙ drop-all dest in
    let enough : ltb n n ≡ false = le→ltb n n (omega arith) in
    ground (arith, a.good, got, left, enough, append-nil q)

pub stream_read_u32-At :
    (s : Stream) (n : ℕ) (p : Bytes)
    → IsU32 n
    → At s (encode_le 4 n ++ p)
    → stream_read_u32 s ≡ (n, advance 4 s)
unfolding stream_read_u32
stream_read_u32-At s n p h a =
    let value : read_u32 (encode_le 4 n) ≡ some n =
      ap read_u32 (sym (append-nil (encode_le 4 n))) ∙ read_le-encode_le 4 n [] h in
    let got = stream_read-At 4 s (encode_le 4 n) p zeros (sym (length-encode_le 4 n)) refl a in
    ground (arith, got, value)

pub At-advance_u32 :
    (s : Stream) (n : ℕ) (p : Bytes) → At s (encode_le 4 n ++ p) → At (advance 4 s) p
unfolding encode_le
At-advance_u32 s n p a = At-advance s (encode_le 4 n) p a

tell_pointer-At : (s : Stream) (p : Bytes) → At s p → tell_pointer s ≡ some p
unfolding tell_pointer
tell_pointer-At s p a = ground (arith, a.good, a.unread)

length-encode_record : (h c : Bytes) → length (encode_record h c) ≡ 8 + length h + length c
unfolding encode_record
length-encode_record h c = omega (
  arith,
  length-append (encode_le 4 (length h)) (h ++ (encode_le 4 (length c) ++ c)),
  length-append h (encode_le 4 (length c) ++ c),
  length-append (encode_le 4 (length c)) c,
  length-encode_le 4 (length h),
  length-encode_le 4 (length c),
)

module _ (d : Device) where
  seek_by-At :
      (n : ℕ) (s : Stream) (q p : Bytes)
      → n ≡ length q
      → At s (q ++ p)
      → seek_by d n s ≡ advance n s
  unfolding seek_by seek_to
  seek_by-At n s q p e a =
      let fits : s.pos + n ≤ length s.buffer = omega (arith, At-length a, length-append q p) in
      ground (arith, a.good, d.seekable_within (length s.buffer) (s.pos + n) fits)

  -- readRecord where the stream stands at a record whose two parts have lengths that fit a uint32_t:
  -- the lengths are those of the parts, the pointers stand at the parts, and the stream stands behind
  -- the record, whatever the device does with positions outside of the bytes.
  pub read_record-At :
      (s : Stream) (h c p : Bytes)
      → IsU32 (length h)
      → IsU32 (length c)
      → At s (encode_record h c ++ p)
      → (read_record d s).0 ≡ record {
        header_len = length h;
        header = some (h ++ (encode_le 4 (length c) ++ (c ++ p)));
        data_len = length c;
        content = some (c ++ p);
      }
        × At (read_record d s).1 p
        × ((read_record d s).1.pos ≡ s.pos + length (encode_record h c))
  unfolding read_record encode_record
  read_record-At s h c p hh hc a =
      let hl = encode_le 4 (length h) in
      let cl = encode_le 4 (length c) in
      let split : (hl ++ (h ++ (cl ++ c))) ++ p ≡ hl ++ (h ++ (cl ++ (c ++ p))) =
        simp append_assoc in
      let a0 : At s (hl ++ (h ++ (cl ++ (c ++ p)))) = subst (At s) split a in
      let s1 = advance 4 s in
      let a1 = At-advance_u32 s (length h) (h ++ (cl ++ (c ++ p))) a0 in
      let s2 = advance (length h) s1 in
      let a2 = At-advance s1 h (cl ++ (c ++ p)) a1 in
      let s3 = advance 4 s2 in
      let a3 = At-advance_u32 s2 (length c) (c ++ p) a2 in
      let a4 = At-advance s3 c p a3 in
      rw
        (
          stream_read_u32-At s (length h) (h ++ (cl ++ (c ++ p))) hh a0,
          tell_pointer-At s1 (h ++ (cl ++ (c ++ p))) a1,
          seek_by-At (length h) s1 h (cl ++ (c ++ p)) refl a1,
          stream_read_u32-At s2 (length c) (c ++ p) hc a2,
          tell_pointer-At s3 (c ++ p) a3,
          seek_by-At (length c) s3 c p refl a3,
        )
        (refl, a4, omega (arith, length-encode_record h c))
