-- ===== src/Reader/Format.antt =====
-- The version line that Bag::readStream wants in front of the records (lib/embag.cc).
use embag.Prelude.{◌≡◌, refl, false, [], ◌∷◌, ◌++◌, arith, Bool-cases, inl, inr}
use embag.Bytes.{Bytes, codes, bytes_eq, bytes_eq→eq}
use embag.Result.{Error, Result, ok, err, ◌>>◌, guard}
use embag.Stream.{Device, Stream, stream_read}
use embag.Stream.Reads.{At}
use embag.Bag.{Bag, magic_string}
use embag.Reader.{read_records, read_stream}

abbrev pub version_line : Bytes
version_line = codes "#ROSBAG V2.0" ++ (10 ∷ [])

abbrev pub opened : Bytes → Stream
opened buffer = record { buffer = buffer; pos = 0; failed = false }

module _ (d : Device) where
  opened-At : (p : Bytes) → At (opened p) p
  opened-At p = record { good = refl; unread = refl; within = omega arith }

  -- Behind the version line the records are read from position 13.
  pub read_stream-version_line :
      (p : Bytes)
      → read_stream d (version_line ++ p)
        ≡ read_records d (record (opened (version_line ++ p)) { pos = 13 })
  unfolding read_stream stream_read bytes_eq
  read_stream-version_line p = refl

-- A buffer on which the three checks pass begins with the version line.
guard-passes {ℓ} :
    {A : Type ℓ} (t : Bytes) (u : Bytes) (x : Error) (r : Result A) {v : A}
    → (guard (bytes_eq t u) x >> r) ≡ ok v
    → (t ≡ u) × (r ≡ ok v)
guard-passes t u x r e = elim (Bool-cases (bytes_eq t u)) [
  | inl p ↦ (bytes_eq→eq t u p, rw p at e)
  | inr p ↦ let bad : err x ≡ ok _ = rw p at e in cc
]

module _ (d : Device) where
  -- Where readStream returns, the bytes begin with the version line "#ROSBAG V2.0" and a newline, and
  -- the result is what the records behind it give; so on bytes that begin otherwise, or are fewer, it
  -- does not return.
  pub read_stream-ok :
      (buffer : Bytes) {bag : Bag}
      → read_stream d buffer ≡ ok bag
      → (p : Bytes) × (buffer ≡ version_line ++ p)
        × (read_records d (record (opened buffer) { pos = 13 }) ≡ ok bag)
  unfolding read_stream stream_read
  read_stream-ok [] r = unfold bytes_eq in ground arith
  read_stream-ok (a ∷ []) r = unfold bytes_eq in ground arith
  read_stream-ok (a ∷ b ∷ []) r = unfold bytes_eq in ground arith
  read_stream-ok (a ∷ b ∷ c ∷ []) r = unfold bytes_eq in ground arith
  read_stream-ok (a ∷ b ∷ c ∷ e ∷ []) r = unfold bytes_eq in ground arith
  read_stream-ok (a ∷ b ∷ c ∷ e ∷ f ∷ []) r = unfold bytes_eq in ground arith
  read_stream-ok (a ∷ b ∷ c ∷ e ∷ f ∷ g ∷ []) r = unfold bytes_eq in ground arith
  read_stream-ok (a ∷ b ∷ c ∷ e ∷ f ∷ g ∷ h ∷ []) r = unfold bytes_eq in ground arith
  read_stream-ok (a ∷ b ∷ c ∷ e ∷ f ∷ g ∷ h ∷ i ∷ []) r = unfold bytes_eq in ground arith
  read_stream-ok (a ∷ b ∷ c ∷ e ∷ f ∷ g ∷ h ∷ i ∷ j ∷ []) r = unfold bytes_eq in ground arith
  read_stream-ok (a ∷ b ∷ c ∷ e ∷ f ∷ g ∷ h ∷ i ∷ j ∷ k ∷ []) r = unfold bytes_eq in ground arith
  read_stream-ok (a ∷ b ∷ c ∷ e ∷ f ∷ g ∷ h ∷ i ∷ j ∷ k ∷ l ∷ []) r =
      unfold bytes_eq in ground arith
  read_stream-ok (a ∷ b ∷ c ∷ e ∷ f ∷ g ∷ h ∷ i ∷ j ∷ k ∷ l ∷ m ∷ []) r =
      unfold bytes_eq in ground arith
  read_stream-ok (a ∷ b ∷ c ∷ e ∷ f ∷ g ∷ h ∷ i ∷ j ∷ k ∷ l ∷ m ∷ n ∷ p) r =
      let (magic, r1) = guard-passes (a ∷ b ∷ c ∷ e ∷ f ∷ g ∷ h ∷ i ∷ j ∷ []) magic_string _ _ r in
      let (version, r2) = guard-passes (codes "2.0") (k ∷ l ∷ m ∷ []) _ _ r1 in
      let (newline, r3) = guard-passes (10 ∷ []) (n ∷ []) _ _ r2 in
      (p, cc (magic, version, newline), r3)
