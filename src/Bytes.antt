-- ===== src/Bytes.antt =====
-- std::string and raw memory: a byte string is a list of numbers below 256, and a pointer into a
-- buffer is the list of the bytes from there to the buffer's end.
use Prim.Native.Char.{code}
use Prim.Native.String.{String}
use embag.Prelude.{
  ℕ, zero, suc, ◌+◌, ◌*◌, ◌/◌, ◌%◌, ◌^◌, ◌<◌, ◌≡◌, refl, ap, ◌↔◌, Bool, true, false, ◌&&◌, Option,
  none, some, List, [], ◌∷◌, ◌++◌, arith, ◌==◌, length,
}

abbrev pub Bytes : Type 0
Bytes = List ℕ

-- The bytes of an ASCII literal.
abbrev pub codes : String → Bytes
codes String.[] = []
codes (String.◌∷◌ c s) = code c ∷ codes s

abbrev pub IsByte : ℕ → Type 0
IsByte b = b < 256

-- operator== of std::string.
unfoldable pub bytes_eq : Bytes → Bytes → Bool
bytes_eq [] [] = true
bytes_eq [] (b ∷ bs) = false
bytes_eq (a ∷ as') [] = false
bytes_eq (a ∷ as') (b ∷ bs) = (a == b) && bytes_eq as' bs

pub bytes_eq_refl : (s : Bytes) → bytes_eq s s ≡ true
unfolding bytes_eq
bytes_eq_refl [] = refl
bytes_eq_refl (b ∷ bs) = ground (arith, bytes_eq_refl bs)

pub bytes_eq→eq : (s t : Bytes) → bytes_eq s t ≡ true → s ≡ t
unfolding bytes_eq
bytes_eq→eq [] [] h = refl
bytes_eq→eq [] (b ∷ bs) h = ground arith
bytes_eq→eq (a ∷ as') [] h = ground arith
bytes_eq→eq (a ∷ as') (b ∷ bs) h = ground (arith, bytes_eq→eq as' bs)

pub bytes_eq_iff : (s t : Bytes) → (bytes_eq s t ≡ true) ↔ (s ≡ t)
bytes_eq_iff s t = ground (arith, bytes_eq→eq s t, bytes_eq_refl s)

-- std::string(p, n) and memcpy from p; none where the copy runs past the end of the buffer.
abbrev pub copy_n : ℕ → Bytes → Option Bytes
copy_n zero p = some []
copy_n (suc n) [] = none
copy_n (suc n) (b ∷ p) = elim (copy_n n p) [ none ↦ none | some s ↦ some (b ∷ s) ]

pub copy_n-append : (s p : Bytes) → copy_n (length s) (s ++ p) ≡ some s
copy_n-append [] p = refl
copy_n-append (b ∷ s) p = ground (arith, copy_n-append s p)

-- A little-endian number of n bytes, as a cast of the pointer reads it; none past the end.
unfoldable pub read_le : ℕ → Bytes → Option ℕ
read_le zero p = some 0
read_le (suc n) [] = none
read_le (suc n) (b ∷ p) = elim (read_le n p) [ none ↦ none | some v ↦ some (b + 256 * v) ]

-- The n bytes that hold v.
unfoldable pub encode_le : ℕ → ℕ → Bytes
encode_le zero v = []
encode_le (suc n) v = (v % 256) ∷ encode_le n (v / 256)

pub length-encode_le : (n v : ℕ) → length (encode_le n v) ≡ n
unfolding encode_le
length-encode_le zero v = refl
length-encode_le (suc n) v = ap suc (length-encode_le n (v / 256))

pub read_le-encode_le :
    (n v : ℕ) (p : Bytes) → v < 256 ^ n → read_le n (encode_le n v ++ p) ≡ some v
unfolding read_le encode_le
read_le-encode_le zero v p h = ground arith
read_le-encode_le (suc n) v p h = ground (arith, read_le-encode_le n (v / 256) p)

-- sizeof(uint32_t) and sizeof(uint64_t) are 4 and 8.
abbrev pub read_u32 : Bytes → Option ℕ
read_u32 = read_le 4

abbrev pub read_u64 : Bytes → Option ℕ
read_u64 = read_le 8

abbrev pub IsU32 : ℕ → Type 0
IsU32 v = v < 2 ^ 32

abbrev pub IsU64 : ℕ → Type 0
IsU64 v = v < 2 ^ 64
