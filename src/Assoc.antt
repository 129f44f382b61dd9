-- ===== src/Assoc.antt =====
-- std::unordered_map with string keys, as an association list with each key once.
use embag.Prelude.{
  ◌≡◌, refl, Bool, true, false, Option, none, some, List, [], ◌∷◌, arith, if◌then◌else◌, All,
  Bool-cases, inl, inr, subst,
}
use embag.Bytes.{Bytes, bytes_eq, bytes_eq_iff}
use embag.Result.{Result, out_of_range, or_err}

abbrev pub Assoc {ℓ} : Type ℓ → Type ℓ
Assoc V = List (Bytes × V)

module _ {ℓ} {V : Type ℓ} where
  unfoldable pub find : Bytes → Assoc V → Option V
  find k [] = none
  find k ((j, v) ∷ m) = if bytes_eq j k then some v else find k m

  -- m[k] = v
  unfoldable pub assign : Bytes → V → Assoc V → Assoc V
  assign k v [] = (k, v) ∷ []
  assign k v ((j, w) ∷ m) = if bytes_eq j k then (j, v) ∷ m else (j, w) ∷ assign k v m

  -- m.emplace(k, v): the first value stays.
  unfoldable pub emplace : Bytes → V → Assoc V → Assoc V
  emplace k v [] = (k, v) ∷ []
  emplace k v ((j, w) ∷ m) = if bytes_eq j k then (j, w) ∷ m else (j, w) ∷ emplace k v m

  -- m.count(k) != 0
  unfoldable pub contains : Bytes → Assoc V → Bool
  contains k m = elim (find k m) [ none ↦ false | some v ↦ true ]

  -- m.at(k)
  unfoldable pub at : Bytes → Assoc V → Result V
  at k m = or_err out_of_range (find k m)

  pub find-assign :
      (k j : Bytes) (v : V) (m : Assoc V)
      → find j (assign k v m) ≡ (if bytes_eq k j then some v else find j m)
  unfolding find assign
  find-assign k j v [] = refl
  find-assign k j v ((i, w) ∷ m) =
      ground (arith, bytes_eq_iff k j, bytes_eq_iff i k, bytes_eq_iff i j, find-assign k j v m)

  pub find-emplace :
      (k j : Bytes) (v : V) (m : Assoc V)
      → find j (emplace k v m)
        ≡ (if bytes_eq k j then some (elim (find j m) [ none ↦ v | some w ↦ w ]) else find j m)
  unfolding find emplace
  find-emplace k j v [] = refl
  find-emplace k j v ((i, w) ∷ m) =
      ground (arith, bytes_eq_iff k j, bytes_eq_iff i k, bytes_eq_iff i j, find-emplace k j v m)

-- What holds of every value of a map holds of the value that a key finds.
pub find-All {ℓ κ} :
    {V : Type ℓ} (P : V → Type κ) (k : Bytes) (m : Assoc V) {v : V}
    → All (λ e. P e.1) m
    → find k m ≡ some v
    → P v
unfolding find
find-All P k [] h e = cc
find-All P k ((j, w) ∷ m) {v} h e = elim (Bool-cases (bytes_eq j k)) [
  | inl t ↦ let same : w ≡ v = ground arith in subst P same h.0
  | inr f ↦ find-All P k m h.1 (rw f at e)
]

pub contains-cons {ℓ} :
    {V : Type ℓ} (j k : Bytes) (v w : V) (m m' : Assoc V)
    → contains j m ≡ contains j m'
    → contains j ((k, v) ∷ m) ≡ contains j ((k, w) ∷ m')
unfolding contains find
contains-cons j k v w m m' h = elim (Bool-cases (bytes_eq k j)) [
  | inl e ↦ rw (e, contains)
  | inr e ↦ rw (e, contains) h
]

pub emplace-All {ℓ κ} :
    {V : Type ℓ} (P : V → Type κ) (k : Bytes) (v : V) (m : Assoc V)
    → P v
    → All (λ e. P e.1) m
    → All (λ e. P e.1) (emplace k v m)
unfolding emplace
emplace-All P k v [] hv h = (hv, tt)
emplace-All P k v ((j, w) ∷ m) hv h = elim (Bool-cases (bytes_eq j k)) [
  | inl e ↦ rw e h
  | inr e ↦ rw e (h.0, emplace-All P k v m hv h.1)
]

pub assign-All {ℓ κ} :
    {V : Type ℓ} (P : V → Type κ) (k : Bytes) (v : V) (m : Assoc V)
    → P v
    → All (λ e. P e.1) m
    → All (λ e. P e.1) (assign k v m)
unfolding assign
assign-All P k v [] hv h = (hv, tt)
assign-All P k v ((j, w) ∷ m) hv h = elim (Bool-cases (bytes_eq j k)) [
  | inl e ↦ rw e (hv, h.1)
  | inr e ↦ rw e (h.0, assign-All P k v m hv h.1)
]
