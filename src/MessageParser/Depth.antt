-- ===== src/MessageParser/Depth.antt =====
-- How deep the values of a message are nested (lib/message_parser.cc).
use embag.Prelude.{
  ℕ, zero, suc, ◌+◌, ◌*◌, ◌-◌, ◌≤◌, ◌≡◌, subst, List, [], ◌∷◌, arith, Bool-cases, inl, inr,
}
use embag.Bytes.{Bytes}
use embag.Result.{Result, ok, err, ◌>>=◌, Ensures, >>=-Ensures, Ensures-trivial}
use embag.Assoc.{Assoc}
use embag.RosType.{RosType, is_object}
use embag.Schema.{FieldDef, MemberDef, field_def, constant_def, BaseMsgDef, field_type_size}
use embag.MessageParser.{is_zero, has_item_values, type_definition_of, array_length}
use embag.MessageParser.Layout.{
  Layout, leaf, packed, items, fields, Layouts, nil, cons, layout_many, layout_primitive,
  layout_item, layout_array, layout_field, layout_fields, layout_object,
}
use embag.MessageParser.Walk.{pick}

-- The depth of a layout is at most n.
abbrev mutual
  pub Fits : Layout → ℕ → Type 0
  Fits (leaf t o) n = 1 ≤ n
  Fits (packed e o k) n = 1 ≤ n
  Fits (items ts) n = (1 ≤ n) × FitsAll ts (n - 1)
  Fits (fields m ts) n = (1 ≤ n) × FitsAll ts (n - 1)

  pub FitsAll : Layouts → ℕ → Type 0
  FitsAll nil n = Unit
  FitsAll (cons t ts) n = Fits t n × FitsAll ts n

mutual
  pub Fits-more : (t : Layout) (n m : ℕ) → n ≤ m → Fits t n → Fits t m
  Fits-more (leaf t o) n m l h = omega (arith, h)
  Fits-more (packed e o k) n m l h = omega (arith, h)
  Fits-more (items ts) n m l h =
      (omega (arith, h.0), FitsAll-more ts (n - 1) (m - 1) (omega (arith, h.0)) h.1)
  Fits-more (fields k ts) n m l h =
      (omega (arith, h.0), FitsAll-more ts (n - 1) (m - 1) (omega (arith, h.0)) h.1)

  pub FitsAll-more : (ts : Layouts) (n m : ℕ) → n ≤ m → FitsAll ts n → FitsAll ts m
  FitsAll-more nil n m l h = tt
  FitsAll-more (cons t ts) n m l h = (Fits-more t n m l h.0, FitsAll-more ts n m l h.1)

pub pick-Fits : (ts : Layouts) (i n : ℕ) {t : Layout} → FitsAll ts n → pick i ts ≡ ok t → Fits t n
unfolding pick
pick-Fits nil i n h e = cc
pick-Fits (cons t' ts) zero n {t} h e =
    let same : t' ≡ t = ground arith in subst (λ (x : Layout). Fits x n) same h.0
pick-Fits (cons t' ts) (suc i) n h e = pick-Fits ts i n h.1 e

-- A layout that was read, of such a depth.
abbrev pub FitsIn : ℕ → Layout × ℕ → Type 0
FitsIn n r = Fits r.0 n

abbrev AllFitIn : ℕ → Layouts × ℕ → Type 0
AllFitIn n r = FitsAll r.0 n

many-Fits :
    (layout : ℕ → Result (Layout × ℕ)) (n : ℕ)
    → ((o : ℕ) → Ensures (FitsIn n) (layout o))
    → (k o : ℕ) → Ensures (AllFitIn n) (layout_many layout k o)
unfolding layout_many
many-Fits layout n h zero o = tt
many-Fits layout n h (suc k) o = >>=-Ensures (FitsIn n) (AllFitIn n) (layout o) _ (h o) λ (t, o1) a.
    >>=-Ensures (AllFitIn n) (AllFitIn n) (layout_many layout k o1) _ (many-Fits layout n h k o1)
      (λ (ts, o2) b. (a, b))

module _ (definitions : Assoc BaseMsgDef) (buffer : Bytes)
    (layout : BaseMsgDef → ℕ → Result (Layout × ℕ)) (n : ℕ)
    (rec : (d : BaseMsgDef) (o : ℕ) → Ensures (FitsIn (suc n)) (layout d o)) where
  taken-Fits :
      (t : RosType) (o : ℕ) (taken : Result ℕ)
      → Ensures (FitsIn (suc n)) (taken >>= λ k. ok (leaf t o, o + k))
  taken-Fits t o (ok k) = omega arith
  taken-Fits t o (err e) = tt

  primitive-Fits :
      (f : FieldDef) (o : ℕ) → Ensures (FitsIn (suc n)) (layout_primitive definitions buffer f o)
  unfolding layout_primitive
  primitive-Fits f o = taken-Fits f.ros_type o _

  item-Fits :
      (f : FieldDef) (o : ℕ) → Ensures (FitsIn (suc n)) (layout_item definitions buffer layout f o)
  unfolding layout_item
  item-Fits f o = elim (Bool-cases (is_object f.ros_type)) [
    | inl e ↦ rw e (
        >>=-Ensures (λ d. Unit {0}) (FitsIn (suc n)) (type_definition_of definitions buffer f) _
          (Ensures-trivial _) (λ d u. rec d o))
    | inr e ↦ rw e (primitive-Fits f o)
  ]

  array-Fits :
      (f : FieldDef) (o : ℕ)
      → Ensures (FitsIn (suc (suc n))) (layout_array definitions buffer layout f o)
  unfolding layout_array
  array-Fits f o =
      >>=-Ensures (λ d. Unit {0}) (FitsIn (suc (suc n))) (array_length definitions buffer f o) _
        (Ensures-trivial _)
        λ (k, o1) u. elim (Bool-cases (has_item_values f.ros_type)) [
          | inl e ↦ rw e (
              >>=-Ensures (AllFitIn (suc n)) (FitsIn (suc (suc n)))
                (layout_many (layout_item definitions buffer layout f) k o1) _
                (many-Fits (layout_item definitions buffer layout f) (suc n) (item-Fits f) k o1)
                (λ (ts, o2) h.
                  (omega arith, FitsAll-more ts (suc n) (suc (suc n) - 1) (omega arith) h)))
          | inr e ↦ rw e (packed-Fits o1 k (field_type_size f))
        ]
    where
      packed-Fits :
          (o1 k : ℕ) (r : Result ℕ)
          → Ensures (FitsIn (suc (suc n))) (r >>= λ s. ok (packed f.ros_type o1 k, o1 + k * s))
      packed-Fits o1 k (ok s) = omega arith
      packed-Fits o1 k (err e) = tt

  field-Fits :
      (f : FieldDef) (o : ℕ)
      → Ensures (FitsIn (suc (suc n))) (layout_field definitions buffer layout f o)
  unfolding layout_field
  field-Fits f o = elim (Bool-cases (is_zero f.parsed_info.array_size)) [
    | inl e ↦ rw e (deeper (layout_item definitions buffer layout f o) (item-Fits f o))
    | inr e ↦ rw e (array-Fits f o)
  ]
    where
      deeper :
          (r : Result (Layout × ℕ)) → Ensures (FitsIn (suc n)) r → Ensures (FitsIn (suc (suc n))) r
      deeper (ok (t, o')) h = Fits-more t (suc n) (suc (suc n)) (omega arith) h
      deeper (err e) h = tt

  fields-Fit :
      (ms : List MemberDef) (o : ℕ)
      → Ensures (AllFitIn (suc (suc n))) (layout_fields definitions buffer layout ms o)
  unfolding layout_fields
  fields-Fit [] o = tt
  fields-Fit (constant_def c ∷ ms) o = fields-Fit ms o
  fields-Fit (field_def f ∷ ms) o =
      >>=-Ensures (FitsIn (suc (suc n))) (AllFitIn (suc (suc n)))
        (layout_field definitions buffer layout f o) _ (field-Fits f o)
        λ (t, o1) a.
          >>=-Ensures (AllFitIn (suc (suc n))) (AllFitIn (suc (suc n)))
            (layout_fields definitions buffer layout ms o1) _ (fields-Fit ms o1)
            (λ (ts, o2) b. (a, b))

pub object-Fits :
    (definitions : Assoc BaseMsgDef) (buffer : Bytes) (fuel : ℕ) (d : BaseMsgDef) (o : ℕ)
    → Ensures (FitsIn (suc (fuel * 2))) (layout_object definitions buffer fuel d o)
unfolding layout_object
object-Fits definitions buffer zero d o = tt
object-Fits definitions buffer (suc fuel) d o =
    >>=-Ensures (AllFitIn (suc (suc (fuel * 2)))) (FitsIn (suc (suc fuel * 2)))
      (layout_fields definitions buffer (layout_object definitions buffer fuel) d.members o) _
      (fields-Fit definitions buffer (layout_object definitions buffer fuel) (fuel * 2)
        (object-Fits definitions buffer fuel) d.members o)
      (λ (ts, o') h. (
        omega arith,
        FitsAll-more ts (suc (suc (fuel * 2))) (suc (suc fuel * 2) - 1) (omega arith) h,
      ))
