-- ===== src/MessageParser/Fuel.antt =====
-- initObject of MessageParser (lib/message_parser.cc) calls itself as deep as the types of the
-- message are nested.
use embag.Prelude.{
  ℕ, zero, suc, ◌+◌, ◌<◌, ◌≡◌, ◌≢◌, ◌||◌, true, false, refl, sym, ◌∙◌, Bool, ltb, length, drop,
  Option, none, some, List, [], ◌∷◌, arith, All, Bool-cases, inl, inr,
}
use embag.Bytes.{Bytes, read_u32}
use embag.Result.{Result, ok, err, ◌>>=◌, guard, or_err, stuck, undefined, not_object_type, Error}
use embag.Assoc.{Assoc, find}
use embag.RosType.{is_object, is_string}
use embag.Schema.{FieldDef, MemberDef, field_def, constant_def, BaseMsgDef, MsgDef, field_type_size}
use embag.Value.{RosValue, Pointer}
use embag.Wrapper.{u32_at, at_pointer}
use embag.MessageParser.{
  is_zero, is_minus_one, has_item_values, type_definition_of, array_length, parse,
}
use embag.MessageParser.Layout.{
  Layout, layout_many, layout_primitive, layout_item, layout_array, layout_field, layout_fields,
  layout_object,
}
use embag.MessageParser.Refines.{IsParsable, layout_message, ParsesAs, parse-layout_message}

-- A call that does not run out of fuel.
abbrev pub Finishes : {A : Type 0} → Result A → Type 0
Finishes (ok a) = Unit
Finishes (err e) = e ≢ stuck

pub Finishes-bind :
    {A : Type 0} {B : Type 0} (r : Result A) (next : A → Result B)
    → Finishes r
    → ((a : A) → r ≡ ok a → Finishes (next a))
    → Finishes (r >>= next)
Finishes-bind (ok a) next h f = f a refl
Finishes-bind (err e) next h f = h

pub Finishes-or_err : {A : Type 0} (e : Error) (o : Option A) → e ≢ stuck → Finishes (or_err e o)
Finishes-or_err e none h = h
Finishes-or_err e (some a) h = tt

-- The objects among the fields are of types of a rank below a bound.
abbrev pub IsRankedMember : (Bytes → ℕ) → ℕ → MemberDef → Type 0
IsRankedMember rank bound (field_def f) =
    (k : Bytes) → is_object f.ros_type ≡ true → f.type_definition ≡ some k → rank k < bound
IsRankedMember rank bound (constant_def c) = Unit

-- Each type embeds types of lower ranks only, as types that are not recursive do, and the message
-- embeds types of ranks below a bound.
abbrev pub IsRanked : (Bytes → ℕ) → ℕ → MsgDef → Type 0
IsRanked rank bound d =
    All (IsRankedMember rank bound) d.base.members
    × ((k : Bytes) (e : BaseMsgDef)
        → find k d.embedded_definition_map ≡ some e
        → All (IsRankedMember rank (rank k)) e.members)

Finishes-many :
    (layout : ℕ → Result (Layout × ℕ))
    → ((o : ℕ) → Finishes (layout o))
    → (n o : ℕ) → Finishes (layout_many layout n o)
unfolding layout_many
Finishes-many layout h zero o = tt
Finishes-many layout h (suc n) o = Finishes-bind (layout o) _ (h o) λ (t, o1) e.
    Finishes-bind (layout_many layout n o1) _ (Finishes-many layout h n o1) λ (ts, o2) e'. tt

Finishes-type_size : (f : FieldDef) → Finishes (field_type_size f)
unfolding field_type_size
Finishes-type_size f = elim (Bool-cases (is_object f.ros_type || is_string f.ros_type)) [
  | inl e ↦ rw e (λ x. cc)
  | inr e ↦ rw e tt
]

module _ (definitions : Assoc BaseMsgDef) (buffer : Bytes) where
  Finishes-u32_at : (o : ℕ) → Finishes (u32_at buffer o)
  unfolding u32_at at_pointer
  Finishes-u32_at o = elim (Bool-cases (ltb o (length buffer))) [
    | inl e ↦ rw e (Finishes-or_err undefined (read_u32 (drop o buffer)) (λ x. cc))
    | inr e ↦ rw e (λ x. cc)
  ]

  Finishes-primitive : (f : FieldDef) (o : ℕ) → Finishes (layout_primitive definitions buffer f o)
  unfolding layout_primitive
  Finishes-primitive f o = elim (Bool-cases (is_string f.ros_type)) [
    | inl e ↦ rw e (
        Finishes-bind (u32_at buffer o >>= λ n. ok (n + 4)) _
          (Finishes-bind (u32_at buffer o) _ (Finishes-u32_at o) (λ n x. tt)) (λ n x. tt))
    | inr e ↦ rw e (Finishes-bind (field_type_size f) _ (Finishes-type_size f) (λ n x. tt))
  ]

  or_err-some : (o : Option BaseMsgDef) (d : BaseMsgDef) → or_err undefined o ≡ ok d → o ≡ some d
  or_err-some none d e = cc
  or_err-some (some x) d e = ground arith

  found-listed :
      (b : Bool) (o : Option Bytes) (d : BaseMsgDef)
      → (guard b not_object_type >>= λ _.
          or_err undefined o >>= λ k. or_err undefined (find k definitions))
        ≡ ok d
      → (k : Bytes) × (b ≡ true) × (o ≡ some k) × (find k definitions ≡ some d)
  found-listed false o d e = cc
  found-listed true none d e = cc
  found-listed true (some k) d e = (k, refl, refl, or_err-some (find k definitions) d e)

  -- typeDefinition returns a definition of the map.
  pub type_definition-listed :
      (f : FieldDef) (d : BaseMsgDef)
      → type_definition_of definitions buffer f ≡ ok d
      → (k : Bytes) × (is_object f.ros_type ≡ true)
        × (f.type_definition ≡ some k)
        × (find k definitions ≡ some d)
  unfolding type_definition_of
  type_definition-listed f d e = found-listed (is_object f.ros_type) f.type_definition d e

  Finishes-found :
      (b : Bool) (o : Option Bytes)
      → b ≡ true
      → Finishes (
          guard b not_object_type >>= λ _.
          or_err undefined o >>= λ k. or_err undefined (find k definitions))
  Finishes-found false o e = cc
  Finishes-found true none e = λ x. cc
  Finishes-found true (some k) e = Finishes-or_err undefined (find k definitions) (λ x. cc)

  pub Finishes-type_definition :
      (f : FieldDef)
      → is_object f.ros_type ≡ true
      → Finishes (type_definition_of definitions buffer f)
  unfolding type_definition_of
  Finishes-type_definition f e = Finishes-found (is_object f.ros_type) f.type_definition e

  Finishes-array_length : (f : FieldDef) (o : ℕ) → Finishes (array_length definitions buffer f o)
  unfolding array_length
  Finishes-array_length f o = elim (Bool-cases (is_minus_one f.parsed_info.array_size)) [
    | inl e ↦ rw e (Finishes-bind (u32_at buffer o) _ (Finishes-u32_at o) (λ n x. tt))
    | inr e ↦ rw e tt
  ]

  module _ (layout : BaseMsgDef → ℕ → Result (Layout × ℕ)) (rank : Bytes → ℕ) (bound : ℕ)
      (rec : (k : Bytes) (d : BaseMsgDef) (o : ℕ)
        → find k definitions ≡ some d
        → rank k < bound
        → Finishes (layout d o)) where
    Finishes-item :
        (f : FieldDef) (o : ℕ)
        → IsRankedMember rank bound (field_def f)
        → Finishes (layout_item definitions buffer layout f o)
    unfolding layout_item
    Finishes-item f o h = elim (Bool-cases (is_object f.ros_type)) [
      | inl e ↦ rw e (
          Finishes-bind (type_definition_of definitions buffer f) _ (Finishes-type_definition f e)
            λ d x. let (k, t, ek, ed) = type_definition-listed f d x in rec k d o ed (h k t ek))
      | inr e ↦ rw e (Finishes-primitive f o)
    ]

    Finishes-array :
        (f : FieldDef) (o : ℕ)
        → IsRankedMember rank bound (field_def f)
        → Finishes (layout_array definitions buffer layout f o)
    unfolding layout_array
    Finishes-array f o h =
        Finishes-bind (array_length definitions buffer f o) _ (Finishes-array_length f o)
          λ (n, o1) x. elim (Bool-cases (has_item_values f.ros_type)) [
            | inl e ↦ rw e (
                Finishes-bind (layout_many (layout_item definitions buffer layout f) n o1) _
                  (Finishes-many _ (λ o'. Finishes-item f o' h) n o1) (λ y z. tt))
            | inr e ↦ rw e (Finishes-bind (field_type_size f) _ (Finishes-type_size f) (λ y z. tt))
          ]

    Finishes-field :
        (f : FieldDef) (o : ℕ)
        → IsRankedMember rank bound (field_def f)
        → Finishes (layout_field definitions buffer layout f o)
    unfolding layout_field
    Finishes-field f o h = elim (Bool-cases (is_zero f.parsed_info.array_size)) [
      | inl e ↦ rw e (Finishes-item f o h)
      | inr e ↦ rw e (Finishes-array f o h)
    ]

    Finishes-fields :
        (ms : List MemberDef) (o : ℕ)
        → All (IsRankedMember rank bound) ms
        → Finishes (layout_fields definitions buffer layout ms o)
    unfolding layout_fields
    Finishes-fields [] o h = tt
    Finishes-fields (constant_def c ∷ ms) o (u, h) = Finishes-fields ms o h
    Finishes-fields (field_def f ∷ ms) o (hf, h) =
        Finishes-bind (layout_field definitions buffer layout f o) _ (Finishes-field f o hf)
          λ (t, o1) e.
            Finishes-bind (layout_fields definitions buffer layout ms o1) _
              (Finishes-fields ms o1 h) λ (ts, o2) e'. tt

Finishes-object :
    (rank : Bytes → ℕ) (definitions : Assoc BaseMsgDef) (buffer : Bytes)
    → ((k : Bytes) (e : BaseMsgDef)
        → find k definitions ≡ some e
        → All (IsRankedMember rank (rank k)) e.members)
    → (bound fuel : ℕ) (d : BaseMsgDef) (o : ℕ) → bound < fuel
    → All (IsRankedMember rank bound) d.members
    → Finishes (layout_object definitions buffer fuel d o)
unfolding layout_object
Finishes-object rank definitions buffer hr bound zero d o h hd = absurd (omega arith)
Finishes-object rank definitions buffer hr bound (suc fuel) d o h hd =
    Finishes-bind
      (layout_fields definitions buffer (layout_object definitions buffer fuel) d.members o) _
      (Finishes-fields definitions buffer (layout_object definitions buffer fuel) rank bound
        (λ k d' o' ek lt.
          Finishes-object rank definitions buffer hr (rank k) fuel d' o' (omega arith) (hr k d' ek))
        d.members o hd)
      (λ y z. tt)

parsed-not_stuck :
    (buffer : Bytes) (layout : Result (Layout × ℕ)) (r : Result (Pointer × List RosValue))
    → Finishes layout
    → ParsesAs buffer layout r
    → r ≢ err stuck
parsed-not_stuck buffer (err e) r h p = λ x. h (same e (sym p ∙ x))
  where
    same : (e : Error) → ◌≡◌ {A = Result (Pointer × List RosValue)} (err e) (err stuck) → e ≡ stuck
    same e q = ground arith
parsed-not_stuck buffer (ok (t, o)) r h (vs, p, s) = λ x. cc

-- Where every field is of an object type that the definitions hold or of no container type, and each
-- type embeds only types of a lower rank, parse with more fuel than the rank of the message's own
-- fields does not run out of it, whatever the bytes are.
pub parse-not_stuck :
    (rank : Bytes → ℕ) (bound fuel : ℕ) (d : MsgDef) (buffer : Bytes) (offset : ℕ)
    → IsParsable d
    → IsRanked rank bound d
    → bound < fuel
    → parse fuel d buffer offset ≢ err stuck
unfolding layout_message
parse-not_stuck rank bound fuel d buffer offset hp (hb, hr) h =
    parsed-not_stuck buffer (layout_message fuel d buffer offset) (parse fuel d buffer offset)
      (Finishes-object rank d.embedded_definition_map buffer hr bound fuel d.base offset h hb)
      (parse-layout_message fuel d buffer offset hp)
