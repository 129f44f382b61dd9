-- ===== src/MessageParser/Emplace.antt =====
-- emplaceField and the first loop of initObject (lib/message_parser.cc): the values that wait for
-- their places.
use embag.Prelude.{
  ℕ, suc, ◌+◌, ◌≤◌, ◌<◌, ◌≡◌, refl, ◌∙◌, subst, inl, inr, false, none, some, List, [], ◌∷◌, ◌++◌,
  arith, All, if◌then◌else◌, length, get_elem?, length-append, Bool-cases,
}
use embag.Bytes.{Bytes}
use embag.Result.{ok}
use embag.Assoc.{Assoc}
use embag.RosType.{RosType}
use embag.Schema.{FieldDef, MemberDef, field_def, constant_def, BaseMsgDef}
use embag.Value.{
  RosValue, primitive_info, is_container, make_primitive, make_object, make_array,
  make_primitive_array,
}
use embag.MessageParser.{
  ParserState, has_item_values, is_zero, emplace_field, emplace_fields, value_of_field,
}
use embag.MessageParser.Frames.{Same}
use embag.MessageParser.Steps.{IsCounted, get_elem?-append_left}
use embag.MessageParser.Arrays.{
  IsParsableField, IsParsableMember, type_definition-found, not_container-not_object,
}

abbrev pub IsParsableBase : Assoc BaseMsgDef → BaseMsgDef → Type 0
IsParsableBase definitions d = All (IsParsableMember definitions) d.members

abbrev pub field_count : List MemberDef → ℕ
field_count [] = 0
field_count (constant_def c ∷ ms) = field_count ms
field_count (field_def f ∷ ms) = suc (field_count ms)

get_elem?-last :
    (vs : List RosValue) (v : RosValue) → get_elem? (vs ++ (v ∷ [])) (length vs) ≡ some v
get_elem?-last [] v = refl
get_elem?-last (w ∷ vs) v = get_elem?-last vs v

pub make_primitive-made :
    (t : RosType) → is_container t ≡ false → make_primitive t ≡ ok (primitive_info t 0 none)
unfolding make_primitive
make_primitive-made t h = rw h

module _ (definitions : Assoc BaseMsgDef) (buffer : Bytes) where
  -- From c on stand the values that emplaceField made.
  abbrev pub Pending : List RosValue → ℕ → List MemberDef → Type 0
  Pending vs c [] = Unit
  Pending vs c (constant_def k ∷ ms) = Pending vs c ms
  Pending vs c (field_def f ∷ ms) =
      ((v : RosValue) × (value_of_field definitions buffer f ≡ ok v) × (get_elem? vs c ≡ some v))
      × Pending vs (suc c) ms

  pub Pending-frame :
      (vs vs' : List RosValue) (ms : List MemberDef) (c : ℕ)
      → ((k : ℕ) → c ≤ k → k < c + field_count ms → Same vs vs' k)
      → Pending vs c ms
      → Pending vs' c ms
  Pending-frame vs vs' [] c s h = tt
  Pending-frame vs vs' (constant_def k ∷ ms) c s h = Pending-frame vs vs' ms c s h
  Pending-frame vs vs' (field_def f ∷ ms) c s ((v, e, g), h) = (
    (v, e, s c (omega arith) (omega arith) ∙ g),
    Pending-frame vs vs' ms (suc c) (λ k a b. s k (omega arith) (omega arith)) h,
  )

  -- A field whose type is known has a value.
  value_of_field-total :
      (f : FieldDef)
      → IsParsableField definitions f
      → (v : RosValue) × (value_of_field definitions buffer f ≡ ok v)
  unfolding value_of_field
  value_of_field-total f hp = elim (Bool-cases (is_zero f.parsed_info.array_size)) [
    | inl z ↦ elim hp [
      | inl (o, k, d, ek, ed) ↦ (
        make_object d.field_indexes,
        rw (z, o, type_definition-found definitions buffer f k d o ek ed),
      )
      | inr n ↦ (
        primitive_info f.ros_type 0 none,
        rw (z, not_container-not_object f.ros_type n, make_primitive-made f.ros_type n),
      )
    ]
    | inr z ↦ (
      (if has_item_values f.ros_type
          then make_array
          else make_primitive_array f.ros_type (some buffer)),
      rw z,
    )
  ]

  pub record Emplaced (st : ParserState) (ms : List MemberDef) (st' : ParserState) : Type 0 where
    pub unread : st'.buffer_offset ≡ st.buffer_offset
    pub counted : st'.values_offset ≡ length st'.values
    pub longer : length st'.values ≡ length st.values + field_count ms
    pub kept : (k : ℕ) → k < length st.values → Same st.values st'.values k
    pub pending : Pending st'.values (length st.values) ms

  pub emplace_fields-Emplaced :
      (ms : List MemberDef) (st : ParserState)
      → IsCounted st
      → All (IsParsableMember definitions) ms
      → (st' : ParserState) × (emplace_fields definitions buffer ms st ≡ ok st')
        × Emplaced st ms st'
  unfolding emplace_fields emplace_field
  emplace_fields-Emplaced [] st hc hp = (
    st,
    refl,
    record { unread = refl; counted = hc; longer = omega arith; kept = λ k hk. refl; pending = tt },
  )
  emplace_fields-Emplaced (constant_def k ∷ ms) st hc (u, hp) =
      let (st', e, h) = emplace_fields-Emplaced ms st hc hp in
      (
        st',
        e,
        record {
          unread = h.unread;
          counted = h.counted;
          longer = h.longer;
          kept = h.kept;
          pending = h.pending;
        },
      )
  emplace_fields-Emplaced (field_def f ∷ ms) st hc (hf, hp) =
      let (v, ev) = value_of_field-total f hf in
      let st1 : ParserState = record st {
        values = st.values ++ (v ∷ []);
        values_offset = suc st.values_offset;
      } in
      let one : length st1.values ≡ suc (length st.values) =
        omega (arith, length-append st.values (v ∷ [])) in
      let (st', e, h) = emplace_fields-Emplaced ms st1 (omega (arith, hc, one)) hp in
      (
        st',
        rw ev e,
        record {
          unread = h.unread;
          counted = h.counted;
          longer = omega (arith, h.longer, one);
          kept =
              λ k hk. h.kept k (omega (arith, one)) ∙ get_elem?-append_left st.values (v ∷ []) k hk;
          pending = (
            (v, ev, h.kept (length st.values) (omega (arith, one)) ∙ get_elem?-last st.values v),
            subst (λ (c : ℕ). Pending st'.values c ms) one h.pending,
          );
        },
      )
