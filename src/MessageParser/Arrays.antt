-- ===== src/MessageParser/Arrays.antt =====
-- initArray and the switch of initObject (lib/message_parser.cc) against the layout of a field.
use embag.Prelude.{
  ℕ, ◌+◌, ◌*◌, ◌≡◌, refl, sym, ◌∙◌, subst, ◌⊎◌, inl, inr, true, false, none, some, arith,
  if◌then◌else◌, length, get_elem?, replicate, get_elem?-set_self, get_elem?-set_ne, length-set,
  length-append, length-replicate, get_elem?-lt, Bool-cases,
}
use embag.Bytes.{Bytes}
use embag.Result.{Result, ok, err, ◌>>=◌}
use embag.Assoc.{Assoc, find}
use embag.RosType.{RosType, is_object, is_string}
use embag.Schema.{FieldDef, MemberDef, field_def, constant_def, BaseMsgDef, field_type_size}
use embag.Value.{
  RosValue, primitive_info, array_info, object_info, ValueList, no_list, is_container,
  make_primitive, make_object, make_array, make_primitive_array,
}
use embag.MessageParser.{
  ParserState, store, load, append_values, with_children, with_range, init_many, init_primitive,
  array_length, has_item_values, init_array, init_elements, type_definition_of,
}
use embag.MessageParser.Layout.{
  Layout, packed, items, count, layout_many, layout_primitive, layout_array, layout_item, Shows,
  ShowsAll,
}
use embag.MessageParser.Frames.{Done, DoneAll}
use embag.MessageParser.Steps.{
  IsCounted, get_elem?-append_left, get_elem?-replicate, init_primitive-Done, ranged-Done,
  init_many-DoneAll, node-Done,
}

-- The type of a field is an object whose definition the map holds, or no container.
abbrev pub IsParsableField : Assoc BaseMsgDef → FieldDef → Type 0
IsParsableField definitions f =
    ((is_object f.ros_type ≡ true)
      × (k : Bytes) × (d : BaseMsgDef) × (f.type_definition ≡ some k)
      × (find k definitions ≡ some d))
    ⊎ (is_container f.ros_type ≡ false)

abbrev pub IsParsableMember : Assoc BaseMsgDef → MemberDef → Type 0
IsParsableMember definitions (field_def f) = IsParsableField definitions f
IsParsableMember definitions (constant_def c) = Unit

module _ (definitions : Assoc BaseMsgDef) (buffer : Bytes) where
  pub type_definition-found :
      (f : FieldDef) (k : Bytes) (d : BaseMsgDef)
      → is_object f.ros_type ≡ true
      → f.type_definition ≡ some k
      → find k definitions ≡ some d
      → type_definition_of definitions buffer f ≡ ok d
  unfolding type_definition_of
  type_definition-found f k d o e h = rw (o, e, h)

pub not_container-not_object : (t : RosType) → is_container t ≡ false → is_object t ≡ false
not_container-not_object t h = elim (Bool-cases (is_object t)) [
  | inl e ↦ let never : true ≡ false = rw e at h in cc
  | inr e ↦ e
]

object-not_string : (t : RosType) → is_object t ≡ true → is_string t ≡ false
object-not_string RosType.object h = refl
object-not_string RosType.string h = cc
object-not_string _ h = refl

module _ (definitions : Assoc BaseMsgDef) (buffer : Bytes)
    (init : BaseMsgDef → ℕ → ParserState → Result ParserState)
    (layout : BaseMsgDef → ℕ → Result (Layout × ℕ))
    (rec : (k : Bytes) (d : BaseMsgDef) (q : ℕ) (st : ParserState) (l : ValueList)
      → find k definitions ≡ some d
      → IsCounted st
      → get_elem? st.values q ≡ some (object_info l d.field_indexes)
      → Done buffer q st (layout d st.buffer_offset) (init d q st)) where
  layout_item-object :
      (f : FieldDef) (k : Bytes) (d : BaseMsgDef)
      → is_object f.ros_type ≡ true
      → f.type_definition ≡ some k
      → find k definitions ≡ some d
      → (o : ℕ) → layout_item definitions buffer layout f o ≡ layout d o
  unfolding layout_item
  layout_item-object f k d h ek ed o =
      rw (h, type_definition-found definitions buffer f k d h ek ed)

  layout_item-primitive :
      (f : FieldDef)
      → is_object f.ros_type ≡ false
      → (o : ℕ)
      → layout_item definitions buffer layout f o ≡ layout_primitive definitions buffer f o
  unfolding layout_item
  layout_item-primitive f h o = rw h

  pub object-Done :
      (f : FieldDef) (k : Bytes) (d : BaseMsgDef) (q : ℕ) (st : ParserState)
      → is_object f.ros_type ≡ true
      → f.type_definition ≡ some k
      → find k definitions ≡ some d
      → IsCounted st
      → get_elem? st.values q ≡ some (make_object d.field_indexes)
      → Done buffer q st (layout_item definitions buffer layout f st.buffer_offset) (init d q st)
  object-Done f k d q st h ek ed hc e =
      subst (λ (r : Result (Layout × ℕ)). Done buffer q st r (init d q st))
        (sym (layout_item-object f k d h ek ed st.buffer_offset)) (rec k d q st no_list ed hc e)

  pub primitive-Done :
      (f : FieldDef) (q : ℕ) (st : ParserState)
      → is_object f.ros_type ≡ false
      → IsCounted st
      → get_elem? st.values q ≡ some (primitive_info f.ros_type 0 none)
      → Done buffer q st
          (layout_item definitions buffer layout f st.buffer_offset)
          (init_primitive definitions buffer f q st)
  primitive-Done f q st h hc e =
      subst
        (λ (r : Result (Layout × ℕ)). Done buffer q st r (init_primitive definitions buffer f q st))
        (sym (layout_item-primitive f h st.buffer_offset))
        (init_primitive-Done buffer definitions f q 0 st hc e)

  -- n equal values behind the others, and what makes each of them.
  appended-DoneAll :
      (f : FieldDef) (p n : ℕ) (w v : RosValue) (st : ParserState)
      (step : ℕ → ParserState → Result ParserState)
      → ((q : ℕ) (st' : ParserState)
          → IsCounted st'
          → get_elem? st'.values q ≡ some v
          → Done buffer q st'
              (layout_item definitions buffer layout f st'.buffer_offset)
              (step q st'))
      → st.values_offset ≡ length st.values + n
      → get_elem? st.values p ≡ some w
      → DoneAll buffer p
          (length st.values)
          n
          w
          (append_values n v st)
          (layout_many (layout_item definitions buffer layout f) n st.buffer_offset)
          (init_many step n (length st.values) (append_values n v st))
  appended-DoneAll f p n w v st step each hc hw =
      let longer = length-append st.values (replicate n v) in
      let there = get_elem?-lt st.values p hw in
      init_many-DoneAll buffer p w v step (layout_item definitions buffer layout f) each n
        (length st.values) (append_values n v st) (omega (arith, hc, longer, length-replicate n v))
        there (omega (arith, longer, length-replicate n v))
        (λ k a b. get_elem?-replicate st.values n v k a b)
        (get_elem?-append_left st.values (replicate n v) p there ∙ hw)

  -- The elements of an array of strings or objects, behind the other values.
  init_elements-DoneAll :
      (f : FieldDef) (p n : ℕ) (w : RosValue) (st : ParserState)
      → IsParsableField definitions f
      → has_item_values f.ros_type ≡ true
      → st.values_offset ≡ length st.values + n
      → get_elem? st.values p ≡ some w
      → (v : RosValue) × DoneAll buffer p
          (length st.values)
          n
          w
          (append_values n v st)
          (layout_many (layout_item definitions buffer layout f) n st.buffer_offset)
          (init_elements definitions buffer init f n (length st.values) st)
  unfolding init_elements make_primitive
  init_elements-DoneAll f p n w st (inl (o, k, d, ek, ed)) hi hc hw = (
    make_object d.field_indexes,
    rw (object-not_string f.ros_type o, type_definition-found definitions buffer f k d o ek ed)
        (appended-DoneAll f p n w (make_object d.field_indexes) st (init d)
          (λ q st' c e. object-Done f k d q st' o ek ed c e) hc hw),
  )
  init_elements-DoneAll f p n w st (inr e) hi hc hw =
      let o = not_container-not_object f.ros_type e in
      let s : is_string f.ros_type ≡ true = rw o at hi in
      (
        primitive_info f.ros_type 0 none,
        rw (s, e)
            (appended-DoneAll f p n w (primitive_info f.ros_type 0 none) st
              (init_primitive definitions buffer f) (λ q st' c e'. primitive-Done f q st' o c e') hc
              hw),
      )

  -- initArray at an array of items.
  items-Done :
      (f : FieldDef) (q n o : ℕ) (st : ParserState) (l : ValueList)
      → IsParsableField definitions f
      → has_item_values f.ros_type ≡ true
      → IsCounted st
      → get_elem? st.values q ≡ some (array_info l)
      → let w = array_info (record { has_base = true; offset = st.values_offset; len = n }) in
        Done buffer q st
          (layout_many (layout_item definitions buffer layout f) n o >>= λ (ts, o2).
            ok (items ts, o2))
          (init_elements definitions buffer init f n st.values_offset
            (record (store q w st) { values_offset = st.values_offset + n; buffer_offset = o }))
  unfolding Shows
  items-Done f q n o st l hp hi hc e =
      let w = array_info (record { has_base = true; offset = st.values_offset; len = n }) in
      let st1 : ParserState = record (store q w st) {
        values_offset = st.values_offset + n;
        buffer_offset = o;
      } in
      let there = get_elem?-lt st.values q e in
      let same : length st1.values ≡ length st.values = length-set st.values q w in
      let made =
        init_elements-DoneAll f q n w st1 hp hi (omega (arith, hc, same))
          (get_elem?-set_self st.values q w there) in
      node-Done buffer q n w st (append_values n made.0 st1) items
        (omega
          (arith, length-append st1.values (replicate n made.0), length-replicate n made.0, same))
        (λ k hk ne.
          get_elem?-append_left st1.values (replicate n made.0) k (omega (arith, same))
          ∙ get_elem?-set_ne st.values w (λ x. ne (sym x)))
        (λ vs top ts a b c d.
          let b' : n ≡ count ts = sym b in
          (
            cc,
            omega (arith, b),
            subst (λ (m : ℕ). ShowsAll buffer vs (length st.values + m) top (length st.values) ts)
                b' d,
          ))
        _ _
        (subst
          (λ (x : ℕ).
            DoneAll buffer q x n w (append_values n made.0 st1)
              (layout_many (layout_item definitions buffer layout f) n o)
              (init_elements definitions buffer init f n st.values_offset st1))
          same
          (subst
            (λ (x : ℕ).
              DoneAll buffer q (length st1.values) n w (append_values n made.0 st1)
                (layout_many (layout_item definitions buffer layout f) n o)
                (init_elements definitions buffer init f n x st1))
            (same ∙ sym hc) made.1))

  -- initArray behind its length.
  sized-Done :
      (f : FieldDef) (q : ℕ) (st : ParserState) (n o : ℕ)
      → IsParsableField definitions f
      → IsCounted st
      → get_elem? st.values q
        ≡ some (
            if has_item_values f.ros_type
            then make_array
            else make_primitive_array f.ros_type (some buffer))
      → Done buffer q st
          (if has_item_values f.ros_type
            then (layout_many (layout_item definitions buffer layout f) n o >>= λ (ts, o2).
                ok (items ts, o2))
            else (field_type_size f >>= λ s. ok (packed f.ros_type o n, o + n * s)))
          (load q st >>= λ v.
            if has_item_values f.ros_type
            then (with_children (record { has_base = true; offset = st.values_offset; len = n }) v
                >>= λ v'.
                    init_elements definitions buffer init f n st.values_offset
                      (record (store q v' st) {
                        values_offset = st.values_offset + n;
                        buffer_offset = o;
                      }))
            else (with_range o n v >>= λ v'. field_type_size f >>= λ s.
                ok (record (store q v' st) { buffer_offset = o + n * s })))
  unfolding with_children with_range
  sized-Done f q st n o hp hc e = elim (Bool-cases (has_item_values f.ros_type)) [
    | inl h ↦
        let e' : get_elem? st.values q ≡ some make_array = rw h at e in
        rw (h, e') (items-Done f q n o st no_list hp h hc e')
    | inr h ↦
        let e' : get_elem? st.values q ≡ some (make_primitive_array f.ros_type (some buffer)) =
          rw h at e in
        rw (h, e')
          (ranged-Done buffer f.ros_type q n o st (field_type_size f) hc
            (get_elem?-lt st.values q e'))
  ]

  bound-Done :
      (q : ℕ) (st : ParserState) (sized : Result (ℕ × ℕ)) (next : ℕ → ℕ → Result (Layout × ℕ))
      (run : ℕ → ℕ → Result ParserState)
      → ((n o : ℕ) → Done buffer q st (next n o) (run n o))
      → Done buffer q st (sized >>= λ (n, o). next n o) (sized >>= λ (n, o). run n o)
  bound-Done q st (err e) next run h = refl
  bound-Done q st (ok (n, o)) next run h = h n o

  -- initArray gives the layout of an array.
  pub array-Done :
      (f : FieldDef) (q : ℕ) (st : ParserState)
      → IsParsableField definitions f
      → IsCounted st
      → get_elem? st.values q
        ≡ some (
            if has_item_values f.ros_type
            then make_array
            else make_primitive_array f.ros_type (some buffer))
      → Done buffer q st
          (layout_array definitions buffer layout f st.buffer_offset)
          (init_array definitions buffer init f q st)
  unfolding layout_array init_array
  array-Done f q st hp hc e =
      bound-Done q st (array_length definitions buffer f st.buffer_offset) _ _
        (λ n o. sized-Done f q st n o hp hc e)
