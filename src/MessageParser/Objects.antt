-- ===== src/MessageParser/Objects.antt =====
-- initObject of MessageParser (lib/message_parser.cc) against the layout of an object.
use embag.Prelude.{
  ℕ, zero, suc, ◌+◌, ◌≤◌, ◌<◌, ◌≡◌, ◌≢◌, refl, sym, ap, ◌∙◌, subst, inl, inr, true, false, none,
  some, List, [], ◌∷◌, arith, All, if◌then◌else◌, length, get_elem?, get_elem?-set_self,
  get_elem?-set_ne, length-set, get_elem?-lt, Bool-cases,
}
use embag.Bytes.{Bytes}
use embag.Result.{Result, ok, err}
use embag.Assoc.{Assoc, find, find-All}
use embag.Schema.{FieldDef, MemberDef, field_def, constant_def, BaseMsgDef}
use embag.Value.{
  RosValue, primitive_info, object_info, ValueList, make_object, make_array, make_primitive_array,
}
use embag.MessageParser.{
  ParserState, store, with_children, has_item_values, is_zero, count_child, init_child,
  init_children, init_object, value_of_field,
}
use embag.MessageParser.Layout.{
  Layout, fields, Layouts, layout_array, layout_item, count, layout_field, layout_fields,
  layout_object, Shows, ShowsAll,
}
use embag.MessageParser.Frames.{Same, Done, DoneAll, DoneAll-cons}
use embag.MessageParser.Steps.{IsCounted, node-Done}
use embag.MessageParser.Arrays.{
  IsParsableField, IsParsableMember, type_definition-found, not_container-not_object, object-Done,
  primitive-Done, array-Done,
}
use embag.MessageParser.Emplace.{
  IsParsableBase, field_count, make_primitive-made, Pending, Pending-frame, emplace_fields-Emplaced,
}

module _ (definitions : Assoc BaseMsgDef) (buffer : Bytes) where
  -- The writes to the parent before a step leave no trace that is of use.
  store-DoneAll :
      (p c n : ℕ) (w v : RosValue) (st : ParserState) (layouts : Result (Layouts × ℕ))
      (run : Result ParserState)
      → DoneAll buffer p c n w (store p v st) layouts run
      → DoneAll buffer p c n w st layouts run
  store-DoneAll p c n w v st (err e) run d = d
  store-DoneAll p c n w v st (ok (ts, o)) run (st', e, a) =
      let same = length-set st.values p v in
      (
        st',
        e,
        record {
          moved = a.moved;
          counted = a.counted;
          grown = omega (arith, a.grown, same);
          many = a.many;
          kept = λ k hk ne side.
              a.kept k (omega (arith, same)) ne side
              ∙ get_elem?-set_ne st.values v (λ x. ne (sym x));
          parent = a.parent;
          shows =
              subst (λ (l : ℕ). ShowsAll buffer st'.values l (length st'.values) c ts) same a.shows;
        },
      )

  module _ (init : BaseMsgDef → ℕ → ParserState → Result ParserState)
      (layout : BaseMsgDef → ℕ → Result (Layout × ℕ))
      (rec : (k : Bytes) (d : BaseMsgDef) (q : ℕ) (st : ParserState) (l : ValueList)
        → find k definitions ≡ some d
        → IsCounted st
        → get_elem? st.values q ≡ some (object_info l d.field_indexes)
        → Done buffer q st (layout d st.buffer_offset) (init d q st)) where
    -- A child that emplaceField made gets the layout of its field.
    item-Done :
        (f : FieldDef) (q : ℕ) (st : ParserState)
        → IsParsableField definitions f
        → IsCounted st
        → is_zero f.parsed_info.array_size ≡ true
        → (v : RosValue) → value_of_field definitions buffer f ≡ ok v
        → get_elem? st.values q ≡ some v
        → Done buffer q st
            (layout_field definitions buffer layout f st.buffer_offset)
            (init_child definitions buffer init f q v st)
    unfolding layout_field init_child value_of_field
    item-Done f q st hp hc z v ev e = elim hp [
      | inl (o, k, d, ek, ed) ↦
          let same : ok (make_object d.field_indexes) ≡ ok v =
            rw (z, o, type_definition-found definitions buffer f k d o ek ed) at ev in
          let same' : make_object d.field_indexes ≡ v = ground arith in
          rw z (
            subst
              (λ (x : RosValue).
                Done buffer q st (layout_item definitions buffer layout f st.buffer_offset)
                  (init_child definitions buffer init f q x st))
              same'
              (rw (type_definition-found definitions buffer f k d o ek ed) (
                object-Done definitions buffer init layout rec f k d q st o ek ed hc
                  (e ∙ ap some (sym same')))))
      | inr n ↦
          let o = not_container-not_object f.ros_type n in
          let same : ok (primitive_info f.ros_type 0 none) ≡ ok v =
            rw (z, o, make_primitive-made f.ros_type n) at ev in
          let same' : primitive_info f.ros_type 0 none ≡ v = ground arith in
          rw z (
            subst
              (λ (x : RosValue).
                Done buffer q st (layout_item definitions buffer layout f st.buffer_offset)
                  (init_child definitions buffer init f q x st))
              same'
              (primitive-Done definitions buffer init layout rec f q st o hc
                (e ∙ ap some (sym same'))))
    ]

    list-Done :
        (f : FieldDef) (q : ℕ) (st : ParserState)
        → IsParsableField definitions f
        → IsCounted st
        → is_zero f.parsed_info.array_size ≡ false
        → (v : RosValue) → value_of_field definitions buffer f ≡ ok v
        → get_elem? st.values q ≡ some v
        → Done buffer q st
            (layout_field definitions buffer layout f st.buffer_offset)
            (init_child definitions buffer init f q v st)
    unfolding layout_field init_child value_of_field
    list-Done f q st hp hc z v ev e =
        let same : ok (
              if has_item_values f.ros_type
              then make_array
              else make_primitive_array f.ros_type (some buffer))
            ≡ ok v =
          rw z at ev in
        let same' : (if has_item_values f.ros_type
              then make_array
              else make_primitive_array f.ros_type (some buffer))
            ≡ v =
          ground arith in
        let done =
          array-Done definitions buffer init layout rec f q st hp hc (e ∙ ap some (sym same')) in
        elim (Bool-cases (has_item_values f.ros_type)) [
          | inl h ↦
              let made : make_array ≡ v = rw h at same' in
              rw z (
                subst
                  (λ (x : RosValue).
                    Done buffer q st (layout_array definitions buffer layout f st.buffer_offset)
                      (init_child definitions buffer init f q x st))
                  made done)
          | inr h ↦
              let made : make_primitive_array f.ros_type (some buffer) ≡ v = rw h at same' in
              rw z (
                subst
                  (λ (x : RosValue).
                    Done buffer q st (layout_array definitions buffer layout f st.buffer_offset)
                      (init_child definitions buffer init f q x st))
                  made done)
        ]

    child-Done :
        (f : FieldDef) (q : ℕ) (st : ParserState)
        → IsParsableField definitions f
        → IsCounted st
        → (v : RosValue) → value_of_field definitions buffer f ≡ ok v
        → get_elem? st.values q ≡ some v
        → Done buffer q st
            (layout_field definitions buffer layout f st.buffer_offset)
            (init_child definitions buffer init f q v st)
    child-Done f q st hp hc v ev e = elim (Bool-cases (is_zero f.parsed_info.array_size)) [
      | inl z ↦ item-Done f q st hp hc z v ev e
      | inr z ↦ list-Done f q st hp hc z v ev e
    ]

    -- The second loop of initObject, after i of the fields.
    init_children-DoneAll :
        (p from total : ℕ) (m : Assoc ℕ) (ms : List MemberDef) (i c : ℕ) (st : ParserState)
        → IsCounted st
        → All (IsParsableMember definitions) ms
        → p < from
        → c ≡ from + i
        → i + field_count ms ≡ total
        → from + total ≤ length st.values
        → Pending definitions buffer st.values c ms
        → get_elem? st.values p
          ≡ some (object_info (record { has_base = true; offset = from; len = i }) m)
        → DoneAll buffer p c
            (field_count ms)
            (object_info (record { has_base = true; offset = from; len = total }) m)
            st
            (layout_fields definitions buffer layout ms st.buffer_offset)
            (init_children definitions buffer init p from ms st)
    unfolding layout_fields init_children ShowsAll count_child
    init_children-DoneAll p from total m [] i c st hc hm hp ec et hl hv hw = (
      st,
      refl,
      record {
        moved = refl;
        counted = hc;
        grown = omega arith;
        many = refl;
        kept = λ k hk ne side. refl;
        parent = let same : i ≡ total = omega (arith, et) in cc;
        shows = refl;
      },
    )
    init_children-DoneAll p from total m (constant_def k ∷ ms) i c st hc (u, hm) hp ec et hl hv hw =
        init_children-DoneAll p from total m ms i c st hc hm hp ec et hl hv hw
    init_children-DoneAll p from total m (field_def f ∷ ms) i c st hc (hf, hm) hp ec et hl hv hw =
        let counted : RosValue =
          object_info (record { has_base = true; offset = from; len = suc i }) m in
        let st1 = store p counted st in
        let same = length-set st.values p counted in
        let (v, ev, e) = hv.0 in
        let child : get_elem? st1.values c ≡ some v =
          get_elem?-set_ne st.values counted (λ x. absurd (omega arith)) ∙ e in
        let child' : get_elem? st1.values (from + i) ≡ some v =
          subst (λ (k : ℕ). get_elem? st1.values k ≡ some v) ec child in
        rw (hw, child')
          (store-DoneAll p c (suc (field_count ms)) _ counted st _ _ (
            DoneAll-cons buffer p c (field_count ms) _ st1
              (layout_field definitions buffer layout f st.buffer_offset)
              (init_child definitions buffer init f (from + i) v st1)
              (layout_fields definitions buffer layout ms)
              (init_children definitions buffer init p from ms) (omega arith) (omega (arith, same))
              (subst
                (λ (k : ℕ).
                  Done buffer c st1 (layout_field definitions buffer layout f st.buffer_offset)
                    (init_child definitions buffer init f k v st1))
                ec (child-Done f c st1 hf (hc ∙ sym same) v ev child))
              (λ t o st2 a.
                let kept : (k : ℕ) → k < length st.values → k ≢ c → Same st1.values st2.values k =
                  λ k hk ne. a.kept k (omega (arith, same)) ne in
                subst
                  (λ (x : ℕ).
                    DoneAll buffer p (suc c) (field_count ms)
                      (object_info (record { has_base = true; offset = from; len = total }) m) st2
                      (layout_fields definitions buffer layout ms x)
                      (init_children definitions buffer init p from ms st2))
                  a.moved
                  (init_children-DoneAll p from total m ms (suc i) (suc c) st2 a.counted hm hp
                    (omega (arith, ec)) (omega (arith, et)) (omega (arith, hl, same, a.grown))
                    (Pending-frame definitions buffer st.values st2.values ms (suc c)
                      (λ k lo hi.
                        kept k (omega (arith, ec, et)) (λ x. absurd (omega arith))
                        ∙ get_elem?-set_ne st.values counted (λ x. absurd (omega arith)))
                      hv.1)
                    (kept p (omega arith) (λ x. absurd (omega arith))
                      ∙ get_elem?-set_self st.values p counted (omega arith))))))

module _ (definitions : Assoc BaseMsgDef) (buffer : Bytes)
    (parsable : All (λ e. IsParsableBase definitions e.1) definitions) where
  -- initObject gives the layout of an object, and fails where there is none.
  pub init_object-Done :
      (fuel : ℕ) (d : BaseMsgDef) (p : ℕ) (st : ParserState) (l : ValueList)
      → IsParsableBase definitions d
      → IsCounted st
      → get_elem? st.values p ≡ some (object_info l d.field_indexes)
      → Done buffer p st
          (layout_object definitions buffer fuel d st.buffer_offset)
          (init_object definitions buffer fuel d p st)
  unfolding layout_object init_object with_children Shows
  init_object-Done zero d p st l hd hc e = refl
  init_object-Done (suc fuel) d p st l hd hc e =
      let w0 =
        object_info (record { has_base = true; offset = st.values_offset; len = 0 })
          d.field_indexes in
      let total = field_count d.members in
      let st1 = store p w0 st in
      let same = length-set st.values p w0 in
      let there = get_elem?-lt st.values p e in
      let (st2, e2, h) =
        emplace_fields-Emplaced definitions buffer d.members st1 (hc ∙ sym same) hd in
      rw (e, e2)
        (node-Done buffer p total
          (object_info (record { has_base = true; offset = st.values_offset; len = total })
            d.field_indexes)
          st st2 (fields d.field_indexes) (omega (arith, h.longer, same))
          (λ k hk ne.
            h.kept k (omega (arith, same)) ∙ get_elem?-set_ne st.values w0 (λ x. ne (sym x)))
          (λ vs top ts a b c r.
            let b' : total ≡ count ts = sym b in
            (
              cc,
              omega (arith, b),
              subst (λ (m : ℕ). ShowsAll buffer vs (length st.values + m) top (length st.values) ts)
                  b' r,
            ))
          _ _
          (subst
            (λ (x : ℕ).
              DoneAll buffer p (length st.values) total
                (object_info (record { has_base = true; offset = st.values_offset; len = total })
                  d.field_indexes)
                st2
                (layout_fields definitions buffer (layout_object definitions buffer fuel) d.members
                  x)
                (init_children definitions buffer (init_object definitions buffer fuel) p
                  st.values_offset d.members st2))
            h.unread
            (init_children-DoneAll definitions buffer (init_object definitions buffer fuel)
              (layout_object definitions buffer fuel)
              (λ k d' q st' l' ek hc' e'.
                init_object-Done fuel d' q st' l'
                  (find-All (IsParsableBase definitions) k definitions parsable ek) hc' e')
              p st.values_offset total d.field_indexes d.members 0 (length st.values) st2 h.counted
              hd (omega (arith, hc)) (omega (arith, hc)) (omega arith)
              (omega (arith, hc, h.longer, same))
              (subst (λ (c : ℕ). Pending definitions buffer st2.values c d.members) same h.pending)
              (h.kept p (omega (arith, same)) ∙ get_elem?-set_self st.values p w0 there))))
