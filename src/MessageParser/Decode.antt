-- ===== src/MessageParser/Decode.antt =====
-- The layout of a message whose bytes are those of its data (lib/message_parser.cc).
use embag.Prelude.{
  ℕ, zero, suc, ◌+◌, ◌*◌, ◌<◌, ◌^◌, ◌≡◌, refl, sym, ◌∙◌, ap, subst, Bool, true, false, some, List,
  [], ◌∷◌, ◌++◌, append_assoc, arith, drop, length, lt→ltb, drop-append, length-append,
}
use embag.Bytes.{Bytes, copy_n, copy_n-append, encode_le, length-encode_le, read_le-encode_le}
use embag.Result.{Result, ok, or_err, undefined}
use embag.Assoc.{Assoc}
use embag.RosType.{RosType, is_string}
use embag.Schema.{FieldDef, MemberDef, field_def, constant_def, BaseMsgDef, MsgDef}
use embag.Value.{RosValue, in_vector, primitive_info, as_string, get_primitive, primitive_pointer}
use embag.MessageParser.{parse, is_zero, type_definition_of, array_length}
use embag.MessageParser.Layout.{
  Layout, leaf, packed, items, fields, Layouts, nil, cons, layout_many, layout_primitive,
  layout_item, layout_array, layout_field, layout_fields, layout_object, Shows,
}
use embag.MessageParser.Refines.{IsParsable, layout_message, ParsesAs, parse-layout_message}
use embag.MessageParser.Encode.{
  Datum, scalar, text, block, item_data, field_data, Data, no_data, more_data, how_many,
  count_bytes, encode, encode_all, fields_of, IsLength, IsItem, AreItems, IsField, AreFields,
  IsObject, Holds, HoldAll,
}
use embag.Wrapper.{at_pointer, u32_at}

drop-nil : (n : ℕ) → drop {A = ℕ} n [] ≡ []
drop-nil zero = refl
drop-nil (suc n) = refl

drop_add : (o n : ℕ) (b : Bytes) → drop (o + n) b ≡ drop n (drop o b)
drop_add zero n b = ap (λ (k : ℕ). drop k b) (omega arith)
drop_add (suc o) n [] =
    ap (λ (k : ℕ). drop {A = ℕ} k []) {y = suc (o + n)} (omega arith)
    ∙ (drop-nil (suc (o + n)) ∙ sym (drop-nil n))
drop_add (suc o) n (x ∷ b) =
    let same : suc o + n ≡ suc (o + n) = omega arith in
    ap (λ (k : ℕ). drop k (x ∷ b)) same ∙ drop_add o n b

drop-past : (o : ℕ) (b s r : Bytes) → drop o b ≡ s ++ r → drop (o + length s) b ≡ r
drop-past o b s r h = drop_add o (length s) b ∙ (ap (drop (length s)) h ∙ drop-append s r)

drop-inside : (o : ℕ) (b : Bytes) (x : ℕ) (r : Bytes) → drop o b ≡ x ∷ r → o < length b
drop-inside zero [] x r h = cc
drop-inside zero (y ∷ b) x r h = omega arith
drop-inside (suc o) [] x r h = cc
drop-inside (suc o) (y ∷ b) x r h = omega (arith, drop-inside o b x r h)

module _ (buffer : Bytes) where
  pointer-here :
      (o n : ℕ) (r : Bytes)
      → drop o buffer ≡ encode_le 4 n ++ r
      → at_pointer buffer o ≡ ok (encode_le 4 n ++ r)
  unfolding at_pointer encode_le
  pointer-here o n r h = rw (lt→ltb o (length buffer) (drop-inside o buffer _ _ h), h) refl

  u32_at-encode_le :
      (o n : ℕ) (r : Bytes)
      → drop o buffer ≡ encode_le 4 n ++ r
      → n < 256 ^ 4
      → u32_at buffer o ≡ ok n
  unfolding u32_at
  u32_at-encode_le o n r h small =
      rw (pointer-here o n r h) (ap (or_err undefined) (read_le-encode_le 4 n r small))

  copied : (s r : Bytes) → copy_n (length s) (drop 4 (encode_le 4 (length s) ++ (s ++ r))) ≡ some s
  unfolding encode_le
  copied s r = copy_n-append s r

  text-read :
      (t : RosType) (o : ℕ) (s r : Bytes)
      → is_string t ≡ true
      → drop o buffer ≡ encode_le 4 (length s) ++ (s ++ r)
      → length s < 256 ^ 4
      → as_string (primitive_info t o (some buffer)) ≡ ok s
  unfolding as_string get_primitive primitive_pointer
  text-read t o s r ht h small =
      rw (ht, pointer-here o (length s) (s ++ r) h, read_le-encode_le 4 (length s) (s ++ r) small)
        (ap (or_err undefined) (copied s r))

  same_type :
      (definitions : Assoc BaseMsgDef) (f : FieldDef)
      → type_definition_of definitions buffer f ≡ type_definition_of definitions [] f
  unfolding type_definition_of
  same_type definitions f = refl

  array_length-read :
      (definitions : Assoc BaseMsgDef) (f : FieldDef) (counted : Bool) (n o : ℕ) (r : Bytes)
      → IsLength f counted n
      → drop o buffer ≡ count_bytes counted n ++ r
      → (o' : ℕ) × (array_length definitions buffer f o ≡ ok (n, o')) × (drop o' buffer ≡ r)
  unfolding array_length
  array_length-read definitions f true n o r (m, small) h = (
    o + 4,
    rw (m, u32_at-encode_le o n r h small) refl,
    subst (λ (k : ℕ). drop (o + k) buffer ≡ r) (length-encode_le 4 n)
        (drop-past o buffer (encode_le 4 n) r h),
  )
  array_length-read definitions f false n o r (m, e) h = (o, rw (m, e) refl, h)

  -- The layout is read, leads to the data, and ends where the rest begins.
  abbrev Reads : Result (Layout × ℕ) → Datum → Bytes → Type 0
  Reads layout d rest =
      (t : Layout) × (o : ℕ) × (layout ≡ ok (t, o)) × Holds buffer d t × (drop o buffer ≡ rest)

  abbrev ReadsAll : Result (Layouts × ℕ) → Data → Bytes → Type 0
  ReadsAll layouts ds rest =
      (ts : Layouts) × (o : ℕ) × (layouts ≡ ok (ts, o))
      × HoldAll buffer ds ts
      × (drop o buffer ≡ rest)

  module _ (definitions : Assoc BaseMsgDef) (P : BaseMsgDef → Data → Type 0)
      (layout : BaseMsgDef → ℕ → Result (Layout × ℕ))
      (rec : (d : BaseMsgDef) (ds : Data) (o : ℕ) (rest : Bytes)
        → P d ds
        → drop o buffer ≡ encode_all ds ++ rest
        → Reads (layout d o) (field_data ds) rest) where
    item-Reads :
        (f : FieldDef) (d : Datum) (o : ℕ) (rest : Bytes)
        → IsItem definitions P f d
        → drop o buffer ≡ encode d ++ rest
        → Reads (layout_item definitions buffer layout f o) d rest
    unfolding layout_item layout_primitive Holds
    item-Reads f (scalar s) o rest (ob, st, size) h = (
      leaf f.ros_type o,
      o + length s,
      rw (ob, st, size) refl,
      ap (copy_n (length s)) h ∙ copy_n-append s rest,
      drop-past o buffer s rest h,
    )
    item-Reads f (text s) o rest (ob, st, small) h =
        let h' : drop o buffer ≡ encode_le 4 (length s) ++ (s ++ rest) =
          h ∙ append_assoc (encode_le 4 (length s)) s rest in
        let size : length (encode_le 4 (length s) ++ s) ≡ length s + 4 =
          omega (arith, length-append (encode_le 4 (length s)) s, length-encode_le 4 (length s)) in
        (
          leaf f.ros_type o,
          o + (length s + 4),
          rw (ob, st, u32_at-encode_le o (length s) (s ++ rest) h' small) refl,
          text-read f.ros_type o s rest st h' small,
          subst (λ (k : ℕ). drop (o + k) buffer ≡ rest) size
              (drop-past o buffer (encode_le 4 (length s) ++ s) rest h),
        )
    item-Reads f (field_data ds) o rest (d, ob, found, typed) h =
        let (t, o', e, held, after) = rec d ds o rest typed h in
        (t, o', rw (ob, same_type definitions f ∙ found) e, held, after)
    item-Reads f (block counted n s) o rest h e = absurd h
    item-Reads f (item_data counted ds) o rest h e = absurd h

    items-Reads :
        (f : FieldDef) (ds : Data) (o : ℕ) (rest : Bytes)
        → AreItems definitions P f ds
        → drop o buffer ≡ encode_all ds ++ rest
        → ReadsAll (layout_many (layout_item definitions buffer layout f) (how_many ds) o) ds rest
    unfolding layout_many Holds
    items-Reads f no_data o rest u h = (nil, o, refl, tt, h)
    items-Reads f (more_data d ds) o rest (hd, hds) h =
        let (t, o1, e, held, after) =
          item-Reads f d o (encode_all ds ++ rest) hd
            (h ∙ append_assoc (encode d) (encode_all ds) rest) in
        let (ts, o2, e', held', after') = items-Reads f ds o1 rest hds after in
        (cons t ts, o2, rw (e, e') refl, (held, held'), after')

    plain-Reads :
        (f : FieldDef) (d : Datum) (o : ℕ) (rest : Bytes)
        → is_zero f.parsed_info.array_size ≡ true
        → IsItem definitions P f d
        → drop o buffer ≡ encode d ++ rest
        → Reads (layout_field definitions buffer layout f o) d rest
    unfolding layout_field
    plain-Reads f d o rest z hd h = rw z (item-Reads f d o rest hd h)

    field-Reads :
        (f : FieldDef) (d : Datum) (o : ℕ) (rest : Bytes)
        → IsField definitions P f d
        → drop o buffer ≡ encode d ++ rest
        → Reads (layout_field definitions buffer layout f o) d rest
    unfolding layout_field layout_array Holds
    field-Reads f (scalar s) o rest (z, hd) h = plain-Reads f (scalar s) o rest z hd h
    field-Reads f (text s) o rest (z, hd) h = plain-Reads f (text s) o rest z hd h
    field-Reads f (field_data ds) o rest (z, hd) h = plain-Reads f (field_data ds) o rest z hd h
    field-Reads f (block counted n s) o rest (size, z, hv, hn, hs, hl) h =
        let (o1, e, after) =
          array_length-read definitions f counted n o (s ++ rest) hn
            (h ∙ append_assoc (count_bytes counted n) s rest) in
        (
          packed f.ros_type o1 n,
          o1 + n * size,
          rw (z, e, hv, hs) refl,
          (refl, ap (copy_n (length s)) after ∙ copy_n-append s rest),
          subst (λ (k : ℕ). drop (o1 + k) buffer ≡ rest) hl (drop-past o1 buffer s rest after),
        )
    field-Reads f (item_data counted ds) o rest (z, hv, hn, hds) h =
        let (o1, e, after) =
          array_length-read definitions f counted (how_many ds) o (encode_all ds ++ rest) hn
            (h ∙ append_assoc (count_bytes counted (how_many ds)) (encode_all ds) rest) in
        let (ts, o2, e', held, after') = items-Reads f ds o1 rest hds after in
        (items ts, o2, rw (z, e, hv, e') refl, held, after')

    fields-Read :
        (ms : List MemberDef) (ds : Data) (o : ℕ) (rest : Bytes)
        → AreFields definitions P (fields_of ms) ds
        → drop o buffer ≡ encode_all ds ++ rest
        → ReadsAll (layout_fields definitions buffer layout ms o) ds rest
    unfolding layout_fields Holds
    fields-Read [] no_data o rest u h = (nil, o, refl, tt, h)
    fields-Read [] (more_data d ds) o rest u h = absurd u
    fields-Read (constant_def c ∷ ms) ds o rest hs h = fields-Read ms ds o rest hs h
    fields-Read (field_def f ∷ ms) no_data o rest u h = absurd u
    fields-Read (field_def f ∷ ms) (more_data d ds) o rest (hd, hds) h =
        let (t, o1, e, held, after) =
          field-Reads f d o (encode_all ds ++ rest) hd
            (h ∙ append_assoc (encode d) (encode_all ds) rest) in
        let (ts, o2, e', held', after') = fields-Read ms ds o1 rest hds after in
        (cons t ts, o2, rw (e, e') refl, (held, held'), after')

  object-Reads :
      (definitions : Assoc BaseMsgDef) (n : ℕ) (d : BaseMsgDef) (ds : Data) (o : ℕ) (rest : Bytes)
      → IsObject definitions n d ds
      → drop o buffer ≡ encode_all ds ++ rest
      → Reads (layout_object definitions buffer n d o) (field_data ds) rest
  unfolding IsObject layout_object Holds
  object-Reads definitions zero d ds o rest hd h = absurd hd
  object-Reads definitions (suc n) d ds o rest hd h =
      let (ts, o', e, held, after) =
        fields-Read definitions (IsObject definitions n) (layout_object definitions buffer n)
          (object-Reads definitions n) d.members ds o rest hd h in
      (fields d.field_indexes ts, o', rw e refl, held, after)

-- Where every field of a message and of the types it embeds is of an object type that the
-- definitions hold or of no container type, and the bytes of the buffer from the offset on begin with
-- the ROS serialisation of data of the type of the message, whose types are nested no deeper than the
-- fuel says: parse returns a pointer to position 0 of a vector that shows a layout which leads to just
-- these data, a scalar and a packed array to their bytes and a string to the text that as<std::string>
-- reads, in the order of the fields and items; and the layout ends where the serialisation does.
pub parse-encode_all :
    (n : ℕ) (d : MsgDef) (buffer : Bytes) (offset : ℕ) (ds : Data) (rest : Bytes)
    → IsParsable d
    → IsObject d.embedded_definition_map n d.base ds
    → drop offset buffer ≡ encode_all ds ++ rest
    → (t : Layout) × (o : ℕ) × (vs : List RosValue) × (parse n d buffer offset
        ≡ ok (in_vector 0, vs))
      × Shows buffer vs 1 (length vs) 0 t
      × Holds buffer (field_data ds) t
      × (layout_message n d buffer offset ≡ ok (t, o))
      × (drop o buffer ≡ rest)
unfolding layout_message
parse-encode_all n d buffer offset ds rest hp hd h =
    let (t, o, e, held, after) =
      object-Reads buffer d.embedded_definition_map n d.base ds offset rest hd h in
    let (vs, returned, shown) =
      subst (λ (r : Result (Layout × ℕ)). ParsesAs buffer r (parse n d buffer offset)) e
        (parse-layout_message n d buffer offset hp) in
    (t, o, vs, returned, shown, held, e, after)
