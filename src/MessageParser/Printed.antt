-- ===== src/MessageParser/Printed.antt =====
-- RosValue::toString (lib/ros_value.cc) calls itself as deep as the values of a message are nested.
use embag.Prelude.{
  ℕ, zero, suc, ◌*◌, ◌-◌, ◌≤◌, ◌≡◌, ◌≢◌, subst, Bool, true, false, some, List, [], ◌∷◌, none, arith,
  length, ltb, Bool-cases, inl, inr, drop, ◌==◌,
}
use embag.Bytes.{Bytes, read_le, copy_n}
use embag.Result.{
  Result, ok, err, ◌>>=◌, guard, stuck, undefined, not_scalar, not_string, Ensures-ok,
}
use embag.Assoc.{Assoc}
use embag.RosType.{RosType, is_string}
use embag.Schema.{MsgDef}
use embag.Header.{read_time}
use embag.Wrapper.{at_pointer}
use embag.Value.{
  RosValue, primitive_info, in_vector, deref, primitive_pointer, get_primitive, as_number, as_time,
  as_string, is_scalar, get_type,
}
use embag.Value.Text.{scalar_text, bool_text, child_path, item_path, to_string}
use embag.MessageParser.{parse}
use embag.MessageParser.Layout.{Layout, leaf, packed, items, fields, Layouts, nil, cons}
use embag.MessageParser.Refines.{IsParsable, layout_message, ParsesAs, parse-layout_message}
use embag.MessageParser.Walk.{pick}
use embag.MessageParser.Fuel.{Finishes, Finishes-bind, Finishes-or_err}
use embag.MessageParser.Text.{
  fields_text, items_text, layout_text, Shows-value, to_string-layout_text,
}
use embag.MessageParser.Depth.{
  Fits, FitsAll, Fits-more, FitsAll-more, pick-Fits, FitsIn, object-Fits,
}

Finishes-pick : (ts : Layouts) (i : ℕ) → Finishes (pick i ts)
unfolding pick
Finishes-pick nil i = λ x. cc
Finishes-pick (cons t ts) zero = tt
Finishes-pick (cons t ts) (suc i) = Finishes-pick ts i

Finishes-pointer : (v : RosValue) → Finishes (primitive_pointer v)
unfolding primitive_pointer at_pointer
Finishes-pointer (primitive_info t o none) = λ x. cc
Finishes-pointer (primitive_info t o (some b)) = elim (Bool-cases (ltb o (length b))) [
  | inl e ↦ rw e tt
  | inr e ↦ rw e (λ x. cc)
]
Finishes-pointer _ = λ x. cc

Finishes-primitive : (n : ℕ) (v : RosValue) → Finishes (get_primitive n v)
unfolding get_primitive
Finishes-primitive n v =
    Finishes-bind (primitive_pointer v) _ (Finishes-pointer v)
      λ p e. Finishes-or_err undefined (read_le n p) (λ x. cc)

Finishes-guard :
    (b : Bool) {A : Type 0} (next : Result A)
    → Finishes next
    → Finishes (guard b not_scalar >>= λ _. next)
Finishes-guard true next h = h
Finishes-guard false next h = λ x. cc

Finishes-number : (n : ℕ) (v : RosValue) → Finishes (as_number n v)
unfolding as_number
Finishes-number n v = Finishes-guard (is_scalar v) _ (Finishes-primitive n v)

Finishes-time : (v : RosValue) → Finishes (as_time v)
unfolding as_time
Finishes-time v = Finishes-guard (is_scalar v) _ (
    Finishes-bind (primitive_pointer v) _ (Finishes-pointer v)
      λ p e. Finishes-or_err undefined (read_time p) (λ x. cc))

Finishes-check : (b : Bool) → Finishes (guard b not_string)
Finishes-check true = tt
Finishes-check false = λ x. cc

Finishes-string : (v : RosValue) → Finishes (as_string v)
unfolding as_string
Finishes-string v =
    Finishes-bind (guard (is_string (get_type v)) not_string) _
      (Finishes-check (is_string (get_type v)))
      λ u e. Finishes-bind (get_primitive 4 v) _ (Finishes-primitive 4 v) λ n e'.
        Finishes-bind (primitive_pointer v) _ (Finishes-pointer v)
          λ p e''. Finishes-or_err undefined (copy_n n (drop 4 p)) (λ x. cc)

Finishes-bool : (n : ℕ) → Finishes (bool_text n)
unfolding bool_text
Finishes-bool n = elim (Bool-cases (n == 0)) [
  | inl e ↦ rw e tt
  | inr e ↦ elim (Bool-cases (n == 1)) [ inl e' ↦ rw (e, e') tt | inr e' ↦ rw (e, e') (λ x. cc) ]
]

module _ (float_text double_text : ℕ → Bytes) where
  Finishes-shown :
      (n : ℕ) (v : RosValue) (show : ℕ → Bytes) → Finishes (as_number n v >>= λ k. ok (show k))
  Finishes-shown n v show = Finishes-bind (as_number n v) _ (Finishes-number n v) (λ k e. tt)

  Finishes-scalar : (t : RosType) (v : RosValue) → Finishes (scalar_text float_text double_text t v)
  unfolding scalar_text
  Finishes-scalar RosType.ros_bool v =
      Finishes-bind (as_number 1 v) _ (Finishes-number 1 v) (λ k e. Finishes-bool k)
  Finishes-scalar RosType.int8 v = Finishes-shown 1 v _
  Finishes-scalar RosType.uint8 v = Finishes-shown 1 v _
  Finishes-scalar RosType.int16 v = Finishes-shown 2 v _
  Finishes-scalar RosType.uint16 v = Finishes-shown 2 v _
  Finishes-scalar RosType.int32 v = Finishes-shown 4 v _
  Finishes-scalar RosType.uint32 v = Finishes-shown 4 v _
  Finishes-scalar RosType.int64 v = Finishes-shown 8 v _
  Finishes-scalar RosType.uint64 v = Finishes-shown 8 v _
  Finishes-scalar RosType.float32 v = Finishes-shown 4 v _
  Finishes-scalar RosType.float64 v = Finishes-shown 8 v _
  Finishes-scalar RosType.string v = Finishes-string v
  Finishes-scalar RosType.ros_time v = Finishes-bind (as_time v) _ (Finishes-time v) (λ k e. tt)
  Finishes-scalar RosType.ros_duration v = Finishes-bind (as_time v) _ (Finishes-time v) (λ k e. tt)
  Finishes-scalar _ v = λ x. cc

  module _ (buffer : Bytes) (text : Bytes → Layout → Result Bytes) (n : ℕ)
      (each : (path : Bytes) (t : Layout) → Fits t n → Finishes (text path t)) where
    Finishes-fields :
        (ts : Layouts) (path : Bytes) (m : Assoc ℕ)
        → FitsAll ts n
        → Finishes (fields_text float_text double_text buffer text ts path m)
    unfolding fields_text
    Finishes-fields ts path [] h = tt
    Finishes-fields ts path ((name, i) ∷ m) h =
        Finishes-bind (pick i ts) _ (Finishes-pick ts i) λ t e.
          Finishes-bind (text (child_path path name) t) _
            (each (child_path path name) t (pick-Fits ts i n h e))
            λ s e'.
              Finishes-bind (fields_text float_text double_text buffer text ts path m) _
                (Finishes-fields ts path m h) (λ rest e''. tt)

    Finishes-items :
        (ts : Layouts) (path : Bytes) (i : ℕ)
        → FitsAll ts n
        → Finishes (items_text float_text double_text buffer text path i ts)
    unfolding items_text
    Finishes-items nil path i h = tt
    Finishes-items (cons t ts) path i h =
        Finishes-bind (text (item_path path i) t) _ (each (item_path path i) t h.0) λ s e'.
          Finishes-bind (items_text float_text double_text buffer text path (suc i) ts) _
            (Finishes-items ts path (suc i) h.1) (λ rest e''. tt)

  Finishes-text :
      (buffer : Bytes) (fuel : ℕ) (path : Bytes) (t : Layout)
      → Fits t fuel
      → Finishes (layout_text float_text double_text buffer fuel path t)
  unfolding layout_text
  Finishes-text buffer zero path (leaf t o) h = absurd (omega arith)
  Finishes-text buffer zero path (packed e o n) h = absurd (omega arith)
  Finishes-text buffer zero path (items ts) h = absurd (omega (arith, h.0))
  Finishes-text buffer zero path (fields m ts) h = absurd (omega (arith, h.0))
  Finishes-text buffer (suc fuel) path (leaf t o) h =
      Finishes-bind (scalar_text float_text double_text t (primitive_info t o (some buffer))) _
        (Finishes-scalar t (primitive_info t o (some buffer))) (λ s e. tt)
  Finishes-text buffer (suc fuel) path (packed e o n) h = tt
  Finishes-text buffer (suc fuel) path (items ts) h =
      Finishes-items buffer (layout_text float_text double_text buffer fuel) fuel
        (Finishes-text buffer fuel) ts path 0
        (FitsAll-more ts (suc fuel - 1) fuel (omega arith) h.1)
  Finishes-text buffer (suc fuel) path (fields m ts) h =
      Finishes-fields buffer (layout_text float_text double_text buffer fuel) fuel
        (Finishes-text buffer fuel) ts path m
        (FitsAll-more ts (suc fuel - 1) fuel (omega arith) h.1)

-- Where every field of a message and of the types it embeds is of an object type that the
-- definitions hold or of no container type, and the layout of the message can be read, parse
-- returns the values, and toString of the message at any path gives the text of this layout, whose
-- scalars are read from the buffer, or fails as reading them does; fuel of at least twice that of
-- the parse and one more does not run out.
pub parse-to_string :
    (float_text double_text : ℕ → Bytes) (fuel text_fuel : ℕ) (d : MsgDef) (buffer : Bytes)
    (offset : ℕ) (path : Bytes) (t : Layout) (o : ℕ)
    → IsParsable d
    → layout_message fuel d buffer offset ≡ ok (t, o)
    → suc (fuel * 2) ≤ text_fuel
    → (vs : List RosValue) × (parse fuel d buffer offset ≡ ok (in_vector 0, vs))
      × ((deref vs (in_vector 0) >>= λ v. to_string float_text double_text text_fuel vs path v)
          ≡ layout_text float_text double_text buffer text_fuel path t)
      × (layout_text float_text double_text buffer text_fuel path t ≢ err stuck)
unfolding layout_message deref
parse-to_string float_text double_text fuel text_fuel d buffer offset path t o h e enough =
    let (vs, returned, shown) =
      subst (λ (r : Result (Layout × ℕ)). ParsesAs buffer r (parse fuel d buffer offset)) e
        (parse-layout_message fuel d buffer offset h) in
    let (v, found, type) = Shows-value float_text double_text buffer vs t 1 (length vs) 0 shown in
    let small =
      Ensures-ok (FitsIn (suc (fuel * 2))) (layout_message fuel d buffer offset)
        (object-Fits d.embedded_definition_map buffer fuel d.base offset) e in
    (
      vs,
      returned,
      rw found (
          to_string-layout_text float_text double_text buffer vs text_fuel path t 1 (length vs) 0 v
            shown found),
      finished _ (
          Finishes-text float_text double_text buffer text_fuel path t
            (Fits-more t (suc (fuel * 2)) text_fuel enough small)),
    )
  where
    finished : (r : Result Bytes) → Finishes r → r ≢ err stuck
    finished (ok s) h = λ x. cc
    finished (err e) h = λ x. h (ground arith)
