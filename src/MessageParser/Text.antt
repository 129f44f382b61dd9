-- ===== src/MessageParser/Text.antt =====
-- RosValue::toString (lib/ros_value.cc) on the values that MessageParser::parse
-- (lib/message_parser.cc) made.
use embag.Prelude.{
  ℕ, zero, suc, ◌+◌, ◌≡◌, refl, sym, ◌∙◌, subst, ◌||◌, Bool, true, false, some, List, [], ◌∷◌, ◌++◌,
  arith, if◌then◌else◌, get_elem?, ltb, ◌⊎◌, inl, inr,
}
use embag.Bytes.{Bytes, codes}
use embag.Result.{Result, ok, err, ◌>>=◌, stuck, out_of_range}
use embag.Assoc.{Assoc}
use embag.RosType.{is_object, is_array}
use embag.Value.{RosValue, primitive_info, primitive_array_info, deref, list_at, get_type}
use embag.Value.Text.{scalar_text, child_path, item_path, object_text, array_text, to_string}
use embag.MessageParser.Layout.{
  Layout, leaf, packed, items, fields, Layouts, nil, cons, count, Shows, ShowsAll,
}
use embag.MessageParser.Walk.{pick}

some-injective : {v w : RosValue} → some v ≡ some w → v ≡ w
some-injective {v} {w} e = ground arith

-- An object or an array of values ends its own lines.
abbrev pub ends_lines : Layout → Bool
ends_lines (leaf t o) = is_object t || is_array t
ends_lines (packed e o n) = false
ends_lines (items ts) = true
ends_lines (fields m ts) = true

module _ (float_text double_text : ℕ → Bytes) (buffer : Bytes) where
  module _ (text : Bytes → Layout → Result Bytes) where
    unfoldable pub fields_text : Layouts → Bytes → Assoc ℕ → Result Bytes
    fields_text ts path [] = ok []
    fields_text ts path ((name, i) ∷ m) = do
      t ← pick i ts
      s ← text (child_path path name) t
      let newline : Bytes = if ends_lines t then [] else 10 ∷ []
      rest ← fields_text ts path m
      ok (s ++ (newline ++ rest))

    unfoldable pub items_text : Bytes → ℕ → Layouts → Result Bytes
    items_text path i nil = ok []
    items_text path i (cons t ts) = do
      s ← text (item_path path i) t
      rest ← items_text path (suc i) ts
      ok (s ++ (10 ∷ rest))

  -- The text of a layout, with the scalars read from the buffer and no vector of values.
  unfoldable pub layout_text : ℕ → Bytes → Layout → Result Bytes
  layout_text zero path t = err stuck
  layout_text (suc fuel) path (leaf t o) = do
    s ← scalar_text float_text double_text t (primitive_info t o (some buffer))
    ok (path ++ (codes " -> " ++ s))
  layout_text (suc fuel) path (packed e o n) = ok (path ++ codes " -> unknown type")
  layout_text (suc fuel) path (items ts) = items_text (layout_text fuel) path 0 ts
  layout_text (suc fuel) path (fields m ts) = fields_text (layout_text fuel) ts path m

  module _ (vs : List RosValue) where
    -- The value at a position that shows a layout, with its type.
    pub Shows-value :
        (t : Layout) (lo hi slot : ℕ)
        → Shows buffer vs lo hi slot t
        → (v : RosValue) × (get_elem? vs slot ≡ some v)
          × ((is_object (get_type v) || is_array (get_type v)) ≡ ends_lines t)
    unfolding Shows
    Shows-value (leaf t o) lo hi slot h = (_, h.1, refl)
    Shows-value (packed e o n) lo hi slot h = (_, h.1, refl)
    Shows-value (items ts) lo hi slot h = (_, h.0, refl)
    Shows-value (fields m ts) lo hi slot h = (_, h.0, refl)

    -- An index leads to a layout and to the value that shows it, or is out of range in both.
    picked :
        (ts : Layouts) (i lo hi slot : ℕ)
        → ShowsAll buffer vs lo hi slot ts
        → ((ltb i (count ts) ≡ false) × (pick i ts ≡ err out_of_range))
          ⊎ ((t : Layout) × (lo' : ℕ) × (hi' : ℕ) × (ltb i (count ts) ≡ true)
              × (pick i ts ≡ ok t)
              × Shows buffer vs lo' hi' (slot + i) t)
    unfolding pick ShowsAll
    picked nil i lo hi slot h = inl (ground arith, refl)
    picked (cons t ts) zero lo hi slot (mid, a, b, h, r) =
        let here : slot ≡ slot + 0 = omega arith in
        inr (t, lo, mid, ground arith, refl, subst (λ (k : ℕ). Shows buffer vs lo mid k t) here h)
    picked (cons t ts) (suc i) lo hi slot (mid, a, b, h, r) =
        let there : suc slot + i ≡ slot + suc i = omega arith in
        elim (picked ts i mid hi (suc slot) r) [
          | inl (n, e) ↦ inl (ground arith, e)
          | inr (t', lo', hi', n, e, h') ↦ inr (
            t',
            lo',
            hi',
            ground arith,
            e,
            subst (λ (k : ℕ). Shows buffer vs lo' hi' k t') there h',
          )
        ]

    module _ (read : Bytes → RosValue → Result Bytes) (text : Bytes → Layout → Result Bytes)
        (each : (path : Bytes) (t : Layout) (lo hi slot : ℕ) (v : RosValue)
          → Shows buffer vs lo hi slot t
          → get_elem? vs slot ≡ some v
          → read path v ≡ text path t) where
      object_text-fields_text :
          (ts : Layouts) (lo hi : ℕ) (path : Bytes) (m : Assoc ℕ)
          → ShowsAll buffer vs (lo + count ts) hi lo ts
          → object_text float_text double_text vs read
              (record { has_base = true; offset = lo; len = count ts })
              path
              m
            ≡ fields_text text ts path m
      unfolding object_text fields_text list_at deref
      object_text-fields_text ts lo hi path [] h = refl
      object_text-fields_text ts lo hi path ((name, i) ∷ m) h =
          elim (picked ts i (lo + count ts) hi lo h) [
            | inl (n, e) ↦ rw (n, e) refl
            | inr (t, lo', hi', n, e, h') ↦
                let (v, ev, et) = Shows-value t lo' hi' (lo + i) h' in
                rw
                  (
                    n,
                    e,
                    ev,
                    each (child_path path name) t lo' hi' (lo + i) v h' ev,
                    et,
                    object_text-fields_text ts lo hi path m h,
                  )
                  refl
          ]

      array_text-items_text :
          (ts : Layouts) (mid hi slot lo i total : ℕ) (path : Bytes)
          → ShowsAll buffer vs mid hi slot ts
          → slot ≡ lo + i
          → i + count ts ≡ total
          → array_text float_text double_text vs read
              (record { has_base = true; offset = lo; len = total })
              path
              (count ts)
              i
            ≡ items_text text path i ts
      unfolding array_text items_text ShowsAll list_at deref
      array_text-items_text nil mid hi slot lo i total path h es e = refl
      array_text-items_text (cons t ts) mid hi slot lo i total path (mid', a, b, h, r) es e =
          let n : ltb i total ≡ true = ground arith in
          let (v, ev, et) = Shows-value t mid mid' slot h in
          let ev' : get_elem? vs (lo + i) ≡ some v =
            subst (λ (k : ℕ). get_elem? vs k ≡ some v) es ev in
          rw
            (
              n,
              ev',
              each (item_path path i) t mid mid' slot v h ev,
              array_text-items_text ts mid' hi (suc slot) lo (suc i) total path r
                  (omega (arith, es)) (omega (arith, e)),
            )
            refl

    -- toString at a value that shows a layout.
    pub to_string-layout_text :
        (fuel : ℕ) (path : Bytes) (t : Layout) (lo hi slot : ℕ) (v : RosValue)
        → Shows buffer vs lo hi slot t
        → get_elem? vs slot ≡ some v
        → to_string float_text double_text fuel vs path v ≡ layout_text fuel path t
    unfolding to_string layout_text Shows
    to_string-layout_text zero path t lo hi slot v h e = refl
    to_string-layout_text (suc fuel) path (leaf t o) lo hi slot v h e =
        let same : primitive_info t o (some buffer) ≡ v = some-injective (sym h.1 ∙ e) in
        rw (sym same) refl
    to_string-layout_text (suc fuel) path (packed t o n) lo hi slot v h e =
        let same : primitive_array_info t o n (some buffer) ≡ v = some-injective (sym h.1 ∙ e) in
        rw (sym same) refl
    to_string-layout_text (suc fuel) path (items ts) lo hi slot v h e =
        let same = some-injective (sym h.0 ∙ e) in
        rw (sym same) (
          array_text-items_text (to_string float_text double_text fuel vs) (layout_text fuel)
            (to_string-layout_text fuel) ts (lo + count ts) hi lo lo 0 (count ts) path h.2
            (omega arith) (omega arith))
    to_string-layout_text (suc fuel) path (fields m ts) lo hi slot v h e =
        let same = some-injective (sym h.0 ∙ e) in
        rw (sym same) (
          object_text-fields_text (to_string float_text double_text fuel vs) (layout_text fuel)
            (to_string-layout_text fuel) ts lo hi path m h.2)
