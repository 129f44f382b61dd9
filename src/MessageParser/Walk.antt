-- ===== src/MessageParser/Walk.antt =====
-- RosValue::Pointer's operator[] (lib/ros_value.h, lib/ros_value.cc) on the values that
-- MessageParser::parse made.
use embag.Prelude.{
  ℕ, zero, suc, ◌+◌, ◌*◌, ◌%◌, ◌^◌, ◌≡◌, refl, subst, true, false, some, List, [], ◌∷◌, arith,
  if◌then◌else◌, ltb, length, Bool-cases, inl, inr,
}
use embag.Bytes.{Bytes}
use embag.Result.{Result, ok, err, ◌>>=◌, out_of_range, not_object, not_container, bad_constructor}
use embag.Assoc.{Assoc, find}
use embag.Assoc
use embag.RosType.{RosType, primitive_type_to_size}
use embag.Schema.{MsgDef}
use embag.Value.{
  RosValue, primitive_info, object_info, Pointer, own_value, in_vector, null_base, deref, get,
  value_at, list_at, make_primitive_at, is_container, pointer_get, pointer_at,
}
use embag.MessageParser.{parse}
use embag.MessageParser.Layout.{
  Layout, leaf, packed, items, fields, Layouts, nil, cons, count, Shows, ShowsAll,
}
use embag.MessageParser.Refines.{IsParsable, layout_message, ParsesAs, parse-layout_message}

-- One step of a path: by the name of a field, or by an index.
pub data Step : Type 0 where
  field : Bytes → Step
  index : ℕ → Step

-- The steps of a path on the pointers of the library, one after the other.
unfoldable pub follow : List RosValue → List Step → Pointer → Result Pointer
follow values [] p = ok p
follow values (field key ∷ path) p = do p' ← pointer_get values key p; follow values path p'
follow values (index i ∷ path) p = do p' ← pointer_at values i p; follow values path p'

-- The same steps on a layout.
unfoldable pub pick : ℕ → Layouts → Result Layout
pick i nil = err out_of_range
pick zero (cons t ts) = ok t
pick (suc i) (cons t ts) = pick i ts

unfoldable pub sub_layout : Step → Layout → Result Layout
sub_layout (field key) (fields m ts) = do i ← Assoc.at key m; pick i ts
sub_layout (field key) t = err not_object
sub_layout (index i) (fields m ts) = pick i ts
sub_layout (index i) (items ts) = pick i ts
sub_layout (index i) (packed e o n) = do
  size ← primitive_type_to_size e
  (if is_container e then err bad_constructor else ok (leaf e ((o + i * size) % 2 ^ 64)))
sub_layout (index i) (leaf e o) = err not_container

unfoldable pub sub_path : List Step → Layout → Result Layout
sub_path [] t = ok t
sub_path (s ∷ path) t = do t' ← sub_layout s t; sub_path path t'

-- What a pointer leads to shows a layout.
abbrev pub PointsTo : Bytes → List RosValue → Pointer → Layout → Type 0
PointsTo buffer vs (in_vector slot) t = (lo : ℕ) × (hi : ℕ) × Shows buffer vs lo hi slot t
PointsTo buffer vs (own_value v) t =
    (e : RosType) × (o : ℕ) × (t ≡ leaf e o) × (v ≡ primitive_info e o (some buffer))
PointsTo buffer vs (null_base i) t = ⊥

abbrev pub LeadsTo : Bytes → List RosValue → Result Pointer → Result Layout → Type 0
LeadsTo buffer vs r (err e) = r ≡ err e
LeadsTo buffer vs r (ok t) = (p : Pointer) × (r ≡ ok p) × PointsTo buffer vs p t

>>=-ok : (r : Result Pointer) → (r >>= λ p. ok p) ≡ r
>>=-ok (err e) = refl
>>=-ok (ok p) = refl

module _ (buffer : Bytes) (vs : List RosValue) where
  pick-Shows :
      (ts : Layouts) (i lo hi slot : ℕ)
      → ShowsAll buffer vs lo hi slot ts
      → LeadsTo buffer vs
          (if ltb i (count ts) then ok (in_vector (slot + i)) else err out_of_range)
          (pick i ts)
  unfolding ShowsAll pick
  pick-Shows nil i lo hi slot h =
      let none_left : ltb i 0 ≡ false = ground arith in rw none_left refl
  pick-Shows (cons t ts) zero lo hi slot (mid, a, b, h, r) =
      let first : ltb 0 (suc (count ts)) ≡ true = ground arith in
      let here : slot ≡ slot + 0 = omega arith in
      rw first (
        in_vector (slot + 0),
        refl,
        (lo, mid, subst (λ (k : ℕ). Shows buffer vs lo mid k t) here h),
      )
  pick-Shows (cons t ts) (suc i) lo hi slot (mid, a, b, h, r) =
      let later : ltb (suc i) (suc (count ts)) ≡ ltb i (count ts) = ground arith in
      let there : suc slot + i ≡ slot + suc i = omega arith in
      rw later (
        subst
          (λ (k : ℕ).
            LeadsTo buffer vs (if ltb i (count ts) then ok (in_vector k) else err out_of_range)
              (pick i ts))
          there (pick-Shows ts i mid hi (suc slot) r))

  -- The step on the children that stand from `lo` on.
  list_at-LeadsTo :
      (ts : Layouts) (i lo from hi : ℕ)
      → ShowsAll buffer vs lo hi from ts
      → LeadsTo buffer vs
          (list_at (record { has_base = true; offset = from; len = count ts }) i >>= λ p. ok p)
          (pick i ts)
  unfolding list_at
  list_at-LeadsTo ts i lo from hi h = elim (Bool-cases (ltb i (count ts))) [
    | inl e ↦ rw e (rw e at (pick-Shows ts i lo hi from h))
    | inr e ↦ rw e (rw e at (pick-Shows ts i lo hi from h))
  ]

  key-LeadsTo :
      (m : Assoc ℕ) (ts : Layouts) (at : Result ℕ) (lo hi : ℕ)
      → ShowsAll buffer vs (lo + count ts) hi lo ts
      → LeadsTo buffer vs
          ((at >>= λ i.
              value_at (object_info (record { has_base = true; offset = lo; len = count ts }) m) i)
            >>= λ p. ok p)
          (at >>= λ i. pick i ts)
  unfolding value_at
  key-LeadsTo m ts (err e) lo hi h = refl
  key-LeadsTo m ts (ok i) lo hi h = list_at-LeadsTo ts i (lo + count ts) lo hi h

  -- An element of a primitive array is a value of its own.
  element-LeadsTo :
      (e : RosType) (o i : ℕ) (size : Result ℕ)
      → LeadsTo buffer vs
          ((size >>= λ s.
              make_primitive_at e (some buffer) ((o + i * s) % 2 ^ 64) >>= λ v. ok (own_value v))
            >>= λ p. ok p)
          (size >>= λ s.
            if is_container e then err bad_constructor else ok (leaf e ((o + i * s) % 2 ^ 64)))
  unfolding make_primitive_at
  element-LeadsTo e o i (err x) = refl
  element-LeadsTo e o i (ok s) = elim (Bool-cases (is_container e)) [
    | inl h ↦ rw h refl
    | inr h ↦ rw h (
      own_value (primitive_info e ((o + i * s) % 2 ^ 64) (some buffer)),
      refl,
      (e, (o + i * s) % 2 ^ 64, refl, refl),
    )
  ]

  sub_layout-LeadsTo :
      (s : Step) (p : Pointer) (t : Layout)
      → PointsTo buffer vs p t
      → LeadsTo buffer vs (follow vs (s ∷ []) p) (sub_layout s t)
  unfolding follow sub_layout pointer_get pointer_at deref get value_at make_primitive_at Shows
  sub_layout-LeadsTo (field key) (in_vector slot) (leaf e o) (lo, hi, h) = rw h.1 refl
  sub_layout-LeadsTo (field key) (in_vector slot) (packed e o n) (lo, hi, h) = rw h.1 refl
  sub_layout-LeadsTo (field key) (in_vector slot) (items ts) (lo, hi, h) = rw h.0 refl
  sub_layout-LeadsTo (field key) (in_vector slot) (fields m ts) (lo, hi, h) =
      rw h.0 (key-LeadsTo m ts (Assoc.at key m) lo hi h.2)
  sub_layout-LeadsTo (index i) (in_vector slot) (leaf e o) (lo, hi, h) = rw h.1 refl
  sub_layout-LeadsTo (index i) (in_vector slot) (packed e o n) (lo, hi, h) =
      rw h.1 (element-LeadsTo e o i (primitive_type_to_size e))
  sub_layout-LeadsTo (index i) (in_vector slot) (items ts) (lo, hi, h) =
      rw h.0 (list_at-LeadsTo ts i (lo + count ts) lo hi h.2)
  sub_layout-LeadsTo (index i) (in_vector slot) (fields m ts) (lo, hi, h) =
      rw h.0 (list_at-LeadsTo ts i (lo + count ts) lo hi h.2)
  sub_layout-LeadsTo (field key) (own_value v) t (e, o, et, ev) = rw (et, ev) refl
  sub_layout-LeadsTo (index i) (own_value v) t (e, o, et, ev) = rw (et, ev) refl
  sub_layout-LeadsTo s (null_base j) t h = absurd h

  then-LeadsTo :
      (r : Result Pointer) (t : Result Layout) (next : Pointer → Result Pointer)
      (below : Layout → Result Layout)
      → LeadsTo buffer vs r t
      → ((p : Pointer) (t' : Layout)
          → PointsTo buffer vs p t'
          → LeadsTo buffer vs (next p) (below t'))
      → LeadsTo buffer vs (r >>= next) (t >>= below)
  then-LeadsTo r (err e) next below h f = rw h refl
  then-LeadsTo r (ok t) next below (p, e, h) f = rw e (f p t h)

  sub_path-LeadsTo :
      (path : List Step) (p : Pointer) (t : Layout)
      → PointsTo buffer vs p t
      → LeadsTo buffer vs (follow vs path p) (sub_path path t)
  unfolding follow sub_path
  sub_path-LeadsTo [] p t h = (p, refl, h)
  sub_path-LeadsTo (field key ∷ path) p t h =
      then-LeadsTo _ (sub_layout (field key) t) (follow vs path) (sub_path path)
        (rw (>>=-ok (pointer_get vs key p)) at (sub_layout-LeadsTo (field key) p t h))
        (sub_path-LeadsTo path)
  sub_path-LeadsTo (index i ∷ path) p t h =
      then-LeadsTo _ (sub_layout (index i) t) (follow vs path) (sub_path path)
        (rw (>>=-ok (pointer_at vs i p)) at (sub_layout-LeadsTo (index i) p t h))
        (sub_path-LeadsTo path)

-- Where every field is of an object type that the definitions hold or of no container type, and
-- the layout of the message can be read, parse returns a pointer to position 0 of a vector, and
-- following a path of field names and indices from it by operator[] fails with the error that the
-- same path through the layout gives, or leads to a value that shows the part of the layout at the
-- end of the path.
pub follow-sub_path :
    (fuel : ℕ) (d : MsgDef) (buffer : Bytes) (offset : ℕ) (path : List Step) (t : Layout) (o : ℕ)
    → IsParsable d
    → layout_message fuel d buffer offset ≡ ok (t, o)
    → (vs : List RosValue) × (parse fuel d buffer offset ≡ ok (in_vector 0, vs))
      × LeadsTo buffer vs (follow vs path (in_vector 0)) (sub_path path t)
follow-sub_path fuel d buffer offset path t o h e =
    let (vs, returned, shown) =
      subst (λ (r : Result (Layout × ℕ)). ParsesAs buffer r (parse fuel d buffer offset)) e
        (parse-layout_message fuel d buffer offset h) in
    (vs, returned, sub_path-LeadsTo buffer vs path (in_vector 0) t (1, length vs, shown))
