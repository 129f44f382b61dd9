-- ===== src/Value/Visit.antt =====
-- The iterators of RosValue (lib/ros_value.h, lib/ros_value.cc).
use embag.Prelude.{
  ℕ, zero, suc, ◌+◌, ◌≡◌, Bool, true, false, List, [], ◌∷◌, ◌==◌, if◌then◌else◌, arith, Bool-cases,
  inl, inr,
}
use embag.Bytes.{Bytes}
use embag.Result.{Result, ok, err, ◌>>=◌, guard, ◌>>◌, stuck, undefined, not_object, not_container}
use embag.Assoc.{Assoc}
use embag.Value.{
  RosValue, object_info, array_info, primitive_array_info, primitive_info, Pointer, get_type,
  is_container, list_at, value_at, size, values_loop, get_values,
}

-- const_iterator over the values.
pub record ValueIterator : Type 0 where
  pub value : RosValue
  pub index : ℕ

unfoldable pub make_value_iterator : RosValue → ℕ → Result ValueIterator
make_value_iterator v i = do
  guard (is_container (get_type v)) not_container
  ok (record { value = v; index = i })

unfoldable pub begin_values : RosValue → Result ValueIterator
unfolding make_value_iterator
begin_values v = make_value_iterator v 0

unfoldable pub end_values : RosValue → Result ValueIterator
unfolding make_value_iterator
end_values v = do n ← size v; make_value_iterator v n

-- operator== and operator++.
unfoldable pub value_iterator_eq : ValueIterator → ValueIterator → Bool
value_iterator_eq a b = a.index == b.index

unfoldable pub next_value : ValueIterator → ValueIterator
next_value it = record it { index = suc it.index }

unfoldable pub current_value : ValueIterator → Result Pointer
current_value it = value_at it.value it.index

-- const_iterator over the keys and the items of an object: the fields from the position on.
pub record ItemIterator : Type 0 where
  pub value : RosValue
  pub fields : Assoc ℕ

unfoldable pub begin_items : RosValue → Result ItemIterator
begin_items (object_info l m) = ok (record { value = object_info l m; fields = m })
begin_items v = err not_object

unfoldable pub end_items : RosValue → Result ItemIterator
end_items (object_info l m) = ok (record { value = object_info l m; fields = [] })
end_items v = err not_object

-- operator* for the keys, and for the items. The end has no element.
unfoldable pub current_key : ItemIterator → Result Bytes
current_key it = elim it.fields [ [] ↦ err undefined | f ∷ fs ↦ ok f.0 ]

unfoldable pub item_of : Bytes → ℕ → RosValue → Result (Bytes × Pointer)
item_of name i (object_info l m) = do p ← list_at l i; ok (name, p)
item_of name i v = err undefined

unfoldable pub current_item : ItemIterator → Result (Bytes × Pointer)
unfolding item_of
current_item it = elim it.fields [ [] ↦ err undefined | f ∷ fs ↦ item_of f.0 f.1 it.value ]

-- for (it = begin; it != end; ++it), with `fuel` rounds at most.
unfoldable pub visit : ℕ → ValueIterator → ValueIterator → Result (List Pointer)
visit zero it end = if value_iterator_eq it end then ok [] else err stuck
visit (suc fuel) it end = elim (value_iterator_eq it end) [
  | true ↦ ok []
  | false ↦ do p ← current_value it; rest ← visit fuel (next_value it) end; ok (p ∷ rest)
]

-- A loop from beginValues to endValues, with as many rounds as size says.
unfoldable pub visit_all : RosValue → Result (List Pointer)
unfolding begin_values end_values
visit_all v = do it ← begin_values v; end ← end_values v; visit end.index it end

visit-values_loop :
    (n i e : ℕ) (v : RosValue)
    → e ≡ i + n
    → visit n (record { value = v; index = i }) (record { value = v; index = e })
      ≡ values_loop n i v
unfolding visit values_loop value_iterator_eq next_value current_value
visit-values_loop zero i e v h = let at_end : (i == e) ≡ true = ground arith in rw at_end
visit-values_loop (suc n) i e v h =
    let before_end : (i == e) ≡ false = ground arith in
    rw (before_end, visit, visit-values_loop n (suc i) e v (omega arith))

-- A loop from beginValues to endValues visits what getValues returns, and fails where it fails, for
-- a value of every kind.
pub visit_all-get_values : (v : RosValue) → visit_all v ≡ get_values v
unfolding visit_all get_values
visit_all-get_values (primitive_info t o b) = elim (Bool-cases (is_container t)) [
  | inl e ↦ rw e
  | inr e ↦ rw e
]
visit_all-get_values (primitive_array_info e o n b) =
    visit-values_loop n 0 n (primitive_array_info e o n b) (omega arith)
visit_all-get_values (array_info l) = visit-values_loop l.len 0 l.len (array_info l) (omega arith)
visit_all-get_values (object_info l m) =
    visit-values_loop l.len 0 l.len (object_info l m) (omega arith)
