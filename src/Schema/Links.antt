-- ===== src/Schema/Links.antt =====
-- BaseMsgDef's constructor and initializeFieldTypeDefinitions (lib/ros_msg_types.h) together: what
-- becomes of each parsed member.
use embag.Prelude.{
  ℕ, ◌≡◌, refl, true, false, none, some, List, [], ◌∷◌, ◌++◌, if◌then◌else◌, Bool-cases,
  Option-cases, ◌⊎◌, inl, inr, map,
}
use embag.Bytes.{Bytes}
use embag.Result.{Error, Result, ok, err, ◌>>=◌, unknown_embedded_type}
use embag.Assoc.{Assoc, find, contains}
use embag.RosType.{RosType, object, string, is_object, primitive_type_to_size, primitive_type_map}
use embag.RosType.Table.{IsScalar, primitive_type_map-IsScalar}
use embag.Schema.{
  FieldInfo, FieldDef, MemberInfo, field_info, constant_info, typed_field, cached_size, make_field,
  make_member, MemberDef, field_def, constant_def, BaseMsgDef, pick_definition, store_definition,
  set_type_definition, init_members, initialize_field_type_definitions, scope_of, make_base,
}

scalar-not_object : (t : RosType) → IsScalar t → is_object t ≡ false
unfolding primitive_type_to_size
scalar-not_object RosType.object (inl e) = cc
scalar-not_object RosType.object (inr (n, e)) = cc
scalar-not_object _ h = refl

module _ (definitions : Assoc BaseMsgDef) (scope : Bytes) where
  -- The name in the scope of the message, as in `geometry_msgs/Point`.
  abbrev scoped : Bytes → Bytes
  scoped type_name = scope ++ (b'/' ∷ type_name)

  -- The key of the definition that a type name stands for: the scoped name wins over the plain one.
  abbrev IsKey : Bytes → Bytes → Type 0
  IsKey type_name k =
      ((k ≡ scoped type_name) × (contains (scoped type_name) definitions ≡ true))
      ⊎ ((k ≡ type_name)
          × (contains (scoped type_name) definitions ≡ false)
          × (contains type_name definitions ≡ true))

  -- A field of a type of the type map has that type, with its size unless it is a string.
  abbrev IsPlainField : FieldInfo → MemberDef → Type 0
  IsPlainField i d =
      (t : RosType) × (n : ℕ) × (find i.type_name primitive_type_map ≡ some t)
      × (((t ≡ string) × (n ≡ 0)) ⊎ (primitive_type_to_size t ≡ ok n))
      × (d
          ≡ field_def
              (record { parsed_info = i; ros_type = t; type_size = n; type_definition = none }))

  -- Any other field is an object, with the key of its definition.
  abbrev IsLinkedField : FieldInfo → MemberDef → Type 0
  IsLinkedField i d =
      (k : Bytes) × (find i.type_name primitive_type_map ≡ none)
      × IsKey i.type_name k
      × (d
          ≡ field_def (record {
            parsed_info = i;
            ros_type = object;
            type_size = 0;
            type_definition = some k;
          }))

  abbrev IsLinked : MemberInfo → MemberDef → Type 0
  IsLinked (field_info i) d = IsPlainField i d ⊎ IsLinkedField i d
  IsLinked (constant_info c) d = d ≡ constant_def c

  abbrev AreLinked : List MemberInfo → List MemberDef → Type 0
  AreLinked [] [] = Unit
  AreLinked [] (d ∷ ds) = ⊥
  AreLinked (i ∷ is) [] = ⊥
  AreLinked (i ∷ is) (d ∷ ds) = IsLinked i d × AreLinked is ds

  -- The first field whose type is neither in the type map nor among the definitions.
  abbrev IsFirstUnknown : List MemberInfo → Error → Type 0
  IsFirstUnknown is e =
      (before : List MemberInfo) × (i : FieldInfo) × (rest : List MemberInfo) × (is
        ≡ before ++ (field_info i ∷ rest))
      × ((ds : List MemberDef) × AreLinked before ds)
      × (find i.type_name primitive_type_map ≡ none)
      × (contains (scoped i.type_name) definitions ≡ false)
      × (contains i.type_name definitions ≡ false)
      × (e ≡ unknown_embedded_type i.type_name)

  abbrev FieldOutcome : FieldInfo → Result FieldDef → Type 0
  FieldOutcome i (ok f) = IsLinked (field_info i) (field_def f)
  FieldOutcome i (err e) =
      (find i.type_name primitive_type_map ≡ none)
      × (contains (scoped i.type_name) definitions ≡ false)
      × (contains i.type_name definitions ≡ false)
      × (e ≡ unknown_embedded_type i.type_name)

  abbrev MembersOutcome : List MemberInfo → Result (List MemberDef) → Type 0
  MembersOutcome is (ok ds) = AreLinked is ds
  MembersOutcome is (err e) = IsFirstUnknown is e

  -- What the loop does with a field.
  link_field : FieldDef → Result FieldDef
  link_field f = if is_object f.ros_type then set_type_definition definitions scope f else ok f

  object-Outcome :
      (i : FieldInfo)
      → find i.type_name primitive_type_map ≡ none
      → FieldOutcome i (link_field (typed_field i none))
  unfolding link_field typed_field set_type_definition pick_definition store_definition
  object-Outcome i e = elim (Bool-cases (contains (scoped i.type_name) definitions)) [
    | inl s ↦ rw s (inr (scoped i.type_name, e, inl (refl, s), refl))
    | inr s ↦ rw s (elim (Bool-cases (contains i.type_name definitions)) [
      | inl p ↦ rw p (inr (i.type_name, e, inr (refl, s, p), refl))
      | inr p ↦ rw p (e, s, p, refl)
    ])
  ]

  cached_size-IsScalar :
      (t : RosType)
      → IsScalar t
      → ((t ≡ string) × (cached_size t ≡ 0)) ⊎ (primitive_type_to_size t ≡ ok (cached_size t))
  unfolding cached_size primitive_type_to_size
  cached_size-IsScalar RosType.string h = inl (refl, refl)
  cached_size-IsScalar RosType.object (inl e) = cc
  cached_size-IsScalar RosType.object (inr (n, e)) = cc
  cached_size-IsScalar RosType.array (inl e) = cc
  cached_size-IsScalar RosType.array (inr (n, e)) = cc
  cached_size-IsScalar RosType.primitive_array (inl e) = cc
  cached_size-IsScalar RosType.primitive_array (inr (n, e)) = cc
  cached_size-IsScalar _ h = inr refl

  scalar-Outcome :
      (i : FieldInfo) (t : RosType)
      → find i.type_name primitive_type_map ≡ some t
      → FieldOutcome i (link_field (typed_field i (some t)))
  unfolding link_field typed_field
  scalar-Outcome i t e =
      let scalar = primitive_type_map-IsScalar i.type_name t e in
      rw (scalar-not_object t scalar)
        (inl (t, cached_size t, e, cached_size-IsScalar t scalar, refl))

  link_field-Outcome : (i : FieldInfo) → FieldOutcome i (link_field (make_field i))
  unfolding make_field
  link_field-Outcome i = elim (Option-cases (find i.type_name primitive_type_map)) [
    | inl e ↦ rw e (object-Outcome i e)
    | inr (t, e) ↦ rw e (scalar-Outcome i t e)
  ]

  later_member :
      (i : MemberInfo) (d : MemberDef) (is : List MemberInfo) (r : Result (List MemberDef))
      → IsLinked i d
      → MembersOutcome is r
      → MembersOutcome (i ∷ is) (r >>= λ ds. ok (d ∷ ds))
  later_member i d is (ok ds) h k = (h, k)
  later_member i d is (err e) h (before, f, rest, es, (ds, hs), u, v, w, x) =
      (i ∷ before, f, rest, rw es refl, (d ∷ ds, (h, hs)), u, v, w, x)

  this_field :
      (i : FieldInfo) (is : List MemberInfo) (r : Result FieldDef) (rest : Result (List MemberDef))
      → FieldOutcome i r
      → MembersOutcome is rest
      → MembersOutcome (field_info i ∷ is) (r >>= λ f. rest >>= λ ds. ok (field_def f ∷ ds))
  this_field i is (ok f) rest h k = later_member (field_info i) (field_def f) is rest h k
  this_field i is (err e) rest (u, v, w, x) k = ([], i, is, refl, ([], tt), u, v, w, x)

  init_members-Outcome :
      (is : List MemberInfo)
      → MembersOutcome is (init_members definitions scope (map make_member is))
  unfolding init_members make_member link_field
  init_members-Outcome [] = tt
  init_members-Outcome (constant_info c ∷ is) =
      later_member (constant_info c) (constant_def c) is _ refl (init_members-Outcome is)
  init_members-Outcome (field_info i ∷ is) =
      this_field i is _ _ (link_field-Outcome i) (init_members-Outcome is)

-- With the members the definition's name and index map are those of its constructor.
abbrev pub BaseOutcome : Assoc BaseMsgDef → List MemberInfo → Bytes → Result BaseMsgDef → Type 0
BaseOutcome definitions is name (ok d) =
    AreLinked definitions (scope_of name) is d.members
    × (d.name ≡ name)
    × (d.field_indexes ≡ (make_base is name).field_indexes)
BaseOutcome definitions is name (err e) = IsFirstUnknown definitions (scope_of name) is e

base-Outcome :
    (definitions : Assoc BaseMsgDef) (is : List MemberInfo) (name : Bytes)
    (r : Result (List MemberDef))
    → MembersOutcome definitions (scope_of name) is r
    → BaseOutcome definitions is name (r >>= λ ms. ok (record (make_base is name) { members = ms }))
unfolding make_base
base-Outcome definitions is name (ok ms) h = (h, refl, refl)
base-Outcome definitions is name (err e) h = h

-- Of a parsed definition, initializeFieldTypeDefinitions keeps the order of the members, the
-- constants, the name and the index map. A field whose type name is in the type map has that type
-- and its size, and no pointer. Any other field is an object, and its pointer is to the definition
-- named `scope/type` if the map holds it, otherwise to the one named `type`. An error is thrown
-- for just the first field whose type is in neither, with its type's name.
pub initialize_field_type_definitions-Outcome :
    (definitions : Assoc BaseMsgDef) (is : List MemberInfo) (name : Bytes)
    → BaseOutcome definitions is name
        (initialize_field_type_definitions definitions (make_base is name))
unfolding initialize_field_type_definitions make_base
initialize_field_type_definitions-Outcome definitions is name =
    base-Outcome definitions is name _ (init_members-Outcome definitions (scope_of name) is)
