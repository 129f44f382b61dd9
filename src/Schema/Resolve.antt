-- ===== src/Schema/Resolve.antt =====
-- After the constructor of MsgDef no field refers to a definition that is missing
-- (lib/ros_msg_types.h).
use embag.Prelude.{
  ◌≡◌, refl, sym, ◌∙◌, subst, true, Option, none, some, List, [], ◌∷◌, ◌++◌, if◌then◌else◌,
  Bool-cases, inl, inr, All, map,
}
use embag.Bytes.{Bytes}
use embag.Result.{ok, guard, Ensures, >>=-Ensures, Ensures-ok, Ensures-trivial, not_object_type}
use embag.Assoc.{Assoc, find, contains, contains-cons, emplace-All}
use embag.RosType.{RosType, is_object, primitive_type_map}
use embag.Schema.{
  FieldInfo, FieldDef, MemberInfo, field_info, constant_info, EmbeddedInfo, typed_field, make_field,
  make_member, MemberDef, field_def, constant_def, BaseMsgDef, MsgInfo, MsgDef, pick_definition,
  store_definition, set_type_definition, init_members, initialize_field_type_definitions,
  init_embedded, embed_all, make_base, make_msg_def,
}

-- A field of type object has a pointer to a definition that the map holds.
abbrev pub IsResolvedField : Assoc BaseMsgDef → FieldDef → Type 0
IsResolvedField m f =
    is_object f.ros_type ≡ true → (k : Bytes) × (f.type_definition ≡ some k) × (contains k m ≡ true)

abbrev pub IsResolvedMember : Assoc BaseMsgDef → MemberDef → Type 0
IsResolvedMember m (field_def f) = IsResolvedField m f
IsResolvedMember m (constant_def c) = Unit

abbrev pub IsResolved : Assoc BaseMsgDef → BaseMsgDef → Type 0
IsResolved m d = All (IsResolvedMember m) d.members

-- A pointer that is set points into the map.
abbrev PointsInto : Assoc BaseMsgDef → Option Bytes → Type 0
PointsInto m none = Unit
PointsInto m (some k) = contains k m ≡ true

pick_definition-PointsInto :
    (m : Assoc BaseMsgDef) (scope type_name : Bytes) (before : Option Bytes)
    → PointsInto m before
    → PointsInto m (pick_definition m scope type_name before)
unfolding pick_definition
pick_definition-PointsInto m scope type_name before h =
    elim (Bool-cases (contains (scope ++ (b'/' ∷ type_name)) m)) [
      | inl e ↦ rw e e
      | inr e ↦ rw e (elim (Bool-cases (contains type_name m)) [ inl p ↦ rw p p | inr p ↦ rw p h ])
    ]

abbrev FieldPointsInto : Assoc BaseMsgDef → MemberDef → Type 0
FieldPointsInto m (field_def f) = PointsInto m f.type_definition
FieldPointsInto m (constant_def c) = Unit

store_definition-IsResolved :
    (m : Assoc BaseMsgDef) (f : FieldDef) (o : Option Bytes)
    → PointsInto m o
    → Ensures (IsResolvedField m) (store_definition f o)
unfolding store_definition
store_definition-IsResolved m f none h = tt
store_definition-IsResolved m f (some k) h = λ _. (k, refl, h)

set_type_definition-IsResolved :
    (m : Assoc BaseMsgDef) (scope : Bytes) (f : FieldDef)
    → PointsInto m f.type_definition
    → Ensures (IsResolvedField m) (set_type_definition m scope f)
unfolding set_type_definition
set_type_definition-IsResolved m scope f h =
    >>=-Ensures (λ _. Unit {0}) (IsResolvedField m) (guard (is_object f.ros_type) not_object_type) _
      (Ensures-trivial (guard (is_object f.ros_type) not_object_type))
      λ _ _.
        store_definition-IsResolved m f _
          (pick_definition-PointsInto m scope f.parsed_info.type_name f.type_definition h)

init_field-IsResolved :
    (m : Assoc BaseMsgDef) (scope : Bytes) (f : FieldDef)
    → PointsInto m f.type_definition
    → Ensures
        (IsResolvedField m)
        (if is_object f.ros_type then set_type_definition m scope f else ok f)
init_field-IsResolved m scope f h = elim (Bool-cases (is_object f.ros_type)) [
  | inl p ↦ rw p (set_type_definition-IsResolved m scope f h)
  | inr p ↦ rw p (λ q. cc)
]

init_members-IsResolved :
    (m : Assoc BaseMsgDef) (scope : Bytes) (ms : List MemberDef)
    → All (FieldPointsInto m) ms
    → Ensures (All (IsResolvedMember m)) (init_members m scope ms)
unfolding init_members
init_members-IsResolved m scope [] h = tt
init_members-IsResolved m scope (constant_def c ∷ ms) h =
    >>=-Ensures (All (IsResolvedMember m)) (All (IsResolvedMember m)) (init_members m scope ms) _
      (init_members-IsResolved m scope ms h.1) λ rest r. (tt, r)
init_members-IsResolved m scope (field_def f ∷ ms) h =
    >>=-Ensures (IsResolvedField m) (All (IsResolvedMember m)) _ _
      (init_field-IsResolved m scope f h.0)
      λ f' hf.
        >>=-Ensures (All (IsResolvedMember m)) (All (IsResolvedMember m)) (init_members m scope ms)
          _ (init_members-IsResolved m scope ms h.1) λ rest r. (hf, r)

init_base-IsResolved :
    (m : Assoc BaseMsgDef) (d : BaseMsgDef)
    → All (FieldPointsInto m) d.members
    → Ensures (IsResolved m) (initialize_field_type_definitions m d)
unfolding initialize_field_type_definitions
init_base-IsResolved m d h =
    >>=-Ensures (All (IsResolvedMember m)) (IsResolved m) (init_members m d.scope d.members) _
      (init_members-IsResolved m d.scope d.members h) λ ms r. r

-- The same keys.
abbrev SameKeys : Assoc BaseMsgDef → Assoc BaseMsgDef → Type 0
SameKeys m m' = (k : Bytes) → contains k m ≡ contains k m'

abbrev Built : Assoc BaseMsgDef → Assoc BaseMsgDef → Assoc BaseMsgDef → Type 0
Built m ds ds' = All (λ e. IsResolved m e.1) ds' × SameKeys ds ds'

Fresh : Assoc BaseMsgDef → BaseMsgDef → Type 0
Fresh m d = All (FieldPointsInto m) d.members

init_embedded-Built :
    (m ds : Assoc BaseMsgDef)
    → All (λ e. Fresh m e.1) ds
    → Ensures (Built m ds) (init_embedded m ds)
unfolding init_embedded Fresh
init_embedded-Built m [] h = (tt, λ k. refl)
init_embedded-Built m ((k, d) ∷ ds) h =
    >>=-Ensures (IsResolved m) (Built m ((k, d) ∷ ds)) _ _ (init_base-IsResolved m d h.0) λ d' hd.
      >>=-Ensures (Built m ds) (Built m ((k, d) ∷ ds)) (init_embedded m ds) _
        (init_embedded-Built m ds h.1)
        λ ds' hs. ((hd, hs.0), λ j. contains-cons j k d d' ds ds' (hs.1 j))

typed_field-unset : (i : FieldInfo) (o : Option RosType) → (typed_field i o).type_definition ≡ none
unfolding typed_field
typed_field-unset i none = refl
typed_field-unset i (some t) = refl

make_field-unset :
    (m : Assoc BaseMsgDef) (i : FieldInfo) → PointsInto m (make_field i).type_definition
unfolding make_field
make_field-unset m i =
    subst (PointsInto m) (sym (typed_field-unset i (find i.type_name primitive_type_map))) tt

make_members-Fresh :
    (m : Assoc BaseMsgDef) (is : List MemberInfo) → All (FieldPointsInto m) (map make_member is)
unfolding make_member
make_members-Fresh m [] = tt
make_members-Fresh m (field_info i ∷ is) = (make_field-unset m i, make_members-Fresh m is)
make_members-Fresh m (constant_info c ∷ is) = (tt, make_members-Fresh m is)

make_base-Fresh :
    (m : Assoc BaseMsgDef) (is : List MemberInfo) (name : Bytes) → Fresh m (make_base is name)
unfolding Fresh make_base
make_base-Fresh m is name = make_members-Fresh m is

embed_all-Fresh :
    (m : Assoc BaseMsgDef) (es : List EmbeddedInfo) (ds : Assoc BaseMsgDef)
    → All (λ e. Fresh m e.1) ds
    → All (λ e. Fresh m e.1) (embed_all es ds)
unfolding embed_all
embed_all-Fresh m [] ds h = h
embed_all-Fresh m (e ∷ es) ds h =
    embed_all-Fresh m es _
      (emplace-All (Fresh m) e.type_name _ ds (make_base-Fresh m e.members e.type_name) h)

IsResolved-keys :
    (m m' : Assoc BaseMsgDef)
    → SameKeys m m'
    → (ms : List MemberDef) → All (IsResolvedMember m) ms
    → All (IsResolvedMember m') ms
IsResolved-keys m m' same [] h = tt
IsResolved-keys m m' same (constant_def c ∷ ms) h = (tt, IsResolved-keys m m' same ms h.1)
IsResolved-keys m m' same (field_def f ∷ ms) h =
    (λ p. let (k, e, c) = h.0 p in (k, e, sym (same k) ∙ c), IsResolved-keys m m' same ms h.1)

all_keys :
    (m m' : Assoc BaseMsgDef)
    → SameKeys m m'
    → (ds : Assoc BaseMsgDef) → All (λ e. IsResolved m e.1) ds
    → All (λ e. IsResolved m' e.1) ds
all_keys m m' same [] h = tt
all_keys m m' same ((k, d) ∷ ds) h =
    (IsResolved-keys m m' same d.members h.0, all_keys m m' same ds h.1)

-- The message definition and each of its embedded definitions are resolved against the map.
abbrev pub AllResolved : MsgDef → Type 0
AllResolved d =
    IsResolved d.embedded_definition_map d.base
    × All (λ e. IsResolved d.embedded_definition_map e.1) d.embedded_definition_map

make_msg_def-Ensures :
    (info : MsgInfo) (name : Bytes) → Ensures AllResolved (make_msg_def info name)
unfolding make_msg_def
make_msg_def-Ensures info name =
    let m = embed_all info.embedded_definitions [] in
    >>=-Ensures (IsResolved m) AllResolved _ _
      (init_base-IsResolved m (make_base info.members name)
        (unfold Fresh in make_base-Fresh m info.members name))
      λ base hb.
        >>=-Ensures (Built m m) AllResolved (init_embedded m m) _
          (init_embedded-Built m m (embed_all-Fresh m info.embedded_definitions [] tt))
          λ ds hs. (IsResolved-keys m ds hs.1 base.members hb, all_keys m ds hs.1 ds hs.0)

-- Where the constructor of MsgDef returns, each field of type object, of the message and of every
-- embedded definition, has a pointer to a definition that the message's map holds: typeDefinition
-- never follows a null pointer.
pub make_msg_def-AllResolved :
    (info : MsgInfo) (name : Bytes) {d : MsgDef} → make_msg_def info name ≡ ok d → AllResolved d
make_msg_def-AllResolved info name e =
    Ensures-ok AllResolved (make_msg_def info name) (make_msg_def-Ensures info name) e
