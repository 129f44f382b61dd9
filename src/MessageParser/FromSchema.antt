-- ===== src/MessageParser/FromSchema.antt =====
-- The definitions that the constructor of MsgDef (lib/ros_msg_types.h) hands to MessageParser::parse
-- (lib/message_parser.cc).
use embag.Prelude.{
  ◌≡◌, refl, Bool, true, false, Option, none, some, List, [], ◌∷◌, if◌then◌else◌, ◌⊎◌, inl, inr,
  Bool-cases, All, map,
}
use embag.Bytes.{Bytes}
use embag.Result.{ok, Ensures, >>=-Ensures, Ensures-ok}
use embag.Assoc.{Assoc, find, contains, emplace-All}
use embag.RosType.{RosType, is_object, primitive_type_map, primitive_type_to_size}
use embag.RosType.Table.{IsScalar, primitive_type_map-IsScalar}
use embag.Schema.{
  FieldInfo, FieldDef, MemberInfo, field_info, constant_info, EmbeddedInfo, typed_field, make_field,
  make_member, MemberDef, field_def, constant_def, BaseMsgDef, MsgInfo, MsgDef, store_definition,
  set_type_definition, init_members, initialize_field_type_definitions, init_embedded, embed_all,
  make_base, make_msg_def,
}
use embag.Schema.Resolve.{IsResolved, IsResolvedMember, make_msg_def-AllResolved}
use embag.Value.{is_container}
use embag.MessageParser.Arrays.{IsParsableMember}
use embag.MessageParser.Emplace.{IsParsableBase}
use embag.MessageParser.Refines.{IsParsable}

-- A field is an object, or of no container type.
abbrev IsTypedField : FieldDef → Type 0
IsTypedField f = (is_object f.ros_type ≡ true) ⊎ (is_container f.ros_type ≡ false)

abbrev IsTypedMember : MemberDef → Type 0
IsTypedMember (field_def f) = IsTypedField f
IsTypedMember (constant_def c) = Unit

abbrev IsTyped : BaseMsgDef → Type 0
IsTyped d = All IsTypedMember d.members

scalar-not_container : (t : RosType) → IsScalar t → is_container t ≡ false
unfolding primitive_type_to_size
scalar-not_container RosType.object (inl e) = cc
scalar-not_container RosType.object (inr (n, e)) = cc
scalar-not_container RosType.array (inl e) = cc
scalar-not_container RosType.array (inr (n, e)) = cc
scalar-not_container RosType.primitive_array (inl e) = cc
scalar-not_container RosType.primitive_array (inr (n, e)) = cc
scalar-not_container _ h = refl

typed_field-IsTypedField :
    (i : FieldInfo) (o : Option RosType)
    → ((t : RosType) → o ≡ some t → IsScalar t)
    → IsTypedField (typed_field i o)
unfolding typed_field
typed_field-IsTypedField i none h = inl refl
typed_field-IsTypedField i (some t) h = inr (scalar-not_container t (h t refl))

members-IsTyped : (is : List MemberInfo) → All IsTypedMember (map make_member is)
unfolding make_member make_field
members-IsTyped [] = tt
members-IsTyped (constant_info c ∷ is) = (tt, members-IsTyped is)
members-IsTyped (field_info i ∷ is) = (
  typed_field-IsTypedField i (find i.type_name primitive_type_map)
      (primitive_type_map-IsScalar i.type_name),
  members-IsTyped is,
)

embed_all-IsTyped :
    (es : List EmbeddedInfo) (m : Assoc BaseMsgDef)
    → All (λ e. IsTyped e.1) m
    → All (λ e. IsTyped e.1) (embed_all es m)
unfolding embed_all make_base
embed_all-IsTyped [] m h = h
embed_all-IsTyped (e ∷ es) m h = embed_all-IsTyped es _ (
    emplace-All IsTyped e.type_name (make_base e.members e.type_name) m (members-IsTyped e.members)
      h)

store_definition-IsTyped :
    (f : FieldDef) (o : Option Bytes) → IsTypedField f → Ensures IsTypedField (store_definition f o)
unfolding store_definition
store_definition-IsTyped f none h = tt
store_definition-IsTyped f (some k) h = h

init_field-IsTyped :
    (m : Assoc BaseMsgDef) (scope : Bytes) (f : FieldDef)
    → IsTypedField f
    → Ensures IsTypedField (if is_object f.ros_type then set_type_definition m scope f else ok f)
unfolding set_type_definition
init_field-IsTyped m scope f h = elim (Bool-cases (is_object f.ros_type)) [
  | inl e ↦ rw e (store_definition-IsTyped f _ h)
  | inr e ↦ rw e h
]

init_members-IsTyped :
    (m : Assoc BaseMsgDef) (scope : Bytes) (ms : List MemberDef)
    → All IsTypedMember ms
    → Ensures (All IsTypedMember) (init_members m scope ms)
unfolding init_members
init_members-IsTyped m scope [] h = tt
init_members-IsTyped m scope (constant_def c ∷ ms) h =
    >>=-Ensures (All IsTypedMember) (All IsTypedMember) (init_members m scope ms) _
      (init_members-IsTyped m scope ms h.1) (λ rest r. (tt, r))
init_members-IsTyped m scope (field_def f ∷ ms) h =
    >>=-Ensures IsTypedField (All IsTypedMember) _ _ (init_field-IsTyped m scope f h.0) λ f' hf.
      >>=-Ensures (All IsTypedMember) (All IsTypedMember) (init_members m scope ms) _
        (init_members-IsTyped m scope ms h.1) (λ rest r. (hf, r))

init_base-IsTyped :
    (m : Assoc BaseMsgDef) (d : BaseMsgDef)
    → IsTyped d
    → Ensures IsTyped (initialize_field_type_definitions m d)
unfolding initialize_field_type_definitions
init_base-IsTyped m d h =
    >>=-Ensures (All IsTypedMember) IsTyped (init_members m d.scope d.members) _
      (init_members-IsTyped m d.scope d.members h) (λ ms r. r)

init_embedded-IsTyped :
    (m ds : Assoc BaseMsgDef)
    → All (λ e. IsTyped e.1) ds
    → Ensures (λ ds'. All (λ e. IsTyped e.1) ds') (init_embedded m ds)
unfolding init_embedded
init_embedded-IsTyped m [] h = tt
init_embedded-IsTyped m ((k, d) ∷ ds) h =
    >>=-Ensures IsTyped (λ ds'. All (λ e. IsTyped e.1) ds') _ _ (init_base-IsTyped m d h.0)
      λ d' hd.
        >>=-Ensures (λ ds'. All (λ e. IsTyped e.1) ds') (λ ds'. All (λ e. IsTyped e.1) ds')
          (init_embedded m ds) _ (init_embedded-IsTyped m ds h.1) (λ rest r. (hd, r))

abbrev AllTyped : MsgDef → Type 0
AllTyped d = IsTyped d.base × All (λ e. IsTyped e.1) d.embedded_definition_map

make_msg_def-AllTyped : (info : MsgInfo) (name : Bytes) → Ensures AllTyped (make_msg_def info name)
unfolding make_msg_def make_base
make_msg_def-AllTyped info name =
    let m = embed_all info.embedded_definitions [] in
    >>=-Ensures IsTyped AllTyped _ _
      (init_base-IsTyped m (make_base info.members name) (members-IsTyped info.members))
      λ base hb.
        >>=-Ensures (λ ds'. All (λ e. IsTyped e.1) ds') AllTyped (init_embedded m m) _
          (init_embedded-IsTyped m m (embed_all-IsTyped info.embedded_definitions [] tt))
          (λ ds hs. (hb, hs))

contains-found :
    (k : Bytes) (m : Assoc BaseMsgDef)
    → contains k m ≡ true
    → (v : BaseMsgDef) × (find k m ≡ some v)
unfolding contains
contains-found k m h = found (find k m) h
  where
    found :
        (o : Option BaseMsgDef)
        → ◌≡◌ {A = Bool} (elim o [ none ↦ false | some v ↦ true ]) true
        → (v : BaseMsgDef) × (o ≡ some v)
    found none h = cc
    found (some v) h = (v, refl)

members-IsParsable :
    (m : Assoc BaseMsgDef) (ms : List MemberDef)
    → All IsTypedMember ms
    → All (IsResolvedMember m) ms
    → All (IsParsableMember m) ms
members-IsParsable m [] t r = tt
members-IsParsable m (constant_def c ∷ ms) t r = (tt, members-IsParsable m ms t.1 r.1)
members-IsParsable m (field_def f ∷ ms) t r = (
  elim t.0 [
    | inl o ↦ let (k, ek, c) = r.0 o in let (d, ed) = contains-found k m c in inl (o, k, d, ek, ed)
    | inr n ↦ inr n
  ],
  members-IsParsable m ms t.1 r.1,
)

all-IsParsable :
    (m ds : Assoc BaseMsgDef)
    → All (λ e. IsTyped e.1) ds
    → All (λ e. IsResolved m e.1) ds
    → All (λ e. IsParsableBase m e.1) ds
all-IsParsable m [] t r = tt
all-IsParsable m ((k, d) ∷ ds) t r =
    (members-IsParsable m d.members t.0 r.0, all-IsParsable m ds t.1 r.1)

-- What the constructor of MsgDef makes of any parsed definition without an exception is fit for
-- parse: each field, of the message and of the definitions that it embeds, is of an object type
-- whose pointer leads to a definition of the map, or of no container type.
pub make_msg_def-IsParsable :
    (info : MsgInfo) (name : Bytes) {d : MsgDef} → make_msg_def info name ≡ ok d → IsParsable d
make_msg_def-IsParsable info name {d} e =
    let typed = Ensures-ok AllTyped (make_msg_def info name) (make_msg_def-AllTyped info name) e in
    let resolved = make_msg_def-AllResolved info name e in
    (
      members-IsParsable d.embedded_definition_map d.base.members typed.0 resolved.0,
      all-IsParsable d.embedded_definition_map d.embedded_definition_map typed.1 resolved.1,
    )
