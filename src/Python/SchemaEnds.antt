-- ===== src/Python/SchemaEnds.antt =====
-- SchemaBuilder::schemaForField (python/schema_builder.cc) calls itself as deep as the types are
-- nested.
use embag.Prelude.{
  ℕ, zero, suc, ◌<◌, ◌≡◌, ◌≢◌, true, false, some, List, [], ◌∷◌, arith, All, Bool-cases, inl, inr,
  ◌⊎◌,
}
use embag.Bytes.{Bytes}
use embag.Result.{Result, ok, err, stuck}
use embag.Assoc.{Assoc, find}
use embag.RosType.{is_object}
use embag.Schema.{FieldDef, MemberDef, field_def, constant_def, BaseMsgDef}
use embag.MessageParser.{type_definition_of}
use embag.MessageParser.Fuel.{
  Finishes, Finishes-bind, Finishes-type_definition, type_definition-listed, IsRankedMember,
}
use embag.Python.{PyObject, PyDict, empty_dict, set_item, c_str}
use embag.Python.Schema.{is_primitive, schema_loop, embedded_schema, schema_for_field}

-- A field is of a type that the type map names, or an object; as the constructor of FieldDef makes it.
abbrev pub IsNamedMember : MemberDef → Type 0
IsNamedMember (field_def f) = (is_primitive f ≡ true) ⊎ (is_object f.ros_type ≡ true)
IsNamedMember (constant_def c) = Unit

Finishes-loop :
    (schema : FieldDef → Result PyObject) (P : MemberDef → Type 0)
    → ((f : FieldDef) → P (field_def f) → Finishes (schema f))
    → (ms : List MemberDef) (dict : PyDict) → All P ms
    → Finishes (schema_loop schema ms dict)
unfolding schema_loop
Finishes-loop schema P each [] dict h = tt
Finishes-loop schema P each (constant_def c ∷ ms) dict h = Finishes-loop schema P each ms dict h.1
Finishes-loop schema P each (field_def f ∷ ms) dict h =
    Finishes-bind (schema f) _ (each f h.0)
      λ o e. Finishes-loop schema P each ms (set_item (c_str f.parsed_info.field_name) o dict) h.1

module _ (definitions : Assoc BaseMsgDef) (rank : Bytes → ℕ)
    (ranked : (k : Bytes) (d : BaseMsgDef)
      → find k definitions ≡ some d
      → All (λ m. IsRankedMember rank (rank k) m × IsNamedMember m) d.members) where
  Finishes-schema :
      (fuel bound : ℕ) (f : FieldDef)
      → bound < fuel
      → IsRankedMember rank bound (field_def f) × IsNamedMember (field_def f)
      → Finishes (schema_for_field definitions fuel f)
  unfolding schema_for_field embedded_schema
  Finishes-schema zero bound f h r = absurd (omega arith)
  Finishes-schema (suc fuel) bound f h (r, named) = elim (Bool-cases (is_primitive f)) [
    | inl e ↦ rw e tt
    | inr e ↦ rw e (
        Finishes-bind _ _
          (Finishes-bind (type_definition_of definitions [] f) _
            (Finishes-type_definition definitions [] f (object e named))
            λ d x.
              let (k, o, ek, ed) = type_definition-listed definitions [] f d x in
              Finishes-loop (schema_for_field definitions fuel)
                (λ m. IsRankedMember rank (rank k) m × IsNamedMember m)
                (λ g hg.
                  let lower : rank k < bound = r k o ek in
                  Finishes-schema fuel (rank k) g (omega arith) hg)
                d.members empty_dict (ranked k d ed))
          (λ children y. tt))
  ]
    where
      object : is_primitive f ≡ false → IsNamedMember (field_def f) → is_object f.ros_type ≡ true
      object e (inl t) = cc
      object e (inr o) = o

  -- Where each field, of every definition too, is of a type that the type map names or of an object
  -- type, and each type embeds only types of a lower rank, schemaForField with more fuel than the rank
  -- of its field does not run out of it.
  pub schema_for_field-not_stuck :
      (fuel bound : ℕ) (f : FieldDef)
      → bound < fuel
      → IsRankedMember rank bound (field_def f) × IsNamedMember (field_def f)
      → schema_for_field definitions fuel f ≢ err stuck
  schema_for_field-not_stuck fuel bound f h r =
      finished (schema_for_field definitions fuel f) (Finishes-schema fuel bound f h r)
    where
      finished : (x : Result PyObject) → Finishes x → x ≢ err stuck
      finished (ok s) h = λ y. cc
      finished (err e) h = λ y. h (ground arith)
