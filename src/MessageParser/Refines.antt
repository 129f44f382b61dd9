-- ===== src/MessageParser/Refines.antt =====
-- MessageParser::parse (lib/message_parser.cc) as a refinement of the layout of a message.
use embag.Prelude.{ℕ, ◌≡◌, refl, subst, List, [], ◌∷◌, All, length}
use embag.Bytes.{Bytes}
use embag.Result.{Result, ok, err, ◌>>=◌}
use embag.Schema.{MsgDef}
use embag.Value.{RosValue, Pointer, in_vector, make_object}
use embag.MessageParser.{ParserState, parse}
use embag.MessageParser.Layout.{Layout, layout_object, Shows}
use embag.MessageParser.Frames.{Done}
use embag.MessageParser.Emplace.{IsParsableBase}
use embag.MessageParser.Objects.{init_object-Done}

-- Each field is of an object type that the map holds, or of no container type.
abbrev pub IsParsable : MsgDef → Type 0
IsParsable d =
    IsParsableBase d.embedded_definition_map d.base
    × All (λ e. IsParsableBase d.embedded_definition_map e.1) d.embedded_definition_map

-- The layout of a message from an offset on, with the offset behind it.
unfoldable pub layout_message : ℕ → MsgDef → Bytes → ℕ → Result (Layout × ℕ)
layout_message fuel d buffer offset =
    layout_object d.embedded_definition_map buffer fuel d.base offset

-- The vector shows the layout, with the message at 0 and its parts behind; or the call fails alike.
abbrev pub ParsesAs : Bytes → Result (Layout × ℕ) → Result (Pointer × List RosValue) → Type 0
ParsesAs buffer (err e) r = r ≡ err e
ParsesAs buffer (ok (t, o)) r =
    (vs : List RosValue) × (r ≡ ok (in_vector 0, vs)) × Shows buffer vs 1 (length vs) 0 t

root_state : MsgDef → ℕ → ParserState
root_state d offset = record {
  values = make_object d.base.field_indexes ∷ [];
  values_offset = 1;
  buffer_offset = offset;
}

returned :
    (buffer : Bytes) (st : ParserState) (layout : Result (Layout × ℕ)) (run : Result ParserState)
    → length st.values ≡ 1
    → Done buffer 0 st layout run
    → ParsesAs buffer layout (run >>= λ st'. ok (in_vector 0, st'.values))
returned buffer st (err e) run h d = rw d refl
returned buffer st (ok (t, o)) run h (st', e, a) = rw e (
  st'.values,
  refl,
  subst (λ (l : ℕ). Shows buffer st'.values l (length st'.values) 0 t) h a.shows,
)

-- Where every field of a message and of the types it embeds is of an object type that the
-- definitions hold or of no container type, parse fails exactly as reading the layout field by
-- field does, with the same error; else it returns a pointer to position 0 of a vector that shows
-- this layout: each value stands at its offset in the buffer, the children of a value next to one
-- another, and what is below the children behind them, with no position left over.
pub parse-layout_message :
    (fuel : ℕ) (d : MsgDef) (buffer : Bytes) (offset : ℕ)
    → IsParsable d
    → ParsesAs buffer (layout_message fuel d buffer offset) (parse fuel d buffer offset)
unfolding parse layout_message root_state
parse-layout_message fuel d buffer offset (hb, hd) =
    returned buffer (root_state d offset) _ _ refl (
      init_object-Done d.embedded_definition_map buffer hd fuel d.base 0 (root_state d offset) _ hb
        refl refl)
