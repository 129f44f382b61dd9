-- ===== src/Message.antt =====
-- A RosMessage (lib/ros_message.h) that parses itself when it is first asked for its values.
mod Runs
use embag.Prelude.{
  ℕ, ◌≡◌, ◌∙◌, refl, sym, ap, arith, none, some, Bool, true, false, Option, List, [], if◌then◌else◌,
}
use embag.Bytes.{Bytes}
use embag.Result.{Result, ok, err, ◌>>=◌, or_err, undefined}
use embag.Value.{RosValue, Pointer, null_base}
use embag.Value
use embag.Value.Text.{to_string}
use embag.View.Message.{RosMessage}
use embag.MessageParser.{parse}

-- A message with parsed_, data_ and the vector that data_ points to.
pub record MessageState : Type 0 where
  pub message : RosMessage
  pub parsed : Bool
  pub pointer : Pointer
  pub values : List RosValue

unfoldable pub new_message : RosMessage → MessageState
new_message m = record { message = m; parsed = false; pointer = null_base 0; values = [] }

-- RosMessage::hydrate.
unfoldable pub hydrate : ℕ → MessageState → Result MessageState
hydrate fuel m = do
  buffer ← or_err undefined m.message.raw_buffer
  (p, vs) ← parse fuel m.message.msg_def buffer m.message.raw_buffer_offset
  ok (record m { parsed = true; pointer = p; values = vs })

-- What each accessor does first.
unfoldable pub hydrated : ℕ → MessageState → Result MessageState
unfolding hydrate
hydrated fuel m = if m.parsed then ok m else hydrate fuel m

-- RosMessage::data, has, getTypeName and toString, with the message after the call.
unfoldable pub message_data : ℕ → MessageState → Result (Pointer × MessageState)
unfolding hydrated
message_data fuel m = do m' ← hydrated fuel m; ok (m'.pointer, m')

unfoldable pub message_has : ℕ → Bytes → MessageState → Result (Bool × MessageState)
unfolding hydrated
message_has fuel key m = do
  m' ← hydrated fuel m
  v ← Value.deref m'.values m'.pointer
  b ← Value.has key v
  ok (b, m')

unfoldable pub get_type_name : MessageState → Bytes
get_type_name m = m.message.msg_def.base.name

module _ (float_text double_text : ℕ → Bytes) where
  unfoldable pub message_text : ℕ → ℕ → MessageState → Result (Bytes × MessageState)
  unfolding hydrated
  message_text fuel text_fuel m = do
    m' ← hydrated fuel m
    v ← Value.deref m'.values m'.pointer
    s ← to_string float_text double_text text_fuel m'.values [] v
    ok (s, m')

abbrev pub with_values : RosMessage → Pointer → List RosValue → MessageState
with_values m p vs = record { message = m; parsed = true; pointer = p; values = vs }

-- data() of a message that was not parsed.
pub message_data-new_message :
    (fuel : ℕ) (m : RosMessage) (buffer : Bytes) (p : Pointer) (vs : List RosValue)
    → m.raw_buffer ≡ some buffer
    → parse fuel m.msg_def buffer m.raw_buffer_offset ≡ ok (p, vs)
    → message_data fuel (new_message m) ≡ ok (p, with_values m p vs)
unfolding message_data hydrated hydrate new_message
message_data-new_message fuel m buffer p vs e h =
    let data_of = λ (r : Result (Pointer × List RosValue)).
      ◌>>=◌ {W = Pointer × MessageState} (r >>= λ (q, ws). ok (with_values m q ws))
        (λ x. ok (x.pointer, x)) in
    ap
      (λ (b : Option Bytes).
        ◌>>=◌ {W = Pointer × MessageState}
          (or_err undefined b >>= λ x.
            parse fuel m.msg_def x m.raw_buffer_offset >>= λ (q, ws). ok (with_values m q ws))
          (λ x. ok (x.pointer, x)))
      e
    ∙ ap data_of h

parsed-hydrated : (fuel : ℕ) (m m' : MessageState) → hydrated fuel m ≡ ok m' → m'.parsed ≡ true
unfolding hydrated hydrate
parsed-hydrated fuel m m' h = by_cases m.parsed refl h
  where
    from_parse :
        (r : Result (Pointer × List RosValue))
        → (r >>= λ (p, vs). ok (record m { parsed = true; pointer = p; values = vs })) ≡ ok m'
        → m'.parsed ≡ true
    from_parse (err e) h = cc
    from_parse (ok (p, vs)) h =
        let same : record m { parsed = true; pointer = p; values = vs } ≡ m' = ground arith in
        ap (λ (x : MessageState). x.parsed) (sym same)

    from_hydrate :
        (b : Option Bytes)
        → (or_err undefined b >>= λ buffer.
            parse fuel m.message.msg_def buffer m.message.raw_buffer_offset >>= λ (p, vs).
            ok (record m { parsed = true; pointer = p; values = vs }))
          ≡ ok m'
        → m'.parsed ≡ true
    from_hydrate none h = cc
    from_hydrate (some b) h = from_parse _ h

    by_cases :
        (b : Bool) → m.parsed ≡ b → (if b then ok m else hydrate fuel m) ≡ ok m' → m'.parsed ≡ true
    by_cases true e h =
        let same : m ≡ m' = ground arith in ap (λ (x : MessageState). x.parsed) (sym same) ∙ e
    by_cases false e h = from_hydrate m.message.raw_buffer h

hydrated-again :
    (fuel again : ℕ) (m m' : MessageState) → hydrated fuel m ≡ ok m' → hydrated again m' ≡ ok m'
unfolding hydrated
hydrated-again fuel again m m' h = rw (parsed-hydrated fuel m m' h) refl

returned_by :
    (r : Result MessageState) (p : Pointer) (m' : MessageState)
    → ◌>>=◌ {W = Pointer × MessageState} r (λ x. ok (x.pointer, x)) ≡ ok (p, m')
    → (r ≡ ok m') × (m'.pointer ≡ p)
returned_by (err e) p m' h = cc
returned_by (ok x) p m' h =
    let same : x ≡ m' = ground arith in
    let pointed : x.pointer ≡ p = ground arith in
    (
      ap (λ (y : MessageState). ok y) same,
      ap (λ (y : MessageState). y.pointer) (sym same) ∙ pointed,
    )

-- data() of a message parses it at most once: where it returns, a second call returns the same
-- pointer and leaves the message as the first one did, whatever the fuel; and has() and toString()
-- then give what they give on the message as it was, and leave it alike.
pub message_data-again :
    (float_text double_text : ℕ → Bytes) (fuel again text_fuel : ℕ) (key : Bytes)
    (m m' : MessageState) (p : Pointer)
    → message_data fuel m ≡ ok (p, m')
    → (message_data again m' ≡ ok (p, m'))
      × (message_has again key m' ≡ message_has fuel key m)
      × (message_text float_text double_text again text_fuel m'
          ≡ message_text float_text double_text fuel text_fuel m)
unfolding message_data message_has message_text
message_data-again float_text double_text fuel again text_fuel key m m' p h =
    let (made, pointed) = returned_by (hydrated fuel m) p m' h in
    let twice = hydrated-again fuel again m m' made in
    (rw (twice, pointed) refl, rw (twice, made) refl, rw (twice, made) refl)
