-- ===== src/Python/Messages.antt =====
-- The messages that a Python loop over a bag gets (python/ros_compat.h), down to the bytes.
use embag.Prelude.{ℕ, ◌≡◌, refl, subst, true, Option, some, get_elem?, length}
use embag.Bytes.{Bytes}
use embag.Result.{Result, ok}
use embag.Assoc.{Assoc}
use embag.Bag.{ConnectionRecord}
use embag.Schema.{MsgInfo, MsgDef}
use embag.Topics.Cache.{IsCache, fresh_definition}
use embag.Wrapper.{Wrapper}
use embag.Value.{in_vector}
use embag.View.Message.{message_of, dereference-message_of}
use embag.Message.{MessageState, message_data-new_message}
use embag.MessageParser.{parse}
use embag.MessageParser.Layout.{Layout, Shows}
use embag.MessageParser.Refines.{IsParsable, layout_message, ParsesAs, parse-layout_message}
use embag.Python.Api.{compat_message}

-- Where the bag of a wrapper has the connection of its message, the definition of that topic parses
-- and is fit for the message parser, and the layout of the message can be read from the buffer,
-- operator* of the Python iterator gives the topic of the connection, the time of the wrapper and a
-- pointer to position 0 of a vector that shows just this layout, and keeps the cache of definitions
-- right.
pub compat_message-Shows :
    (grammar : Bytes → Option MsgInfo) (fuel : ℕ) (w : Wrapper) (schemata : Assoc MsgDef)
    (c : ConnectionRecord) (d : MsgDef) (buffer : Bytes) (t : Layout) (o : ℕ)
    → IsCache grammar w.bag schemata
    → get_elem? w.bag.connections w.current_connection_id ≡ some c
    → fresh_definition grammar w.bag c.topic ≡ ok d
    → IsParsable d
    → w.current_message_buffer ≡ some buffer
    → layout_message fuel d buffer w.current_message_data_offset ≡ ok (t, o)
    → (m : MessageState) × (after : Assoc MsgDef) × (compat_message grammar fuel w schemata
        ≡ ok (c.topic, in_vector 0, w.current_timestamp, m, after))
      × Shows buffer m.values 1 (length m.values) 0 t
      × IsCache grammar w.bag after
unfolding compat_message
compat_message-Shows grammar fuel w schemata c d buffer t o h ec ed hp eb et =
    let (after, made, ha) = dereference-message_of grammar w schemata c d h ec ed in
    let (vs, parsed, shown) =
      subst
        (λ (r : Result (Layout × ℕ)).
          ParsesAs buffer r (parse fuel d buffer w.current_message_data_offset))
        et (parse-layout_message fuel d buffer w.current_message_data_offset hp) in
    (
      record { message = message_of w c d; parsed = true; pointer = in_vector 0; values = vs },
      after,
      rw (made, message_data-new_message fuel (message_of w c d) buffer (in_vector 0) vs eb parsed)
          refl,
      shown,
      ha,
    )
