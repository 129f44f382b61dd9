-- ===== src/View/Message.antt =====
-- View::iterator::operator* (lib/view.cc) and the RosMessage that it fills (lib/ros_message.h).
use embag.Prelude.{ℕ, ◌≡◌, refl, subst, Option, take, drop, get_elem?, some}
use embag.Bytes.{Bytes}
use embag.Result.{Result, ok, ◌>>=◌, or_err, undefined}
use embag.Assoc.{Assoc}
use embag.Time.{Time}
use embag.Bag.{ConnectionRecord}
use embag.Schema.{MsgInfo, MsgDef}
use embag.Topics.{msg_def_for_topic}
use embag.Topics.Cache.{IsCache, fresh_definition, Cached, msg_def_for_topic-Cached}
use embag.Wrapper.{Wrapper}
use embag.Wrapper.Messages.{buffer_or_empty, current_msg}

pub record RosMessage : Type 0 where
  pub topic : Bytes
  pub timestamp : Time
  pub md5 : Bytes
  pub raw_buffer : Option Bytes
  pub raw_buffer_offset : ℕ
  pub raw_data_len : ℕ
  pub msg_def : MsgDef

-- The bytes from raw_buffer_offset on that belong to the message.
abbrev pub raw_data : RosMessage → Bytes
raw_data m = take m.raw_data_len (drop m.raw_buffer_offset (buffer_or_empty m.raw_buffer))

-- The fields that operator* sets.
abbrev pub message_of : Wrapper → ConnectionRecord → MsgDef → RosMessage
message_of w connection d = record {
  topic = connection.topic;
  timestamp = w.current_timestamp;
  md5 = connection.info.md5sum;
  raw_buffer = w.current_message_buffer;
  raw_buffer_offset = w.current_message_data_offset;
  raw_data_len = w.current_message_len;
  msg_def = d;
}

module _ (grammar : Bytes → Option MsgInfo) where
  -- operator* at the wrapper on top of the queue, with the message_schemata_ of its bag.
  unfoldable pub dereference : Wrapper → Assoc MsgDef → Result (RosMessage × Assoc MsgDef)
  dereference w schemata = do
    connection ← or_err undefined (get_elem? w.bag.connections w.current_connection_id)
    (d, schemata') ← msg_def_for_topic grammar w.bag connection.topic schemata
    ok (message_of w connection d, schemata')

  -- operator* makes the message of the wrapper with the definition of its topic.
  pub dereference-message_of :
      (w : Wrapper) (schemata : Assoc MsgDef) (c : ConnectionRecord) (d : MsgDef)
      → IsCache grammar w.bag schemata
      → get_elem? w.bag.connections w.current_connection_id ≡ some c
      → fresh_definition grammar w.bag c.topic ≡ ok d
      → (after : Assoc MsgDef) × (dereference w schemata ≡ ok (message_of w c d, after))
        × IsCache grammar w.bag after
  unfolding dereference
  dereference-message_of w schemata c d h ec ed =
      let cached : Cached grammar w.bag c.topic (ok d)
          (msg_def_for_topic grammar w.bag c.topic schemata) =
        subst
          (λ (r : Result MsgDef).
            Cached grammar w.bag c.topic r (msg_def_for_topic grammar w.bag c.topic schemata))
          ed (msg_def_for_topic-Cached grammar w.bag c.topic schemata h) in
      let (after, e, ha, again) = cached in (after, rw (ec, e) refl, ha)

  -- Where the bag of a wrapper has the connection of its message, and the definition of that topic
  -- parses, operator* gives the topic of the connection, the time and the bytes of the message that
  -- the wrapper stands at, and that definition, and keeps the cache of definitions right.
  pub dereference_lem :
      (w : Wrapper) (schemata : Assoc MsgDef) (c : ConnectionRecord) (d : MsgDef)
      → IsCache grammar w.bag schemata
      → get_elem? w.bag.connections w.current_connection_id ≡ some c
      → fresh_definition grammar w.bag c.topic ≡ ok d
      → (m : RosMessage) × (after : Assoc MsgDef) × (dereference w schemata ≡ ok (m, after))
        × IsCache grammar w.bag after
        × (m.topic ≡ c.topic)
        × (m.timestamp ≡ (current_msg w).timestamp)
        × (raw_data m ≡ (current_msg w).payload)
        × (m.msg_def ≡ d)
  dereference_lem w schemata c d h ec ed =
      let (after, e, ha) = dereference-message_of w schemata c d h ec ed in
      (message_of w c d, after, e, ha, refl, refl, refl, refl)
