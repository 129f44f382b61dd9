-- ===== src/View/MessageRuns.antt =====
-- operator* at a wrapper that stands at a message.
use embag.Prelude.{◌≡◌, refl, some, [], ◌∷◌}
use embag.Bytes.{codes}
use embag.Result.{ok}
use embag.Assoc.{Assoc}
use embag.Schema.{MsgDef}
use embag.Wrapper.{Wrapper}
use embag.Topics.Cache.{IsCache}
use embag.Sample.Bags.{bag, connection}
use embag.Sample.Definitions.{grammar, empty-IsCache, definition, definition-fresh}
use embag.View.{new_wrapper}
use embag.View.Message.{RosMessage, raw_data, dereference, dereference_lem}

abbrev at_message : Wrapper
unfolding new_wrapper
at_message = record (new_wrapper bag [] (0 ∷ [])) {
  current_message_buffer = some (codes "header and data");
  current_message_data_offset = 11;
  current_message_len = 4;
}

dereference_lem_example :
    (m : RosMessage) × (after : Assoc MsgDef) × (dereference grammar at_message [] ≡ ok (m, after))
    × IsCache grammar bag after
    × (m.topic ≡ codes "/n")
    × (m.timestamp ≡ record { secs = 0; nsecs = 0 })
    × (raw_data m ≡ codes "data")
    × (m.msg_def ≡ definition)
unfolding at_message
dereference_lem_example =
    dereference_lem grammar at_message [] connection definition empty-IsCache refl definition-fresh
