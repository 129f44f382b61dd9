-- ===== src/Message/Runs.antt =====
-- The sample message, asked twice for its data.
use embag.Prelude.{◌≡◌, refl, some}
use embag.Bytes.{codes}
use embag.Result.{ok}
use embag.Value.{in_vector}
use embag.Value.Text.{decimal}
use embag.View.Message.{RosMessage}
use embag.Sample.Definitions.{definition, sample_buffer, definition_values, definition-parsed}
use embag.Message.{
  new_message, message_data, message_has, message_text, with_values, message_data-new_message,
  message_data-again,
}

abbrev sample_message : RosMessage
sample_message = record {
  topic = codes "/n";
  timestamp = record { secs = 7; nsecs = 500 };
  md5 = codes "7c8164229e7d2c17eb95e9231617fdee";
  raw_buffer = some sample_buffer;
  raw_buffer_offset = 11;
  raw_data_len = 1;
  msg_def = definition;
}

sample_message-data :
    message_data 1 (new_message sample_message)
    ≡ ok (in_vector 0, with_values sample_message (in_vector 0) definition_values)
sample_message-data =
    message_data-new_message 1 sample_message sample_buffer (in_vector 0) definition_values refl
      definition-parsed

message_data-again_example :
    let m = with_values sample_message (in_vector 0) definition_values in
    (message_data 5 m ≡ ok (in_vector 0, m))
    × (message_has 5 (codes "data") m ≡ message_has 1 (codes "data") (new_message sample_message))
    × (message_text decimal decimal 5 9 m
        ≡ message_text decimal decimal 1 9 (new_message sample_message))
message_data-again_example =
    message_data-again decimal decimal 1 5 9 (codes "data") (new_message sample_message)
      (with_values sample_message (in_vector 0) definition_values) (in_vector 0) sample_message-data
