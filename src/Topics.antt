-- ===== src/Topics.antt =====
-- The topics of a Bag and their message definitions (lib/embag.h, lib/embag.cc), with the parse of a
-- definition (lib/message_def_parser.cc). What Boost.Spirit makes of a text by the grammar there is a
-- parameter: none where it does not match the whole text.
pub mod Cache
mod LookUps
pub mod Queries
mod Runs
use embag.Prelude.{ℕ, Bool, Option, none, some, List, [], ◌∷◌, map, get_elem?}
use embag.Bytes.{Bytes}
use embag.Result.{
  Result, ok, err, ◌>>=◌, or_err, undefined, parse_failed, unknown_topic, no_connection_data,
}
use embag.Assoc.{Assoc, find, assign, contains}
use embag.Bag.{Bag, ConnectionData, ConnectionRecord}
use embag.Schema.{MsgInfo, MsgDef, make_msg_def}

-- Bag::topics.
unfoldable pub topics : Bag → List Bytes
topics bag = map (λ e. e.0) bag.topic_connection_map

-- Bag::topicInBag.
unfoldable pub topic_in_bag : Bytes → Bag → Bool
topic_in_bag topic bag = contains topic bag.topic_connection_map

-- Bag::connectionsForTopic: operator[] puts in an empty vector for a topic that is missing.
unfoldable pub connections_for_topic : Bytes → Bag → List ℕ × Bag
connections_for_topic topic bag = elim (find topic bag.topic_connection_map) [
  | some is ↦ (is, bag)
  | none ↦ ([], record bag { topic_connection_map = assign topic [] bag.topic_connection_map })
]

abbrev pub front : List ℕ → Option ℕ
front [] = none
front (i ∷ is) = some i

module _ (grammar : Bytes → Option MsgInfo) where
  -- parseMsgDef.
  unfoldable pub parse_msg_def : Bytes → Bytes → Result MsgDef
  parse_msg_def def name = do info ← or_err parse_failed (grammar def); make_msg_def info name

  -- Bag::parseMsgDefForTopic, on the map message_schemata_.
  unfoldable pub parse_msg_def_for_topic : Bag → Bytes → Assoc MsgDef → Result (Assoc MsgDef)
  parse_msg_def_for_topic bag topic schemata = do
    is ← or_err (unknown_topic topic) (find topic bag.topic_connection_map)
    i ← or_err (no_connection_data topic) (front is)
    c ← or_err undefined (get_elem? bag.connections i)
    d ← parse_msg_def c.info.message_definition c.info.type_name
    ok (assign topic d schemata)

  -- Bag::msgDefForTopic: the definition, and message_schemata_ after the call.
  unfoldable pub msg_def_for_topic : Bag → Bytes → Assoc MsgDef → Result (MsgDef × Assoc MsgDef)
  msg_def_for_topic bag topic schemata = elim (find topic schemata) [
    | some d ↦ ok (d, schemata)
    | none ↦ do
      schemata' ← parse_msg_def_for_topic bag topic schemata
      d ← or_err undefined (find topic schemata')
      ok (d, schemata')
  ]
