-- ===== src/View/Connections.antt =====
-- Bag::connectionsByTopicMap and View::connectionsByTopicMap (lib/embag.h, lib/view.h).
use embag.Prelude.{ℕ, ◌+◌, ◌%◌, ◌^◌, Option, none, some, List, [], ◌∷◌, if◌then◌else◌, get_elem?}
use embag.Result.{Result, ok, ◌>>=◌, or_err, undefined}
use embag.Assoc.{Assoc, find, assign}
use embag.Bag.{Bag, ConnectionData, connection_data_eq}
use embag.View.{View, BagPointer}

-- The data of the connections that pointers stand at.
unfoldable pub data_of : Bag → List ℕ → Result (List ConnectionData)
data_of bag [] = ok []
data_of bag (i ∷ is) = do
  c ← or_err undefined (get_elem? bag.connections i)
  rest ← data_of bag is
  ok (c.info ∷ rest)

-- Bag::connectionsByTopicMap, topic by topic.
unfoldable pub bag_connections : Bag → Assoc (List ℕ) → Result (Assoc (List ConnectionData))
bag_connections bag [] = ok []
bag_connections bag ((topic, is) ∷ items) = do
  conns ← data_of bag is
  rest ← bag_connections bag items
  ok ((topic, conns) ∷ rest)

-- The count of the first equal connection grows by the new one's, or the new one is put behind.
unfoldable pub merge_connection : ConnectionData → List ConnectionData → List ConnectionData
merge_connection new_c [] = new_c ∷ []
merge_connection new_c (c ∷ cs) =
    if connection_data_eq c new_c
    then record c { message_count = (c.message_count + new_c.message_count) % 2 ^ 64 } ∷ cs
    else c ∷ merge_connection new_c cs

unfoldable pub merge_connections : List ConnectionData → List ConnectionData → List ConnectionData
merge_connections [] existing_conns = existing_conns
merge_connections (new_c ∷ new_conns) existing_conns =
    merge_connections new_conns (merge_connection new_c existing_conns)

-- connections_by_topic[topic]
abbrev pub conns_or_empty : Option (List ConnectionData) → List ConnectionData
conns_or_empty none = []
conns_or_empty (some cs) = cs

unfoldable pub merge_topics :
    Assoc (List ConnectionData) → Assoc (List ConnectionData) → Assoc (List ConnectionData)
merge_topics [] m = m
merge_topics ((topic, new_conns) ∷ items) m =
    merge_topics items
      (assign topic (merge_connections new_conns (conns_or_empty (find topic m))) m)

-- The loop of View::connectionsByTopicMap.
unfoldable pub view_connections :
    List BagPointer → Assoc (List ConnectionData) → Result (Assoc (List ConnectionData))
view_connections [] m = ok m
view_connections (b ∷ bs) m = do
  items ← bag_connections b.bag b.bag.topic_connection_map
  view_connections bs (merge_topics items m)

unfoldable pub connections_by_topic_map : View → Result (Assoc (List ConnectionData))
connections_by_topic_map v = view_connections v.bags []
