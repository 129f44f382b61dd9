-- ===== src/View/MapRuns.antt =====
-- connectionsByTopicMap and getMessages over two bags with the same connection.
use embag.Prelude.{All, ◌%◌, ◌^◌, ◌≡◌, refl, List, [], ◌∷◌, total}
use embag.Bytes.{bytes_eq, codes}
use embag.Result.{ok}
use embag.Assoc.{Assoc, find, assign}
use embag.Bag.{ConnectionData, connection_data_eq}
use embag.Sample.Bags.{bag, bag-IsValid, connection}
use embag.View.{View, get_messages_of}
use embag.View.Select.{IsUnread, get_messages_of-IsUnread}
use embag.View.Connections.{
  connections_by_topic_map, bag_connections, data_of, merge_topics, merge_connections,
  merge_connection, view_connections,
}
use embag.View.Totals.{AreMaps, map_total, connections_by_topic_map-total}

abbrev same_twice : View
same_twice = record {
  bags = record { address = 100; bag = bag } ∷ record { address = 200; bag = bag } ∷ [];
  bag_wrappers = [];
}

connections_by_topic_map-total_example :
    (maps : List (Assoc (List ConnectionData))) × (result : Assoc (List ConnectionData)) × AreMaps
      same_twice.bags maps
    × (connections_by_topic_map same_twice ≡ ok result)
    × (map_total result % 2 ^ 64 ≡ total map_total maps % 2 ^ 64)
connections_by_topic_map-total_example =
    connections_by_topic_map-total same_twice (bag-IsValid, (bag-IsValid, tt))

-- The equal connections are one, with the messages of both.
connections_by_topic_map_runs :
    connections_by_topic_map same_twice
    ≡ ok ((codes "/n", record (connection.info) { message_count = 6 } ∷ []) ∷ [])
unfolding connections_by_topic_map view_connections bag_connections data_of merge_topics
    merge_connections merge_connection connection_data_eq find assign bytes_eq
connections_by_topic_map_runs = refl

get_messages_of-IsUnread_example :
    (v : View) × (get_messages_of (codes "/n" ∷ codes "/absent" ∷ []) same_twice ≡ ok v)
    × (v.bags ≡ same_twice.bags)
    × All (λ p. IsUnread p.1) v.bag_wrappers
get_messages_of-IsUnread_example =
    get_messages_of-IsUnread (codes "/n" ∷ codes "/absent" ∷ []) same_twice
      (bag-IsValid, (bag-IsValid, tt))
