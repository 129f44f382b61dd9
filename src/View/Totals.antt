-- ===== src/View/Totals.antt =====
-- View::connectionsByTopicMap (lib/view.h) keeps the number of messages.
use embag.Prelude.{ℕ, ◌+◌, ◌%◌, ◌^◌, ◌<◌, ◌≡◌, refl, List, [], ◌∷◌, arith, total, length, All}
use embag.Bytes.{Bytes}
use embag.Result.{ok}
use embag.Assoc.{Assoc, find, assign}
use embag.Bag.{Bag, ConnectionData}
use embag.Bag.Valid.{TopicPointers}
use embag.Reader.Invariant.{IsValid}
use embag.Topics.Cache.{lt-get_elem?}
use embag.View.{View, BagPointer}
use embag.View.Connections.{
  data_of, bag_connections, merge_connection, merge_connections, conns_or_empty, merge_topics,
  view_connections, connections_by_topic_map,
}

-- The messages of the connections of a map.
abbrev pub conns_total : List ConnectionData → ℕ
conns_total = total (λ c. c.message_count)

abbrev pub map_total : Assoc (List ConnectionData) → ℕ
map_total = total (λ e. conns_total e.1)

merge_connection-total :
    (new_c : ConnectionData) (cs : List ConnectionData)
    → conns_total (merge_connection new_c cs) % 2 ^ 64
      ≡ (new_c.message_count + conns_total cs) % 2 ^ 64
unfolding merge_connection
merge_connection-total new_c [] = omega arith
merge_connection-total new_c (c ∷ cs) = ground (arith, merge_connection-total new_c cs)

merge_connections-total :
    (ns cs : List ConnectionData)
    → conns_total (merge_connections ns cs) % 2 ^ 64 ≡ (conns_total ns + conns_total cs) % 2 ^ 64
unfolding merge_connections
merge_connections-total [] cs = omega arith
merge_connections-total (n ∷ ns) cs =
    omega (arith, merge_connections-total ns (merge_connection n cs), merge_connection-total n cs)

assign-total :
    (k : Bytes) (cs : List ConnectionData) (m : Assoc (List ConnectionData))
    → map_total (assign k cs m) + conns_total (conns_or_empty (find k m))
      ≡ map_total m + conns_total cs
unfolding assign find
assign-total k cs [] = omega arith
assign-total k cs ((j, ds) ∷ m) = ground (arith, assign-total k cs m)

merge_topics-total :
    (items m : Assoc (List ConnectionData))
    → map_total (merge_topics items m) % 2 ^ 64 ≡ (map_total items + map_total m) % 2 ^ 64
unfolding merge_topics
merge_topics-total [] m = omega arith
merge_topics-total ((k, ns) ∷ items) m =
    let old = conns_or_empty (find k m) in
    omega (
      arith,
      merge_topics-total items (assign k (merge_connections ns old) m),
      assign-total k (merge_connections ns old) m,
      merge_connections-total ns old,
    )

-- In a valid bag every pointer gives its data.
data_of-returns :
    (bag : Bag) (is : List ℕ)
    → All (λ i. i < length bag.connections) is
    → (cs : List ConnectionData) × (data_of bag is ≡ ok cs)
unfolding data_of
data_of-returns bag [] h = ([], refl)
data_of-returns bag (i ∷ is) h =
    let (c, ec) = lt-get_elem? bag.connections i h.0 in
    let (cs, es) = data_of-returns bag is h.1 in (c.info ∷ cs, rw (ec, es))

bag_connections-returns :
    (bag : Bag) (m : Assoc (List ℕ))
    → All (λ e. TopicPointers (length bag.connections) e.1) m
    → (items : Assoc (List ConnectionData)) × (bag_connections bag m ≡ ok items)
unfolding bag_connections
bag_connections-returns bag [] h = ([], refl)
bag_connections-returns bag ((k, is) ∷ m) h =
    let (cs, es) = data_of-returns bag is h.0.1 in
    let (items, ei) = bag_connections-returns bag m h.1 in ((k, cs) ∷ items, rw (es, ei))

-- The maps of the bags of a view.
abbrev pub AreMaps : List BagPointer → List (Assoc (List ConnectionData)) → Type 0
AreMaps [] [] = Unit
AreMaps [] (m ∷ ms) = ⊥
AreMaps (b ∷ bs) [] = ⊥
AreMaps (b ∷ bs) (m ∷ ms) =
    (bag_connections b.bag b.bag.topic_connection_map ≡ ok m) × AreMaps bs ms

view_connections-total :
    (bs : List BagPointer) (m : Assoc (List ConnectionData))
    → All (λ b. IsValid b.bag) bs
    → (maps : List (Assoc (List ConnectionData))) × (result : Assoc (List ConnectionData)) × AreMaps
        bs maps
      × (view_connections bs m ≡ ok result)
      × (map_total result % 2 ^ 64 ≡ (total map_total maps + map_total m) % 2 ^ 64)
unfolding view_connections
view_connections-total [] m h = ([], m, tt, refl, omega arith)
view_connections-total (b ∷ bs) m h =
    let (items, ei) = bag_connections-returns b.bag b.bag.topic_connection_map h.0.topics in
    let (maps, result, am, er, et) = view_connections-total bs (merge_topics items m) h.1 in
    (items ∷ maps, result, (ei, am), rw ei er, omega (arith, et, merge_topics-total items m))

-- Over valid bags, connectionsByTopicMap returns, and its map counts as many messages as the maps of
-- the bags together, as size_t numbers: merging the equal connections of a topic loses none.
pub connections_by_topic_map-total :
    (v : View)
    → All (λ b. IsValid b.bag) v.bags
    → (maps : List (Assoc (List ConnectionData))) × (result : Assoc (List ConnectionData)) × AreMaps
        v.bags maps
      × (connections_by_topic_map v ≡ ok result)
      × (map_total result % 2 ^ 64 ≡ total map_total maps % 2 ^ 64)
unfolding connections_by_topic_map
connections_by_topic_map-total v h =
    let (maps, result, am, er, et) = view_connections-total v.bags [] h in
    (maps, result, am, er, omega (arith, et))
