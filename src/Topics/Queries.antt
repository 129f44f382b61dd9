-- ===== src/Topics/Queries.antt =====
-- Bag::connectionsForTopic (lib/embag.h) on a topic that the bag has not.
use embag.Prelude.{ℕ, ◌≡◌, ◌∙◌, refl, sym, ap, Bool, true, false, Option, none, some, List, []}
use embag.Bytes.{Bytes, bytes_eq, bytes_eq_refl}
use embag.Assoc.{Assoc, assign, find, contains, find-assign}
use embag.Bag.{Bag}
use embag.Topics.{topic_in_bag, connections_for_topic}

abbrev is_some : Option (List ℕ) → Bool
is_some none = false
is_some (some is) = true

contains-find : (k : Bytes) (m : Assoc (List ℕ)) → contains k m ≡ is_some (find k m)
unfolding contains
contains-find k m = decided (find k m)
  where
    decided :
        (o : Option (List ℕ)) → ◌≡◌ {A = Bool} (elim o [ none ↦ false | some v ↦ true ]) (is_some o)
    decided none = refl
    decided (some is) = refl

queried :
    (topic : Bytes) (bag : Bag)
    → find topic bag.topic_connection_map ≡ none
    → connections_for_topic topic bag
      ≡ ([], record bag { topic_connection_map = assign topic [] bag.topic_connection_map })
unfolding connections_for_topic
queried topic bag e =
    ap
      (λ (o : Option (List ℕ)). elim o as (λ x. List ℕ × Bag) [
        | some is ↦ (is, bag)
        | none ↦
            ([], record bag { topic_connection_map = assign topic [] bag.topic_connection_map })
      ])
      e

-- connectionsForTopic gives no connection for a topic that the bag has not, but topicInBag, which was
-- false before the call, is true after it; for every other topic it is as before.
pub connections_for_topic-topic_in_bag :
    (topic other : Bytes) (bag : Bag)
    → find topic bag.topic_connection_map ≡ none
    → bytes_eq topic other ≡ false
    → ((connections_for_topic topic bag).0 ≡ [])
      × (topic_in_bag topic bag ≡ false)
      × (topic_in_bag topic (connections_for_topic topic bag).1 ≡ true)
      × (topic_in_bag other (connections_for_topic topic bag).1 ≡ topic_in_bag other bag)
unfolding topic_in_bag
connections_for_topic-topic_in_bag topic other bag e ne =
    let m = bag.topic_connection_map in
    (
      rw (queried topic bag e) refl,
      contains-find topic m ∙ ap is_some e,
      rw (queried topic bag e) (
          contains-find topic (assign topic [] m)
          ∙ rw (find-assign topic topic [] m, bytes_eq_refl topic) refl),
      rw (queried topic bag e) (
          contains-find other (assign topic [] m)
          ∙ (rw (find-assign topic other [] m, ne) refl ∙ sym (contains-find other m))),
    )
