-- ===== src/Topics/Runs.antt =====
-- msgDefForTopic at a bag with one topic.
use embag.Prelude.{◌≡◌, refl, none, false, true, [], ◌∷◌}
use embag.Bytes.{codes, bytes_eq}
use embag.Assoc.{find}
use embag.Sample.Definitions.{grammar, empty-IsCache}
use embag.Sample.Bags.{bag, bag-IsValid}
use embag.View.{View}
use embag.View.Topics.{is_in, view_topics, in_some_bag, view_topics-in_some_bag}
use embag.Topics.Queries.{connections_for_topic-topic_in_bag}
use embag.Topics.{topic_in_bag, connections_for_topic, msg_def_for_topic}
use embag.Topics.Cache.{Cached, fresh_definition, msg_def_for_topic-Cached}
use embag.Topics.LookUps.{AreAnswers, look_ups, look_ups_from_empty}

msg_def_for_topic-Cached_example :
    Cached grammar bag
      (codes "/n")
      (fresh_definition grammar bag (codes "/n"))
      (msg_def_for_topic grammar bag (codes "/n") [])
msg_def_for_topic-Cached_example =
    msg_def_for_topic-Cached grammar bag (codes "/n") [] empty-IsCache

look_ups_from_empty_example :
    AreAnswers grammar bag
      (codes "/n" ∷ codes "/m" ∷ codes "/n" ∷ [])
      (look_ups grammar bag (codes "/n" ∷ codes "/m" ∷ codes "/n" ∷ []) [])
look_ups_from_empty_example =
    look_ups_from_empty grammar bag bag-IsValid (codes "/n" ∷ codes "/m" ∷ codes "/n" ∷ [])

no_m : find (codes "/m") bag.topic_connection_map ≡ none
unfolding find bytes_eq
no_m = refl

apart : bytes_eq (codes "/m") (codes "/n") ≡ false
unfolding bytes_eq
apart = refl

connections_for_topic-topic_in_bag_example :
    ((connections_for_topic (codes "/m") bag).0 ≡ [])
    × (topic_in_bag (codes "/m") bag ≡ false)
    × (topic_in_bag (codes "/m") (connections_for_topic (codes "/m") bag).1 ≡ true)
    × (topic_in_bag (codes "/n") (connections_for_topic (codes "/m") bag).1
        ≡ topic_in_bag (codes "/n") bag)
connections_for_topic-topic_in_bag_example =
    connections_for_topic-topic_in_bag (codes "/m") (codes "/n") bag no_m apart

abbrev two_bags : View
two_bags = record {
  bags = record { address = 100; bag = bag } ∷ record { address = 200; bag = bag } ∷ [];
  bag_wrappers = [];
}

view_topics-in_some_bag_example :
    is_in (codes "/n") (view_topics two_bags) ≡ in_some_bag (codes "/n") two_bags.bags
view_topics-in_some_bag_example = view_topics-in_some_bag (codes "/n") two_bags
