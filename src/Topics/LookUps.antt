-- ===== src/Topics/LookUps.antt =====
-- A history of calls of Bag::msgDefForTopic (lib/embag.h) on one bag, from the empty cache on.
use embag.Prelude.{
  ℕ, ◌<◌, ◌≡◌, refl, subst, sym, ◌⊎◌, inl, inr, Option, none, some, List, [], ◌∷◌, arith, get_elem?,
  length, Option-cases,
}
use embag.Bytes.{Bytes}
use embag.Result.{Result, ok, err, unknown_topic}
use embag.Assoc.{Assoc, find, find-All}
use embag.Bag.{Bag, ConnectionRecord}
use embag.Bag.Valid.{TopicPointers}
use embag.Schema.{MsgInfo, MsgDef}
use embag.Reader.Invariant.{IsValid}
use embag.Topics.{parse_msg_def, msg_def_for_topic}
use embag.Topics.Cache.{fresh_definition, IsCache, Cached, msg_def_for_topic-Cached, lt-get_elem?}

first-below :
    (n : ℕ) (is : List ℕ)
    → TopicPointers n is
    → (i : ℕ) × (rest : List ℕ) × (is ≡ i ∷ rest) × (i < n)
first-below n [] h = absurd (omega (arith, h.0))
first-below n (i ∷ is) h = (i, is, refl, h.1.0)

module _ (grammar : Bytes → Option MsgInfo) (bag : Bag) where
  -- What a call gives, and the cache after it, which a call that throws leaves as it was.
  abbrev answer : Assoc MsgDef → Result (MsgDef × Assoc MsgDef) → Result MsgDef × Assoc MsgDef
  answer schemata (ok (d, after)) = (ok d, after)
  answer schemata (err e) = (err e, schemata)

  -- The answers to calls for one topic after another.
  pub look_ups : List Bytes → Assoc MsgDef → List (Result MsgDef)
  look_ups [] schemata = []
  look_ups (topic ∷ topics) schemata =
      let (r, after) = answer schemata (msg_def_for_topic grammar bag topic schemata) in
      r ∷ look_ups topics after

  -- A topic that the bag lacks is reported; for any other topic the text of its first connection is
  -- parsed, under the name of that connection's type.
  abbrev IsAnswer : Bytes → Result MsgDef → Type 0
  IsAnswer topic r =
      ((find topic bag.topic_connection_map ≡ none) × (r ≡ err (unknown_topic topic)))
      ⊎ ((i : ℕ) × (rest : List ℕ) × (c : ConnectionRecord) × (find topic bag.topic_connection_map
            ≡ some (i ∷ rest))
          × (get_elem? bag.connections i ≡ some c)
          × (r ≡ parse_msg_def grammar c.info.message_definition c.info.type_name))

  abbrev pub AreAnswers : List Bytes → List (Result MsgDef) → Type 0
  AreAnswers [] [] = Unit
  AreAnswers [] (r ∷ rs) = ⊥
  AreAnswers (t ∷ ts) [] = ⊥
  AreAnswers (t ∷ ts) (r ∷ rs) = IsAnswer t r × AreAnswers ts rs

  fresh-IsAnswer :
      IsValid bag → (topic : Bytes) → IsAnswer topic (fresh_definition grammar bag topic)
  unfolding fresh_definition
  fresh-IsAnswer v topic = elim (Option-cases (find topic bag.topic_connection_map)) [
    | inl e ↦ inl (e, rw e refl)
    | inr (is, e) ↦
        let (i, rest, ei, hi) = first-below (length bag.connections) is (
          find-All (TopicPointers (length bag.connections)) topic bag.topic_connection_map v.topics
            e) in
        let (c, ec) = lt-get_elem? bag.connections i hi in
        inr (i, rest, c, rw e (rw ei refl), ec, rw (e, ei, ec) refl)
  ]

  answer-Cached :
      (topic : Bytes) (schemata : Assoc MsgDef) (fresh : Result MsgDef)
      (r : Result (MsgDef × Assoc MsgDef))
      → IsCache grammar bag schemata
      → Cached grammar bag topic fresh r
      → ((answer schemata r).0 ≡ fresh) × IsCache grammar bag (answer schemata r).1
  answer-Cached topic schemata (ok d) r h (after, e, k, again) = rw e (refl, k)
  answer-Cached topic schemata (err x) r h e = rw e (refl, h)

  look_ups-answers :
      IsValid bag
      → (topics : List Bytes) (schemata : Assoc MsgDef) → IsCache grammar bag schemata
      → AreAnswers topics (look_ups topics schemata)
  unfolding look_ups
  look_ups-answers v [] schemata h = tt
  look_ups-answers v (topic ∷ topics) schemata h =
      let (same, right) =
        answer-Cached topic schemata (fresh_definition grammar bag topic) _ h
          (msg_def_for_topic-Cached grammar bag topic schemata h) in
      (
        subst (IsAnswer topic) (sym same) (fresh-IsAnswer v topic),
        look_ups-answers v topics _ right,
      )

  -- On a valid bag, calls of msgDefForTopic in any order and with any repeats, from the empty cache
  -- on, each give what a parse of the text of the topic's first connection gives, errors of the
  -- parse included, or report that the bag lacks the topic: what an answer is does not depend on the
  -- calls before it, and none reports missing connection data or reads past the connections.
  pub look_ups_from_empty :
      IsValid bag → (topics : List Bytes) → AreAnswers topics (look_ups topics [])
  unfolding find
  look_ups_from_empty v topics = look_ups-answers v topics [] λ topic d e. cc
