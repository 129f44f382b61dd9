-- ===== src/Topics/Cache.antt =====
-- Bag::msgDefForTopic (lib/embag.h) against the parse without its cache.
use embag.Prelude.{
  ℕ, zero, suc, ◌<◌, ◌≡◌, refl, sym, ◌∙◌, Option, none, some, List, [], ◌∷◌, arith, get_elem?,
  length, inl, inr, Option-cases, Bool-cases, if◌then◌else◌,
}
use embag.Bytes.{Bytes, bytes_eq, bytes_eq→eq, bytes_eq_refl}
use embag.Result.{Result, ok, err, ◌>>=◌, or_err, undefined, unknown_topic, no_connection_data}
use embag.Assoc.{Assoc, find, assign, find-assign}
use embag.Bag.{Bag, ConnectionRecord}
use embag.Schema.{MsgInfo, MsgDef}
use embag.Topics.{front, parse_msg_def, parse_msg_def_for_topic, msg_def_for_topic}

pub lt-get_elem? :
    (xs : List ConnectionRecord) (i : ℕ)
    → i < length xs
    → (c : ConnectionRecord) × (get_elem? xs i ≡ some c)
lt-get_elem? [] i h = absurd (omega arith)
lt-get_elem? (x ∷ xs) zero h = (x, refl)
lt-get_elem? (x ∷ xs) (suc i) h = lt-get_elem? xs i (omega arith)

module _ (grammar : Bytes → Option MsgInfo) (bag : Bag) where
  -- The definition of the topic's first connection, parsed anew.
  unfoldable pub fresh_definition : Bytes → Result MsgDef
  fresh_definition topic = do
    is ← or_err (unknown_topic topic) (find topic bag.topic_connection_map)
    i ← or_err (no_connection_data topic) (front is)
    c ← or_err undefined (get_elem? bag.connections i)
    parse_msg_def grammar c.info.message_definition c.info.type_name

  -- What the cache holds for a topic is its definition.
  abbrev pub IsCache : Assoc MsgDef → Type 0
  IsCache schemata =
      (topic : Bytes) (d : MsgDef) → find topic schemata ≡ some d → fresh_definition topic ≡ ok d

  -- A call gives the definition, and a cache that is still right and has it; or throws the same.
  abbrev pub Cached : Bytes → Result MsgDef → Result (MsgDef × Assoc MsgDef) → Type 0
  Cached topic (ok d) r =
      (after : Assoc MsgDef) × (r ≡ ok (d, after))
      × IsCache after
      × (msg_def_for_topic grammar bag topic after ≡ ok (d, after))
  Cached topic (err e) r = r ≡ err e

  assign-IsCache :
      (topic : Bytes) (d : MsgDef) (schemata : Assoc MsgDef)
      → IsCache schemata
      → fresh_definition topic ≡ ok d
      → IsCache (assign topic d schemata)
  assign-IsCache topic d schemata h e = λ k d' f.
      let g : (if bytes_eq topic k then some d else find k schemata) ≡ some d' =
        sym (find-assign topic k d schemata) ∙ f in
      elim (Bool-cases (bytes_eq topic k)) [
        | inl t ↦
            let same : topic ≡ k = bytes_eq→eq topic k t in
            let stored : some d ≡ some d' = rw t at g in cc (e, same, stored)
        | inr t ↦ h k d' (rw t at g)
      ]

  parse_for_topic :
      (topic : Bytes) (schemata : Assoc MsgDef)
      → parse_msg_def_for_topic grammar bag topic schemata
        ≡ (fresh_definition topic >>= λ d. ok (assign topic d schemata))
  unfolding parse_msg_def_for_topic fresh_definition
  parse_for_topic topic schemata = elim (Option-cases (find topic bag.topic_connection_map)) [
    | inl e ↦ rw e refl
    | inr (is, e) ↦ rw e (elim (Option-cases (front is)) [
      | inl e' ↦ rw e' refl
      | inr (i, e') ↦ rw e' (elim (Option-cases (get_elem? bag.connections i)) [
        | inl e'' ↦ rw e'' refl
        | inr (c, e'') ↦ rw e'' refl
      ])
    ])
  ]

  found-Cached :
      (topic : Bytes) (d : MsgDef) (schemata : Assoc MsgDef)
      → find topic schemata ≡ some d
      → msg_def_for_topic grammar bag topic schemata ≡ ok (d, schemata)
  unfolding msg_def_for_topic
  found-Cached topic d schemata e = rw (e, msg_def_for_topic)

  missed-Cached :
      (topic : Bytes) (schemata : Assoc MsgDef) (r : Result MsgDef)
      → IsCache schemata
      → find topic schemata ≡ none
      → fresh_definition topic ≡ r
      → Cached topic r (msg_def_for_topic grammar bag topic schemata)
  unfolding msg_def_for_topic
  missed-Cached topic schemata (ok d) h e er =
      let stored : find topic (assign topic d schemata) ≡ some d =
        rw (find-assign topic topic d schemata, bytes_eq_refl topic) in
      (
        assign topic d schemata,
        rw (e, msg_def_for_topic, parse_for_topic topic schemata, er, stored),
        assign-IsCache topic d schemata h er,
        found-Cached topic d (assign topic d schemata) stored,
      )
  missed-Cached topic schemata (err x) h e er =
      rw (e, msg_def_for_topic, parse_for_topic topic schemata, er)

  -- On a cache that is right, msgDefForTopic gives the definition that a fresh parse of the topic's
  -- first connection gives, keeps the cache right, and gives the same again on the next call without
  -- a change; where the fresh parse throws, it throws the same.
  pub msg_def_for_topic-Cached :
      (topic : Bytes) (schemata : Assoc MsgDef)
      → IsCache schemata
      → Cached topic (fresh_definition topic) (msg_def_for_topic grammar bag topic schemata)
  msg_def_for_topic-Cached topic schemata h = elim (Option-cases (find topic schemata)) [
    | inl e ↦ missed-Cached topic schemata (fresh_definition topic) h e refl
    | inr (d, e) ↦
        rw (h topic d e)
          (schemata, found-Cached topic d schemata e, h, found-Cached topic d schemata e)
  ]
