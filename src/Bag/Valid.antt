-- ===== src/Bag/Valid.antt =====
-- What the stores of Bag::readRecords (lib/embag.cc) keep of a bag: every pointer stands at an
-- element, and the message counts of connections and chunks agree.
use embag.Prelude.{
  ℕ, suc, ◌+◌, ◌^◌, ◌%◌, ◌<◌, ◌≡◌, refl, sym, ◌∙◌, Option, none, some, List, [], ◌∷◌, ◌++◌, map,
  arith, inl, inr, Option-cases, length, get_elem?, set, take, All, All-set, All-append,
  get_elem?-All, get_elem?-lt, length-set, length-append, take-set, take-suc, total, total-set,
  total-zero,
}
use mathlib.Core.List.{map-append}
use embag.Bytes.{Bytes, codes}
use embag.Result.{Ensures, >>=-Ensures, Ensures-trivial}
use embag.Assoc.{Assoc, find, find-All, assign-All, at}
use embag.Stream.{Record, fields_at}
use embag.Bag.{
  Bag, pointers_or_empty, ConnectionData, ConnectionRecord, ChunkInfo, Chunk, push_connection,
  read_connection_data, store_connection, add_connection, count_messages, push_chunk,
}

-- The pointers of a topic: at least one, each to a connection.
abbrev pub TopicPointers : ℕ → List ℕ → Type 0
TopicPointers n is = (0 < length is) × All (λ i. i < n) is

abbrev pub BlockPointers : ℕ → ConnectionRecord → Type 0
BlockPointers k c = All (λ b. b < k) c.blocks

abbrev pub connection_messages : List ConnectionRecord → ℕ
connection_messages = total (λ c. c.info.message_count)

abbrev pub info_messages : List ChunkInfo → ℕ
info_messages = total (λ i. i.message_count)

-- n connections, k chunk infos, and the first m of them stored with their chunks.
pub record Inv (n k m : ℕ) (bag : Bag) : Type 0 where
  pub connections_length : length bag.connections ≡ n
  pub infos_length : length bag.chunk_infos ≡ k
  pub topics : All (λ e. TopicPointers n e.1) bag.topic_connection_map
  pub blocks : All (BlockPointers k) bag.connections
  pub stored : map (λ c. c.info) bag.chunks ≡ take m bag.chunk_infos
  pub counts : connection_messages bag.connections % 2 ^ 32 ≡ info_messages bag.chunk_infos % 2 ^ 32

module _ (n k : ℕ) where
  pointers-below :
      (topic : Bytes) (m : Assoc (List ℕ)) (o : Option (List ℕ))
      → find topic m ≡ o
      → All (λ e. TopicPointers n e.1) m
      → All (λ i. i < n) (pointers_or_empty o)
  pointers-below topic m none e h = tt
  pointers-below topic m (some is) e h = (find-All (TopicPointers n) topic m h e).1

  push_connection-TopicPointers :
      (topic : Bytes) (i : ℕ) (m : Assoc (List ℕ))
      → i < n
      → All (λ e. TopicPointers n e.1) m
      → All (λ e. TopicPointers n e.1) (push_connection topic i m)
  unfolding push_connection
  push_connection-TopicPointers topic i m hi h =
      let is = pointers_or_empty (find topic m) in
      assign-All (TopicPointers n) topic (is ++ (i ∷ [])) m
        (
          omega (arith, length-append is (i ∷ [])),
          All-append (λ j. j < n) is (i ∷ []) (pointers-below topic m _ refl h) (hi, tt),
        )
        h

  pub count_messages-Inv :
      (i id msg_count : ℕ) (bag : Bag)
      → Inv n k i bag
      → Ensures (Inv n k i) (count_messages i id msg_count bag)
  unfolding count_messages
  count_messages-Inv i id msg_count bag h = elim (Option-cases (get_elem? bag.chunk_infos i)) [
    | inl e ↦ rw e tt
    | inr (info, e) ↦ rw e (elim (Option-cases (get_elem? bag.connections id)) [
      | inl e' ↦ rw e' tt
      | inr (c, e') ↦ rw e' (record {
        connections_length = length-set bag.connections id _ ∙ h.connections_length;
        infos_length = length-set bag.chunk_infos i _ ∙ h.infos_length;
        topics = h.topics;
        blocks =
            All-set (BlockPointers k) bag.connections id _
              (All-append (λ b. b < k) c.blocks (i ∷ [])
                (get_elem?-All (BlockPointers k) bag.connections id h.blocks e')
                (omega (arith, get_elem?-lt bag.chunk_infos i e, h.infos_length)))
              h.blocks;
        stored = h.stored ∙ sym (take-set bag.chunk_infos i _);
        counts = omega (
          arith,
          h.counts,
          total-set (λ (c : ConnectionRecord). c.info.message_count) bag.connections id
              (record c {
                blocks = c.blocks ++ (i ∷ []);
                info = record (c.info) {
                  message_count = (c.info.message_count + msg_count) % 2 ^ 64;
                };
              })
              e',
          total-set (λ (i : ChunkInfo). i.message_count) bag.chunk_infos i
              (record info { message_count = (info.message_count + msg_count) % 2 ^ 32 }) e,
        );
      })
    ])
  ]

  pub push_chunk-Inv :
      (i : ℕ) (chunk : Chunk) (bag : Bag)
      → Inv n k i bag
      → Ensures (Inv n k (suc i)) (push_chunk i chunk bag)
  unfolding push_chunk
  push_chunk-Inv i chunk bag h = elim (Option-cases (get_elem? bag.chunk_infos i)) [
    | inl e ↦ rw e tt
    | inr (info, e) ↦ rw e (record {
      connections_length = h.connections_length;
      infos_length = h.infos_length;
      topics = h.topics;
      blocks = h.blocks;
      stored = map-append _ bag.chunks _ ∙ rw h.stored (sym (take-suc bag.chunk_infos i e));
      counts = h.counts;
    })
  ]

-- Before the chunks: no connection and no chunk info has a message.
pub record Fresh (n k : ℕ) (bag : Bag) : Type 0 where
  pub inv : Inv n k 0 bag
  pub no_messages : All (λ c. c.info.message_count ≡ 0) bag.connections
  pub no_info_messages : All (λ i. i.message_count ≡ 0) bag.chunk_infos

pub fresh-counts :
    (cs : List ConnectionRecord) (is : List ChunkInfo)
    → All (λ c. c.info.message_count ≡ 0) cs
    → All (λ i. i.message_count ≡ 0) is
    → connection_messages cs % 2 ^ 32 ≡ info_messages is % 2 ^ 32
fresh-counts cs is h k = omega (
  arith,
  total-zero (λ (c : ConnectionRecord). c.info.message_count) cs h,
  total-zero (λ (i : ChunkInfo). i.message_count) is k,
)

read_connection_data-no_messages :
    (topic : Bytes) (fields : Assoc Bytes)
    → Ensures (λ c. c.message_count ≡ 0) (read_connection_data topic fields)
unfolding read_connection_data
read_connection_data-no_messages topic fields =
    >>=-Ensures (λ _. Unit {0}) (λ (c : ConnectionData). c.message_count ≡ 0)
      (at (codes "type") fields) _ (Ensures-trivial _)
      λ t _.
        >>=-Ensures (λ _. Unit {0}) (λ (c : ConnectionData). c.message_count ≡ 0)
          (at (codes "md5sum") fields) _ (Ensures-trivial _)
          λ s _.
            >>=-Ensures (λ _. Unit {0}) (λ (c : ConnectionData). c.message_count ≡ 0)
              (at (codes "message_definition") fields) _ (Ensures-trivial _) λ d _. refl

module _ (n k : ℕ) where
  store_connection-Fresh :
      (id : ℕ) (topic : Bytes) (info : ConnectionData) (bag : Bag)
      → info.message_count ≡ 0
      → Fresh n k bag
      → Ensures (Fresh n k) (store_connection id topic info bag)
  unfolding store_connection
  store_connection-Fresh id topic info bag hi h =
      elim (Option-cases (get_elem? bag.connections id)) [
        | inl e ↦ rw e tt
        | inr (c, e) ↦
            let cs = set bag.connections id (record c { id = id; topic = topic; info = info }) in
            let none_yet : All (λ c. c.info.message_count ≡ 0) cs =
              All-set (λ c. c.info.message_count ≡ 0) bag.connections id _ hi h.no_messages in
            rw e (record {
              inv = record {
                connections_length = length-set bag.connections id _ ∙ h.inv.connections_length;
                infos_length = h.inv.infos_length;
                topics =
                    push_connection-TopicPointers n k topic id bag.topic_connection_map
                      (omega (arith, get_elem?-lt bag.connections id e, h.inv.connections_length))
                      h.inv.topics;
                blocks =
                    All-set (BlockPointers k) bag.connections id _
                      (get_elem?-All (BlockPointers k) bag.connections id h.inv.blocks e)
                      h.inv.blocks;
                stored = h.inv.stored;
                counts = fresh-counts cs bag.chunk_infos none_yet h.no_info_messages;
              };
              no_messages = none_yet;
              no_info_messages = h.no_info_messages;
            })
      ]

  pub add_connection-Fresh :
      (id : ℕ) (topic : Bytes) (r : Record) (bag : Bag)
      → Fresh n k bag
      → Ensures (Fresh n k) (add_connection id topic r bag)
  unfolding add_connection
  add_connection-Fresh id [] r bag h = h
  add_connection-Fresh id (b ∷ topic) r bag h =
      >>=-Ensures (λ _. Unit {0}) (Fresh n k) (fields_at r.content r.data_len) _
        (Ensures-trivial (fields_at r.content r.data_len))
        λ fields _.
          >>=-Ensures (λ c. c.message_count ≡ 0) (Fresh n k)
            (read_connection_data (b ∷ topic) fields) _
            (read_connection_data-no_messages (b ∷ topic) fields)
            λ info hi. store_connection-Fresh id (b ∷ topic) info bag hi h

  pub store_info-Fresh :
      (i : ℕ) (info : ChunkInfo) (bag : Bag)
      → info.message_count ≡ 0
      → Fresh n k bag
      → Fresh n k (record bag { chunk_infos = set bag.chunk_infos i info })
  store_info-Fresh i info bag hi h =
      let none_yet : All (λ i. i.message_count ≡ 0) (set bag.chunk_infos i info) =
        All-set (λ i. i.message_count ≡ 0) bag.chunk_infos i info hi h.no_info_messages in
      record {
        inv = record {
          connections_length = h.inv.connections_length;
          infos_length = length-set bag.chunk_infos i info ∙ h.inv.infos_length;
          topics = h.inv.topics;
          blocks = h.inv.blocks;
          stored = h.inv.stored;
          counts = fresh-counts bag.connections _ h.no_messages none_yet;
        };
        no_messages = h.no_messages;
        no_info_messages = none_yet;
      }
