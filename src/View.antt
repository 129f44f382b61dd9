-- ===== src/View.antt =====
-- View and its iterator (lib/view.h, lib/view.cc).
pub mod Pick
pub mod Merge
pub mod Begin
pub mod Times
pub mod Connections
pub mod Totals
pub mod Message
pub mod Topics
pub mod Select
pub mod Restart
mod Runs
mod MapRuns
mod TimeRuns
mod MessageRuns
use embag.Prelude.{
  ℕ, zero, suc, ◌+◌, ◌^◌, ◌%◌, ◌-◌, Bool, true, false, ◌&&◌, ◌||◌, Option, none, some, List, [],
  ◌∷◌, ◌++◌, ltb, ◌==◌, if◌then◌else◌, length, get_elem?,
}
use embag.Bytes.{Bytes}
use embag.Result.{Result, ok, err, ◌>>=◌, undefined, or_err}
use embag.Assoc.{Assoc, find, contains, assign}
use embag.Time.{Time}
use embag.Bag.{Bag, Chunk, ConnectionRecord, ConnectionData, connection_data_eq, pointers_or_empty}
use embag.Wrapper.{Wrapper, has_id, read_message}

-- A shared pointer to a bag: its address, and the bag there.
pub record BagPointer : Type 0 where
  pub address : ℕ
  pub bag : Bag

pub record View : Type 0 where
  pub bags : List BagPointer
  pub bag_wrappers : List (ℕ × Wrapper)

unfoldable pub add_bag : BagPointer → View → View
add_bag bag v = record v { bags = v.bags ++ (bag ∷ []) }

-- emplace into the set of chunks, which is ordered by offset and holds an offset once.
unfoldable pub insert_chunk : Chunk → List Chunk → List Chunk
insert_chunk c [] = c ∷ []
insert_chunk c (d ∷ ds) =
    if ltb c.offset d.offset
    then c ∷ (d ∷ ds)
    else (if ltb d.offset c.offset then d ∷ insert_chunk c ds else d ∷ ds)

unfoldable pub insert_chunks : List Chunk → List Chunk → List Chunk
insert_chunks [] s = s
insert_chunks (c ∷ cs) s = insert_chunks cs (insert_chunk c s)

-- emplace into the set of connection ids.
unfoldable pub insert_id : ℕ → List ℕ → List ℕ
insert_id i ids = if has_id i ids then ids else ids ++ (i ∷ [])

-- bag_wrapper_t with its defaults.
unfoldable pub new_wrapper : Bag → List Chunk → List ℕ → Wrapper
new_wrapper bag chunks ids = record {
  bag = bag;
  processed_bytes = 0;
  uncompressed_size = 0;
  current_buffer = none;
  chunks_to_parse = chunks;
  chunk_iter = [];
  connection_ids = ids;
  current_connection_id = 0;
  current_message_buffer = none;
  current_message_data_offset = 0;
  current_message_len = 0;
  current_timestamp = record { secs = 0; nsecs = 0 };
}

-- bag_wrappers_[bag] = wrapper
unfoldable pub put_wrapper : ℕ → Wrapper → List (ℕ × Wrapper) → List (ℕ × Wrapper)
put_wrapper a w [] = (a, w) ∷ []
put_wrapper a w ((a', w') ∷ ws) = if a' == a then (a, w) ∷ ws else (a', w') ∷ put_wrapper a w ws

-- 0, 1, …, n - 1 into the set of ids.
unfoldable pub all_ids : ℕ → ℕ → List ℕ → List ℕ
all_ids zero i ids = ids
all_ids (suc n) i ids = all_ids n (suc i) (insert_id i ids)

-- The wrapper for all messages of a bag.
unfoldable pub whole_wrapper : Bag → Wrapper
unfolding new_wrapper insert_chunks all_ids
whole_wrapper bag =
    new_wrapper bag (insert_chunks bag.chunks []) (all_ids (length bag.connections) 0 [])

unfoldable pub wrap_all : List BagPointer → List (ℕ × Wrapper) → List (ℕ × Wrapper)
wrap_all [] ws = ws
wrap_all (b ∷ bs) ws = wrap_all bs (put_wrapper b.address (whole_wrapper b.bag) ws)

-- View::getMessages().
unfoldable pub get_messages : View → View
get_messages v = record v { bag_wrappers = wrap_all v.bags [] }

-- The chunks and ids that a wrapper's sets hold so far.
pub record Selection : Type 0 where
  pub chunks : List Chunk
  pub ids : List ℕ

-- The chunks that the blocks of a connection point to.
unfoldable pub select_blocks : Bag → List ℕ → List Chunk → Result (List Chunk)
select_blocks bag [] s = ok s
select_blocks bag (b ∷ bs) s = do
  c ← or_err undefined (get_elem? bag.chunks b)
  select_blocks bag bs (insert_chunk c s)

-- The connections of a topic.
unfoldable pub select_connections : Bag → List ℕ → Selection → Result Selection
select_connections bag [] s = ok s
select_connections bag (i ∷ is) s = do
  c ← or_err undefined (get_elem? bag.connections i)
  chunks ← select_blocks bag c.blocks s.chunks
  select_connections bag is (record { chunks = chunks; ids = insert_id c.id s.ids })

-- The topics; one that the bag lacks is skipped.
unfoldable pub select_topics : Bag → List Bytes → Selection → Result Selection
select_topics bag [] s = ok s
select_topics bag (t ∷ ts) s = do
  s' ← select_connections bag (pointers_or_empty (find t bag.topic_connection_map)) s
  select_topics bag ts s'

unfoldable pub wrap_topics :
    List Bytes → List BagPointer → List (ℕ × Wrapper) → Result (List (ℕ × Wrapper))
wrap_topics topics [] ws = ok ws
wrap_topics topics (b ∷ bs) ws = do
  s ← select_topics b.bag topics (record { chunks = []; ids = [] })
  wrap_topics topics bs (put_wrapper b.address (new_wrapper b.bag s.chunks s.ids) ws)

-- View::getMessages(topics).
unfoldable pub get_messages_of : List Bytes → View → Result View
get_messages_of topics v = do ws ← wrap_topics topics v.bags []; ok (record v { bag_wrappers = ws })

-- View::getMessages(topic).
unfoldable pub get_messages_of_topic : Bytes → View → Result View
get_messages_of_topic topic v = get_messages_of (topic ∷ []) v

-- The test of timestamp_compare_t: left is later than right.
unfoldable pub is_later : Wrapper → Wrapper → Bool
is_later left right =
    let l = left.current_timestamp in
    let r = right.current_timestamp in
    if ltb r.secs l.secs then true else ((l.secs == r.secs) && ltb r.nsecs l.nsecs)

-- top() and pop() of the priority queue: an element that is later than no other, and the others. Of
-- several such the library takes one of its own choice, here the first.
unfoldable pub pick_top : Wrapper → List Wrapper → Wrapper × List Wrapper
pick_top w [] = (w, [])
pick_top w (x ∷ xs) =
    let (t, rest) = pick_top (if is_later w x then x else w) xs in
    (t, (if is_later w x then w else x) ∷ rest)

-- View::iterator: the wrappers in msg_queue_.
pub record Iterator : Type 0 where
  pub msg_queue : List Wrapper

-- operator== compares the sizes of the queues; the end iterator's is empty.
unfoldable pub iterator_eq : Iterator → Iterator → Bool
iterator_eq a b = length a.msg_queue == length b.msg_queue

abbrev pub end : Iterator
end = record { msg_queue = [] }

module _ (decompress : Chunk → Result Bytes) where
  -- readMessage with its push on the queue.
  unfoldable pub read_and_push : Wrapper → List Wrapper → Result (List Wrapper)
  read_and_push w queue = do
    (w', found) ← read_message decompress w
    ok (if found then queue ++ (w' ∷ []) else queue)

  -- The begin constructor: each wrapper starts at its first chunk.
  unfoldable pub begin_queue : List (ℕ × Wrapper) → List Wrapper → Result (List Wrapper)
  begin_queue [] queue = ok queue
  begin_queue ((a, w) ∷ ws) queue = do
    queue' ← read_and_push (record w { chunk_iter = w.chunks_to_parse }) queue
    begin_queue ws queue'

  unfoldable pub begin : View → Result Iterator
  begin v = do queue ← begin_queue v.bag_wrappers []; ok (record { msg_queue = queue })

  -- operator++; top() of an empty queue is undefined.
  unfoldable pub advance : List Wrapper → Result (List Wrapper)
  unfolding read_and_push
  advance [] = err undefined
  advance (w ∷ ws) = let (t, rest) = pick_top w ws in read_and_push t rest
