-- ===== src/View/Runs.antt =====
-- The iteration over two bags, and one wrapper's messages.
use mathlib.Core.List.{Perm}
use embag.Prelude.{
  some, ℕ, ◌≡◌, refl, List, [], ◌∷◌, some, arith, All, length, ap, sym, append-nil, ◌<◌, true,
}
use embag.Bytes.{Bytes, codes, encode_le}
use embag.Result.{Result, ok}
use embag.Bag.{Bag, Chunk}
use embag.Header.Encode.{encode_entry, encode_entries}
use embag.Stream.Reads.{encode_record}
use embag.Decompress.{decompress}
use embag.Decompress.Laws.{decompress-stored}
use embag.Wrapper.{Wrapper, read_message, has_id}
use embag.Wrapper.Items.{Item, Msg, AreItems, encode_items, wanted}
use embag.Wrapper.Messages.{AreChunks, Future, before, current_msg, read_message-Reads}
use embag.Sample.Chunks.{sample_item, sample_item-IsItem, stored_chunk, copying_codecs}
use embag.View.{begin_queue, View, new_wrapper}
use embag.View.Pick.{InOrder, concat}
use embag.View.Restart.{begin_queue-left_chunk}
use embag.View.Begin.{Start, read_all, read_all-merges}

abbrev pub codec : Chunk → Result Bytes
codec = decompress copying_codecs

abbrev front_items : List Item
front_items =
    sample_item 0 5 (codes "a")
    ∷ sample_item 1 6 (codes "skipped")
    ∷ sample_item 0 9 (codes "c")
    ∷ []

abbrev back_items : List Item
back_items = sample_item 0 7 (codes "b") ∷ []

abbrev no_bag : Bag
no_bag = record {
  connections = [];
  topic_connection_map = [];
  chunk_infos = [];
  chunks = [];
  index_pos = 0;
}

abbrev wrapper_of : List Item → Wrapper
unfolding new_wrapper
wrapper_of is = new_wrapper no_bag (stored_chunk (encode_items is) ∷ []) (0 ∷ [])

abbrev two_bags : View
two_bags = record {
  bags = [];
  bag_wrappers = (100, wrapper_of front_items) ∷ (200, wrapper_of back_items) ∷ [];
}

chunk_of :
    (is : List Item)
    → AreItems is
    → 0 < length (encode_items is)
    → AreChunks codec (stored_chunk (encode_items is) ∷ []) (is ∷ [])
unfolding stored_chunk
chunk_of is h p = (
  decompress-stored copying_codecs (stored_chunk (encode_items is)) (encode_items is) [] refl
      (ap some (sym (append-nil _))) refl,
  refl,
  p,
  h,
  tt,
)

front-AreItems : AreItems front_items
unfolding encode_items encode_record encode_entries encode_entry encode_le
front-AreItems = (
  sample_item-IsItem 0 5 (codes "a") (omega arith) (omega arith) (omega arith),
  omega arith,
  (
    sample_item-IsItem 1 6 (codes "skipped") (omega arith) (omega arith) (omega arith),
    omega arith,
    (sample_item-IsItem 0 9 (codes "c") (omega arith) (omega arith) (omega arith), omega arith, tt),
  ),
)

back-AreItems : AreItems back_items
unfolding encode_items
back-AreItems =
    (sample_item-IsItem 0 7 (codes "b") (omega arith) (omega arith) (omega arith), omega arith, tt)

front_some : 0 < length (encode_items front_items)
unfolding encode_items encode_record encode_entries encode_entry encode_le
front_some = omega arith

back_some : 0 < length (encode_items back_items)
unfolding encode_items encode_record encode_entries encode_entry encode_le
back_some = omega arith

abbrev msg_at : ℕ → Bytes → Msg
msg_at secs payload = record {
  connection_id = 0;
  timestamp = record { secs = secs; nsecs = 0 };
  payload = payload;
}

abbrev two_lists : List (List Msg)
two_lists = (msg_at 5 (codes "a") ∷ msg_at 9 (codes "c") ∷ []) ∷ (msg_at 7 (codes "b") ∷ []) ∷ []

two_bags-Start : Start codec two_bags.bag_wrappers two_lists
unfolding wrapper_of wanted has_id
two_bags-Start = (
  (front_items ∷ [], refl, refl, chunk_of front_items front-AreItems front_some, refl),
  ((back_items ∷ [], refl, refl, chunk_of back_items back-AreItems back_some, refl), tt),
)

read_all-merges_example :
    (output : List Msg) × (read_all codec 3 two_bags ≡ ok output)
    × Perm output (concat two_lists)
    × (All InOrder two_lists → InOrder output)
read_all-merges_example = read_all-merges codec 3 two_bags two_lists two_bags-Start (omega arith)

first_wrapper : Wrapper
unfolding wrapper_of
first_wrapper = record (wrapper_of front_items) {
  chunk_iter = stored_chunk (encode_items front_items) ∷ [];
}

first_wrapper-Future :
    Future codec (0 ∷ []) first_wrapper (msg_at 5 (codes "a") ∷ msg_at 9 (codes "c") ∷ [])
unfolding first_wrapper wrapper_of wanted has_id
first_wrapper-Future =
    before (front_items ∷ []) refl refl refl (chunk_of front_items front-AreItems front_some) refl

read_message-Reads_example :
    (w : Wrapper) × (read_message codec first_wrapper ≡ ok (w, true))
    × (current_msg w ≡ msg_at 5 (codes "a"))
    × Future codec (0 ∷ []) w (msg_at 9 (codes "c") ∷ [])
read_message-Reads_example =
    read_message-Reads codec (0 ∷ []) first_wrapper
      (msg_at 5 (codes "a") ∷ msg_at 9 (codes "c") ∷ []) first_wrapper-Future

-- The chunk of front_items is the first, and the buffer is that of the second.
abbrev left_in_second : Wrapper
left_in_second = record (wrapper_of back_items) {
  chunks_to_parse =
      stored_chunk (encode_items front_items) ∷ stored_chunk (encode_items back_items) ∷ [];
  current_buffer = some (encode_items back_items);
  uncompressed_size = length (encode_items back_items);
}

begin_queue-left_chunk_example :
    (w : Wrapper) × (begin_queue codec ((200, left_in_second) ∷ []) [] ≡ ok (w ∷ []))
    × (current_msg w ≡ msg_at 7 (codes "b"))
    × Future codec (0 ∷ []) w (msg_at 7 (codes "b") ∷ [])
unfolding wrapper_of wanted has_id
begin_queue-left_chunk_example =
    begin_queue-left_chunk codec 200 left_in_second (stored_chunk (encode_items front_items))
      (stored_chunk (encode_items back_items) ∷ []) (encode_items back_items) [] back_items
      (back_items ∷ []) (msg_at 7 (codes "b")) (msg_at 7 (codes "b") ∷ []) refl refl refl refl refl
      back-AreItems (chunk_of back_items back-AreItems back_some) refl
