-- ===== src/Python/Api.antt =====
-- The methods that the Python module adds to Bag, RosMessage and RosValue (python/embag.cc,
-- python/ros_compat.h).
use embag.Prelude.{ℕ, zero, suc, not, true, false, Option, List, [], ◌∷◌, if◌then◌else◌}
use embag.Bytes.{Bytes, copy_n}
use embag.Result.{
  Result, ok, err, ◌>>=◌, guard, ◌>>◌, or_err, undefined, stuck, not_object, not_container,
  bad_topics, string_elements, not_iterable,
}
use embag.Assoc.{Assoc}
use embag.Bag.{Chunk}
use embag.Time.{Time}
use embag.RosType.{
  RosType, object, array, primitive_array, is_object, is_string, primitive_type_to_size,
  primitive_type_to_format,
}
use embag.Value.{RosValue, Pointer, deref, get_type, get_element_type, get_buffer, size}
use embag.Value.Visit.{
  ValueIterator, begin_values, end_values, value_iterator_eq, next_value, current_value,
  begin_items, end_items, current_key, current_item,
}
use embag.Value.Text.{to_string}
use embag.View.{
  View, BagPointer, add_bag, get_messages, get_messages_of, get_messages_of_topic, Iterator, begin,
}
use embag.Wrapper.{Wrapper, at_pointer}
use embag.Schema.{MsgInfo, MsgDef}
use embag.View.Message.{dereference}
use embag.Message.{MessageState, new_message, message_data, message_text}
use embag.Python.{
  PyObject, py_str, py_bytes, Options, keep_time, cast_value, ros_value_to_list, ros_value_to_dict,
  primitive_array_to_py_object,
}

-- The argument of read_messages.
pub data TopicsArgument : Type 0 where
  all_topics : TopicsArgument
  one_topic : Bytes → TopicsArgument
  topic_list : List Bytes → TopicsArgument
  other_argument : TopicsArgument

abbrev pub empty_view : View
empty_view = record { bags = []; bag_wrappers = [] }

-- getMessages on the view, by the argument.
unfoldable pub select_messages : TopicsArgument → View → Result View
select_messages all_topics v = ok (get_messages v)
select_messages (one_topic t) v = get_messages_of_topic t v
select_messages (topic_list ts) v = get_messages_of ts v
select_messages other_argument v = err bad_topics

-- Bag.read_messages, up to the iterator over the messages.
unfoldable pub read_messages :
    (Chunk → Result Bytes) → BagPointer → TopicsArgument → Result Iterator
unfolding select_messages
read_messages decompress bag topics = do
  v ← select_messages topics (add_bag bag empty_view)
  begin decompress v

-- IteratorCompat's operator*: the topic, the values and the time of the message that the iterator
-- stands at, with the message after data() and message_schemata_ of its bag.
unfoldable pub compat_message :
    (Bytes → Option MsgInfo)
    → ℕ
    → Wrapper
    → Assoc MsgDef
    → Result (Bytes × Pointer × Time × MessageState × Assoc MsgDef)
compat_message grammar fuel w schemata = do
  (m, schemata') ← dereference grammar w schemata
  (p, m') ← message_data fuel (new_message m)
  ok (m'.message.topic, p, m'.message.timestamp, m', schemata')

-- RosMessage.raw_data.
unfoldable pub raw_data_of : MessageState → Result PyObject
raw_data_of m = do
  buffer ← or_err undefined m.message.raw_buffer
  p ← at_pointer buffer m.message.raw_buffer_offset
  s ← or_err undefined (copy_n m.message.raw_data_len p)
  ok (py_bytes s)

-- RosMessage.dict.
unfoldable pub message_dict : ℕ → ℕ → Options → MessageState → Result (PyObject × MessageState)
message_dict fuel depth options m = do
  (p, m') ← message_data fuel m
  v ← deref m'.values p
  guard (is_object (get_type v)) not_object
  o ← ros_value_to_dict m'.values depth options p
  ok (o, m')

-- What the buffer protocol shows of a primitive array: one dimension, and read-only.
pub record BufferInfo : Type 0 where
  pub bytes : Bytes
  pub item_size : ℕ
  pub format : Bytes
  pub shape : ℕ
  pub stride : ℕ

module _ (float_text double_text : ℕ → Bytes) where
  -- RosMessage.__str__ and RosValue.__str__, which does not use its path.
  unfoldable pub message_str : ℕ → ℕ → MessageState → Result (PyObject × MessageState)
  message_str fuel depth m = do
    (s, m') ← message_text float_text double_text fuel depth m
    ok (py_str s, m')

  unfoldable pub value_str : ℕ → List RosValue → Bytes → Pointer → Result PyObject
  value_str depth values path p = do
    v ← deref values p
    s ← to_string float_text double_text depth values [] v
    ok (py_str s)

module _ (values : List RosValue) where
  unfoldable pub value_buffer : Pointer → Result BufferInfo
  value_buffer p = do
    v ← deref values p
    t ← get_element_type values v
    guard (not (is_string t)) string_elements
    size_of_elements ← primitive_type_to_size t
    buffer ← get_buffer values v
    format ← primitive_type_to_format t
    n ← size v
    ok (record {
      bytes = buffer;
      item_size = size_of_elements;
      format = format;
      shape = n;
      stride = size_of_elements;
    })

  -- RosValue.__len__.
  unfoldable pub value_len : Pointer → Result ℕ
  value_len p = do v ← deref values p; size v

  -- RosValue.dict, by the type of the value.
  unfoldable pub dict_of_type : RosType → ℕ → Options → Pointer → Result PyObject
  dict_of_type object depth options p = ros_value_to_dict values depth options p
  dict_of_type array depth options p = ros_value_to_list values depth options p
  dict_of_type primitive_array depth options p = primitive_array_to_py_object values depth options p
  dict_of_type _ depth options p = err not_container

  unfoldable pub value_dict : ℕ → Options → Pointer → Result PyObject
  unfolding dict_of_type
  value_dict depth options p = do v ← deref values p; dict_of_type (get_type v) depth options p

  -- What a Python loop gets between two iterators over the values, with `rounds` at most.
  unfoldable pub values_between : ℕ → ValueIterator → ValueIterator → Result (List PyObject)
  values_between zero it end = if value_iterator_eq it end then ok [] else err stuck
  values_between (suc rounds) it end = elim (value_iterator_eq it end) [
    | true ↦ ok []
    | false ↦ do
      p ← current_value it
      o ← cast_value values keep_time p
      rest ← values_between rounds (next_value it) end
      ok (o ∷ rest)
  ]

  unfoldable pub iterate_values : RosValue → Result (List PyObject)
  unfolding values_between
  iterate_values v = do it ← begin_values v; end ← end_values v; values_between end.index it end

  -- The same over the keys and the items of an object, whose end has no field left.
  unfoldable pub keys_between : RosValue → Assoc ℕ → Result (List PyObject)
  keys_between v [] = ok []
  keys_between v (f ∷ fs) = do
    k ← current_key (record { value = v; fields = f ∷ fs })
    rest ← keys_between v fs
    ok (py_str k ∷ rest)

  unfoldable pub iterate_keys : RosValue → Result (List PyObject)
  unfolding keys_between
  iterate_keys v = do it ← begin_items v; end ← end_items v; keys_between it.value it.fields

  unfoldable pub items_between : RosValue → Assoc ℕ → Result (List (Bytes × PyObject))
  items_between v [] = ok []
  items_between v (f ∷ fs) = do
    (k, p) ← current_item (record { value = v; fields = f ∷ fs })
    o ← cast_value values keep_time p
    rest ← items_between v fs
    ok ((k, o) ∷ rest)

  -- RosValue.__iter__, items, keys and values.
  unfoldable pub iterate_type : RosType → RosValue → Result (List PyObject)
  unfolding iterate_values iterate_keys
  iterate_type array v = iterate_values v
  iterate_type primitive_array v = iterate_values v
  iterate_type object v = iterate_keys v
  iterate_type _ v = err not_iterable

  unfoldable pub value_iter : Pointer → Result (List PyObject)
  unfolding iterate_type
  value_iter p = do v ← deref values p; iterate_type (get_type v) v

  unfoldable pub value_items : Pointer → Result (List (Bytes × PyObject))
  unfolding items_between
  value_items p = do
    v ← deref values p
    guard (is_object (get_type v)) not_object
    it ← begin_items v
    end ← end_items v
    items_between it.value it.fields

  unfoldable pub value_keys : Pointer → Result (List PyObject)
  unfolding iterate_keys
  value_keys p = do v ← deref values p; guard (is_object (get_type v)) not_object; iterate_keys v

  unfoldable pub value_values : Pointer → Result (List PyObject)
  unfolding iterate_values
  value_values p = do
    v ← deref values p
    guard (is_object (get_type v)) not_object
    iterate_values v
