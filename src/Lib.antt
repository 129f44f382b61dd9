-- ===== src/Lib.antt =====
-- embag, a reader of ROS bag files (format 2.0), written in C++.
--
-- A bag file is a version line and a sequence of records. A record has a header, which is a list of
-- name=value fields, and data. Bag::readRecords finds the connections, the chunk infos and the
-- chunks through the index; a View over several bags then selects chunks and connections, and its
-- iterator decompresses chunk after chunk and merges the messages of the bags in the order of time.
--
-- Which file models what:
--   Bytes, Assoc, Result  byte strings, std::unordered_map, and what a call returns or throws
--   Time         ros_time_t (lib/ros_value.h)
--   RosType      RosValue::Type and its tables (lib/ros_value.h, lib/ros_value.cc, lib/embag.cc)
--   Header       header_t (lib/ros_bag_types.h), Bag::readFields (lib/embag.cc)
--   Schema       FieldDef, BaseMsgDef, EmbeddedMsgDef, MsgDef (lib/ros_msg_types.h)
--   Stream       the input stream, Bag::readRecord and Bag::readHeader (lib/embag.cc)
--   Bag          the state of Bag (lib/embag.h, lib/ros_bag_types.h) and the stores of readRecords
--   Reader       Bag::readStream and Bag::readRecords (lib/embag.cc)
--   Decompress   chunk_t::decompress (lib/ros_bag_types.h)
--   Topics       topics and msgDefForTopic of Bag (lib/embag.h, lib/embag.cc), parseMsgDef
--                (lib/message_def_parser.cc)
--   Wrapper      bag_wrapper_t, readHeader and readMessage of View::iterator (lib/view.h, lib/view.cc)
--   Value        RosValue and RosValue::Pointer (lib/ros_value.h, lib/ros_value.cc)
--   MessageParser  MessageParser (lib/message_parser.h, lib/message_parser.cc); Layout is what it
--                refines: where the parts of a message stand in its bytes; Encode is the ROS
--                serialisation that it reads back
--   Message      RosMessage with its parse on the first access (lib/ros_message.h)
--   Python       the conversions to Python objects (python/adapters.h); Python/Schema the schema
--                builder (python/schema_builder.cc), Python/Api the methods of the Python module
--                (python/embag.cc, python/ros_compat.h)
--   View         View and View::iterator (lib/view.h, lib/view.cc), RosMessage (lib/ros_message.h)
--   Sample       a small bag file and chunks, for the tests
--
-- How the code is read. State is passed explicitly. A C++ exception is a value of Error; a read that
-- C++ leaves undefined is the error `undefined`, and a loop of the model that runs out of fuel the
-- error `stuck`. A pointer into a buffer is the list of the bytes from it on, an end pointer the
-- number of bytes up to it, a pointer into a vector an index, and a pointer into a map a key. A value
-- of a header field has the NUL of std::string behind it, which a read through data() may take.
-- uint32_t counters wrap; numbers read from bytes are below 2 ^ 32 or 2 ^ 64, and the size_t sums
-- of a few of them do not wrap.
--
-- Fuel. The field loops get as much fuel as the header has bytes, and take four bytes a round; the
-- loop over a chunk gets as much as the chunk has bytes, and takes eight a round; the LZ4 loop gets
-- the bytes of both sides, of which a call of the library takes one at least. The loop over a view
-- takes its number of rounds as an argument. The fuel of the message parser bounds the depth of the
-- types of a message: types that are not recursive have a rank, and one more than that is enough;
-- toString gets twice that and one more; the fuel of the schema builder bounds the depth of the types
-- too, and that of the conversions to Python the depth of the values.
--
-- Parameters. Device says where boost can position a stream beyond its bytes; Codecs are the LZ4 and
-- BZ2 calls with the bounds that they keep; `grammar` is what Boost.Spirit makes of the text of a
-- message definition; the iterator is over any decompression of chunks.
-- A priority queue may hold several elements that are not later than the others, and the model takes
-- the first; the sets and maps without an order are lists.
--
-- The texts of floating-point numbers are functions of the numbers that their bytes hold; Python
-- objects are values of a data type of their own.
--
-- Not modelled: the rules of the grammar of message definitions (lib/message_def_parser.cc), the
-- copies of a RosValue, the opening and closing of files (lib/embag.cc), the declarations to pybind11
-- (python/embag.cc), the demo program and the vendored lib/span.hpp.
pub mod Prelude
pub mod Bytes
pub mod Result
pub mod Assoc
pub mod Time
pub mod Header
pub mod RosType
pub mod Schema
pub mod Stream
pub mod Bag
pub mod Decompress
pub mod Reader
pub mod Sample
pub mod Topics
pub mod Wrapper
pub mod Value
pub mod MessageParser
pub mod Python
pub mod View
pub mod Message
