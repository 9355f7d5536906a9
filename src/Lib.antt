-- ===== src/Lib.antt =====
-- tiny-mq, a JMS message broker in C++: producers send messages through a session to destinations,
-- each of which has priority queues for its consumers, a scheduler for delayed messages and a store
-- of the persistent ones; a transacted session buffers its messages until the commit.
--
-- Prelude: Boolean tests and integers over the native numbers (Tests, Int), lists (Lists),
--   little-endian words (Words) and maps (Maps).
-- Message (Message.h, Message.cpp, MessageProperty.h): the message record, its headers and
--   properties. Message/Wire: the stored form of a message, toBytes and fromBytes, and the places
--   that read or patch one header in stored bytes (also in TransactionBuffer.cpp, Destination.cpp
--   and ConcurrentLinearStorage.cpp), over Codec, what it asks of UUIDs, of the JSON of
--   properties and of the message's class; Message/Wire/Legacy, the records that are older than the magic byte, and
--   Message/Wire/Json, the Codec that MessageProperty.cpp and the message classes make.
-- Property (MessageProperty.h, MessageProperty.cpp): value types and their names; Property/Json
--   (toJSON, fromJSON), Property/Stream (PropertiesStream). Poco::JSON is the interface
--   Property/Poco.
-- Body (TextMessage, BytesMessage, ObjectMessage, MapMessage, StreamMessage): the payloads and their
--   bytes. Message keeps a payload as those bytes, and set_data is
--   setDataFromBytes on them.
-- PriorityQueue (Message.h, PriorityQueueT): the ten bands, the mask and the semaphore, over the
--   interface Moodycamel of the concurrent queue. Each member function runs whole.
-- Scheduler (DeliveryScheduler.cpp): enqueueOrSchedule, stop and the worker's loop; Scheduler/System
--   interleaves senders, worker, clock and stop as steps.
-- TransactionBuffer (TransactionBuffer.cpp): the buffer, its log, the restart and recover().
-- Selector (Selector.cpp): Tokenizer, Parser, Values, Logic and Like. Double arithmetic and the
--   number parsers of the standard library are the parameters of Doubles. Of std::regex it has
--   literals, escapes, `.`, `.*` and the two anchors; any other operator has no meaning there.
-- Consumer (Consumer.cpp): redelivery and its backoff; Consumer/Receive (recv; the wait of a negative
--   timeout on an empty queue is an outcome of its own), Consumer/Acknowledge
--   (acknowledgeOn, commit, rollback, recover), Consumer/Send (preparePush, push), Consumer/InFlight
--   (the chain of received messages, as links between objects that are named by numbers). Storage
--   is an interface: what consumers and destinations ask of ConcurrentLinearStorage.
-- LinearStorage (LinearStorage.cpp): LinearStorage/Tom, one file of records as its bytes, and
--   LinearStorage/Storage, the files of a destination with the index over them, for which the B-tree
--   is the interface BTree. LinearStorage/Sweep is scanPrefix. LinearStorage/Image says which
--   bytes a list of records is.
-- ConcurrentLinearStorage (ConcurrentLinearStorage.cpp): the worker's operations, the calls that wait
--   for them, and the expiry sweep, over LinearStorage; ConcurrentLinearStorage/Shutdown interleaves
--   start, stop and the worker's thread.
-- Producer (Producer.cpp): the options of a send and the headers that it fills in.
-- Destination (Destination.cpp, and commit and rollback of Producer.cpp): save and deliverCommitted;
--   Destination/Consumers and Destination/Subscriptions, how consumers come and go, durable ones
--   included, and the replay of the store; Destination/Transactions, the commit of a producer;
--   Destination/DeadLetter; Destination/Names, the keys and directories of subscriptions. A
--   destination calls Consumer/Send, Scheduler and TransactionBuffer.
-- Session (Session.cpp): transaction ids, commit, rollback, recover and the destructor, over the
--   interface Endpoints: what a session calls of producers, consumers and destinations.
-- Connection (Connection.cpp, ConnectionFactory.cpp): the life of a connection, whose sessions are
--   of any type and end, at close, in the order that std::vector destroys them, a parameter.
-- Exchange (Exchange.cpp, DestinationHash.cpp, DestinationType.h): destinations by their hash.
--
-- An int64_t or int32_t is an integer whose range is a hypothesis where it matters; a byte is a
-- number. A clock reading is an argument. Objects behind shared pointers are values: a function
-- that changes a message returns it.
--
-- Bounds and fuel. mask_loop has 17 units for a mask of 16 bits: each turn but the last clears a
-- bit. The parser takes a unit for each call of parseOr and parseNot and each turn of a loop, and a
-- token is consumed before the next unit is taken, so that two units more than the text has bytes
-- are enough; running out is an outcome of its own (no_fuel), apart from the exceptions. recv and
-- the loops of commit and rollback take a unit for each message of the queue and one more. The
-- loops over a file of records take a unit for each record and one more.
--
-- Not modelled: logging, the demonstration program main.cpp, the constants of ConnectionMetaData, and
-- the JSON dumps of whole messages (toJSON with Base64 text), which nothing reads back.
-- Third-party code in external is a parameter.
pub mod Prelude
pub mod Message
pub mod PriorityQueue
pub mod Scheduler
pub mod TransactionBuffer
pub mod Selector
pub mod Body
pub mod ConcurrentLinearStorage
pub mod Connection
pub mod Consumer
pub mod Destination
pub mod Exchange
pub mod LinearStorage
pub mod Producer
pub mod Property
pub mod Session
