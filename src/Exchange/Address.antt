-- ===== src/Exchange/Address.antt =====
-- DestinationType.h, DestinationHash.cpp: the address of a destination and its hash.
use tiny_mq.Prelude.{ℕ, ◌++◌, Bytes}
use tiny_mq.Selector.Tokenizer.{codes}
use tiny_mq.Destination.{DestinationType, queue, topic, temporary_queue, temporary_topic}

unfoldable pub type_name : DestinationType → Bytes
type_name queue = codes "queue"
type_name topic = codes "topic"
type_name temporary_queue = codes "temp-queue"
type_name temporary_topic = codes "temp-topic"

-- Poco::format("%s://%s", ...)
unfoldable pub address : DestinationType → Bytes → Bytes
unfolding type_name
address kind name = type_name kind ++ (codes "://" ++ name)

unfoldable pub hash : (Bytes → ℕ) → DestinationType → Bytes → ℕ
unfolding address
hash hash_text kind name = hash_text (address kind name)
