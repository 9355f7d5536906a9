-- ===== src/TransactionBuffer.antt =====
-- TransactionBuffer.h, TransactionBuffer.cpp: messages of open transactions, held back until the
-- commit, and the log that a restart reads. Each function holds the mutex for its whole body but
-- for the append to storage, which commitTransaction returns here as the batch. A log line is
-- kept by its fields: transaction ids are UUID texts or hold neither `|` nor a line break. The log
-- file opens and takes every write.
pub mod Commit
pub mod Replay
mod Tests
use tiny_mq.Prelude.{ℕ, ◌≡◌, Bool, Option, none, some, List, [], ◌∷◌, ◌++◌, ℤ, Bytes}
use tiny_mq.Prelude.Maps.{find, insert, erase, keys, nat_eq, bytes_key}
use tiny_mq.Message.Wire.{patch_delivery_time_in_bytes}

pub data LogLine : Type 0 where
  begin commit rollback : Bytes → LogLine
  add : Bytes → ℕ → LogLine

pub record TransactionBuffer : Type 0 where
  pub transaction_messages : List (Bytes × List ℕ)
  pub message_to_transaction : List (ℕ × Bytes)
  pub buffered_data : List (ℕ × Bytes)
  pub log : List LogLine

abbrev pub empty : TransactionBuffer
empty = record {
  transaction_messages = [];
  message_to_transaction = [];
  buffered_data = [];
  log = [];
}

-- Auto-begin: a transaction that is not there yet is opened and logged.
unfoldable pub ensure_begun : TransactionBuffer → Bytes → TransactionBuffer
ensure_begun s id = elim (find id s.transaction_messages) [
  | none ↦ record s {
    transaction_messages = insert id [] s.transaction_messages;
    log = s.log ++ begin id ∷ [];
  }
  | some ids ↦ s
]

abbrev pub messages_of : TransactionBuffer → Bytes → List ℕ
messages_of s id = elim (find id s.transaction_messages) [ none ↦ [] | some ids ↦ ids ]

unfoldable pub push_message : TransactionBuffer → Bytes → ℕ → Bytes → TransactionBuffer
push_message s id message_id content = record s {
  buffered_data = insert message_id content s.buffered_data;
  message_to_transaction = insert message_id id s.message_to_transaction;
  transaction_messages = insert id (messages_of s id ++ message_id ∷ []) s.transaction_messages;
  log = s.log ++ add id message_id ∷ [];
}

unfoldable pub add_message : TransactionBuffer → Bytes → ℕ → Bytes → TransactionBuffer
unfolding ensure_begun push_message
add_message s id message_id content = push_message (ensure_begun s id) id message_id content

unfoldable pub patch_delivery_time : TransactionBuffer → ℕ → ℤ → TransactionBuffer
patch_delivery_time s message_id delivery_time = elim (find message_id s.buffered_data) [
  | none ↦ s
  | some content ↦ record s {
    buffered_data =
        insert message_id (patch_delivery_time_in_bytes content delivery_time) s.buffered_data;
  }
]

unfoldable pub forget : TransactionBuffer → ℕ → TransactionBuffer
forget s message_id = record s {
  buffered_data = erase message_id s.buffered_data;
  message_to_transaction = erase message_id s.message_to_transaction;
}

abbrev pub Batch : Type 0
Batch = List (ℕ × Bytes)

-- The loop of commitTransaction: what is buffered is moved to the batch.
unfoldable pub take_buffered : TransactionBuffer → List ℕ → TransactionBuffer × Batch
take_buffered s [] = (s, [])
take_buffered s (id ∷ ids) = elim (find id s.buffered_data) [
  | none ↦ take_buffered s ids
  | some content ↦ let (s', batch) = take_buffered (forget s id) ids in (s', (id, content) ∷ batch)
]

unfoldable pub close : TransactionBuffer → Bytes → LogLine → TransactionBuffer
close s id line = record s {
  transaction_messages = erase id s.transaction_messages;
  log = s.log ++ line ∷ [];
}

-- The new state, and the batch that is appended to storage.
unfoldable pub commit_transaction : TransactionBuffer → Bytes → TransactionBuffer × Batch
unfolding take_buffered close
commit_transaction s id = elim (find id s.transaction_messages) [
  | none ↦ (s, [])
  | some ids ↦ let (s', batch) = take_buffered s ids in (close s' id (commit id), batch)
]

unfoldable pub forget_all : TransactionBuffer → List ℕ → TransactionBuffer
forget_all s [] = s
forget_all s (id ∷ ids) = forget_all (forget s id) ids

unfoldable pub rollback_transaction : TransactionBuffer → Bytes → TransactionBuffer
unfolding forget_all close
rollback_transaction s id = elim (find id s.transaction_messages) [
  | none ↦ s
  | some ids ↦ close (forget_all s ids) id (rollback id)
]

-- loadTransactionLog: one line.
unfoldable pub load_line : TransactionBuffer → LogLine → TransactionBuffer
load_line s (begin id) = record s { transaction_messages = insert id [] s.transaction_messages }
load_line s (add id message_id) = elim (find id s.transaction_messages) [
  | none ↦ s
  | some ids ↦ record s {
    transaction_messages = insert id (ids ++ message_id ∷ []) s.transaction_messages;
    message_to_transaction = insert message_id id s.message_to_transaction;
  }
]
load_line s (commit id) = record s { transaction_messages = erase id s.transaction_messages }
load_line s (rollback id) = record s { transaction_messages = erase id s.transaction_messages }

unfoldable pub load_lines : TransactionBuffer → List LogLine → TransactionBuffer
unfolding load_line
load_lines s [] = s
load_lines s (line ∷ lines) = load_lines (load_line s line) lines

-- The state after a restart over a log file.
unfoldable pub load_transaction_log : List LogLine → TransactionBuffer
load_transaction_log log = record (load_lines empty log) { log = log }

unfoldable pub recover_one : TransactionBuffer → Bytes → TransactionBuffer
unfolding forget_all
recover_one s id = close (forget_all s (messages_of s id)) id (rollback id)

unfoldable pub recover_all : TransactionBuffer → List Bytes → TransactionBuffer
unfolding recover_one
recover_all s [] = s
recover_all s (id ∷ ids) = recover_all (recover_one s id) ids

unfoldable pub recover : TransactionBuffer → TransactionBuffer
unfolding recover_all
recover s = recover_all s (keys s.transaction_messages)
