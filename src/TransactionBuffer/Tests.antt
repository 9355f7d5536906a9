-- ===== src/TransactionBuffer/Tests.antt =====
-- The theorems on the transaction buffer at small histories.
use tiny_mq.Prelude.{◌≡◌, refl, [], ◌∷◌, none, Bytes, bytes_eq}
use tiny_mq.Prelude.Maps.{find, insert, bytes_key}
use tiny_mq.TransactionBuffer.{
  TransactionBuffer, Batch, empty, add_message, commit_transaction, load_transaction_log, recover,
}
use tiny_mq.TransactionBuffer.Commit.{add_messages, Distinct, commit_transaction-add_messages}
use tiny_mq.TransactionBuffer.Replay.{
  adds, commits, run, logged, Logged, load_transaction_log-run, recover-Logged, empty-Logged,
  add_message-Logged,
}

abbrev first : Bytes
first = 49 ∷ []

abbrev second : Bytes
second = 50 ∷ []

abbrev batch : Batch
batch = (7, 1 ∷ []) ∷ (8, 2 ∷ []) ∷ []

-- Another transaction is open, with one message.
abbrev busy : TransactionBuffer
busy = add_message empty second 5 []

fresh : find first busy.transaction_messages ≡ none
unfolding find insert add_message bytes_eq
fresh = refl

distinct : Distinct batch
distinct = ((refl, tt), (tt, tt))

commit_transaction-add_messages_example :
    (commit_transaction (add_messages busy first batch) first).1 ≡ batch
commit_transaction-add_messages_example =
    commit_transaction-add_messages busy first batch fresh distinct

load_transaction_log-run_example :
    find second
      (load_transaction_log
        (run empty
          (adds first 7 [] ∷ adds second 8 [] ∷ commits first ∷ [])).log).transaction_messages
    ≡ find second
        (run empty (adds first 7 [] ∷ adds second 8 [] ∷ commits first ∷ [])).transaction_messages
load_transaction_log-run_example =
    load_transaction_log-run (adds first 7 [] ∷ adds second 8 [] ∷ commits first ∷ []) second

busy-Logged : Logged busy
busy-Logged = add_message-Logged empty second 5 [] empty-Logged

recover-Logged_example :
    ((id : Bytes) → find id (recover busy).transaction_messages ≡ none)
    × ((id : Bytes) → logged (recover busy).log id ≡ none)
recover-Logged_example = recover-Logged busy busy-Logged
