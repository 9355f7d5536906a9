-- ===== src/TransactionBuffer/Replay.antt =====
-- The log against the open transactions: what a restart knows.
use tiny_mq.Prelude.{
  ℕ, ◌≡◌, refl, sym, ap, ◌∙◌, Bool, false, Option, none, some, List, [], ◌∷◌, ◌++◌, ◌||◌, arith,
  if◌then◌else◌, Bytes, bytes_eq, bytes_eq_refl, Option-cases, inl, inr, ℤ,
}
use tiny_mq.Prelude.Maps.{find, keys, find-insert, find-erase, bytes_key, nat_eq}
use tiny_mq.TransactionBuffer.{
  TransactionBuffer, LogLine, begin, add, commit, rollback, empty, ensure_begun, push_message,
  messages_of, add_message, patch_delivery_time, take_buffered, forget, forget_all, close,
  commit_transaction, rollback_transaction, load_line, load_lines, load_transaction_log,
  recover_one, recover_all, recover,
}
use tiny_mq.TransactionBuffer.Commit.{
  messages_of-some, transactions-take_buffered, find-ensure_begun, transactions-forget_all,
}

-- A transaction as a restart over the log finds it.
abbrev pub logged : List LogLine → Bytes → Option (List ℕ)
logged log j = find j (load_lines empty log).transaction_messages

-- The log tells of every transaction exactly the messages that it holds.
abbrev pub Logged : TransactionBuffer → Type 0
Logged s = (j : Bytes) → logged s.log j ≡ find j s.transaction_messages

load_lines-append :
    (s : TransactionBuffer) (log : List LogLine) (line : LogLine)
    → load_lines s (log ++ line ∷ []) ≡ load_line (load_lines s log) line
unfolding load_lines
load_lines-append s [] line = refl
load_lines-append s (x ∷ log) line = load_lines-append (load_line s x) log line

-- One more line, as a change of what is logged.
abbrev effect : Option (List ℕ) → LogLine → Bytes → Option (List ℕ) → Option (List ℕ)
effect own (begin id) j old = if bytes_eq id j then some [] else old
effect none (add id u) j old = old
effect (some l) (add id u) j old = if bytes_eq id j then some (l ++ u ∷ []) else old
effect own (commit id) j old = if bytes_eq id j then none else old
effect own (rollback id) j old = if bytes_eq id j then none else old

abbrev id_of : LogLine → Bytes
id_of (begin id) = id
id_of (add id u) = id
id_of (commit id) = id
id_of (rollback id) = id

find-load_line :
    (s : TransactionBuffer) (line : LogLine) (j : Bytes)
    → find j (load_line s line).transaction_messages
      ≡ effect (find (id_of line) s.transaction_messages) line j (find j s.transaction_messages)
unfolding load_line
find-load_line s (begin id) j = find-insert j id [] s.transaction_messages
find-load_line s (add id u) j = elim (Option-cases (find id s.transaction_messages)) [
  | inl e ↦ rw (e, load_line) refl
  | inr (l, e) ↦ rw (e, load_line) (find-insert j id (l ++ u ∷ []) s.transaction_messages)
]
find-load_line s (commit id) j = find-erase j id s.transaction_messages
find-load_line s (rollback id) j = find-erase j id s.transaction_messages

logged-append :
    (log : List LogLine) (line : LogLine) (j : Bytes)
    → logged (log ++ line ∷ []) j ≡ effect (logged log (id_of line)) line j (logged log j)
logged-append log line j =
    ap (λ (t : TransactionBuffer). find j t.transaction_messages) (load_lines-append empty log line)
    ∙ find-load_line (load_lines empty log) line j

pub empty-Logged : Logged empty
unfolding load_lines
empty-Logged j = refl

ensure_begun-Logged : (s : TransactionBuffer) (id : Bytes) → Logged s → Logged (ensure_begun s id)
unfolding ensure_begun
ensure_begun-Logged s id h j = elim (Option-cases (find id s.transaction_messages)) [
  | inl e ↦
      rw (e, ensure_begun)
        (logged-append s.log (begin id) j
          ∙ rw (h j) (sym (find-insert j id [] s.transaction_messages)))
  | inr (l, e) ↦ rw (e, ensure_begun) (h j)
]

push_message-Logged :
    (s : TransactionBuffer) (id : Bytes) (u : ℕ) (c : Bytes) (l : List ℕ)
    → find id s.transaction_messages ≡ some l
    → Logged s
    → Logged (push_message s id u c)
unfolding push_message
push_message-Logged s id u c l e h j =
    logged-append s.log (add id u) j
    ∙ rw (h id, h j, e)
        (sym
          (rw (messages_of-some s id l e) (find-insert j id (l ++ u ∷ []) s.transaction_messages)))

pub add_message-Logged :
    (s : TransactionBuffer) (id : Bytes) (u : ℕ) (c : Bytes)
    → Logged s
    → Logged (add_message s id u c)
unfolding add_message
add_message-Logged s id u c h =
    push_message-Logged (ensure_begun s id) id u c (messages_of s id)
      (find-ensure_begun s id id ∙ rw (bytes_eq_refl id)) (ensure_begun-Logged s id h)

log-take_buffered : (s : TransactionBuffer) (l : List ℕ) → (take_buffered s l).0.log ≡ s.log
unfolding take_buffered forget
log-take_buffered s [] = refl
log-take_buffered s (u ∷ l) = elim (Option-cases (find u s.buffered_data)) [
  | inl e ↦ rw (e, take_buffered) (log-take_buffered s l)
  | inr (c, e) ↦ rw (e, take_buffered) (log-take_buffered (forget s u) l)
]

log-forget_all : (s : TransactionBuffer) (l : List ℕ) → (forget_all s l).log ≡ s.log
unfolding forget_all forget
log-forget_all s [] = refl
log-forget_all s (u ∷ l) = log-forget_all (forget s u) l

-- Closing a transaction, from a state with the log and the transactions of s.
close-Logged :
    (s t : TransactionBuffer) (id : Bytes)
    → t.log ≡ s.log
    → t.transaction_messages ≡ s.transaction_messages
    → Logged s
    → Logged (close t id (commit id)) × Logged (close t id (rollback id))
unfolding close
close-Logged s t id same_log same h = (
  λ j.
      rw (same_log, same)
        (logged-append s.log (commit id) j
          ∙ rw (h j) (sym (find-erase j id s.transaction_messages))),
  λ j.
      rw (same_log, same)
        (logged-append s.log (rollback id) j
          ∙ rw (h j) (sym (find-erase j id s.transaction_messages))),
)

pub commit_transaction-Logged :
    (s : TransactionBuffer) (id : Bytes) → Logged s → Logged (commit_transaction s id).0
unfolding commit_transaction
commit_transaction-Logged s id h = elim (Option-cases (find id s.transaction_messages)) [
  | inl e ↦ rw (e, commit_transaction) h
  | inr (l, e) ↦
      rw (e, commit_transaction)
        (close-Logged s (take_buffered s l).0 id (log-take_buffered s l)
          (transactions-take_buffered s l) h).0
]

pub rollback_transaction-Logged :
    (s : TransactionBuffer) (id : Bytes) → Logged s → Logged (rollback_transaction s id)
unfolding rollback_transaction
rollback_transaction-Logged s id h = elim (Option-cases (find id s.transaction_messages)) [
  | inl e ↦ rw (e, rollback_transaction) h
  | inr (l, e) ↦
      rw (e, rollback_transaction)
        (close-Logged s (forget_all s l) id (log-forget_all s l) (transactions-forget_all s l) h).1
]

-- The operations of a buffer, as the producers and the session call them.
pub data Operation : Type 0 where
  adds : Bytes → ℕ → Bytes → Operation
  patches : ℕ → ℤ → Operation
  commits rolls_back : Bytes → Operation

unfoldable pub perform : TransactionBuffer → Operation → TransactionBuffer
perform s (adds id u c) = add_message s id u c
perform s (patches u t) = patch_delivery_time s u t
perform s (commits id) = (commit_transaction s id).0
perform s (rolls_back id) = rollback_transaction s id

unfoldable pub run : TransactionBuffer → List Operation → TransactionBuffer
run s [] = s
run s (o ∷ os) = run (perform s o) os

patch-Logged :
    (s : TransactionBuffer) (u : ℕ) (t : ℤ) → Logged s → Logged (patch_delivery_time s u t)
unfolding patch_delivery_time
patch-Logged s u t h = elim (Option-cases (find u s.buffered_data)) [
  | inl e ↦ rw (e, patch_delivery_time) h
  | inr (c, e) ↦ rw (e, patch_delivery_time) h
]

perform-Logged : (s : TransactionBuffer) (o : Operation) → Logged s → Logged (perform s o)
unfolding perform
perform-Logged s (adds id u c) h = add_message-Logged s id u c h
perform-Logged s (patches u t) h = patch-Logged s u t h
perform-Logged s (commits id) h = commit_transaction-Logged s id h
perform-Logged s (rolls_back id) h = rollback_transaction-Logged s id h

run-Logged : (s : TransactionBuffer) (os : List Operation) → Logged s → Logged (run s os)
unfolding run
run-Logged s [] h = h
run-Logged s (o ∷ os) h = run-Logged (perform s o) os (perform-Logged s o h)

-- A restart over the log of any history of operations finds exactly the open transactions of that
-- history, each with the messages that were added to it.
pub load_transaction_log-run :
    (os : List Operation) (id : Bytes)
    → find id (load_transaction_log (run empty os).log).transaction_messages
      ≡ find id (run empty os).transaction_messages
unfolding load_transaction_log
load_transaction_log-run os id = run-Logged empty os empty-Logged id

abbrev listed : Bytes → List Bytes → Bool
listed j [] = false
listed j (k ∷ ks) = bytes_eq k j || listed j ks

unlisted : (j : Bytes) (m : List (Bytes × List ℕ)) → listed j (keys m) ≡ false → find j m ≡ none
unfolding keys find
unlisted j [] h = refl
unlisted j ((k, v) ∷ m) h = ground (arith, unlisted j m)

find-recover_one :
    (s : TransactionBuffer) (id j : Bytes)
    → find j (recover_one s id).transaction_messages
      ≡ (if bytes_eq id j then none else find j s.transaction_messages)
unfolding recover_one close
find-recover_one s id j =
    find-erase j id (forget_all s (messages_of s id)).transaction_messages
    ∙ ap (λ (m : List (Bytes × List ℕ)). if bytes_eq id j then none else find j m)
        (transactions-forget_all s (messages_of s id))

find-recover_all :
    (s : TransactionBuffer) (ks : List Bytes) (j : Bytes)
    → find j (recover_all s ks).transaction_messages
      ≡ (if listed j ks then none else find j s.transaction_messages)
unfolding recover_all
find-recover_all s [] j = refl
find-recover_all s (k ∷ ks) j =
    find-recover_all (recover_one s k) ks j ∙ ground (arith, find-recover_one s k j)

recover_one-Logged : (s : TransactionBuffer) (id : Bytes) → Logged s → Logged (recover_one s id)
unfolding recover_one
recover_one-Logged s id h =
    (close-Logged s (forget_all s (messages_of s id)) id (log-forget_all s (messages_of s id))
      (transactions-forget_all s (messages_of s id)) h).1

recover_all-Logged :
    (s : TransactionBuffer) (ks : List Bytes) → Logged s → Logged (recover_all s ks)
unfolding recover_all
recover_all-Logged s [] h = h
recover_all-Logged s (k ∷ ks) h = recover_all-Logged (recover_one s k) ks (recover_one-Logged s k h)

-- recover() leaves no transaction open, and where the log told of every transaction, it still does:
-- the next restart finds none either.
pub recover-Logged :
    (s : TransactionBuffer)
    → Logged s
    → ((id : Bytes) → find id (recover s).transaction_messages ≡ none)
      × ((id : Bytes) → logged (recover s).log id ≡ none)
unfolding recover
recover-Logged s h =
    (closed, λ id. recover_all-Logged s (keys s.transaction_messages) h id ∙ closed id)
  where
    closed : (id : Bytes) → find id (recover s).transaction_messages ≡ none
    closed id =
        find-recover_all s (keys s.transaction_messages) id
        ∙ ground (arith, unlisted id s.transaction_messages)
