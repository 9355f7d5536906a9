-- ===== src/TransactionBuffer/Commit.antt =====
-- What a transaction collects, what its commit hands to storage, and what a rollback discards.
use tiny_mq.Prelude.{
  ℕ, ◌≡◌, refl, sym, ap, ◌∙◌, false, none, some, List, [], ◌∷◌, ◌++◌, append_assoc, append-nil,
  arith, ◌==◌, if◌then◌else◌, Bytes, bytes_eq, bytes_eq_refl, Option-cases, inl, inr,
}
use tiny_mq.Prelude.Maps.{find, find-insert, find-erase, nat_eq, bytes_key}
use tiny_mq.TransactionBuffer.{
  TransactionBuffer, Batch, ensure_begun, push_message, messages_of, add_message, forget,
  take_buffered, close, commit_transaction, forget_all, rollback_transaction,
}

pub messages_of-none :
    (s : TransactionBuffer) (id : Bytes)
    → find id s.transaction_messages ≡ none
    → messages_of s id ≡ []
messages_of-none s id e = ground arith

pub messages_of-some :
    (s : TransactionBuffer) (id : Bytes) (l : List ℕ)
    → find id s.transaction_messages ≡ some l
    → messages_of s id ≡ l
messages_of-some s id l e = ground arith

-- A send of each message of the batch, in order, in one transaction.
unfoldable pub add_messages : TransactionBuffer → Bytes → Batch → TransactionBuffer
add_messages s id [] = s
add_messages s id ((u, c) ∷ batch) = add_messages (add_message s id u c) id batch

pub find-ensure_begun :
    (s : TransactionBuffer) (id j : Bytes)
    → find j (ensure_begun s id).transaction_messages
      ≡ (if bytes_eq id j then some (messages_of s id) else find j s.transaction_messages)
unfolding ensure_begun
find-ensure_begun s id j =
    ground (arith, find-insert j id [] s.transaction_messages, bytes_key.beq_iff id j)

pub find-add_message :
    (s : TransactionBuffer) (id j : Bytes) (u : ℕ) (c : Bytes)
    → find j (add_message s id u c).transaction_messages
      ≡ (if bytes_eq id j then some (messages_of s id ++ u ∷ []) else find j s.transaction_messages)
unfolding add_message push_message
find-add_message s id j u c = ground (
  arith,
  find-insert j id (messages_of (ensure_begun s id) id ++ u ∷ [])
      (ensure_begun s id).transaction_messages,
  find-ensure_begun s id j,
  find-ensure_begun s id id,
  bytes_eq_refl id,
)

buffered-ensure_begun :
    (s : TransactionBuffer) (id : Bytes) → (ensure_begun s id).buffered_data ≡ s.buffered_data
unfolding ensure_begun
buffered-ensure_begun s id = ground arith

pub buffered-add_message :
    (s : TransactionBuffer) (id : Bytes) (u v : ℕ) (c : Bytes)
    → find v (add_message s id u c).buffered_data
      ≡ (if u == v then some c else find v s.buffered_data)
unfolding add_message push_message
buffered-add_message s id u v c =
    find-insert v u c (ensure_begun s id).buffered_data
    ∙ ap (λ (m : List (ℕ × Bytes)). if u == v then some c else find v m)
        (buffered-ensure_begun s id)

-- No message of the batch has the id u; no two have the same id.
abbrev pub Absent : ℕ → Batch → Type 0
Absent u [] = Unit
Absent u ((v, c) ∷ batch) = ((u == v) ≡ false) × Absent u batch

abbrev pub Distinct : Batch → Type 0
Distinct [] = Unit
Distinct ((u, c) ∷ batch) = Absent u batch × Distinct batch

abbrev AllBuffered : List (ℕ × Bytes) → Batch → Type 0
AllBuffered m [] = Unit
AllBuffered m ((u, c) ∷ batch) = (find u m ≡ some c) × AllBuffered m batch

abbrev pub ids : Batch → List ℕ
ids [] = []
ids ((u, c) ∷ batch) = u ∷ ids batch

AllBuffered-forget :
    (s : TransactionBuffer) (u : ℕ) (batch : Batch)
    → Absent u batch
    → AllBuffered s.buffered_data batch
    → AllBuffered (forget s u).buffered_data batch
unfolding forget
AllBuffered-forget s u [] a h = tt
AllBuffered-forget s u ((v, c) ∷ batch) a h =
    (find-erase v u s.buffered_data ∙ rw a.0 h.0, AllBuffered-forget s u batch a.1 h.1)

take_buffered_lem :
    (s : TransactionBuffer) (batch : Batch)
    → Distinct batch
    → AllBuffered s.buffered_data batch
    → (take_buffered s (ids batch)).1 ≡ batch
unfolding take_buffered
take_buffered_lem s [] d h = refl
take_buffered_lem s ((u, c) ∷ batch) d h =
    rw (h.0, take_buffered)
      (ap (◌∷◌ (u, c))
        (take_buffered_lem (forget s u) batch d.1 (AllBuffered-forget s u batch d.0 h.1)))

-- What later sends of other ids leave alone.
buffered-add_messages :
    (s : TransactionBuffer) (id : Bytes) (u : ℕ) (batch : Batch)
    → Absent u batch
    → find u (add_messages s id batch).buffered_data ≡ find u s.buffered_data
unfolding add_messages
buffered-add_messages s id u [] a = refl
buffered-add_messages s id u ((v, c) ∷ batch) a =
    buffered-add_messages (add_message s id v c) id u batch a.1
    ∙ buffered-add_message s id v u c
    ∙ ground arith

add_messages-AllBuffered :
    (s : TransactionBuffer) (id : Bytes) (batch : Batch)
    → Distinct batch
    → AllBuffered (add_messages s id batch).buffered_data batch
unfolding add_messages
add_messages-AllBuffered s id [] d = tt
add_messages-AllBuffered s id ((u, c) ∷ batch) d = (
  buffered-add_messages (add_message s id u c) id u batch d.0
      ∙ buffered-add_message s id u u c
      ∙ ground arith,
  add_messages-AllBuffered (add_message s id u c) id batch d.1,
)

messages_of-add_message :
    (s : TransactionBuffer) (id : Bytes) (u : ℕ) (c : Bytes)
    → messages_of (add_message s id u c) id ≡ messages_of s id ++ u ∷ []
messages_of-add_message s id u c = ground (arith, find-add_message s id id u c, bytes_eq_refl id)

messages_of-add_messages :
    (s : TransactionBuffer) (id : Bytes) (batch : Batch)
    → messages_of (add_messages s id batch) id ≡ messages_of s id ++ ids batch
unfolding add_messages
messages_of-add_messages s id [] = sym (append-nil (messages_of s id))
messages_of-add_messages s id ((u, c) ∷ batch) =
    messages_of-add_messages (add_message s id u c) id batch
    ∙ ap (λ (l : List ℕ). l ++ ids batch) (messages_of-add_message s id u c)
    ∙ append_assoc (messages_of s id) (u ∷ []) (ids batch)

batch_of_messages :
    (s : TransactionBuffer) (id : Bytes)
    → (commit_transaction s id).1 ≡ (take_buffered s (messages_of s id)).1
unfolding commit_transaction take_buffered
batch_of_messages s id = ground arith

-- The commit of a transaction that was not open before hands over exactly the messages that were
-- added to it, each once and in the order of sending, if their ids are distinct.
pub commit_transaction-add_messages :
    (s : TransactionBuffer) (id : Bytes) (batch : Batch)
    → find id s.transaction_messages ≡ none
    → Distinct batch
    → (commit_transaction (add_messages s id batch) id).1 ≡ batch
commit_transaction-add_messages s id batch fresh d =
    batch_of_messages (add_messages s id batch) id
    ∙ ap (λ (l : List ℕ). (take_buffered (add_messages s id batch) l).1)
        (messages_of-add_messages s id batch
          ∙ ap (λ (l : List ℕ). l ++ ids batch) (messages_of-none s id fresh))
    ∙ take_buffered_lem (add_messages s id batch) batch d (add_messages-AllBuffered s id batch d)

pub transactions-take_buffered :
    (s : TransactionBuffer) (l : List ℕ)
    → (take_buffered s l).0.transaction_messages ≡ s.transaction_messages
unfolding take_buffered forget
transactions-take_buffered s [] = refl
transactions-take_buffered s (u ∷ l) = elim (Option-cases (find u s.buffered_data)) [
  | inl e ↦ rw (e, take_buffered) (transactions-take_buffered s l)
  | inr (c, e) ↦ rw (e, take_buffered) (transactions-take_buffered (forget s u) l)
]

pub transactions-forget_all :
    (s : TransactionBuffer) (l : List ℕ)
    → (forget_all s l).transaction_messages ≡ s.transaction_messages
unfolding forget_all forget
transactions-forget_all s [] = refl
transactions-forget_all s (u ∷ l) = transactions-forget_all (forget s u) l

-- A commit or a rollback closes its own transaction and leaves every other one as it was.
pub find-commit_transaction :
    (s : TransactionBuffer) (id j : Bytes)
    → (find j (commit_transaction s id).0.transaction_messages
        ≡ (if bytes_eq id j then none else find j s.transaction_messages))
      × (find j (rollback_transaction s id).transaction_messages
          ≡ (if bytes_eq id j then none else find j s.transaction_messages))
unfolding commit_transaction rollback_transaction close
find-commit_transaction s id j = elim (Option-cases (find id s.transaction_messages)) [
  | inl e ↦ (ground (arith, bytes_key.beq_iff id j), ground (arith, bytes_key.beq_iff id j))
  | inr (l, e) ↦ (
    rw (e, commit_transaction)
        (find-erase j id (take_buffered s l).0.transaction_messages
          ∙ ap (λ (m : List (Bytes × List ℕ)). if bytes_eq id j then none else find j m)
              (transactions-take_buffered s l)),
    rw (e, rollback_transaction)
        (find-erase j id (forget_all s l).transaction_messages
          ∙ ap (λ (m : List (Bytes × List ℕ)). if bytes_eq id j then none else find j m)
              (transactions-forget_all s l)),
  )
]

no_ids : (t : TransactionBuffer) → (take_buffered t []).1 ≡ []
unfolding take_buffered
no_ids t = refl

-- After a rollback or a commit, another commit of the same transaction hands over nothing.
pub commit_transaction_closed :
    (s : TransactionBuffer) (id : Bytes)
    → ((commit_transaction (rollback_transaction s id) id).1 ≡ [])
      × ((commit_transaction (commit_transaction s id).0 id).1 ≡ [])
commit_transaction_closed s id = (
  nothing (rollback_transaction s id) ((find-commit_transaction s id id).1 ∙ rw (bytes_eq_refl id)),
  nothing (commit_transaction s id).0 ((find-commit_transaction s id id).0 ∙ rw (bytes_eq_refl id)),
)
  where
    nothing :
        (t : TransactionBuffer)
        → find id t.transaction_messages ≡ none
        → (commit_transaction t id).1 ≡ []
    nothing t e =
        batch_of_messages t id
        ∙ ap (λ (l : List ℕ). (take_buffered t l).1) (messages_of-none t id e)
        ∙ no_ids t
