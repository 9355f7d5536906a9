-- ===== src/ConcurrentLinearStorage.antt =====
-- ConcurrentLinearStorage.h, ConcurrentLinearStorage.cpp: the worker thread in front of linear
-- storage. A call puts an operation into the queue and waits until the worker has performed it, so
-- that calls are performed whole, one after another; `none` is a call that waits for a worker that
-- has stopped. `padding` is what the padding of a header holds, `fuel` bounds the loops over a file.
pub mod RoundTrip
pub mod Shutdown
mod Tests
use tiny_mq.Prelude.{
  ℕ, zero, suc, ◌-◌, ◌^◌, Bool, true, false, not, Option, none, some, List, [], ◌∷◌, ◌==◌,
  if◌then◌else◌, ℤ, pos, ltb_ℤ, leb_ℤ, ◌-ℤ◌, Bytes, is_empty, replicate, ◌&&◌,
}
use tiny_mq.Message.{no_tom, is_zero}
use tiny_mq.Message.Wire.{expiration_in_prefix}
use tiny_mq.LinearStorage.Tom.{Record, Outcome, ok, fault, default_record}
use tiny_mq.LinearStorage.Storage.{
  BTree, Storage, Found, append_record, record_of, record_in, data_in, remove_from,
}
use tiny_mq.LinearStorage.Sweep.{Sweep, SweepCursor, scan_prefix}

pub data OperationId : Type 0 where
  get_record_by_tom_offset get_record_by_uuid get_data_by_record append remove : OperationId
  stop scan append_batch : OperationId

pub record Operation : Type 0 where
  pub id : OperationId
  pub uuid : Bytes
  pub tom_id : ℕ
  pub offset : ℕ
  pub content : Bytes
  pub record_ : Record
  pub scan_result : Found
  pub batch_items : List (Bytes × Bytes)
  pub async : Bool

-- `Operation operation;` with its id.
abbrev pub new_operation : OperationId → Operation
new_operation id = record {
  id = id;
  uuid = replicate 16 0;
  tom_id = 0;
  offset = 0;
  content = [];
  record_ = default_record;
  scan_result = [];
  batch_items = [];
  async = false;
}

-- kPrefixLen and kSweepBudget.
abbrev pub prefix_len : ℕ
prefix_len = 43

abbrev pub sweep_budget : ℕ
sweep_budget = 4096

module _ (tree : BTree) where
  abbrev pub with_record : Operation → Outcome Record × Storage tree → Operation × Storage tree
  with_record op (ok rec, s) = (record op { record_ = rec }, s)
  with_record op (fault f, s) = (op, s)

  abbrev pub with_data : Operation → Outcome Bytes × Storage tree → Operation × Storage tree
  with_data op (ok bs, s) = (record op { content = bs }, s)
  with_data op (fault f, s) = (op, s)

  abbrev with_removed :
      Operation → Outcome (Bool × Record) × Storage tree → Operation × Storage tree
  with_removed op (ok (done, rec), s) = (record op { record_ = rec }, s)
  with_removed op (fault f, s) = (op, s)

  abbrev next_append : Outcome Record × Storage tree → (Storage tree → Storage tree) → Storage tree
  next_append (ok rec, s) next = next s
  next_append (fault f, s) next = s

  -- The loop of APPEND_BATCH ends at the first exception.
  unfoldable pub append_all : Bytes → List (Bytes × Bytes) → Storage tree → Storage tree
  append_all padding [] s = s
  append_all padding ((uuid, content) ∷ items) s =
      next_append (append_record tree s uuid padding content) (λ s'. append_all padding items s')

  abbrev with_scan :
      Operation
      → Storage tree
      → Outcome Found × List (ℕ × tiny_mq.LinearStorage.Tom.Tom)
      → Operation × Storage tree
  with_scan op s (ok found, toms) = (record op { scan_result = found }, record s { toms = toms })
  with_scan op s (fault f, toms) = (op, record s { toms = toms })

  -- The switch of run(); an exception is logged and leaves the operation's results as they were.
  unfoldable pub perform : ℕ → Bytes → Operation → Storage tree → Operation × Storage tree
  unfolding append_all
  perform fuel padding op s = elim op.id [
    | get_record_by_tom_offset ↦ with_record op (record_in tree s op.tom_id op.offset)
    | get_record_by_uuid ↦ (record op { record_ = record_of tree s op.uuid }, s)
    | get_data_by_record ↦ with_data op (data_in tree s op.record_)
    | append ↦ with_record op (append_record tree s op.uuid padding op.content)
    | remove ↦ with_removed op (remove_from tree s op.record_)
    | append_batch ↦ (op, append_all padding op.batch_items s)
    | scan ↦ with_scan op s (tiny_mq.LinearStorage.Storage.scan fuel s.toms)
    | stop ↦ (op, s)
  ]

  pub record Worker : Type 0 where
    pub storage : Storage tree
    pub running : Bool
    pub sweep_interval_us : ℤ
    pub last_sweep_us : ℤ
    pub cursor : SweepCursor

  unfoldable pub expired : ℤ → Bytes → Bool
  expired now_ms prefix = elim (expiration_in_prefix prefix) [
    | none ↦ false
    | some e ↦ not (is_zero e) && leb_ℤ e now_ms
  ]

  abbrev after_remove :
      Outcome (Bool × Record) × Storage tree → (Storage tree → Storage tree) → Storage tree
  after_remove (ok r, s) next = next s
  after_remove (fault f, s) next = s

  -- The loop of sweepExpired over the prefixes that were read.
  unfoldable pub remove_expired : ℤ → Found → Storage tree → Storage tree
  unfolding expired
  remove_expired now_ms [] s = s
  remove_expired now_ms ((rec, prefix) ∷ found) s =
      let rest : Storage tree → Storage tree = λ s'. remove_expired now_ms found s' in
      if expired now_ms prefix then after_remove (remove_from tree s rec) rest else rest s

  abbrev swept : ℤ → Worker → Outcome Sweep → Worker
  swept now_ms w (fault f) = w
  swept now_ms w (ok found) = record w {
    storage = remove_expired now_ms found.found (record (w.storage) { toms = found.toms });
    cursor = found.cursor;
  }

  -- sweepExpired. After an exception the cursor is where it was.
  unfoldable pub sweep_expired : ℕ → ℤ → Worker → Worker
  unfolding remove_expired
  sweep_expired fuel now_ms w =
      swept now_ms w (scan_prefix fuel prefix_len sweep_budget w.cursor w.storage.toms)

  unfoldable pub sweep_if_due : ℕ → ℤ → ℤ → Worker → Worker
  unfolding sweep_expired
  sweep_if_due fuel now_us now_ms w =
      if leb_ℤ w.sweep_interval_us (now_us -ℤ w.last_sweep_us)
      then record (sweep_expired fuel now_ms w) { last_sweep_us = now_us }
      else w

  abbrev is_stop : OperationId → Bool
  is_stop stop = true
  is_stop _ = false

  abbrev performed : ℕ → ℤ → ℤ → Worker → Operation × Storage tree → Operation × Worker
  performed fuel now_us now_ms w (op, s) =
      (op, sweep_if_due fuel now_us now_ms (record w { storage = s }))

  -- A turn of run() with an operation, and the sweep that may follow it.
  unfoldable pub turn : ℕ → Bytes → ℤ → ℤ → Operation → Worker → Operation × Worker
  unfolding perform sweep_if_due
  turn fuel padding now_us now_ms op w =
      if is_stop op.id
      then (op, record w { running = false })
      else performed fuel now_us now_ms w (perform fuel padding op w.storage)

  -- A turn without an operation.
  unfoldable pub idle_turn : ℕ → ℤ → ℤ → Worker → Worker
  unfolding sweep_if_due
  idle_turn fuel now_us now_ms w = sweep_if_due fuel now_us now_ms w

  -- Enqueue and wait; the sweep after the operation is a turn of its own here.
  unfoldable pub call : ℕ → Bytes → Operation → Worker → Option (Operation × Worker)
  unfolding perform
  call fuel padding op w =
      let (op', s) = perform fuel padding op w.storage in
      if w.running then some (op', record w { storage = s }) else none

  abbrev pub answer {ℓ} :
      {A : Type ℓ} → (Operation → A) → Option (Operation × Worker) → Option (A × Worker)
  answer f none = none
  answer f (some (op, w)) = some (f op, w)

  unfoldable pub append_call : ℕ → Bytes → Bytes → Bytes → Worker → Option (Record × Worker)
  unfolding call
  append_call fuel padding uuid content w =
      answer (λ op. op.record_)
        (call fuel padding (record (new_operation append) { uuid = uuid; content = content }) w)

  unfoldable pub record_call : ℕ → Bytes → Bytes → Worker → Option (Record × Worker)
  unfolding call
  record_call fuel padding uuid w =
      answer (λ op. op.record_)
        (call fuel padding (record (new_operation get_record_by_uuid) { uuid = uuid }) w)

  unfoldable pub record_at_call : ℕ → Bytes → ℕ → ℕ → Worker → Option (Record × Worker)
  unfolding call
  record_at_call fuel padding tom_id offset w =
      answer (λ op. op.record_)
        (call fuel padding
          (record (new_operation get_record_by_tom_offset) { tom_id = tom_id; offset = offset }) w)

  unfoldable pub data_call : ℕ → Bytes → Record → Worker → Option (Bytes × Worker)
  unfolding call
  data_call fuel padding rec w =
      answer (λ op. op.content)
        (call fuel padding (record (new_operation get_data_by_record) { record_ = rec }) w)

  unfoldable pub remove_call : ℕ → Bytes → Record → Worker → Option (Bool × Worker)
  unfolding call
  remove_call fuel padding rec w =
      answer (λ op. not (op.record_.header.deleted == 0))
        (call fuel padding (record (new_operation remove) { record_ = rec }) w)

  unfoldable pub append_batch_call :
      ℕ → Bytes → List (Bytes × Bytes) → Worker → Option (Unit {0} × Worker)
  unfolding call
  append_batch_call fuel padding [] w = some (tt, w)
  append_batch_call fuel padding (item ∷ items) w =
      answer (λ op. tt)
        (call fuel padding (record (new_operation append_batch) { batch_items = item ∷ items }) w)

  unfoldable pub scan_call : ℕ → Bytes → Worker → Option (Found × Worker)
  unfolding call
  scan_call fuel padding w =
      answer (λ op. op.scan_result) (call fuel padding (new_operation scan) w)

  -- removeAsync: what the worker makes of the operation, when it comes to it.
  unfoldable pub remove_async : ℕ → Bytes → Record → Worker → Worker
  unfolding perform
  remove_async fuel padding rec w =
      let op : Operation = record (new_operation remove) { record_ = rec; async = true } in
      if rec.tom_id == no_tom
      then w
      else record w { storage = (perform fuel padding op w.storage).1 }

  unfoldable pub set_sweep_interval_micros : ℤ → Worker → Worker
  set_sweep_interval_micros us w =
      if ltb_ℤ (pos 0) us then record w { sweep_interval_us = us } else w
