-- ===== src/ConcurrentLinearStorage/RoundTrip.antt =====
-- ConcurrentLinearStorage.cpp, LinearStorage.cpp: an append and the calls that ask for its record.
use tiny_mq.Prelude.{
  ℕ, ◌+◌, ◌^◌, ◌<◌, ◌≡◌, refl, ap, ◌∙◌, true, false, some, List, [], ◌∷◌, arith, Bytes,
  bytes_eq_refl, is_empty, length,
}
use tiny_mq.Prelude.Maps.{find, insert, nat_eq, find-insert_same}
use tiny_mq.LinearStorage.Tom.{Tom, Record, Outcome, ok, data_of}
use tiny_mq.LinearStorage.Storage.{
  BTree, Storage, append_record, record_of, data_in, current_tom, indexed,
}
use tiny_mq.LinearStorage.Image.{Slot, IsSlot, Holds, slot_size, record_of_slot}
use tiny_mq.LinearStorage.Write.{new_slot, append-Holds}
use tiny_mq.ConcurrentLinearStorage.{
  Worker, Operation, new_operation, append, get_record_by_uuid, get_data_by_record, with_record,
  with_data, answer, perform, call, append_call, record_call, data_call,
}

module _ (tree : BTree) where
  -- What append leaves in the store.
  abbrev after_append : Storage tree → ℕ → Record → Tom → Storage tree
  after_append s id rec t = record s {
    toms = insert id t s.toms;
    index = tree.assign s.index rec.header.uuid rec;
  }

  append_record_step :
      (s : Storage tree) (t : Tom) (uuid padding content : Bytes)
      → find s.current_tom_id s.toms ≡ some t
      → is_empty content ≡ false
      → append_record tree s uuid padding content
        ≡ indexed tree s s.current_tom_id (tiny_mq.LinearStorage.Tom.append t uuid padding content)
  unfolding append_record current_tom
  append_record_step s t uuid padding content f e = rw (f, e, append_record, current_tom) refl

  append_record_run :
      (s : Storage tree) (t t' : Tom) (uuid padding content : Bytes) (rec : Record)
      → find s.current_tom_id s.toms ≡ some t
      → is_empty content ≡ false
      → tiny_mq.LinearStorage.Tom.append t uuid padding content ≡ (ok rec, t')
      → append_record tree s uuid padding content ≡ (ok rec, after_append s s.current_tom_id rec t')
  append_record_run s t t' uuid padding content rec f e run =
      append_record_step s t uuid padding content f e ∙ ap (indexed tree s s.current_tom_id) run

  record_of_run :
      (s : Storage tree) (id : ℕ) (rec : Record) (t : Tom)
      → record_of tree (after_append s id rec t) rec.header.uuid ≡ rec
  unfolding record_of
  record_of_run s id rec t =
      rw
        (
          tree.lookup-assign s.index rec.header.uuid rec.header.uuid rec,
          bytes_eq_refl rec.header.uuid,
          record_of,
        )
        refl

  data_in_run :
      (s : Storage tree) (id : ℕ) (rec : Record) (t : Tom) (content : Bytes)
      → rec.tom_id ≡ id
      → data_of t rec ≡ (ok content, t)
      → (data_in tree (after_append s id rec t) rec).0 ≡ ok content
  unfolding data_in
  data_in_run s id rec t content i e =
      rw (i, find-insert_same id t s.toms, data_in) (ap (λ r. r.0) e)

  -- A call on a worker that runs is performed.
  call_runs :
      (fuel : ℕ) (padding : Bytes) (op : Operation) (w : Worker tree)
      → w.running ≡ true
      → let r = perform tree fuel padding op w.storage in
        call tree fuel padding op w ≡ some (r.0, record w { storage = r.1 })
  unfolding call
  call_runs fuel padding op w e = rw e refl

  append_answer :
      (fuel : ℕ) (padding uuid content : Bytes) (w : Worker tree) (rec : Record) (s1 : Storage tree)
      → w.running ≡ true
      → append_record tree w.storage uuid padding content ≡ (ok rec, s1)
      → append_call tree fuel padding uuid content w ≡ some (rec, record w { storage = s1 })
  unfolding append_call perform
  append_answer fuel padding uuid content w rec s1 r e =
      let op : Operation = record (new_operation append) { uuid = uuid; content = content } in
      ap (answer tree (λ o. o.record_)) (call_runs fuel padding op w r)
      ∙ ap
          (λ x.
            some (
              (with_record tree op x).0.record_,
              (record w { storage = (with_record tree op x).1 }),
            ))
          e

  record_answer :
      (fuel : ℕ) (padding uuid : Bytes) (w : Worker tree) (rec : Record)
      → w.running ≡ true
      → record_of tree w.storage uuid ≡ rec
      → record_call tree fuel padding uuid w ≡ some (rec, w)
  unfolding record_call perform
  record_answer fuel padding uuid w rec r e =
      ap (answer tree (λ o. o.record_))
        (call_runs fuel padding (record (new_operation get_record_by_uuid) { uuid = uuid }) w r)
      ∙ ap (λ x. some (x, w)) e

  content-with_data :
      (op : Operation) (r : Outcome Bytes × Storage tree) (bs : Bytes)
      → r.0 ≡ ok bs
      → (with_data tree op r).0.content ≡ bs
  content-with_data op (o, s) bs e = ap (λ x. (with_data tree op (x, s)).0.content) e

  data_answer :
      (fuel : ℕ) (padding content : Bytes) (w : Worker tree) (rec : Record)
      → w.running ≡ true
      → (data_in tree w.storage rec).0 ≡ ok content
      → (w2 : Worker tree) × (data_call tree fuel padding rec w ≡ some (content, w2))
  unfolding data_call perform
  data_answer fuel padding content w rec r e =
      let op : Operation = record (new_operation get_data_by_record) { record_ = rec } in
      let w2 : Worker tree = record w {
        storage = (with_data tree op (data_in tree w.storage rec)).1;
      } in
      (
        w2,
        ap (answer tree (λ o. o.content)) (call_runs fuel padding op w r)
            ∙ ap (λ x. some (x, w2)) (content-with_data op (data_in tree w.storage rec) content e),
      )

  filled : (content : Bytes) → 0 < length content → is_empty content ≡ false
  filled [] h = absurd (omega arith)
  filled (c ∷ cs) h = refl

  -- What the three calls answer.
  abbrev pub ReadsBack : ℕ → Bytes → Bytes → Bytes → Worker tree → Record → Worker tree → Type 0
  ReadsBack fuel padding uuid content w rec w1 =
      (append_call tree fuel padding uuid content w ≡ some (rec, w1))
      × (record_call tree fuel padding uuid w1 ≡ some (rec, w1))
      × ((w2 : Worker tree) × (data_call tree fuel padding rec w1 ≡ some (content, w2)))

  -- Where the current file of the store is one of records, and its new size fits 64 bits: a call of
  -- append on a running worker returns a record, the uuid is then found at this record, and its data
  -- are those that were appended.
  pub append_call-ReadsBack :
      (fuel : ℕ) (padding uuid content : Bytes) (w : Worker tree) (t : Tom) (ss : List Slot)
      → w.running ≡ true
      → find w.storage.current_tom_id w.storage.toms ≡ some t
      → t.id ≡ w.storage.current_tom_id
      → Holds t ss
      → IsSlot (new_slot uuid padding content)
      → t.size + slot_size (new_slot uuid padding content) < 2 ^ 64
      → (w1 : Worker tree) × ReadsBack fuel padding uuid content w
          (record_of_slot t.id t.size (new_slot uuid padding content))
          w1
  append_call-ReadsBack fuel padding uuid content w t ss r f i h k b =
      let rec = record_of_slot t.id t.size (new_slot uuid padding content) in
      let (out, holds, at, bytes) = append-Holds t ss uuid padding content h k b in
      let t' = (tiny_mq.LinearStorage.Tom.append t uuid padding content).1 in
      let s1 = after_append w.storage w.storage.current_tom_id rec t' in
      let w1 : Worker tree = record w { storage = s1 } in
      let ran =
        append_record_run w.storage t t' uuid padding content rec f (filled content k.content)
          (ap (λ o. (o, t')) out) in
      (
        w1,
        (
          append_answer fuel padding uuid content w rec s1 r ran,
          record_answer fuel padding uuid w1 rec r
              (record_of_run w.storage w.storage.current_tom_id rec t'),
          data_answer fuel padding content w1 rec r
              (data_in_run w.storage w.storage.current_tom_id rec t' content i bytes),
        ),
      )
