-- ===== src/LinearStorage/Storage.antt =====
-- LinearStorage.cpp, class Storage: the files of a destination by their ids, and the index from
-- uuids to records. The index is a B-tree of an external library (external/btree), whose pool is
-- taken to be large enough.
use tiny_mq.Prelude.{
  ℕ, zero, suc, ◌+◌, ◌%◌, ◌^◌, ◌≡◌, Bool, ◌&&◌, ◌||◌, not, Option, none, some, List, [], ◌∷◌, ◌++◌,
  ltb, ◌==◌, if◌then◌else◌, Bytes, bytes_eq, replicate, is_empty,
}
use tiny_mq.Prelude.Maps.{find, insert, nat_eq}
use tiny_mq.Message.{no_tom}
use tiny_mq.LinearStorage.Tom.{
  Tom, Record, Outcome, ok, fault, invalid_argument, no_such_tom, no_fuel, open_tom, default_record,
  header_size, record_at, data_of, append, remove,
}

-- What the code uses of DiskBTreeMap.
pub record BTree : Type 1 where
  pub Index : Type 0
  pub empty : Index
  pub lookup : Index → Bytes → Option Record
  pub assign : Index → Bytes → Record → Index
  pub erase : Index → Bytes → Index
  pub lookup-empty : (u : Bytes) → lookup empty u ≡ none
  pub lookup-assign :
      (i : Index) (u v : Bytes) (r : Record)
      → lookup (assign i u r) v ≡ (if bytes_eq u v then some r else lookup i v)
  pub lookup-erase :
      (i : Index) (u v : Bytes) → lookup (erase i u) v ≡ (if bytes_eq u v then none else lookup i v)

-- `offset += sizeof(Header) + dataSize`, in 64 bits.
abbrev pub next_offset : ℕ → Record → ℕ
next_offset offset rec = (offset + (header_size + rec.header.data_size)) % 2 ^ 64

-- Where the loops over a file stop: behind its end, or at a record without data.
abbrev pub at_end : Record → Bool
at_end rec = rec.tom_id == no_tom || rec.header.data_size == 0

abbrev pub is_live : Record → Bool
is_live rec = rec.header.deleted == 0

abbrev pub Found : Type 0
Found = List (Record × Bytes)

abbrev pub only_read : Record → Outcome Bytes × Tom → Found × Tom
only_read rec (ok bs, t) = ((rec, bs) ∷ [], t)
only_read rec (fault f, t) = ([], t)

-- What the loop of scan adds for a record: nothing for a deleted one or one that cannot be read.
unfoldable pub live_data : Tom → Record → Found × Tom
unfolding data_of
live_data t rec = if is_live rec then only_read rec (data_of t rec) else ([], t)

abbrev pub with_found : Found → Outcome Found × Tom → Outcome Found × Tom
with_found xs (ok ys, t) = (ok (xs ++ ys), t)
with_found xs (fault f, t) = (fault f, t)

-- What the loop makes of the record at an offset, `next` being its next turn.
abbrev pub scan_live : (Tom → ℕ → Outcome Found × Tom) → ℕ → Found × Tom → Outcome Found × Tom
scan_live next offset (xs, t) = with_found xs (next t offset)

unfoldable pub scan_step :
    (Tom → ℕ → Outcome Found × Tom) → ℕ → Outcome Record × Tom → Outcome Found × Tom
unfolding live_data
scan_step next offset (fault f, t) = (fault f, t)
scan_step next offset (ok rec, t) =
    if at_end rec then (ok [], t) else scan_live next (next_offset offset rec) (live_data t rec)

-- The loop of scan over one file.
unfoldable pub scan_tom : ℕ → Tom → ℕ → Outcome Found × Tom
unfolding scan_step record_at
scan_tom zero t offset = (fault no_fuel, t)
scan_tom (suc n) t offset = scan_step (λ t' o. scan_tom n t' o) offset (record_at t offset)

abbrev pub Toms : Type 0
Toms = List (ℕ × Tom)

abbrev then_scan : Found → Outcome Found × Toms → Outcome Found × Toms
then_scan xs (ok ys, toms') = (ok (xs ++ ys), toms')
then_scan xs (fault f, toms') = (fault f, toms')

-- scan: the files in the order of the hash map, with the state of their streams.
unfoldable pub scan : ℕ → Toms → Outcome Found × Toms
unfolding scan_tom
scan fuel [] = (ok [], [])
scan fuel ((id, t) ∷ toms) =
    let (r, t') = scan_tom fuel t 0 in
    let (rest, toms') = scan fuel toms in
    elim r [ fault f ↦ (fault f, (id, t') ∷ toms) | ok xs ↦ then_scan xs (rest, (id, t') ∷ toms') ]

module _ (tree : BTree) where
  abbrev index_record : tree.Index → Record → tree.Index
  index_record index rec = if is_live rec then tree.assign index rec.header.uuid rec else index

  unfoldable pub index_step :
      (Tom → ℕ → tree.Index → Outcome tree.Index × Tom)
      → ℕ
      → tree.Index
      → Outcome Record × Tom
      → Outcome tree.Index × Tom
  index_step next offset index (fault f, t) = (fault f, t)
  index_step next offset index (ok rec, t) =
      if at_end rec then (ok index, t) else next t (next_offset offset rec) (index_record index rec)

  -- The loop of rebuildIndex over one file.
  unfoldable pub index_tom : ℕ → Tom → ℕ → tree.Index → Outcome tree.Index × Tom
  unfolding index_step record_at
  index_tom zero t offset index = (fault no_fuel, t)
  index_tom (suc n) t offset index =
      index_step (λ t' o i. index_tom n t' o i) offset index (record_at t offset)

  pub record Storage : Type 0 where
    pub toms : List (ℕ × Tom)
    pub current_tom_id : ℕ
    pub index : tree.Index

  -- rebuildIndex: the files in the order of the hash map.
  unfoldable pub rebuild_index : ℕ → List (ℕ × Tom) → tree.Index → Outcome tree.Index
  unfolding index_tom
  rebuild_index fuel [] index = ok index
  rebuild_index fuel ((id, t) ∷ toms) index = elim (index_tom fuel t 0 index).0 [
    | ok index' ↦ rebuild_index fuel toms index'
    | fault f ↦ fault f
  ]

  abbrev highest_id : List (ℕ × Tom) → ℕ → ℕ
  highest_id [] best = best
  highest_id ((id, t) ∷ toms) best = highest_id toms (if ltb best id then id else best)

  abbrev opened : List (ℕ × Tom) → Outcome tree.Index → Outcome Storage
  opened toms (fault f) = fault f
  opened toms (ok index) =
      ok (record { toms = toms; current_tom_id = highest_id toms 0; index = index })

  -- The constructor, over the files that were found.
  unfoldable pub open_storage : ℕ → List (ℕ × Tom) → Outcome Storage
  unfolding rebuild_index
  open_storage fuel toms = opened toms (rebuild_index fuel toms tree.empty)

  abbrev with_tom : Storage → ℕ → Tom → Storage
  with_tom s id t = record s { toms = insert id t s.toms }

  -- currentTom: the first append to an empty store creates the file with the next id.
  unfoldable pub current_tom : Storage → (ℕ × Tom) × Storage
  unfolding open_tom
  current_tom s = elim (find s.current_tom_id s.toms) [
    | some t ↦ ((s.current_tom_id, t), s)
    | none ↦
        let id = s.current_tom_id + 1 in
        let t = open_tom id [] in ((id, t), record (with_tom s id t) { current_tom_id = id })
  ]

  abbrev pub indexed : Storage → ℕ → Outcome Record × Tom → Outcome Record × Storage
  indexed s id (fault f, t) = (fault f, with_tom s id t)
  indexed s id (ok rec, t) =
      (ok rec, record (with_tom s id t) { index = tree.assign s.index rec.header.uuid rec })

  unfoldable pub append_record : Storage → Bytes → Bytes → Bytes → Outcome Record × Storage
  unfolding current_tom append
  append_record s uuid padding data_ =
      let ((id, t), s') = current_tom s in
      if is_empty data_
      then (fault invalid_argument, s)
      else indexed s' id (append t uuid padding data_)

  -- record(uuid): the default record where the index has none.
  unfoldable pub record_of : Storage → Bytes → Record
  record_of s uuid = elim (tree.lookup s.index uuid) [ none ↦ default_record | some rec ↦ rec ]

  -- record(tomId, offset)
  unfoldable pub record_in : Storage → ℕ → ℕ → Outcome Record × Storage
  unfolding record_at
  record_in s id offset = elim (find id s.toms) [
    | none ↦ (fault no_such_tom, s)
    | some t ↦ let (r, t') = record_at t offset in (r, with_tom s id t')
  ]

  unfoldable pub data_in : Storage → Record → Outcome Bytes × Storage
  unfolding data_of
  data_in s rec = elim (find rec.tom_id s.toms) [
    | none ↦ (fault no_such_tom, s)
    | some t ↦ let (d, t') = data_of t rec in (d, with_tom s rec.tom_id t')
  ]

  abbrev null_uuid : Bytes
  null_uuid = replicate 16 0

  -- A record without its uuid is looked up in the file; a failure leaves the uuid null.
  unfoldable pub uuid_of : Tom → Record → Bytes × Tom
  unfolding record_at
  uuid_of t rec =
      let (r, t') = record_at t rec.offset in
      if bytes_eq rec.header.uuid null_uuid
      then (elim r [ ok on_disk ↦ on_disk.header.uuid | fault f ↦ null_uuid ], t')
      else (rec.header.uuid, t)

  abbrev erased : Storage → Bool → Bytes → tree.Index
  erased s success uuid =
      if success && not (bytes_eq uuid null_uuid) then tree.erase s.index uuid else s.index

  unfoldable pub remove_from : Storage → Record → Outcome (Bool × Record) × Storage
  unfolding uuid_of remove
  remove_from s rec = elim (find rec.tom_id s.toms) [
    | none ↦ (fault no_such_tom, s)
    | some t ↦
        let (uuid, t1) = uuid_of t rec in
        let (success, rec', t2) = remove t1 rec in
        (ok (success, rec'), record (with_tom s rec.tom_id t2) { index = erased s success uuid })
  ]
