-- ===== src/LinearStorage/Scan.antt =====
-- LinearStorage.cpp: what scan and rebuildIndex find in a file of records.
use tiny_mq.Prelude.{
  ℕ, zero, suc, ◌+◌, ◌<◌, ◌≡◌, refl, ap, ◌∙◌, false, Option, some, List, [], ◌∷◌, ◌&&◌, ◌==◌, arith,
  if◌then◌else◌, Bool-cases, inl, inr, Bytes, bytes_eq, length,
}
use tiny_mq.LinearStorage.Tom.{Tom, Record, Outcome, ok, default_record, record_at}
use tiny_mq.LinearStorage.Storage.{
  BTree, Found, next_offset, at_end, live_data, scan_tom, index_tom, scan_step, index_step,
  scan_live, only_read, with_found,
}
use tiny_mq.LinearStorage.Image.{
  Slot, IsSlot, AllSlots, IsOpen, Holds, At, StartsAt, At→StartsAt, next_slot, slot_size,
  record_of_slot, record_at_slot, record_at_end, data_of_slot, image,
}

-- The records that are not deleted, with their data, where the first one stands at `offset`.
unfoldable pub live_slots : ℕ → ℕ → List Slot → Found
live_slots id offset [] = []
live_slots id offset (s ∷ ss) =
    if s.deleted == 0
    then (record_of_slot id offset s, s.content) ∷ live_slots id (offset + slot_size s) ss
    else live_slots id (offset + slot_size s) ss

-- A record of a file is no end of it.
at_end-slot :
    (t : Tom) (offset : ℕ) (s : Slot)
    → IsOpen t
    → IsSlot s
    → at_end (record_of_slot t.id offset s) ≡ false
at_end-slot t offset s o h =
    let filled : (length s.content == 0) ≡ false = let k = h.content in ground arith in
    rw (o.named, filled) refl

live_data_slot :
    (t : Tom) (offset : ℕ) (s : Slot) (rest : Bytes)
    → IsOpen t
    → IsSlot s
    → StartsAt t offset s rest
    → live_data t (record_of_slot t.id offset s)
      ≡ ((if s.deleted == 0 then (record_of_slot t.id offset s, s.content) ∷ [] else []), t)
unfolding live_data
live_data_slot t offset s rest o h l = elim (Bool-cases (s.deleted == 0)) [
  | inl e ↦
      rw e (ap (only_read (record_of_slot t.id offset s)) (data_of_slot t offset s rest o h l))
  | inr e ↦ rw e refl
]

scan_step_slot :
    (next : Tom → ℕ → Outcome Found × Tom) (t : Tom) (offset : ℕ) (s : Slot) (rest : Bytes)
    → IsOpen t
    → IsSlot s
    → StartsAt t offset s rest
    → scan_step next offset (record_at t offset)
      ≡ with_found
          (if s.deleted == 0 then (record_of_slot t.id offset s, s.content) ∷ [] else [])
          (next t (offset + slot_size s))
unfolding scan_step
scan_step_slot next t offset s rest o h l =
    ap (scan_step next offset) (record_at_slot t offset s rest o h l)
    ∙ rw (at_end-slot t offset s o h) (
        ap (scan_live next (next_offset offset (record_of_slot t.id offset s)))
          (live_data_slot t offset s rest o h l)
        ∙ rw (next_slot t offset s rest o h l).0 refl)

scan_step_end :
    (next : Tom → ℕ → Outcome Found × Tom) (offset : ℕ) (t : Tom)
    → scan_step next offset (ok default_record, t) ≡ (ok [], t)
unfolding scan_step
scan_step_end next offset t = refl

scan_from :
    (n : ℕ) (t : Tom) (offset : ℕ) (ss : List Slot)
    → IsOpen t
    → AllSlots ss
    → At t offset ss
    → length ss < n
    → scan_tom n t offset ≡ (ok (live_slots t.id offset ss), t)
unfolding scan_tom live_slots
scan_from zero t offset ss o a l h = elim h [ ]
scan_from (suc n) t offset [] o a l h =
    ap (scan_step (λ t' o'. scan_tom n t' o') offset) (record_at_end t offset l)
    ∙ scan_step_end (λ t' o'. scan_tom n t' o') offset t
scan_from (suc n) t offset (s ∷ ss) o (h, a) l k =
    let (_, e', l') = next_slot t offset s (image ss) o h (At→StartsAt t offset s ss h l) in
    scan_step_slot (λ t' o'. scan_tom n t' o') t offset s (image ss) o h
      (At→StartsAt t offset s ss h l)
    ∙ (ap
          (with_found
            (if s.deleted == 0 then (record_of_slot t.id offset s, s.content) ∷ [] else []))
          (scan_from n t (offset + slot_size s) ss o a (e', l') (omega arith))
        ∙ ground arith)

-- The scan of a file of records, with fuel for one turn more than there are records, finds exactly
-- the records that are not deleted, in order, each with its data, and leaves the file as it was.
pub scan_tom-Holds :
    (n : ℕ) (t : Tom) (ss : List Slot)
    → Holds t ss
    → length ss < n
    → scan_tom n t 0 ≡ (ok (live_slots t.id 0 ss), t)
scan_tom-Holds n t ss h k =
    scan_from n t 0 ss h.is_open h.slots (h.file, omega (arith, ap length h.file, h.is_open.size)) k

-- The last record with a uuid that is not deleted, else `old`.
unfoldable pub last_live : ℕ → ℕ → List Slot → Bytes → Option Record → Option Record
last_live id offset [] u old = old
last_live id offset (s ∷ ss) u old =
    last_live id (offset + slot_size s) ss u
      (if s.deleted == 0 && bytes_eq s.uuid u then some (record_of_slot id offset s) else old)

module _ (tree : BTree) where
  abbrev Finds : ℕ → ℕ → List Slot → tree.Index → Tom → Outcome tree.Index × Tom → Type 0
  Finds id offset ss index t r =
      (index' : tree.Index) × (r ≡ (ok index', t))
      × ((u : Bytes) → tree.lookup index' u ≡ last_live id offset ss u (tree.lookup index u))

  pub index_step_slot :
      (next : Tom → ℕ → tree.Index → Outcome tree.Index × Tom) (t : Tom) (offset : ℕ) (s : Slot)
      (rest : Bytes) (index : tree.Index)
      → IsOpen t
      → IsSlot s
      → StartsAt t offset s rest
      → index_step tree next offset index (record_at t offset)
        ≡ next t (offset + slot_size s) (
            if s.deleted == 0
            then tree.assign index s.uuid (record_of_slot t.id offset s)
            else index)
  unfolding index_step
  index_step_slot next t offset s rest index o h l =
      ap (index_step tree next offset index) (record_at_slot t offset s rest o h l)
      ∙ rw (at_end-slot t offset s o h, (next_slot t offset s rest o h l).0) refl

  index_step_end :
      (next : Tom → ℕ → tree.Index → Outcome tree.Index × Tom) (offset : ℕ) (index : tree.Index)
      (t : Tom)
      → index_step tree next offset index (ok default_record, t) ≡ (ok index, t)
  unfolding index_step
  index_step_end next offset index t = refl

  index_from :
      (n : ℕ) (t : Tom) (offset : ℕ) (ss : List Slot) (index : tree.Index)
      → IsOpen t
      → AllSlots ss
      → At t offset ss
      → length ss < n
      → Finds t.id offset ss index t (index_tom tree n t offset index)
  unfolding index_tom last_live
  index_from zero t offset ss index o a l h = elim h [ ]
  index_from (suc n) t offset [] index o a l h = (
    index,
    ap (index_step tree (λ t' o' i. index_tom tree n t' o' i) offset index)
          (record_at_end t offset l)
        ∙ index_step_end (λ t' o' i. index_tom tree n t' o' i) offset index t,
    λ u. refl,
  )
  index_from (suc n) t offset (s ∷ ss) index o (h, a) l k =
      let (_, e', l') = next_slot t offset s (image ss) o h (At→StartsAt t offset s ss h l) in
      let index1 : tree.Index =
        (if s.deleted == 0
          then tree.assign index s.uuid (record_of_slot t.id offset s)
          else index) in
      let (index', run, all) =
        index_from n t (offset + slot_size s) ss index1 o a (e', l') (omega arith) in
      (
        index',
        index_step_slot (λ t' o' i. index_tom tree n t' o' i) t offset s (image ss) index o h
              (At→StartsAt t offset s ss h l)
            ∙ run,
        λ u.
            all u
            ∙ ap (last_live t.id (offset + slot_size s) ss u)
                (ground (arith, tree.lookup-assign index s.uuid u (record_of_slot t.id offset s))),
      )

  -- Rebuilding the index over a file of records, with fuel for one turn more than there are records,
  -- succeeds; afterwards each uuid is found at its last record that is not deleted, or where the
  -- index had it before if there is none.
  pub index_tom-Holds :
      (n : ℕ) (t : Tom) (ss : List Slot) (index : tree.Index)
      → Holds t ss
      → length ss < n
      → Finds t.id 0 ss index t (index_tom tree n t 0 index)
  index_tom-Holds n t ss index h k =
      index_from n t 0 ss index h.is_open h.slots
        (h.file, omega (arith, ap length h.file, h.is_open.size)) k
