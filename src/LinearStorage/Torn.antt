-- ===== src/LinearStorage/Torn.antt =====
-- LinearStorage.cpp: a file whose last record was cut off within its header, by a crash in append.
use tiny_mq.Prelude.{
  ℕ, zero, suc, ◌+◌, ◌<◌, ◌≡◌, refl, ap, ◌∙◌, true, false, List, [], ◌∷◌, ◌++◌, ltb, leb, arith,
  Bytes, length, drop, lt→ltb, Bool-cases, inl, inr, length-append, append_assoc,
}
use tiny_mq.LinearStorage.Tom.{Tom, Record, Outcome, fault, io_error, record_at, read_at}
use tiny_mq.LinearStorage.Storage.{BTree, index_tom, index_step, rebuild_index, open_storage}
use tiny_mq.LinearStorage.Scan.{index_step_slot}
use tiny_mq.LinearStorage.Image.{
  Slot, slot_size, slot_header, length-slot_header, next_slot, StartsAt, IsSlot, AllSlots, IsOpen,
  image,
}

record_at_cut :
    (t : Tom) (offset : ℕ)
    → offset < t.size
    → length t.file < offset + 32
    → (record_at t offset).0 ≡ fault io_error
unfolding record_at read_at
record_at_cut t offset h k =
    let inside : ltb offset t.size ≡ true = lt→ltb offset t.size h in
    let cut : leb (offset + 32) (length t.file) ≡ false = ground arith in
    elim (Bool-cases t.good) [ inl g ↦ rw (inside, cut, g) refl | inr g ↦ rw (inside, cut, g) refl ]

-- The file holds whole records and then fewer bytes than a header has, but some.
pub record Torn (t : Tom) (offset : ℕ) (ss : List Slot) (tail : Bytes) : Type 0 where
  pub file : drop offset t.file ≡ image ss ++ tail
  pub size : offset + length (image ss ++ tail) ≡ t.size
  pub some_bytes : 0 < length tail
  pub no_header : length tail < 32
  pub slots : AllSlots ss

Torn→StartsAt :
    (t : Tom) (offset : ℕ) (s : Slot) (ss : List Slot) (tail : Bytes)
    → IsSlot s
    → Torn t offset (s ∷ ss) tail
    → StartsAt t offset s (image ss ++ tail)
unfolding image
Torn→StartsAt t offset s ss tail h k =
    let bytes = slot_header s ++ (s.content ++ (image ss ++ tail)) in
    let split : image (s ∷ ss) ++ tail ≡ bytes =
      append_assoc (slot_header s) (s.content ++ image ss) tail
      ∙ ap (λ xs. slot_header s ++ xs) (append_assoc s.content (image ss) tail) in
    (
      k.file ∙ split,
      omega (
        arith,
        k.size,
        ap length split,
        length-append (slot_header s) (s.content ++ (image ss ++ tail)),
        length-append s.content (image ss ++ tail),
        length-slot_header s h,
      ),
    )

module _ (tree : BTree) where
  index_step_fault :
      (next : Tom → ℕ → tree.Index → Outcome tree.Index × Tom) (offset : ℕ) (index : tree.Index)
      (r : Outcome Record × Tom)
      → r.0 ≡ fault io_error
      → (index_step tree next offset index r).0 ≡ fault io_error
  unfolding index_step
  index_step_fault next offset index (r, t) e =
      ap (λ x. (index_step tree next offset index (x, t)).0) e

  index_tom-Torn :
      (n : ℕ) (t : Tom) (offset : ℕ) (ss : List Slot) (tail : Bytes) (index : tree.Index)
      → IsOpen t
      → Torn t offset ss tail
      → length ss < n
      → (index_tom tree n t offset index).0 ≡ fault io_error
  unfolding index_tom image
  index_tom-Torn zero t offset ss tail index o h k = elim k [ ]
  index_tom-Torn (suc n) t offset [] tail index o h k =
      index_step_fault (λ t' o' i. index_tom tree n t' o' i) offset index (record_at t offset)
        (record_at_cut t offset (omega (arith, h.size, h.some_bytes))
          (omega (arith, h.size, h.no_header, o.size)))
  index_tom-Torn (suc n) t offset (s ∷ ss) tail index o h k =
      let (p, a) = h.slots in
      let at = Torn→StartsAt t offset s ss tail p h in
      let (_, e, l) = next_slot t offset s (image ss ++ tail) o p at in
      let torn : Torn t (offset + slot_size s) ss tail = record {
        file = e;
        size = l;
        some_bytes = h.some_bytes;
        no_header = h.no_header;
        slots = a;
      } in
      ap (λ r. r.0)
        (index_step_slot tree (λ t' o' i. index_tom tree n t' o' i) t offset s (image ss ++ tail)
          index o p at)
      ∙ index_tom-Torn n t (offset + slot_size s) ss tail _ o torn (omega arith)

  -- Where a file holds whole records and then fewer bytes than a header has, but some, the
  -- constructor of Storage over it alone fails with io_error, whatever the whole records are, with
  -- fuel for one turn more than there are whole records.
  pub open_storage-Torn :
      (n : ℕ) (t : Tom) (ss : List Slot) (tail : Bytes)
      → IsOpen t
      → Torn t 0 ss tail
      → length ss < n
      → open_storage tree n ((t.id, t) ∷ []) ≡ fault io_error
  unfolding open_storage rebuild_index
  open_storage-Torn n t ss tail o h k =
      rw (index_tom-Torn n t 0 ss tail tree.empty o h k, open_storage, rebuild_index) refl
