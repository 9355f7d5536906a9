-- ===== src/LinearStorage/Tests.antt =====
-- The theorems on linear storage at files of one and two records.
use tiny_mq.Prelude.{
  ◌≡◌, refl, true, none, List, [], ◌∷◌, ◌++◌, arith, Bytes, le_bytes, replicate, length,
}
use tiny_mq.Prelude.Maps.{find, insert, erase, bytes_key, find-insert, find-erase}
use tiny_mq.LinearStorage.Tom.{
  Tom, Record, ok, fault, io_error, open_tom, header_bytes, append, remove, record_at, data_of,
}
use tiny_mq.LinearStorage.Storage.{BTree, scan_tom, index_tom, open_storage}
use tiny_mq.LinearStorage.Image.{Slot, IsSlot, IsOpen, Holds, image, record_of_slot}
use tiny_mq.LinearStorage.Scan.{live_slots, scan_tom-Holds, last_live, index_tom-Holds}
use tiny_mq.LinearStorage.Write.{new_slot, append-Holds}
use tiny_mq.LinearStorage.Remove.{deleted_slot, remove-Holds}
use tiny_mq.LinearStorage.Torn.{Torn, open_storage-Torn}

abbrev pub uuid1 : Bytes
uuid1 = 7 ∷ replicate 15 0

abbrev uuid2 : Bytes
uuid2 = 9 ∷ replicate 15 0

abbrev pub slot1 : Slot
slot1 = record { uuid = uuid1; deleted = 0; padding = replicate 7 0; content = 1 ∷ 2 ∷ 3 ∷ [] }

abbrev pub slot2 : Slot
slot2 = record { uuid = uuid2; deleted = 1; padding = replicate 7 0; content = 5 ∷ [] }

abbrev pub one_file : Tom
one_file = open_tom 1 (image (slot1 ∷ slot2 ∷ []))

slot1-IsSlot : IsSlot slot1
slot1-IsSlot = record { uuid = refl; padding = refl; content = omega arith; size = omega arith }

slot2-IsSlot : IsSlot slot2
slot2-IsSlot = record { uuid = refl; padding = refl; content = omega arith; size = omega arith }

one_file-IsOpen : IsOpen one_file
unfolding image open_tom header_bytes le_bytes
one_file-IsOpen = record { good = refl; size = refl; bounded = omega arith; named = refl }

pub one_file-Holds : Holds one_file (slot1 ∷ slot2 ∷ [])
unfolding open_tom
one_file-Holds = record {
  is_open = one_file-IsOpen;
  file = refl;
  slots = (slot1-IsSlot, (slot2-IsSlot, tt));
}

pub find_nil : (u : Bytes) → find {V = Record} u [] ≡ none
unfolding find
find_nil u = refl

-- An index as an association list.
abbrev pub list_tree : BTree
list_tree = record {
  Index = List (Bytes × Record);
  empty = [];
  lookup = λ i u. find u i;
  assign = λ i u r. insert u r i;
  erase = λ i u. erase u i;
  lookup-empty = find_nil;
  lookup-assign = λ i u v r. find-insert v u r i;
  lookup-erase = λ i u v. find-erase v u i;
}

scan_tom-Holds_example :
    scan_tom 3 one_file 0 ≡ (ok (live_slots one_file.id 0 (slot1 ∷ slot2 ∷ [])), one_file)
scan_tom-Holds_example = scan_tom-Holds 3 one_file (slot1 ∷ slot2 ∷ []) one_file-Holds (omega arith)

index_tom-Holds_example :
    (index : list_tree.Index) × (index_tom list_tree 3 one_file 0 [] ≡ (ok index, one_file))
    × ((u : Bytes)
        → list_tree.lookup index u
          ≡ last_live one_file.id 0 (slot1 ∷ slot2 ∷ []) u (list_tree.lookup [] u))
index_tom-Holds_example =
    index_tom-Holds list_tree 3 one_file (slot1 ∷ slot2 ∷ []) [] one_file-Holds (omega arith)

append-Holds_example :
    let r = append one_file uuid1 (replicate 7 0) (4 ∷ []) in
    let rec = record_of_slot 1 one_file.size (new_slot uuid1 (replicate 7 0) (4 ∷ [])) in
    (r.0 ≡ ok rec)
    × Holds r.1 ((slot1 ∷ slot2 ∷ []) ++ new_slot uuid1 (replicate 7 0) (4 ∷ []) ∷ [])
    × (record_at r.1 one_file.size ≡ (ok rec, r.1))
    × (data_of r.1 rec ≡ (ok (4 ∷ []), r.1))
unfolding open_tom image header_bytes le_bytes
append-Holds_example =
    append-Holds one_file (slot1 ∷ slot2 ∷ []) uuid1 (replicate 7 0) (4 ∷ []) one_file-Holds
      (record { uuid = refl; padding = refl; content = omega arith; size = omega arith })
      (omega arith)

remove-Holds_example :
    let r = remove one_file (record_of_slot one_file.id (length (image [])) slot1) in
    (r.0 ≡ true)
    × (r.1 ≡ record_of_slot one_file.id (length (image [])) (deleted_slot slot1))
    × Holds r.2 ([] ++ deleted_slot slot1 ∷ slot2 ∷ [])
remove-Holds_example = remove-Holds one_file [] (slot2 ∷ []) slot1 one_file-Holds refl

-- A file with a record and the first byte of the header of the next one.
abbrev torn_file : Tom
torn_file = open_tom 1 (image (slot1 ∷ []) ++ 9 ∷ [])

torn_file-IsOpen : IsOpen torn_file
unfolding image open_tom header_bytes le_bytes
torn_file-IsOpen = record { good = refl; size = refl; bounded = omega arith; named = refl }

torn_file-Torn : Torn torn_file 0 (slot1 ∷ []) (9 ∷ [])
unfolding open_tom image header_bytes le_bytes
torn_file-Torn = record {
  file = refl;
  size = refl;
  some_bytes = omega arith;
  no_header = omega arith;
  slots = (slot1-IsSlot, tt);
}

open_storage-Torn_example :
    open_storage list_tree 2 ((torn_file.id, torn_file) ∷ []) ≡ fault io_error
open_storage-Torn_example =
    open_storage-Torn list_tree 2 torn_file (slot1 ∷ []) (9 ∷ []) torn_file-IsOpen torn_file-Torn
      (omega arith)
