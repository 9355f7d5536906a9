-- ===== src/LinearStorage/Remove.antt =====
-- LinearStorage.cpp: remove as a change of the list of records that a file holds.
use tiny_mq.Prelude.{
  ℕ, ◌+◌, ◌≡◌, refl, sym, ap, ◌∙◌, Bool, true, List, [], ◌∷◌, ◌++◌, ◌==◌, arith, Bytes, le_bytes,
  length, subst, append_assoc, length-append, length-le_bytes,
}
use tiny_mq.LinearStorage.Tom.{
  Tom, Record, header_bytes, removed, overwrite, write_at, remove, deleted_offset,
}
use tiny_mq.LinearStorage.Image.{Slot, IsSlot, AllSlots, Holds, record_of_slot, image}
use tiny_mq.LinearStorage.Write.{overwrite_byte, image_cons, image-append, write_good}

abbrev pub deleted_slot : Slot → Slot
deleted_slot s = record s { deleted = 1 }

abbrev front : List Slot → Slot → Bytes
front before s = image before ++ (s.uuid ++ le_bytes 8 (length s.content))

abbrev flagged_slot : ℕ → Slot → Slot
flagged_slot d s = record s { deleted = d }

image_split :
    (before after : List Slot) (s : Slot) (d : ℕ)
    → image (before ++ flagged_slot d s ∷ after)
      ≡ front before s ++ d ∷ (s.padding ++ (s.content ++ image after))
unfolding header_bytes
image_split before after s d =
    image-append before (flagged_slot d s ∷ after) ∙ simp (image_cons, append_assoc)

AllSlots-flagged :
    (before after : List Slot) (s : Slot) (d : ℕ)
    → AllSlots (before ++ s ∷ after)
    → AllSlots (before ++ flagged_slot d s ∷ after)
AllSlots-flagged [] after s d (h, a) =
    (record { uuid = h.uuid; padding = h.padding; content = h.content; size = h.size }, a)
AllSlots-flagged (x ∷ before) after s d (h, a) = (h, AllSlots-flagged before after s d a)

AllSlots-at : (before after : List Slot) (s : Slot) → AllSlots (before ++ s ∷ after) → IsSlot s
AllSlots-at [] after s (h, a) = h
AllSlots-at (x ∷ before) after s (h, a) = AllSlots-at before after s a

length-front :
    (before : List Slot) (s : Slot)
    → IsSlot s
    → length (front before s) ≡ length (image before) + deleted_offset
length-front before s h = omega (
  arith,
  length-append (image before) (s.uuid ++ le_bytes 8 (length s.content)),
  length-append s.uuid (le_bytes 8 (length s.content)),
  length-le_bytes 8 (length s.content),
  h.uuid,
)

abbrev after_remove : Tom → List Slot → List Slot → Slot → Tom
after_remove t before after s = record t { file = image (before ++ deleted_slot s ∷ after) }

flag_written :
    (t : Tom) (before after : List Slot) (s : Slot)
    → Holds t (before ++ s ∷ after)
    → overwrite t.file (length (image before) + deleted_offset) (1 ∷ [])
      ≡ image (before ++ deleted_slot s ∷ after)
flag_written t before after s h =
    let behind = s.padding ++ (s.content ++ image after) in
    ap (λ n. overwrite t.file n (1 ∷ []))
      (sym (length-front before s (AllSlots-at before after s h.slots)))
    ∙ (ap (λ f. overwrite f (length (front before s)) (1 ∷ []))
          (h.file ∙ image_split before after s s.deleted)
        ∙ (overwrite_byte (front before s) behind s.deleted 1 ∙ sym (image_split before after s 1)))

length-flagged :
    (before after : List Slot) (s : Slot)
    → length (image (before ++ deleted_slot s ∷ after)) ≡ length (image (before ++ s ∷ after))
length-flagged before after s =
    let behind = s.padding ++ (s.content ++ image after) in
    omega (
      arith,
      ap length (image_split before after s 1),
      ap length (image_split before after s s.deleted),
      length-append (front before s) (1 ∷ behind),
      length-append (front before s) (s.deleted ∷ behind),
    )

remove_run :
    (t : Tom) (before after : List Slot) (s : Slot)
    → Holds t (before ++ s ∷ after)
    → s.deleted ≡ 0
    → remove t (record_of_slot t.id (length (image before)) s) ≡ (
      true,
      record_of_slot t.id (length (image before)) (deleted_slot s),
      after_remove t before after s,
    )
unfolding remove write_at
remove_run t before after s h d =
    let alive : (s.deleted == 0) ≡ true = ground arith in
    let rec = record_of_slot t.id (length (image before)) s in
    let after_flag : Tom → Bool × Record × Tom =
      λ t'. (true, record_of_slot t.id (length (image before)) (deleted_slot s), t') in
    rw alive (
      ap (removed rec)
        (write_good t (length (image before) + deleted_offset) (1 ∷ []) h.is_open.good)
      ∙ ap (λ f. after_flag (record t { file = f })) (flag_written t before after s h))

-- Removing a record of a file that is not deleted flags it, and changes nothing else in the file.
pub remove-Holds :
    (t : Tom) (before after : List Slot) (s : Slot)
    → Holds t (before ++ s ∷ after)
    → s.deleted ≡ 0
    → let r = remove t (record_of_slot t.id (length (image before)) s) in
      (r.0 ≡ true)
      × (r.1 ≡ record_of_slot t.id (length (image before)) (deleted_slot s))
      × Holds r.2 (before ++ deleted_slot s ∷ after)
remove-Holds t before after s h d =
    subst
      (λ r.
        (r.0 ≡ true)
        × (r.1 ≡ record_of_slot t.id (length (image before)) (deleted_slot s))
        × Holds r.2 (before ++ deleted_slot s ∷ after))
      (sym (remove_run t before after s h d))
      (
        refl,
        refl,
        record {
          is_open = record {
            good = h.is_open.good;
            size = omega (arith, h.is_open.size, ap length h.file, length-flagged before after s);
            bounded = h.is_open.bounded;
            named = h.is_open.named;
          };
          file = refl;
          slots = AllSlots-flagged before after s 1 h.slots;
        },
      )
