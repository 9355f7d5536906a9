-- ===== src/LinearStorage/Write.antt =====
-- LinearStorage.cpp: append as a change of the list of records that a file holds.
use tiny_mq.Prelude.{
  ℕ, ◌+◌, ◌-◌, ◌^◌, ◌<◌, ◌≡◌, refl, sym, ap, ◌∙◌, true, List, [], ◌∷◌, ◌++◌, arith, Bytes, length,
  take, drop, subst, append_assoc, append-nil, length-append, take-append, drop-append,
}
use tiny_mq.LinearStorage.Tom.{
  Tom, Record, Outcome, ok, appended, new_record, overwrite, write_at, append, record_at, data_of,
}
use tiny_mq.LinearStorage.Image.{
  Slot, IsSlot, AllSlots, IsOpen, Holds, At, slot_header, slot_size, record_of_slot, record_at_slot,
  data_of_slot, At→StartsAt, image, drop_add, drop_nil, length-slot_header,
}

take_whole : (xs : Bytes) → take (length xs) xs ≡ xs
take_whole xs = ap (take (length xs)) (sym (append-nil xs)) ∙ take-append (length xs) xs [] refl

drop_whole : (xs : Bytes) (k : ℕ) → drop (length xs + k) xs ≡ []
drop_whole xs k =
    drop_add (length xs) k xs
    ∙ (ap (λ ys. drop k (drop (length xs) ys)) (sym (append-nil xs))
        ∙ (ap (drop k) (drop-append (length xs) xs [] refl) ∙ drop_nil k))

-- Writing at the end of a file appends.
overwrite_end : (file bs : Bytes) → overwrite file (length file) bs ≡ file ++ bs
unfolding overwrite
overwrite_end file bs =
    let none_between : length file - length file ≡ 0 = omega arith in
    rw (take_whole file, none_between, drop_whole file (length bs), append-nil bs) refl

-- Writing one byte over another.
pub overwrite_byte :
    (a c : Bytes) (b x : ℕ) → overwrite (a ++ b ∷ c) (length a) (x ∷ []) ≡ a ++ x ∷ c
unfolding overwrite
overwrite_byte a c b x =
    let none_between : length a - length (a ++ b ∷ c) ≡ 0 =
      omega (arith, length-append a (b ∷ c)) in
    rw
      (
        take-append (length a) a (b ∷ c) refl,
        none_between,
        drop_add (length a) 1 (a ++ b ∷ c),
        drop-append (length a) a (b ∷ c) refl,
      )
      refl

pub image_cons :
    (s : Slot) (ss : List Slot) → image (s ∷ ss) ≡ slot_header s ++ (s.content ++ image ss)
unfolding image
image_cons s ss = refl

pub image-append : (ss us : List Slot) → image (ss ++ us) ≡ image ss ++ image us
unfolding image
image-append [] us = refl
image-append (s ∷ ss) us =
    rw
      (
        image-append ss us,
        append_assoc (slot_header s) (s.content ++ image ss) (image us),
        append_assoc s.content (image ss) (image us),
      )
      refl

AllSlots-append : (ss us : List Slot) → AllSlots ss → AllSlots us → AllSlots (ss ++ us)
AllSlots-append [] us a b = b
AllSlots-append (s ∷ ss) us (h, a) b = (h, AllSlots-append ss us a b)

abbrev pub new_slot : Bytes → Bytes → Bytes → Slot
new_slot uuid padding content = record {
  uuid = uuid;
  deleted = 0;
  padding = padding;
  content = content;
}

abbrev after_append : Tom → Slot → Tom
after_append t s = record t {
  size = t.size + slot_size s;
  file = t.file ++ (slot_header s ++ s.content);
}

write_at_end :
    (t : Tom) (bs : Bytes)
    → t.good ≡ true
    → write_at t (length t.file) bs ≡ (true, record t { file = t.file ++ bs })
unfolding write_at
write_at_end t bs g = rw (g, overwrite_end t.file bs) refl

pub write_good :
    (t : Tom) (offset : ℕ) (bs : Bytes)
    → t.good ≡ true
    → write_at t offset bs ≡ (true, record t { file = overwrite t.file offset bs })
unfolding write_at
write_good t offset bs g = rw g refl

append_run :
    (t : Tom) (uuid padding content : Bytes)
    → IsOpen t
    → 0 < length content
    → append t uuid padding content ≡ (
      ok (record_of_slot t.id t.size (new_slot uuid padding content)),
      after_append t (new_slot uuid padding content),
    )
unfolding append
append_run t uuid padding [] o h = absurd (omega arith)
append_run t uuid padding (c ∷ cs) o h =
    let bs = slot_header (new_slot uuid padding (c ∷ cs)) ++ c ∷ cs in
    let grown : Tom = record t { size = t.size + slot_size (new_slot uuid padding (c ∷ cs)) } in
    ap (λ n. appended (new_record t uuid (c ∷ cs)) (write_at grown n bs)) o.size
    ∙ ap (appended (new_record t uuid (c ∷ cs))) (write_at_end grown bs o.good)

image_single : (s : Slot) → image (s ∷ []) ≡ slot_header s ++ s.content
unfolding image
image_single s = rw (append-nil s.content) refl

after_append-Holds :
    (t : Tom) (ss : List Slot) (s : Slot)
    → Holds t ss
    → IsSlot s
    → t.size + slot_size s < 2 ^ 64
    → Holds (after_append t s) (ss ++ s ∷ []) × At (after_append t s) t.size (s ∷ [])
after_append-Holds t ss s h k b =
    let grown : length (slot_header s ++ s.content) ≡ slot_size s =
      omega (arith, length-append (slot_header s) s.content, length-slot_header s k) in
    (
      record {
        is_open = record {
          good = h.is_open.good;
          size =
              omega
                (arith, h.is_open.size, grown, length-append t.file (slot_header s ++ s.content));
          bounded = b;
          named = h.is_open.named;
        };
        file = rw (image-append ss (s ∷ []), image_single s, h.file) refl;
        slots = AllSlots-append ss (s ∷ []) h.slots (k, tt);
      },
      (
        drop-append t.size t.file (slot_header s ++ s.content) (sym h.is_open.size)
            ∙ sym (image_single s),
        omega (arith, grown, ap length (image_single s)),
      ),
    )

abbrev Appends : Tom → List Slot → Slot → Outcome Record × Tom → Type 0
Appends t ss s r =
    (r.0 ≡ ok (record_of_slot t.id t.size s))
    × Holds r.1 (ss ++ s ∷ [])
    × (record_at r.1 t.size ≡ (ok (record_of_slot t.id t.size s), r.1))
    × (data_of r.1 (record_of_slot t.id t.size s) ≡ (ok s.content, r.1))

-- Appending to a file of records, whose new size fits 64 bits, puts the record behind the others.
-- The returned record reads back, and its data are the ones that were given.
pub append-Holds :
    (t : Tom) (ss : List Slot) (uuid padding content : Bytes)
    → Holds t ss
    → IsSlot (new_slot uuid padding content)
    → t.size + slot_size (new_slot uuid padding content) < 2 ^ 64
    → let r = append t uuid padding content in
      let rec = record_of_slot t.id t.size (new_slot uuid padding content) in
      (r.0 ≡ ok rec)
      × Holds r.1 (ss ++ new_slot uuid padding content ∷ [])
      × (record_at r.1 t.size ≡ (ok rec, r.1))
      × (data_of r.1 rec ≡ (ok content, r.1))
unfolding image
append-Holds t ss uuid padding content h k b =
    let s : Slot = new_slot uuid padding content in
    let (holds, at) = after_append-Holds t ss s h k b in
    subst (Appends t ss s) (sym (append_run t uuid padding content h.is_open k.content)) (
      refl,
      holds,
      record_at_slot (after_append t s) t.size s [] holds.is_open k
          (At→StartsAt (after_append t s) t.size s [] k at),
      data_of_slot (after_append t s) t.size s [] holds.is_open k
          (At→StartsAt (after_append t s) t.size s [] k at),
    )
