-- ===== src/LinearStorage/Image.antt =====
-- What a file of linear storage holds: the images of its records, one after another.
use tiny_mq.Prelude.{
  ℕ, zero, suc, ◌+◌, ◌^◌, ◌<◌, ◌≡◌, refl, sym, ap, ◌∙◌, true, false, List, [], ◌∷◌, ◌++◌, arith,
  ltb, leb, lt→ltb, le→leb, le→not_ltb, ◌==◌, Bytes, le_bytes, length-le_bytes, of_le-le_bytes,
  length, drop, length-append, take-append, drop-append,
}
use native.Mathlib.Nat.{mod-eq_of_lt}
use tiny_mq.Message.{no_tom}
use tiny_mq.LinearStorage.Tom.{
  Tom, Record, Header, ok, default_record, header_size, header_bytes, parse_header, read_at,
  record_at, data_of,
}
use tiny_mq.LinearStorage.Storage.{next_offset}

-- A record as it lies in the file.
pub record Slot : Type 0 where
  pub uuid : Bytes
  pub deleted : ℕ
  pub padding : Bytes
  pub content : Bytes

abbrev pub header_of : Slot → Header
header_of s = record { uuid = s.uuid; data_size = length s.content; deleted = s.deleted }

abbrev pub slot_size : Slot → ℕ
slot_size s = header_size + length s.content

abbrev pub slot_header : Slot → Bytes
slot_header s = header_bytes (header_of s) s.padding

unfoldable pub image : List Slot → Bytes
image [] = []
image (s ∷ ss) = slot_header s ++ (s.content ++ image ss)

pub record IsSlot (s : Slot) : Type 0 where
  pub uuid : length s.uuid ≡ 16
  pub padding : length s.padding ≡ 7
  pub content : 0 < length s.content
  pub size : length s.content < 2 ^ 64

abbrev pub AllSlots : List Slot → Type 0
AllSlots [] = Unit
AllSlots (s ∷ ss) = IsSlot s × AllSlots ss

-- The stream is good, the size is that of the file, and offsets fit their 64 bits.
pub record IsOpen (t : Tom) : Type 0 where
  pub good : t.good ≡ true
  pub size : t.size ≡ length t.file
  pub bounded : t.size < 2 ^ 64
  pub named : (t.id == no_tom) ≡ false

-- The file holds these records and nothing else.
pub record Holds (t : Tom) (ss : List Slot) : Type 0 where
  pub is_open : IsOpen t
  pub file : t.file ≡ image ss
  pub slots : AllSlots ss

pub length-slot_header : (s : Slot) → IsSlot s → length (slot_header s) ≡ 32
unfolding header_bytes
length-slot_header s h = omega (
  arith,
  length-append s.uuid (le_bytes 8 (length s.content) ++ s.deleted ∷ s.padding),
  length-append (le_bytes 8 (length s.content)) (s.deleted ∷ s.padding),
  length-le_bytes 8 (length s.content),
  h.uuid,
  h.padding,
)

pub parse_header-slot_header : (s : Slot) → IsSlot s → parse_header (slot_header s) ≡ header_of s
unfolding parse_header header_bytes
parse_header-slot_header s h =
    rw
      (
        take-append 16 s.uuid (le_bytes 8 (length s.content) ++ s.deleted ∷ s.padding) h.uuid,
        drop-append 16 s.uuid (le_bytes 8 (length s.content) ++ s.deleted ∷ s.padding) h.uuid,
        take-append 8 (le_bytes 8 (length s.content)) (s.deleted ∷ s.padding)
            (length-le_bytes 8 (length s.content)),
        drop-append 8 (le_bytes 8 (length s.content)) (s.deleted ∷ s.padding)
            (length-le_bytes 8 (length s.content)),
        of_le-le_bytes 8 (length s.content) h.size,
      )
      refl

pub drop_nil {ℓ} : {A : Type ℓ} (b : ℕ) → drop {A = A} b [] ≡ []
drop_nil zero = refl
drop_nil (suc b) = refl

pub drop_add {ℓ} : {A : Type ℓ} (a b : ℕ) (xs : List A) → drop (a + b) xs ≡ drop b (drop a xs)
drop_add zero b xs = ap (λ n. drop n xs) (omega arith)
drop_add (suc a) b [] =
    let moved : suc a + b ≡ suc (a + b) = omega arith in
    ap (λ n. drop n []) moved ∙ sym (drop_nil b)
drop_add (suc a) b (x ∷ xs) =
    let moved : suc a + b ≡ suc (a + b) = omega arith in
    ap (λ n. drop n (x ∷ xs)) moved ∙ drop_add a b xs

-- At `offset` the file goes on with the record `s`, and then with the bytes `rest`.
abbrev pub StartsAt : Tom → ℕ → Slot → Bytes → Type 0
StartsAt t offset s rest =
    (drop offset t.file ≡ slot_header s ++ (s.content ++ rest))
    × (offset + (slot_size s + length rest) ≡ t.size)

-- At `offset` the file goes on with the records `ss`.
abbrev pub At : Tom → ℕ → List Slot → Type 0
At t offset ss = (drop offset t.file ≡ image ss) × (offset + length (image ss) ≡ t.size)

pub length-image :
    (s : Slot) (ss : List Slot)
    → IsSlot s
    → length (image (s ∷ ss)) ≡ slot_size s + length (image ss)
unfolding image
length-image s ss h = omega (
  arith,
  length-append (slot_header s) (s.content ++ image ss),
  length-append s.content (image ss),
  length-slot_header s h,
)

abbrev pub record_of_slot : ℕ → ℕ → Slot → Record
record_of_slot id offset s = record { tom_id = id; offset = offset; header = header_of s }

pub At→StartsAt :
    (t : Tom) (offset : ℕ) (s : Slot) (ss : List Slot)
    → IsSlot s
    → At t offset (s ∷ ss)
    → StartsAt t offset s (image ss)
unfolding image
At→StartsAt t offset s ss h (e, l) = (e, omega (arith, length-image s ss h))

pub record_at_slot :
    (t : Tom) (offset : ℕ) (s : Slot) (rest : Bytes)
    → IsOpen t
    → IsSlot s
    → StartsAt t offset s rest
    → record_at t offset ≡ (ok (record_of_slot t.id offset s), t)
unfolding record_at read_at
record_at_slot t offset s rest o h (e, l) =
    let inside : ltb offset t.size ≡ true = lt→ltb offset t.size (omega (arith)) in
    let whole : leb (offset + 32) (length t.file) ≡ true =
      le→leb (offset + 32) (length t.file) (omega (arith, o.size)) in
    rw
      (
        inside,
        o.good,
        whole,
        e,
        take-append 32 (slot_header s) (s.content ++ rest) (length-slot_header s h),
        parse_header-slot_header s h,
      )
      refl

pub record_at_end :
    (t : Tom) (offset : ℕ) → At t offset [] → record_at t offset ≡ (ok default_record, t)
unfolding record_at image
record_at_end t offset (e, l) =
    let behind : ltb offset t.size ≡ false = le→not_ltb offset t.size (omega arith) in
    rw behind refl

pub data_of_slot :
    (t : Tom) (offset : ℕ) (s : Slot) (rest : Bytes)
    → IsOpen t
    → IsSlot s
    → StartsAt t offset s rest
    → data_of t (record_of_slot t.id offset s) ≡ (ok s.content, t)
unfolding data_of read_at
data_of_slot t offset s rest o h (e, l) =
    let filled : (length s.content == 0) ≡ false = let k = h.content in ground arith in
    let whole : leb (offset + 32 + length s.content) (length t.file) ≡ true =
      le→leb (offset + 32 + length s.content) (length t.file) (omega (arith, o.size)) in
    rw
      (
        filled,
        o.good,
        whole,
        drop_add offset 32 t.file,
        e,
        drop-append 32 (slot_header s) (s.content ++ rest) (length-slot_header s h),
        take-append (length s.content) s.content (rest) refl,
      )
      refl

pub next_slot :
    (t : Tom) (offset : ℕ) (s : Slot) (rest : Bytes)
    → IsOpen t
    → IsSlot s
    → StartsAt t offset s rest
    → (next_offset offset (record_of_slot t.id offset s) ≡ offset + slot_size s)
      × (drop (offset + slot_size s) t.file ≡ rest)
      × (offset + slot_size s + length rest ≡ t.size)
next_slot t offset s rest o h (e, l) = (
  mod-eq_of_lt (omega (arith, o.bounded)),
  drop_add offset (slot_size s) t.file
      ∙ rw
          (
            e,
            drop_add 32 (length s.content) (slot_header s ++ (s.content ++ rest)),
            drop-append 32 (slot_header s) (s.content ++ rest) (length-slot_header s h),
          )
          (drop-append (length s.content) s.content rest refl),
  omega arith,
)
