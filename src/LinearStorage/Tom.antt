-- ===== src/LinearStorage/Tom.antt =====
-- LinearStorage.h, LinearStorage.cpp, class Tom: one file of records, each a header of 32 bytes and
-- its data. The stream is the file's bytes and good(): a read behind the end of the file fails, and
-- from then on every call fails, as an iostream's failbit does. The disk takes every write. Reading
-- is const in the source and changes the stream, which is returned.
use tiny_mq.Prelude.{
  ℕ, ◌+◌, ◌-◌, ◌^◌, Bool, true, false, ◌&&◌, not, Option, none, some, [], ◌∷◌, ◌++◌, ltb, leb, ◌==◌,
  if◌then◌else◌, Bytes, le_bytes, of_le, length, take, drop, replicate, get_or, is_empty, min,
}
use tiny_mq.Message.{no_tom}

-- The exceptions, and a loop that ran out of fuel.
pub data Fault : Type 0 where
  invalid_argument io_error no_such_tom no_fuel : Fault

pub data Outcome {ℓ} (A : Type ℓ) : Type ℓ where
  ok : A → Outcome A
  fault : Fault → Outcome A

-- `uuid` is the array of 16 bytes.
pub record Header : Type 0 where
  pub uuid : Bytes
  pub data_size : ℕ
  pub deleted : ℕ

pub record Record : Type 0 where
  pub tom_id : ℕ
  pub offset : ℕ
  pub header : Header

abbrev pub default_record : Record
default_record = record {
  tom_id = no_tom;
  offset = 2 ^ 64 - 1;
  header = record { uuid = replicate 16 0; data_size = 0; deleted = 0 };
}

pub record Tom : Type 0 where
  pub id : ℕ
  pub size : ℕ
  pub file : Bytes
  pub good : Bool

-- The constructor over an existing file, which is empty where it was just created.
unfoldable pub open_tom : ℕ → Bytes → Tom
open_tom id file = record { id = id; size = length file; file = file; good = true }

-- sizeof(Header): 16 + 8 + 1, and 7 bytes of padding.
abbrev pub header_size : ℕ
header_size = 32

-- The memory image of a header; the content of the padding is not specified.
unfoldable pub header_bytes : Header → Bytes → Bytes
header_bytes h padding = h.uuid ++ (le_bytes 8 h.data_size ++ h.deleted ∷ padding)

unfoldable pub parse_header : Bytes → Header
parse_header bs = record {
  uuid = take 16 bs;
  data_size = of_le (take 8 (drop 16 bs));
  deleted = get_or (drop 8 (drop 16 bs)) 0 0;
}

abbrev failed_stream : Tom → Tom
failed_stream t = record t { good = false }

-- seekg and read of n bytes, n > 0.
unfoldable pub read_at : Tom → ℕ → ℕ → Option Bytes × Tom
read_at t offset n =
    if t.good && leb (offset + n) (length t.file)
    then (some (take n (drop offset t.file)), t)
    else (none, failed_stream t)

-- The file with bytes written over it at an offset, a gap being filled with zeros.
unfoldable pub overwrite : Bytes → ℕ → Bytes → Bytes
overwrite file offset bs =
    take offset file
    ++ (replicate (offset - length file) 0 ++ (bs ++ drop (offset + length bs) file))

-- seekp, write and flush; the test is good() after them.
unfoldable pub write_at : Tom → ℕ → Bytes → Bool × Tom
unfolding overwrite
write_at t offset bs =
    if t.good then (true, record t { file = overwrite t.file offset bs }) else (false, t)

abbrev pub new_record : Tom → Bytes → Bytes → Record
new_record t uuid data_ = record {
  tom_id = t.id;
  offset = t.size;
  header = record { uuid = uuid; data_size = length data_; deleted = 0 };
}

abbrev pub appended : Record → Bool × Tom → Outcome Record × Tom
appended rec (true, t) = (ok rec, t)
appended rec (false, t) = (fault io_error, t)

-- The size grows whether or not the write succeeds.
unfoldable pub append : Tom → Bytes → Bytes → Bytes → Outcome Record × Tom
unfolding header_bytes write_at
append t uuid padding data_ =
    let rec = new_record t uuid data_ in
    if is_empty data_
    then (fault invalid_argument, t)
    else appended rec (
        write_at (record t { size = t.size + (header_size + length data_) }) t.size
          (header_bytes rec.header padding ++ data_))

abbrev found : Tom → ℕ → Option Bytes × Tom → Outcome Record × Tom
found t offset (none, t') = (fault io_error, t')
found t offset (some bs, t') =
    (ok (record { tom_id = t.id; offset = offset; header = parse_header bs }), t')

unfoldable pub record_at : Tom → ℕ → Outcome Record × Tom
unfolding parse_header read_at
record_at t offset =
    if ltb offset t.size
    then found t offset (read_at t offset header_size)
    else (ok default_record, t)

abbrev got : Option Bytes × Tom → Outcome Bytes × Tom
got (none, t) = (fault io_error, t)
got (some bs, t) = (ok bs, t)

unfoldable pub data_of : Tom → Record → Outcome Bytes × Tom
unfolding read_at
data_of t rec =
    if rec.header.data_size == 0
    then (ok [], t)
    else got (read_at t (rec.offset + header_size) rec.header.data_size)

abbrev or_empty : Option Bytes × Tom → Bytes × Tom
or_empty (none, t) = ([], t)
or_empty (some bs, t) = (bs, t)

unfoldable pub data_prefix : Tom → Record → ℕ → Bytes × Tom
unfolding read_at
data_prefix t rec len =
    let n = min len rec.header.data_size in
    if n == 0 then ([], t) else or_empty (read_at t (rec.offset + header_size) n)

-- offsetof(Header, deleted).
abbrev pub deleted_offset : ℕ
deleted_offset = 24

abbrev flagged : Record → Record
flagged rec = record rec { header = record (rec.header) { deleted = 1 } }

abbrev pub removed : Record → Bool × Tom → Bool × Record × Tom
removed rec (true, t) = (true, flagged rec, t)
removed rec (false, t) = (false, record rec { header = record (rec.header) { deleted = 0 } }, t)

-- The answer, the caller's record and the file.
unfoldable pub remove : Tom → Record → Bool × Record × Tom
unfolding write_at
remove t rec =
    if not (rec.header.deleted == 0)
    then (true, rec, t)
    else removed rec (write_at t (rec.offset + deleted_offset) (1 ∷ []))
