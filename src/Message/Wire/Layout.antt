-- ===== src/Message/Wire/Layout.antt =====
-- Where each field of the wire format stands: the fixed-width fields, one after another.
use tiny_mq.Prelude.{
  ℕ, ◌^◌, ◌<◌, ◌≡◌, refl, ap, ◌∙◌, some, Bytes, arith, ◌++◌, ◌∷◌, append_assoc, length-append, ℤ,
  le_bytes, of_le-le_bytes, length-le_bytes, write_int64, write_int32, length-write_int64,
  length-write_int32, take, drop, length, take-append, drop-append, [],
}
use native.Mathlib.Nat.{mod-eq_of_lt}
use tiny_mq.Message.{Message, type_tag}
use tiny_mq.Message.Wire.{
  Codec, write_string, read_string, reliability_byte, flag_byte, header_strings, tail_bytes,
  to_bytes, stored_form,
}

-- A fixed-width field is read back and stepped over.
pub take-write_int64 : (z : ℤ) (r : Bytes) → take 8 (write_int64 z ++ r) ≡ write_int64 z
take-write_int64 z r = take-append 8 (write_int64 z) r (length-write_int64 z)

pub drop-write_int64 : (z : ℤ) (r : Bytes) → drop 8 (write_int64 z ++ r) ≡ r
drop-write_int64 z r = drop-append 8 (write_int64 z) r (length-write_int64 z)

pub take-write_int32 : (z : ℤ) (r : Bytes) → take 4 (write_int32 z ++ r) ≡ write_int32 z
take-write_int32 z r = take-append 4 (write_int32 z) r (length-write_int32 z)

pub drop-write_int32 : (z : ℤ) (r : Bytes) → drop 4 (write_int32 z ++ r) ≡ r
drop-write_int32 z r = drop-append 4 (write_int32 z) r (length-write_int32 z)

pub take-le_bytes : (n : ℕ) (r : Bytes) → take 4 (le_bytes 4 n ++ r) ≡ le_bytes 4 n
take-le_bytes n r = take-append 4 (le_bytes 4 n) r (length-le_bytes 4 n)

pub drop-le_bytes : (n : ℕ) (r : Bytes) → drop 4 (le_bytes 4 n ++ r) ≡ r
drop-le_bytes n r = drop-append 4 (le_bytes 4 n) r (length-le_bytes 4 n)

pub take_all : (s : Bytes) → take (length s) s ≡ s
take_all [] = refl
take_all (x ∷ s) = ap (◌∷◌ x) (take_all s)

-- A string shorter than 2 ^ 32 bytes is written whole.
pub write_string_short :
    (s : Bytes) → length s < 2 ^ 32 → write_string s ≡ le_bytes 4 (length s) ++ s
unfolding write_string
write_string_short s h =
    ap (λ n. le_bytes 4 (length s) ++ take n s) (mod-eq_of_lt h)
    ∙ ap (◌++◌ (le_bytes 4 (length s))) (take_all s)

pub read_string-write_string :
    (s rest : Bytes) → length s < 2 ^ 32 → read_string (write_string s ++ rest) ≡ some (s, rest)
unfolding read_string
read_string-write_string s rest h =
    rw
      (
        write_string_short s h,
        append_assoc,
        take-le_bytes,
        drop-le_bytes,
        of_le-le_bytes 4 (length s) h,
      )
      (ground (
        arith,
        length-append (le_bytes 4 (length s)) (s ++ rest),
        length-le_bytes 4 (length s),
        length-append s rest,
        take-append (length s) s rest refl,
        drop-append (length s) s rest refl,
      ))

module _ (codec : Codec) where
  pub take-copy_to : (u : ℕ) (r : Bytes) → take 16 (codec.copy_to u ++ r) ≡ codec.copy_to u
  take-copy_to u r = take-append 16 (codec.copy_to u) r (codec.length-copy_to u)

  pub drop-copy_to : (u : ℕ) (r : Bytes) → drop 16 (codec.copy_to u ++ r) ≡ r
  drop-copy_to u r = drop-append 16 (codec.copy_to u) r (codec.length-copy_to u)

  -- The 35 bytes before the expiration, with the type byte in front.
  abbrev pub before_expiration : Message → Bytes
  before_expiration m =
      type_tag m.kind
      ∷ (2
          ∷ (write_int64 m.number
              ++ (codec.copy_to m.uuid
                  ++ (reliability_byte m.reliability ∷ write_int64 m.headers.timestamp))))

  -- What stands behind the priority.
  abbrev pub after_priority : Message → Bytes
  after_priority m =
      write_int32 m.headers.delivery_count
      ++ (flag_byte m.headers.redelivered ∷ header_strings m.headers (tail_bytes codec m))

  -- The stored form: 35 bytes, then expiration, delivery time and priority, then the rest.
  pub stored_form_split :
      (m : Message)
      → stored_form codec m
        ≡ before_expiration m
          ++ (write_int64 m.headers.expiration
              ++ (write_int64 m.headers.delivery_time
                  ++ (write_int32 m.headers.priority ++ after_priority m)))
  unfolding stored_form to_bytes
  stored_form_split m = simp append_assoc

  pub length-before_expiration : (m : Message) → length (before_expiration m) ≡ 35
  length-before_expiration m = omega (
    arith,
    length-append (write_int64 m.number) (
        codec.copy_to m.uuid ++ (reliability_byte m.reliability ∷ write_int64 m.headers.timestamp)),
    length-append (codec.copy_to m.uuid)
        (reliability_byte m.reliability ∷ write_int64 m.headers.timestamp),
    length-write_int64 m.number,
    length-write_int64 m.headers.timestamp,
    codec.length-copy_to m.uuid,
  )
