-- ===== src/Prelude/Words.antt =====
-- Byte strings, and the little-endian words that memcpy moves in and out of them.
use Prim.Native.Nat.{ℕ, zero, suc, ◌+◌, ◌*◌, ◌/◌, ◌%◌, ◌<◌}
use mathlib.Core.Path.{◌≡◌, refl, ap, ◌∙◌}
use mathlib.Core.Bool.{Bool, true, false, ◌&&◌}
use mathlib.Core.List.{List, [], ◌∷◌}
use native.Mathlib.Omega.{arith}
use tiny_mq.Prelude.Tests.{◌==◌}
use tiny_mq.Prelude.Lists.{length}
use tiny_mq.Prelude.Int.{
  ℤ, InInt64, InInt32, pattern64, signed64, pattern32, signed32, signed64-pattern64, pattern64-lt,
  signed32-pattern32, pattern32-lt,
}

-- A byte is a number below 256.
abbrev pub Bytes : Type 0
Bytes = List ℕ

-- The k low bytes of n, the lowest first: the memory image of a k-byte unsigned word.
unfoldable pub le_bytes : ℕ → ℕ → Bytes
le_bytes zero n = []
le_bytes (suc k) n = n % 256 ∷ le_bytes k (n / 256)

unfoldable pub of_le : Bytes → ℕ
of_le [] = 0
of_le (b ∷ bs) = b + 256 * of_le bs

pub length-le_bytes : (k n : ℕ) → length (le_bytes k n) ≡ k
unfolding le_bytes
length-le_bytes zero n = refl
length-le_bytes (suc k) n = ap suc (length-le_bytes k (n / 256))

-- How many values k bytes can hold.
abbrev pub capacity : ℕ → ℕ
capacity zero = 1
capacity (suc k) = 256 * capacity k

pub of_le-le_bytes : (k n : ℕ) → n < capacity k → of_le (le_bytes k n) ≡ n
unfolding le_bytes of_le
of_le-le_bytes zero n h = omega arith
of_le-le_bytes (suc k) n h = omega (arith, of_le-le_bytes k (n / 256) (omega arith))

-- int64_t and int32_t as their memory images.
unfoldable pub write_int64 : ℤ → Bytes
write_int64 z = le_bytes 8 (pattern64 z)

unfoldable pub read_int64 : Bytes → ℤ
read_int64 bs = signed64 (of_le bs)

unfoldable pub write_int32 : ℤ → Bytes
write_int32 z = le_bytes 4 (pattern32 z)

unfoldable pub read_int32 : Bytes → ℤ
read_int32 bs = signed32 (of_le bs)

pub length-write_int64 : (z : ℤ) → length (write_int64 z) ≡ 8
unfolding write_int64
length-write_int64 z = length-le_bytes 8 (pattern64 z)

pub length-write_int32 : (z : ℤ) → length (write_int32 z) ≡ 4
unfolding write_int32
length-write_int32 z = length-le_bytes 4 (pattern32 z)

pub read_int64-write_int64 : (z : ℤ) → InInt64 z → read_int64 (write_int64 z) ≡ z
unfolding read_int64 write_int64
read_int64-write_int64 z h =
    ap signed64 (of_le-le_bytes 8 (pattern64 z) (pattern64-lt z h)) ∙ signed64-pattern64 z h

pub read_int32-write_int32 : (z : ℤ) → InInt32 z → read_int32 (write_int32 z) ≡ z
unfolding read_int32 write_int32
read_int32-write_int32 z h =
    ap signed32 (of_le-le_bytes 4 (pattern32 z) (pattern32-lt z h)) ∙ signed32-pattern32 z h

-- operator== of std::string and std::vector.
unfoldable pub bytes_eq : Bytes → Bytes → Bool
bytes_eq [] [] = true
bytes_eq [] (y ∷ ys) = false
bytes_eq (x ∷ xs) [] = false
bytes_eq (x ∷ xs) (y ∷ ys) = x == y && bytes_eq xs ys

pub bytes_eq_refl : (xs : Bytes) → bytes_eq xs xs ≡ true
unfolding bytes_eq
bytes_eq_refl [] = refl
bytes_eq_refl (x ∷ xs) = ground (arith, bytes_eq_refl xs)

pub bytes_eq→eq : (xs ys : Bytes) → bytes_eq xs ys ≡ true → xs ≡ ys
unfolding bytes_eq
bytes_eq→eq [] [] h = refl
bytes_eq→eq [] (y ∷ ys) h = ground arith
bytes_eq→eq (x ∷ xs) [] h = ground arith
bytes_eq→eq (x ∷ xs) (y ∷ ys) h = ground (arith, bytes_eq→eq xs ys)
