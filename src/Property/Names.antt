-- ===== src/Property/Names.antt =====
-- Small tests that the interface to Poco and its client share.
use tiny_mq.Prelude.{
  ℕ, ◌-◌, ◌%◌, ◌<◌, ◌≡◌, arith, Bool, true, false, ◌||◌, Option, none, some, List, [], ◌∷◌, Bytes,
  bytes_eq, ℤ, pos, negsuc, ltb, if◌then◌else◌,
}
use tiny_mq.Property.{RawValue, raw_byte_array}

abbrev pub listed : Bytes → List Bytes → Bool
listed m [] = false
listed m (n ∷ ns) = bytes_eq n m || listed m ns

abbrev pub is_some {ℓ} : {A : Type ℓ} → Option A → Bool
is_some none = false
is_some (some a) = true

abbrev pub is_array : RawValue → Bool
is_array (raw_byte_array bs) = true
is_array _ = false

-- A byte as an int8_t, and back.
unfoldable pub int8 : ℕ → ℤ
int8 b = if ltb b 128 then pos b else negsuc (255 - b)

unfoldable pub byte_of : ℤ → ℕ
byte_of (pos n) = n % 256
byte_of (negsuc n) = 255 - n % 256

pub byte_of-int8 : (b : ℕ) → b < 256 → byte_of (int8 b) ≡ b
unfolding byte_of int8
byte_of-int8 b h = ground arith

abbrev pub AreBytes : Bytes → Type 0
AreBytes [] = Unit
AreBytes (b ∷ bs) = (b < 256) × AreBytes bs
