-- ===== src/Selector/Values.antt =====
-- Selector.h, SelectorValue; Selector.cpp, extractProperty and the value comparison helpers.
use tiny_mq.Prelude.{ℕ, Bool, true, false, ◌||◌, Option, none, some, [], ◌∷◌, ℤ, Bytes, bytes_eq}
use tiny_mq.Message.{Message, PropertyValue, property}

-- The double arithmetic that the code relies on, and the standard library's number parsers. The
-- patterns are those of a message's float and double properties; `none` is std::out_of_range.
pub record Doubles : Type 1 where
  pub Double : Type 0
  pub of_int64 : ℤ → Double
  pub of_float : ℕ → Double
  pub of_double : ℕ → Double
  pub eq : Double → Double → Bool
  pub lt : Double → Double → Bool
  pub stoll : Bytes → Option ℤ
  pub stod : Bytes → Option Double

-- The variant; `null` is std::monostate.
pub data SelectorValue (D : Type 0) : Type 0 where
  null : SelectorValue D
  boolean : Bool → SelectorValue D
  int64 : ℤ → SelectorValue D
  double : D → SelectorValue D
  string : Bytes → SelectorValue D

abbrev bool_eq : Bool → Bool → Bool
bool_eq true b = b
bool_eq false true = false
bool_eq false false = true

module _ (doubles : Doubles) where
  abbrev pub Value : Type 0
  Value = SelectorValue doubles.Double

  abbrev optional : {A : Type 0} → (A → Value) → Option A → Value
  optional f none = null
  optional f (some a) = f a

  abbrev property_value : PropertyValue → Value
  property_value (PropertyValue.boolean b) = optional boolean b
  property_value (PropertyValue.string s) = optional string s
  property_value (PropertyValue.integer i) = optional int64 i
  property_value (PropertyValue.long i) = optional int64 i
  property_value (PropertyValue.short i) = optional int64 i
  property_value (PropertyValue.byte i) = optional int64 i
  property_value (PropertyValue.double d) = optional (λ p. double (doubles.of_double p)) d
  property_value (PropertyValue.floating d) = optional (λ p. double (doubles.of_float p)) d
  property_value (PropertyValue.character c) = optional (λ c. string (c ∷ [])) c
  property_value (PropertyValue.byte_array s) = null

  unfoldable pub extract_property : Message → Bytes → Value
  unfolding property
  extract_property m name = elim (property m.properties name) [
    | none ↦ null
    | some p ↦ property_value p
  ]

  -- toDouble on a number; the code calls it behind isNumeric alone.
  abbrev number : Value → Option doubles.Double
  number (int64 i) = some (doubles.of_int64 i)
  number (double d) = some d
  number _ = none

  abbrev same : Value → Value → Bool
  same (boolean a) (boolean b) = bool_eq a b
  same (string a) (string b) = bytes_eq a b
  same _ _ = false

  unfoldable pub sel_eq : Value → Value → Bool
  sel_eq a b = elim (number a) [
    | none ↦ same a b
    | some x ↦ elim (number b) [ none ↦ false | some y ↦ doubles.eq x y ]
  ]

  unfoldable pub sel_lt : Value → Value → Bool
  sel_lt a b = elim (number a) [
    | none ↦ false
    | some x ↦ elim (number b) [ none ↦ false | some y ↦ doubles.lt x y ]
  ]

  unfoldable pub sel_gt : Value → Value → Bool
  unfolding sel_lt
  sel_gt a b = sel_lt b a

  unfoldable pub sel_lte : Value → Value → Bool
  unfolding sel_eq sel_lt
  sel_lte a b = sel_eq a b || sel_lt a b

  unfoldable pub sel_gte : Value → Value → Bool
  unfolding sel_eq sel_gt
  sel_gte a b = sel_eq a b || sel_gt a b
