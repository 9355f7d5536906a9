-- ===== src/Selector/Tests.antt =====
-- Tests of the selectors and the theorems at concrete messages. Doubles are whole numbers here.
use tiny_mq.Prelude.{
  ℕ, ◌*◌, ◌+◌, ◌-◌, ◌≡◌, refl, Bool, true, false, Option, none, some, [], ◌∷◌, ℤ, pos, ltb_ℤ, Bytes,
  bytes_eq, ◌&&◌, not, ◌≢◌, arith,
}
use tiny_mq.Message.{Message, PropertyValue, shell, text_message, set_property}
use tiny_mq.Selector.Tokenizer.{codes}
use tiny_mq.Selector.Values.{
  Doubles, SelectorValue, null, extract_property, sel_lt, sel_gt, sel_eq, sel_lte, sel_gte,
}
use tiny_mq.Selector.Parser.{Parsed, ok, no_fuel, parse}
use tiny_mq.Selector.Parser.Fuel.{parse_enough}
use tiny_mq.Selector.Like.{
  like, like_body, like_char, is_special, is_operator, is_dot, like_to_regex, regex_match,
  regex_match-like_to_regex,
}
use tiny_mq.Selector.Logic.{EvalFn, matches, neq, between_fn, in_fn, like_fn, compare_fn}
use tiny_mq.Selector.Logic.Laws.{matches-null}

abbrev decimal : ℕ → Bytes → ℤ
decimal n [] = pos n
decimal n (c ∷ digits) = decimal (n * 10 + (c - 48)) digits

-- Whole numbers for the doubles.
abbrev doubles : Doubles
doubles = record {
  Double = ℤ;
  of_int64 = λ i. i;
  of_float = λ p. pos p;
  of_double = λ p. pos p;
  eq = λ a b. not (ltb_ℤ a b) && not (ltb_ℤ b a);
  lt = ltb_ℤ;
  stoll = λ s. some (decimal 0 s);
  stod = λ s. some (decimal 0 s);
}

abbrev with_property : Bytes → PropertyValue → Message → Message
with_property name v m = record m { properties = set_property m.properties name v }

abbrev ranked : Message
ranked = with_property (codes "rank") (PropertyValue.integer (some (pos 150))) (
    with_property (codes "name") (PropertyValue.string (some (codes "James"))) (shell text_message))

abbrev selects : Parsed (EvalFn doubles) → Option Bool
selects (ok e) = some (matches doubles e ranked)
selects _ = none

abbrev select : ℕ → Bytes → Option Bool
select n text = selects (parse doubles n text)

both : select 40 (codes "rank > 100 AND name = 'James'") ≡ some true
unfolding parse matches set_property bytes_eq like_body like_char is_special is_operator is_dot neq
both = refl

precedence : select 40 (codes "rank < 1 AND rank < 2 OR NOT (name IN ('Jim', 'Jo')) ") ≡ some true
unfolding parse matches set_property bytes_eq like_body like_char is_special is_operator is_dot neq
precedence = refl

pattern_of_name : select 40 (codes "name LIKE 'J_m%' AND rank NOT BETWEEN 1 AND 100") ≡ some true
unfolding parse matches set_property bytes_eq like_body like_char is_special is_operator is_dot neq
pattern_of_name = refl

absent : select 40 (codes "colour <> 'red' AND NOT colour = 'red'") ≡ some true
unfolding parse matches set_property bytes_eq like_body like_char is_special is_operator is_dot neq
absent = refl

no_operand : select 40 (codes "rank >") ≡ none
unfolding parse matches set_property bytes_eq like_body like_char is_special is_operator is_dot neq
no_operand = refl

abbrev named : Bytes → EvalFn doubles
named name m = extract_property doubles m name

abbrev constant : ℕ → EvalFn doubles
constant n m = SelectorValue.int64 (pos n)

abbrev at_least : ℕ → EvalFn doubles
at_least n = compare_fn doubles (sel_gte doubles) (named (codes "rank")) (constant n)

abbrev no_red : EvalFn doubles
no_red = compare_fn doubles (neq doubles) (named (codes "colour")) (constant 3)

colour_is_null : named (codes "colour") ranked ≡ null
unfolding extract_property set_property bytes_eq
colour_is_null = refl

abbrev colour : EvalFn doubles
colour = named (codes "colour")

matches-null_example :
    (matches doubles (compare_fn doubles (sel_eq doubles) colour (constant 3)) ranked ≡ false)
    × (matches doubles (compare_fn doubles (sel_lt doubles) colour (constant 3)) ranked ≡ false)
    × (matches doubles (compare_fn doubles (sel_gt doubles) colour (constant 3)) ranked ≡ false)
    × (matches doubles (compare_fn doubles (sel_lte doubles) colour (constant 3)) ranked ≡ false)
    × (matches doubles (compare_fn doubles (sel_gte doubles) colour (constant 3)) ranked ≡ false)
    × (matches doubles (in_fn doubles true colour (constant 3 ∷ [])) ranked ≡ false)
    × (matches doubles (like_fn doubles true colour (codes "^r$")) ranked ≡ false)
    × (matches doubles no_red ranked ≡ true)
    × (matches doubles (between_fn doubles true colour (constant 3) (constant 9)) ranked ≡ true)
matches-null_example =
    matches-null doubles colour (constant 3) (constant 9) (constant 3 ∷ []) true (codes "^r$")
      ranked colour_is_null

name_is_james : named (codes "name") ranked ≡ SelectorValue.string (codes "James")
unfolding extract_property set_property bytes_eq
name_is_james = refl

regex_match-like_to_regex_example :
    regex_match (like_to_regex (codes "J.m%")) (codes "James")
    ≡ some (like (codes "J.m%") (codes "James"))
regex_match-like_to_regex_example = regex_match-like_to_regex (codes "J.m%") (codes "James")

parse_enough_example : parse doubles 60 (codes "NOT (a IN ('x', 'y')) AND b LIKE 'J_m%'") ≢ no_fuel
parse_enough_example =
    parse_enough doubles 60 (codes "NOT (a IN ('x', 'y')) AND b LIKE 'J_m%'") (omega arith)
