-- ===== src/Selector/Parser.antt =====
-- Selector.cpp, class Parser, and Selector::parse. A state is `_current` and the text behind it.
-- A call to parseOr, parseNot or a loop's next turn takes one unit of fuel, and behind each of them
-- a token has been consumed.
pub mod Ends
pub mod Operand
pub mod Operator
pub mod Fuel
use tiny_mq.Prelude.{
  ℕ, zero, suc, Bool, true, false, Option, none, some, List, [], ◌∷◌, if◌then◌else◌, Bytes, ◌==◌, ℤ,
}
use tiny_mq.Selector.Tokenizer.{TokenType, Token, token, unexpected, next}
use tiny_mq.Selector.Like.{like_to_regex}
use tiny_mq.Selector.Values.{
  Doubles, SelectorValue, null, boolean, int64, double, sel_eq, sel_lt, sel_gt, sel_lte, sel_gte,
  extract_property,
}
use tiny_mq.Selector.Logic.{
  EvalFn, Comparison, or_fn, and_fn, not_fn, is_null_fn, between_fn, in_fn, like_fn, compare_fn,
  neq as not_equal,
}

-- What a parse gives; `out_of_range` is the exception of std::stoll and std::stod.
pub data Parsed {ℓ} (A : Type ℓ) : Type ℓ where
  ok : A → Parsed A
  invalid out_of_range no_fuel : Parsed A

infixl 10 ◌>>=◌
abbrev pub ◌>>=◌ {ℓ κ} : {A : Type ℓ} {B : Type κ} → Parsed A → (A → Parsed B) → Parsed B
ok a >>= f = f a
invalid >>= f = invalid
out_of_range >>= f = out_of_range
no_fuel >>= f = no_fuel

pub record State : Type 0 where
  pub current : Token
  pub rest : Bytes

unfoldable pub advance_from : Bytes → Parsed State
unfolding next
advance_from rest = elim (next rest) [
  | token t left ↦ ok (record { current = t; rest = left })
  | unexpected c ↦ invalid
]

abbrev pub advance : State → Parsed State
advance s = advance_from s.rest

-- A type's place in the enumeration.
abbrev pub place : TokenType → ℕ
place TokenType.ident = 0
place TokenType.string = 1
place TokenType.int_lit = 2
place TokenType.float_lit = 3
place TokenType.true_lit = 4
place TokenType.false_lit = 5
place TokenType.null_lit = 6
place TokenType.and = 7
place TokenType.or = 8
place TokenType.not = 9
place TokenType.like = 10
place TokenType.between = 11
place TokenType.in_ = 12
place TokenType.is = 13
place TokenType.eq = 14
place TokenType.neq = 15
place TokenType.lt = 16
place TokenType.lte = 17
place TokenType.gt = 18
place TokenType.gte = 19
place TokenType.lparen = 20
place TokenType.rparen = 21
place TokenType.comma = 22
place TokenType.eof_token = 23

abbrev pub check : TokenType → State → Bool
check t s = place s.current.type == place t

unfoldable pub consume : TokenType → State → Parsed State
unfolding advance_from
consume t s = if check t s then advance s else invalid

module _ (doubles : Doubles) where
  abbrev pub Fn : Type 0
  Fn = EvalFn doubles

  abbrev pub Parse : Type 0
  Parse = State → Parsed (Fn × State)

  abbrev pub constant : SelectorValue doubles.Double → Parse
  constant v s = do s' ← advance s; ok ((λ _. v), s')

  abbrev pub parsed_number : Option (SelectorValue doubles.Double) → Parse
  parsed_number none s = out_of_range
  parsed_number (some v) s = constant v s

  abbrev pub int_value : Option ℤ → Option (SelectorValue doubles.Double)
  int_value none = none
  int_value (some i) = some (int64 i)

  abbrev pub float_value : Option doubles.Double → Option (SelectorValue doubles.Double)
  float_value none = none
  float_value (some d) = some (double d)

  abbrev pub identifier : Parse
  identifier s = do s' ← advance s; ok ((λ m. extract_property doubles m s.current.text), s')

  abbrev pub parenthesised : Parse → Parse
  parenthesised expression s = do
    s1 ← advance s
    (e, s2) ← expression s1
    s3 ← consume TokenType.rparen s2
    ok (e, s3)

  -- `expression` is parseOr.
  unfoldable pub parse_primary : Parse → Parse
  unfolding advance_from consume extract_property
  parse_primary expression s = elim s.current.type [
    | TokenType.lparen ↦ parenthesised expression s
    | TokenType.null_lit ↦ constant null s
    | TokenType.true_lit ↦ constant (boolean true) s
    | TokenType.false_lit ↦ constant (boolean false) s
    | TokenType.string ↦ constant (SelectorValue.string s.current.text) s
    | TokenType.int_lit ↦ parsed_number (int_value (doubles.stoll s.current.text)) s
    | TokenType.float_lit ↦ parsed_number (float_value (doubles.stod s.current.text)) s
    | TokenType.ident ↦ identifier s
    | _ ↦ invalid
  ]

  -- NOT, if it is the current token.
  abbrev pub optional_not : State → Parsed (Bool × State)
  optional_not s =
      if check TokenType.not s then (do s' ← advance s; ok (true, s')) else ok (false, s)

  abbrev pub is_rest : Fn → Parse
  is_rest left s = do
    s1 ← advance s
    (negated, s2) ← optional_not s1
    s3 ← consume TokenType.null_lit s2
    ok (is_null_fn doubles negated left, s3)

  abbrev pub between_rest : Parse → Bool → Fn → Parse
  between_rest primary negated left s = do
    s1 ← advance s
    (low, s2) ← primary s1
    s3 ← consume TokenType.and s2
    (high, s4) ← primary s3
    ok (between_fn doubles negated left low high, s4)

  -- `(COMMA primary)*`.
  unfoldable pub parse_items : ℕ → Parse → State → Parsed (List Fn × State)
  unfolding advance_from
  parse_items zero primary s = no_fuel
  parse_items (suc n) primary s =
      let more = do
        s1 ← advance s
        (item, s2) ← primary s1
        (items, s3) ← parse_items n primary s2
        ok (item ∷ items, s3)
      in if check TokenType.comma s then more else ok ([], s)

  abbrev pub in_rest : ℕ → Parse → Bool → Fn → Parse
  in_rest n primary negated left s = do
    s1 ← advance s
    s2 ← consume TokenType.lparen s1
    (item, s3) ← primary s2
    (items, s4) ← parse_items n primary s3
    s5 ← consume TokenType.rparen s4
    ok (in_fn doubles negated left (item ∷ items), s5)

  abbrev pub like_rest : Bool → Fn → Parse
  like_rest negated left s = do
    s1 ← advance s
    s2 ← consume TokenType.string s1
    ok (like_fn doubles negated left (like_to_regex s1.current.text), s2)

  abbrev pub relational : Parse → Comparison doubles → Fn → Parse
  relational primary op left s = do
    s1 ← advance s
    (right, s2) ← primary s1
    ok (compare_fn doubles op left right, s2)

  abbrev pub unnegated : Bool → Parsed (Fn × State) → Parsed (Fn × State)
  unnegated true p = invalid
  unnegated false p = p

  -- The token behind the left operand; a relational operator follows no NOT.
  abbrev pub operator : ℕ → Parse → Bool → Fn → Parse
  operator n primary negated left s = elim s.current.type [
    | TokenType.between ↦ between_rest primary negated left s
    | TokenType.in_ ↦ in_rest n primary negated left s
    | TokenType.like ↦ like_rest negated left s
    | TokenType.eq ↦ unnegated negated (relational primary (sel_eq doubles) left s)
    | TokenType.neq ↦ unnegated negated (relational primary (not_equal doubles) left s)
    | TokenType.lt ↦ unnegated negated (relational primary (sel_lt doubles) left s)
    | TokenType.lte ↦ unnegated negated (relational primary (sel_lte doubles) left s)
    | TokenType.gt ↦ unnegated negated (relational primary (sel_gt doubles) left s)
    | TokenType.gte ↦ unnegated negated (relational primary (sel_gte doubles) left s)
    | _ ↦ unnegated negated (ok (left, s))
  ]

  unfoldable pub parse_comparison : ℕ → Parse → Parse
  unfolding advance_from consume parse_items like_to_regex is_null_fn between_fn in_fn like_fn
      compare_fn
  parse_comparison n primary s = do
    (left, s1) ← primary s
    if check TokenType.is s1
        then is_rest left s1
        else (do (negated, s2) ← optional_not s1; operator n primary negated left s2)

  unfoldable pub parse_not : ℕ → Parse → Parse
  unfolding advance_from not_fn
  parse_not zero comparison s = no_fuel
  parse_not (suc n) comparison s =
      let negated = do
        s1 ← advance s
        (e, s2) ← parse_not n comparison s1
        ok (not_fn doubles e, s2)
      in if check TokenType.not s then negated else comparison s

  -- The loops of parseAnd and parseOr: `(AND operand)*` or `(OR operand)*` behind `left`.
  unfoldable pub chain : ℕ → TokenType → (Fn → Fn → Fn) → Parse → Fn → Parse
  unfolding advance_from
  chain zero t join operand left s = no_fuel
  chain (suc n) t join operand left s =
      let more = do
        s1 ← advance s
        (right, s2) ← operand s1
        chain n t join operand (join left right) s2
      in if check t s then more else ok (left, s)

  unfoldable pub parse_and : ℕ → Parse → Parse
  unfolding chain and_fn
  parse_and n operand s = do
    (left, s1) ← operand s
    chain n TokenType.and (and_fn doubles) operand left s1

  unfoldable pub parse_or : ℕ → Parse
  unfolding chain or_fn parse_and parse_not parse_comparison parse_primary
  parse_or zero s = no_fuel
  parse_or (suc n) s =
      let conjunction =
        parse_and n (parse_not n (parse_comparison n (parse_primary (parse_or n)))) in
      do (left, s1) ← conjunction s; chain n TokenType.or (or_fn doubles) conjunction left s1

  unfoldable pub parse_expression : ℕ → State → Parsed Fn
  unfolding parse_or
  parse_expression n s = do
    (e, s1) ← parse_or n s
    if check TokenType.eof_token s1 then ok e else invalid

  -- Selector::parse; the empty text selects every message.
  unfoldable pub parse : ℕ → Bytes → Parsed Fn
  unfolding parse_expression advance_from
  parse n [] = ok (λ _. boolean true)
  parse n (c ∷ text) = do s ← advance_from (c ∷ text); parse_expression n s
