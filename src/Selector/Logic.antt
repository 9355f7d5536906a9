-- ===== src/Selector/Logic.antt =====
-- Selector.cpp, the closures that parseOr, parseAnd, parseNot and parseComparison build, and
-- Selector::matches.
pub mod Laws
use tiny_mq.Prelude.{
  Bool, true, false, ◌&&◌, not, Option, none, some, List, [], ◌∷◌, if◌then◌else◌, Bytes,
}
use tiny_mq.Message.{Message}
use tiny_mq.Selector.Like.{regex_match}
use tiny_mq.Selector.Values.{
  Doubles, SelectorValue, null, boolean, string, sel_eq, sel_lte, sel_gte,
}

module _ (doubles : Doubles) where
  abbrev Value : Type 0
  Value = SelectorValue doubles.Double

  abbrev pub EvalFn : Type 0
  EvalFn = Message → Value

  -- holds_alternative<bool> and get<bool>.
  abbrev pub truth : Value → Option Bool
  truth (boolean b) = some b
  truth _ = none

  abbrev or_truth : Option Bool → Option Bool → Value
  or_truth (some true) b = boolean true
  or_truth (some false) (some b) = boolean b
  or_truth (some false) none = null
  or_truth none (some true) = boolean true
  or_truth none (some false) = null
  or_truth none none = null

  abbrev and_truth : Option Bool → Option Bool → Value
  and_truth (some false) b = boolean false
  and_truth (some true) (some b) = boolean b
  and_truth (some true) none = null
  and_truth none (some false) = boolean false
  and_truth none (some true) = null
  and_truth none none = null

  abbrev not_truth : Option Bool → Value
  not_truth (some b) = boolean (not b)
  not_truth none = null

  unfoldable pub or_fn : EvalFn → EvalFn → EvalFn
  or_fn l r m = or_truth (truth (l m)) (truth (r m))

  unfoldable pub and_fn : EvalFn → EvalFn → EvalFn
  and_fn l r m = and_truth (truth (l m)) (truth (r m))

  unfoldable pub not_fn : EvalFn → EvalFn
  not_fn e m = not_truth (truth (e m))

  abbrev negate : Bool → Bool → Bool
  negate negated result = if negated then not result else result

  abbrev holds_null : Value → Bool
  holds_null null = true
  holds_null _ = false

  unfoldable pub is_null_fn : Bool → EvalFn → EvalFn
  is_null_fn negated l m = boolean (negate negated (holds_null (l m)))

  unfoldable pub between_fn : Bool → EvalFn → EvalFn → EvalFn → EvalFn
  unfolding sel_gte sel_lte
  between_fn negated l low high m =
      boolean (negate negated (sel_gte doubles (l m) (low m) && sel_lte doubles (l m) (high m)))

  unfoldable pub in_list : Bool → Value → List EvalFn → Message → Bool
  unfolding sel_eq
  in_list negated v [] m = negated
  in_list negated v (item ∷ items) m =
      if sel_eq doubles v (item m) then not negated else in_list negated v items m

  unfoldable pub in_fn : Bool → EvalFn → List EvalFn → EvalFn
  unfolding in_list
  in_fn negated l items m =
      if holds_null (l m) then null else boolean (in_list negated (l m) items m)

  -- The parser writes no regex that regex_match gives no meaning to.
  abbrev matched : Option Bool → Bool
  matched none = false
  matched (some b) = b

  abbrev like_value : Bool → Bytes → Value → Value
  like_value negated regex (string s) = boolean (negate negated (matched (regex_match regex s)))
  like_value negated regex _ = null

  unfoldable pub like_fn : Bool → EvalFn → Bytes → EvalFn
  unfolding regex_match
  like_fn negated l regex m = like_value negated regex (l m)

  abbrev pub Comparison : Type 0
  Comparison = Value → Value → Bool

  unfoldable pub neq : Comparison
  unfolding sel_eq
  neq a b = not (sel_eq doubles a b)

  unfoldable pub compare_fn : Comparison → EvalFn → EvalFn → EvalFn
  compare_fn op l r m = boolean (op (l m) (r m))

  abbrev is_true : Option Bool → Bool
  is_true (some b) = b
  is_true none = false

  -- Selector::matches, on the closure that `_impl` holds.
  unfoldable pub matches : EvalFn → Message → Bool
  matches e m = is_true (truth (e m))
