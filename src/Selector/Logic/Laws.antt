-- ===== src/Selector/Logic/Laws.antt =====
-- Selector.cpp: the three-valued logic of the closures, the operators that abbreviate others, and
-- what a null operand does.
use tiny_mq.Prelude.{
  ◌≡◌, refl, Bool, true, false, ◌&&◌, ◌||◌, not, Option, none, some, List, [], ◌∷◌, if◌then◌else◌,
  Bytes, ap, ◌∙◌, sym,
}
use tiny_mq.Message.{Message}
use tiny_mq.Selector.Like.{regex_match-like_to_regex, like_to_regex, like}
use tiny_mq.Selector.Values.{
  Doubles, SelectorValue, null, boolean, int64, double, string, sel_eq, sel_lt, sel_gt, sel_lte,
  sel_gte,
}
use tiny_mq.Selector.Logic.{
  EvalFn, truth, or_fn, and_fn, not_fn, or_truth, and_truth, not_truth, between_fn, in_fn, in_list,
  like_fn, compare_fn, neq, matches, is_true, holds_null,
}

module _ (doubles : Doubles) where
  not_or :
      (a b : Option Bool)
      → not_truth doubles (truth doubles (or_truth doubles a b))
        ≡ and_truth doubles
            (truth doubles (not_truth doubles a))
            (truth doubles (not_truth doubles b))
  not_or (some true) (some b) = refl
  not_or (some true) none = refl
  not_or (some false) (some b) = refl
  not_or (some false) none = refl
  not_or none (some true) = refl
  not_or none (some false) = refl
  not_or none none = refl

  -- De Morgan: the negation of an OR is the AND of the negations, for every value of the operands,
  -- null and values that are no Boolean included.
  pub not_fn-or_fn :
      (l r : EvalFn doubles) (m : Message)
      → not_fn doubles (or_fn doubles l r) m
        ≡ and_fn doubles (not_fn doubles l) (not_fn doubles r) m
  unfolding not_fn or_fn and_fn
  not_fn-or_fn l r m = not_or (truth doubles (l m)) (truth doubles (r m))

  is_true-or :
      (a b : Option Bool)
      → is_true doubles (truth doubles (or_truth doubles a b))
        ≡ (is_true doubles a || is_true doubles b)
  is_true-or (some true) b = refl
  is_true-or (some false) (some b) = refl
  is_true-or (some false) none = refl
  is_true-or none (some true) = refl
  is_true-or none (some false) = refl
  is_true-or none none = refl

  is_true-and :
      (a b : Option Bool)
      → is_true doubles (truth doubles (and_truth doubles a b))
        ≡ (is_true doubles a && is_true doubles b)
  is_true-and (some false) b = refl
  is_true-and (some true) (some b) = refl
  is_true-and (some true) none = refl
  is_true-and none (some true) = refl
  is_true-and none (some false) = refl
  is_true-and none none = refl

  abbrev eq_fn : EvalFn doubles → EvalFn doubles → EvalFn doubles
  eq_fn = compare_fn doubles (sel_eq doubles)

  -- `l = item` for one of the items, as a chain of ORs.
  unfoldable pub or_of : EvalFn doubles → List (EvalFn doubles) → EvalFn doubles
  unfolding or_fn compare_fn sel_eq
  or_of l [] m = boolean false
  or_of l (item ∷ items) m = or_fn doubles (eq_fn l item) (or_of l items) m

  or_if : (b c : Bool) → (b || c) ≡ (if b then true else c)
  or_if true c = refl
  or_if false c = refl

  matches-or_of :
      (l : EvalFn doubles) (items : List (EvalFn doubles)) (m : Message)
      → matches doubles (or_of l items) m ≡ in_list doubles false (l m) items m
  unfolding or_of in_list matches or_fn compare_fn
  matches-or_of l [] m = refl
  matches-or_of l (item ∷ items) m =
      is_true-or (some (sel_eq doubles (l m) (item m))) (truth doubles (or_of l items m))
      ∙ (ap (λ b. sel_eq doubles (l m) (item m) || b) (matches-or_of l items m)
          ∙ or_if (sel_eq doubles (l m) (item m)) (in_list doubles false (l m) items m))

  in_list-null :
      (negated : Bool) (items : List (EvalFn doubles)) (m : Message)
      → in_list doubles negated null items m ≡ negated
  unfolding in_list sel_eq
  in_list-null negated [] m = refl
  in_list-null negated (item ∷ items) m = in_list-null negated items m

  in_value :
      (v : SelectorValue doubles.Double) (items : List (EvalFn doubles)) (m : Message)
      → is_true doubles (
          truth doubles
            (if holds_null doubles v then null else boolean (in_list doubles false v items m)))
        ≡ in_list doubles false v items m
  in_value null items m = sym (in_list-null false items m)
  in_value (boolean b) items m = refl
  in_value (int64 b) items m = refl
  in_value (double b) items m = refl
  in_value (string b) items m = refl

  -- `l IN (items)` selects the messages that `l = item OR ...` selects.
  pub matches-in_fn :
      (l : EvalFn doubles) (items : List (EvalFn doubles)) (m : Message)
      → matches doubles (in_fn doubles false l items) m ≡ matches doubles (or_of l items) m
  unfolding in_fn matches
  matches-in_fn l items m = in_value (l m) items m ∙ sym (matches-or_of l items m)

  -- A selector of an AND selects what both operands select, and that of an OR what one of them
  -- selects, whatever values the operands have.
  pub matches-and_fn :
      (l r : EvalFn doubles) (m : Message)
      → (matches doubles (and_fn doubles l r) m ≡ (matches doubles l m && matches doubles r m))
        × (matches doubles (or_fn doubles l r) m ≡ (matches doubles l m || matches doubles r m))
  unfolding matches and_fn or_fn
  matches-and_fn l r m = (
    is_true-and (truth doubles (l m)) (truth doubles (r m)),
    is_true-or (truth doubles (l m)) (truth doubles (r m)),
  )

  abbrev unless : Bool → EvalFn doubles → EvalFn doubles
  unless true e = not_fn doubles e
  unless false e = e

  and_both : (b c : Bool) → boolean (b && c) ≡ and_truth doubles (some b) (some c)
  and_both true c = refl
  and_both false c = refl

  sel_lt-null : (v : SelectorValue doubles.Double) → sel_lt doubles v null ≡ false
  unfolding sel_lt
  sel_lt-null (int64 i) = refl
  sel_lt-null (double d) = refl
  sel_lt-null null = refl
  sel_lt-null (boolean b) = refl
  sel_lt-null (string s) = refl

  sel_gte-null : (v : SelectorValue doubles.Double) → sel_gte doubles null v ≡ false
  unfolding sel_gte sel_gt sel_eq
  sel_gte-null v = sel_lt-null v

  -- `[NOT] l BETWEEN low AND high` has the value of `[NOT] (l >= low AND l <= high)`.
  pub between_fn_lem :
      (negated : Bool) (l low high : EvalFn doubles) (m : Message)
      → between_fn doubles negated l low high m
        ≡ unless negated
            (and_fn doubles
              (compare_fn doubles (sel_gte doubles) l low)
              (compare_fn doubles (sel_lte doubles) l high))
            m
  unfolding between_fn and_fn compare_fn not_fn
  between_fn_lem true l low high m =
      ap (λ (v : SelectorValue doubles.Double). not_fn doubles (λ _. v) m)
        (and_both (sel_gte doubles (l m) (low m)) (sel_lte doubles (l m) (high m)))
  between_fn_lem false l low high m =
      and_both (sel_gte doubles (l m) (low m)) (sel_lte doubles (l m) (high m))

  -- Where the left operand is null, `=`, `<`, `<=`, `>`, `>=`, IN and LIKE, negated or not, select
  -- nothing, but `<>` and NOT BETWEEN select the message.
  pub matches-null :
      (l r high : EvalFn doubles) (items : List (EvalFn doubles)) (negated : Bool) (regex : Bytes)
      (m : Message)
      → l m ≡ null
      → (matches doubles (eq_fn l r) m ≡ false)
        × (matches doubles (compare_fn doubles (sel_lt doubles) l r) m ≡ false)
        × (matches doubles (compare_fn doubles (sel_gt doubles) l r) m ≡ false)
        × (matches doubles (compare_fn doubles (sel_lte doubles) l r) m ≡ false)
        × (matches doubles (compare_fn doubles (sel_gte doubles) l r) m ≡ false)
        × (matches doubles (in_fn doubles negated l items) m ≡ false)
        × (matches doubles (like_fn doubles negated l regex) m ≡ false)
        × (matches doubles (compare_fn doubles (neq doubles) l r) m ≡ true)
        × (matches doubles (between_fn doubles true l r high) m ≡ true)
  unfolding matches compare_fn in_fn like_fn between_fn sel_eq sel_lt sel_gt sel_lte sel_gte neq
  matches-null l r high items negated regex m h =
      rw (h, sel_lt-null (r m)) (refl, refl, refl, refl, refl, refl, refl, refl, refl)

  -- `l LIKE 'pattern'` on a string selects exactly the strings that the pattern stands for.
  pub matches-like_fn :
      (l : EvalFn doubles) (negated : Bool) (pattern_ s : Bytes) (m : Message)
      → l m ≡ string s
      → matches doubles (like_fn doubles negated l (like_to_regex pattern_)) m
        ≡ (if negated then not (like pattern_ s) else like pattern_ s)
  unfolding matches like_fn
  matches-like_fn l negated pattern_ s m h = rw (h, regex_match-like_to_regex pattern_ s) refl
