-- ===== src/Selector/Parser/Operator.antt =====
-- Selector.cpp, class Parser: parseComparison, with the tokens it leaves.
use tiny_mq.Prelude.{ℕ, ◌≤◌, ◌<◌, Bool, true, false, Bytes}
use tiny_mq.Selector.Tokenizer.{TokenType}
use tiny_mq.Selector.Values.{Doubles, sel_eq, sel_lt, sel_gt, sel_lte, sel_gte}
use tiny_mq.Selector.Logic.{Comparison, neq as not_equal}
use tiny_mq.Selector.Parser.{
  ok, State, advance, check, Fn, Parse, optional_not, is_rest, between_rest, parse_items, in_rest,
  like_rest, relational, unnegated, operator, parse_comparison,
}
use tiny_mq.Selector.Parser.Ends.{Small, Left, Good, at_token, Ends, bind-Ends, if-Ends, step}
use tiny_mq.Selector.Parser.Operand.{expect, call, optional_not-Left, parse_items-Good}

module _ (doubles : Doubles) where
  module _ (n m : ℕ) (primary : Parse doubles) (good : Good m primary) (lt : m < n) where
    pub is_rest-Left :
        (left : Fn doubles) (b : ℕ) (s : State) → Small b s → Ends (Left b) (is_rest doubles left s)
    is_rest-Left left b s small =
        bind-Ends (Small b) (Left b) (advance s) _ (step b s small) (λ s1 e1.
          bind-Ends (Left b) (Left b) (optional_not doubles s1) _
            (optional_not-Left doubles b s1 e1)
            (λ r e2. expect doubles TokenType.null_lit b r.1 _ e2 (λ s3 e3. e3)))

    pub between_rest-Left :
        (negated : Bool) (left : Fn doubles) (b : ℕ)
        → b ≤ m
        → (s : State) → Small b s
        → Ends (Left b) (between_rest doubles primary negated left s)
    between_rest-Left negated left b le s small =
        bind-Ends (Small b) (Left b) (advance s) _ (step b s small) (λ s1 e1.
          call doubles m primary good b le s1 _ e1 (λ r e2.
            expect doubles TokenType.and b r.1 _ e2
              (λ s3 e3. call doubles m primary good b le s3 _ e3 (λ r' e4. e4))))

    pub in_rest-Left :
        (negated : Bool) (left : Fn doubles) (b : ℕ)
        → b ≤ m
        → (s : State) → Small b s
        → Ends (Left b) (in_rest doubles n primary negated left s)
    in_rest-Left negated left b le s small =
        bind-Ends (Small b) (Left b) (advance s) _ (step b s small) (λ s1 e1.
          expect doubles TokenType.lparen b s1 _ e1 (λ s2 e2.
            call doubles m primary good b le s2 _ e2 (λ r e3.
              call doubles m (parse_items doubles n primary)
                (parse_items-Good doubles n m primary good lt) b le r.1 _ e3
                (λ r' e4. expect doubles TokenType.rparen b r'.1 _ e4 (λ s5 e5. e5)))))

    pub like_rest-Left :
        (negated : Bool) (left : Fn doubles) (b : ℕ) (s : State)
        → Small b s
        → Ends (Left b) (like_rest doubles negated left s)
    like_rest-Left negated left b s small =
        bind-Ends (Small b) (Left b) (advance s) _ (step b s small)
          (λ s1 e1. expect doubles TokenType.string b s1 _ e1 (λ s2 e2. e2))

    pub relational-Left :
        (negated : Bool) (op : Comparison doubles) (left : Fn doubles) (b : ℕ)
        → b ≤ m
        → (s : State) → Small b s
        → Ends (Left b) (unnegated doubles negated (relational doubles primary op left s))
    relational-Left true op left b le s small = tt
    relational-Left false op left b le s small =
        bind-Ends (Small b) (Left b) (advance s) _ (step b s small)
          (λ s1 e1. call doubles m primary good b le s1 _ e1 (λ r e2. e2))

    pub plain-Left :
        (negated : Bool) (left : Fn doubles) (b : ℕ) (s : State)
        → Small b s
        → Ends (Left b) (unnegated doubles negated (ok (left, s)))
    plain-Left true left b s small = tt
    plain-Left false left b s small = small

    pub operator_at :
        (negated : Bool) (left : Fn doubles) (b : ℕ)
        → b ≤ m
        → (type : TokenType) (text rest : Bytes) → Small b (at_token type text rest)
        → Ends (Left b) (operator doubles n primary negated left (at_token type text rest))
    operator_at negated left b le type text rest small =
        elim type
            as (λ type.
              Small b (at_token type text rest)
              → Ends (Left b) (operator doubles n primary negated left (at_token type text rest))) [
                | TokenType.between ↦ λ h.
                    between_rest-Left negated left b le (at_token TokenType.between text rest) h
                | TokenType.in_ ↦
                    λ h. in_rest-Left negated left b le (at_token TokenType.in_ text rest) h
                | TokenType.like ↦
                    λ h. like_rest-Left negated left b (at_token TokenType.like text rest) h
                | TokenType.eq ↦ λ h.
                    relational-Left negated (sel_eq doubles) left b le
                      (at_token TokenType.eq text rest) h
                | TokenType.neq ↦ λ h.
                    relational-Left negated (not_equal doubles) left b le
                      (at_token TokenType.neq text rest) h
                | TokenType.lt ↦ λ h.
                    relational-Left negated (sel_lt doubles) left b le
                      (at_token TokenType.lt text rest) h
                | TokenType.lte ↦ λ h.
                    relational-Left negated (sel_lte doubles) left b le
                      (at_token TokenType.lte text rest) h
                | TokenType.gt ↦ λ h.
                    relational-Left negated (sel_gt doubles) left b le
                      (at_token TokenType.gt text rest) h
                | TokenType.gte ↦ λ h.
                    relational-Left negated (sel_gte doubles) left b le
                      (at_token TokenType.gte text rest) h
                | other ↦ λ h. plain-Left negated left b (at_token other text rest) h
              ]
          small

    pub parse_comparison-Good : Good m (parse_comparison doubles n primary)
    unfolding parse_comparison
    parse_comparison-Good b le s small = call doubles m primary good b le s _ small (λ r e1.
        if-Ends (Left b) (check TokenType.is r.1) _ _ (λ e. is_rest-Left r.0 b r.1 e1)
          (λ e.
            bind-Ends (Left b) (Left b) (optional_not doubles r.1) _
              (optional_not-Left doubles b r.1 e1)
              (λ r' e2.
                operator_at r'.0 r.0 b le r'.1.current.type r'.1.current.text r'.1.rest e2)))
