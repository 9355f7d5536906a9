-- ===== src/Selector/Parser/Fuel.antt =====
-- Selector.cpp, class Parser: the fuel that a text takes.
use tiny_mq.Prelude.{
  ℕ, zero, suc, ◌+◌, ◌-◌, ◌≤◌, ◌<◌, ◌≡◌, ◌≢◌, refl, subst, [], ◌∷◌, length, Bytes, arith,
}
use tiny_mq.Selector.Tokenizer.{TokenType}
use tiny_mq.Selector.Tokenizer.Consumed.{weight}
use tiny_mq.Selector.Values.{Doubles}
use tiny_mq.Selector.Logic.{or_fn, and_fn}
use tiny_mq.Selector.Parser.{
  no_fuel, State, advance_from, check, Fn, Parse, parse_primary, parse_comparison, parse_not, chain,
  parse_and, parse_or, parse_expression, parse,
}
use tiny_mq.Selector.Parser.Ends.{
  Small, Left, Fewer, Good, measure, Ends, bind-Ends, map-Ends, if-Ends, advance_from-Small,
  check-weight, mono, less,
}
use tiny_mq.Selector.Parser.Operand.{behind, call, parse_primary-Good}
use tiny_mq.Selector.Parser.Operator.{parse_comparison-Good}

module _ (doubles : Doubles) where
  parse_not-Good :
      (n m : ℕ) (comparison : Parse doubles)
      → Good m comparison
      → m < n
      → Good m (parse_not doubles n comparison)
  unfolding parse_not
  parse_not-Good zero m comparison good lt b le s small = absurd (omega arith)
  parse_not-Good (suc n) m comparison good lt b le s small =
      if-Ends (Left b) (check TokenType.not s) _ _
        (λ e. behind doubles b s _ (check-weight TokenType.not s refl e) small (λ s1 e1.
          bind-Ends (Fewer b) (Left b) (parse_not doubles n comparison s1) _
            (less (b - 1) (parse_not doubles n comparison)
              (parse_not-Good n (b - 1) comparison (mono (b - 1) m comparison (omega arith) good)
                (omega arith))
              b (omega arith) s1 e1)
            (λ r e2. omega arith)))
        (λ e. good b le s small)

  chain-Left :
      (n m : ℕ) (t : TokenType) (join : Fn doubles → Fn doubles → Fn doubles)
      (operand : Parse doubles)
      → weight t ≡ 1
      → Good m operand
      → m < n
      → (left : Fn doubles) → Good m (chain doubles n t join operand left)
  unfolding chain
  chain-Left zero m t join operand w good lt left b le s small = absurd (omega arith)
  chain-Left (suc n) m t join operand w good lt left b le s small =
      if-Ends (Left b) (check t s) _ _
        (λ e. behind doubles b s _ (check-weight t s w e) small (λ s1 e1.
          bind-Ends (Fewer b) (Left b) (operand s1) _ (less m operand good b (omega arith) s1 e1)
            (λ r e2.
              map-Ends (Fewer b) (Left b) _ (λ r' e3. omega arith)
                (less (b - 1) (chain doubles n t join operand (join left r.0))
                  (chain-Left n (b - 1) t join operand w (mono (b - 1) m operand (omega arith) good)
                    (omega arith) (join left r.0))
                  b (omega arith) r.1 e2))))
        (λ e. small)

  parse_and-Good :
      (n m : ℕ) (operand : Parse doubles)
      → Good m operand
      → m < n
      → Good m (parse_and doubles n operand)
  unfolding parse_and
  parse_and-Good n m operand good lt b le s small =
      call doubles m operand good b le s _ small
        (λ r e1. chain-Left n m TokenType.and (and_fn doubles) operand refl good lt r.0 b le r.1 e1)

  conjunction-Good :
      (n m : ℕ)
      → m < n
      → ((b : ℕ) → suc b ≤ m → Good b (parse_or doubles n))
      → Good m (
          parse_and doubles n (
            parse_not doubles n
              (parse_comparison doubles n (parse_primary doubles (parse_or doubles n)))))
  conjunction-Good n m lt good =
      parse_and-Good n m _
        (parse_not-Good n m _
          (parse_comparison-Good doubles n m _
            (parse_primary-Good doubles m (parse_or doubles n) good) lt)
          lt)
        lt

  -- Two units more than the tokens that are left.
  parse_or-Good : (n m : ℕ) → suc m < n → Good m (parse_or doubles n)
  unfolding parse_or
  parse_or-Good zero m lt b le s small = absurd (omega arith)
  parse_or-Good (suc n) m lt b le s small =
      let conjunction =
        conjunction-Good n m (omega arith) (λ k le. parse_or-Good n k (omega arith)) in
      call doubles m _ conjunction b le s _ small (λ r e1.
        chain-Left n m TokenType.or (or_fn doubles) _ refl conjunction (omega arith) r.0 b le r.1
          e1)

  parse_expression-Ends :
      (n : ℕ) (s : State) → suc (measure s) < n → Ends (λ e. Unit) (parse_expression doubles n s)
  unfolding parse_expression
  parse_expression-Ends n s lt =
      bind-Ends (Left (measure s)) (λ e. Unit) (parse_or doubles n s) _
        (parse_or-Good n (measure s) lt (measure s) (omega arith) s (omega arith))
        (λ r e. if-Ends (λ e. Unit) (check TokenType.eof_token r.1) _ _ (λ e. tt) (λ e. tt))

  parse-Ends :
      (n : ℕ) (text : Bytes) → suc (length text) < n → Ends (λ e. Unit) (parse doubles n text)
  unfolding parse
  parse-Ends n [] lt = tt
  parse-Ends n (c ∷ text) lt =
      bind-Ends (Small (length (c ∷ text))) (λ e. Unit) (advance_from (c ∷ text)) _
        (advance_from-Small (c ∷ text)) (λ s e. parse_expression-Ends n s (omega arith))

  -- On every text, with at least two units of fuel more than the text has bytes, the parser does
  -- not run out of fuel.
  pub parse_enough : (n : ℕ) (text : Bytes) → length text + 2 ≤ n → parse doubles n text ≢ no_fuel
  parse_enough n text le e = subst (Ends (λ e. Unit)) e (parse-Ends n text (omega arith))
