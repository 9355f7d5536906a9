-- ===== src/Selector/Parser/Operand.antt =====
-- Selector.cpp, class Parser: parsePrimary and the loop over a list, with the tokens they leave.
use tiny_mq.Prelude.{
  ℕ, zero, suc, ◌-◌, ◌≤◌, ◌<◌, ◌≡◌, refl, true, false, Option, none, some, Bytes, arith,
}
use tiny_mq.Selector.Tokenizer.{TokenType}
use tiny_mq.Selector.Tokenizer.Consumed.{weight}
use tiny_mq.Selector.Values.{Doubles, SelectorValue, null, boolean}
use tiny_mq.Selector.Parser.{
  Parsed, ok, ◌>>=◌, State, advance, check, consume, Fn, Parse, constant, parsed_number, int_value,
  float_value, parenthesised, parse_primary, optional_not, parse_items,
}
use tiny_mq.Selector.Parser.Ends.{
  Small, Left, Fewer, Good, measure, at_token, Ends, bind-Ends, if-Ends, check-weight, step, take,
  consume-Small, mono, less,
}

module _ (doubles : Doubles) where
  abbrev pub Result : Type 0
  Result = Parsed (Fn doubles × State)

  -- A token is taken, and the rule goes on behind it.
  pub behind {ℓ} :
      {A : Type ℓ} (b : ℕ) (s : State) (f : State → Parsed (A × State))
      → weight s.current.type ≡ 1
      → Small b s
      → ((s' : State) → measure s' < b → Ends (Left b) (f s'))
      → Ends (Left b) (advance s >>= f)
  behind b s f w small g =
      bind-Ends (λ s'. measure s' < b) (Left b) (advance s) f (take b s w small) g

  pub expect {ℓ} :
      {A : Type ℓ} (t : TokenType) (b : ℕ) (s : State) (f : State → Parsed (A × State))
      → Small b s
      → ((s' : State) → Small b s' → Ends (Left b) (f s'))
      → Ends (Left b) (consume t s >>= f)
  expect t b s f small g =
      bind-Ends (Small b) (Left b) (consume t s) f (consume-Small t b s small) g

  pub call {ℓ κ} :
      {A : Type ℓ} {B : Type κ} (m : ℕ) (p : State → Parsed (B × State))
      → Good m p
      → (b : ℕ) → b ≤ m
      → (s : State) (f : B × State → Parsed (A × State)) → Small b s
      → ((r : B × State) → Left b r → Ends (Left b) (f r))
      → Ends (Left b) (p s >>= f)
  call m p good b le s f small g = bind-Ends (Left b) (Left b) (p s) f (good b le s small) g

  pub constant-Left :
      (v : SelectorValue doubles.Double) (b : ℕ) (s : State)
      → Small b s
      → Ends (Left b) (constant doubles v s)
  constant-Left v b s small =
      bind-Ends (Small b) (Left b) (advance s) (λ s'. ok ((λ _. v), s')) (step b s small)
        (λ s' e. e)

  pub parsed_number-Left :
      (v : Option (SelectorValue doubles.Double)) (b : ℕ) (s : State)
      → Small b s
      → Ends (Left b) (parsed_number doubles v s)
  parsed_number-Left none b s small = tt
  parsed_number-Left (some v) b s small = constant-Left v b s small

  pub parenthesised-Left :
      (m : ℕ) (expression : Parse doubles)
      → ((b : ℕ) → suc b ≤ m → Good b expression)
      → (b : ℕ) → b ≤ m
      → (s : State) → weight s.current.type ≡ 1
      → Small b s
      → Ends (Left b) (parenthesised doubles expression s)
  parenthesised-Left m expression good b le s w small = behind b s _ w small (λ s1 e1.
      bind-Ends (Fewer b) (Left b) (expression s1) _
        (less (b - 1) expression (good (b - 1) (omega arith)) b (omega arith) s1 e1)
        (λ r e2. expect TokenType.rparen b r.1 _ (omega arith) (λ s3 e3. e3)))

  pub primary_at :
      (m : ℕ) (expression : Parse doubles)
      → ((b : ℕ) → suc b ≤ m → Good b expression)
      → (b : ℕ) → b ≤ m
      → (type : TokenType) (text rest : Bytes) → Small b (at_token type text rest)
      → Ends (Left b) (parse_primary doubles expression (at_token type text rest))
  unfolding parse_primary
  primary_at m expression good b le type text rest small =
      elim type
          as (λ type.
            Small b (at_token type text rest)
            → Ends (Left b) (parse_primary doubles expression (at_token type text rest))) [
              | TokenType.lparen ↦ λ h.
                  parenthesised-Left m expression good b le (at_token TokenType.lparen text rest)
                    refl h
              | TokenType.null_lit ↦
                  λ h. constant-Left null b (at_token TokenType.null_lit text rest) h
              | TokenType.true_lit ↦
                  λ h. constant-Left (boolean true) b (at_token TokenType.true_lit text rest) h
              | TokenType.false_lit ↦
                  λ h. constant-Left (boolean false) b (at_token TokenType.false_lit text rest) h
              | TokenType.string ↦ λ h.
                  constant-Left (SelectorValue.string text) b (at_token TokenType.string text rest)
                    h
              | TokenType.int_lit ↦ λ h.
                  parsed_number-Left (int_value doubles (doubles.stoll text)) b
                    (at_token TokenType.int_lit text rest) h
              | TokenType.float_lit ↦ λ h.
                  parsed_number-Left (float_value doubles (doubles.stod text)) b
                    (at_token TokenType.float_lit text rest) h
              | TokenType.ident ↦ λ h.
                  bind-Ends (Small b) (Left b) (advance (at_token TokenType.ident text rest)) _
                    (step b (at_token TokenType.ident text rest) h) (λ s' e. e)
              | _ ↦ λ h. tt
            ]
        small

  pub parse_primary-Good :
      (m : ℕ) (expression : Parse doubles)
      → ((b : ℕ) → suc b ≤ m → Good b expression)
      → Good m (parse_primary doubles expression)
  parse_primary-Good m expression good b le s small =
      primary_at m expression good b le s.current.type s.current.text s.rest small

  pub optional_not-Left : (b : ℕ) (s : State) → Small b s → Ends (Left b) (optional_not doubles s)
  optional_not-Left b s small =
      if-Ends (Left b) (check TokenType.not s) _ _
        (λ e. bind-Ends (Small b) (Left b) (advance s) _ (step b s small) (λ s' e'. e'))
        (λ e. small)

  pub parse_items-Good :
      (n m : ℕ) (primary : Parse doubles)
      → Good m primary
      → m < n
      → Good m (parse_items doubles n primary)
  unfolding parse_items
  parse_items-Good zero m primary good lt b le s small = absurd (omega arith)
  parse_items-Good (suc n) m primary good lt b le s small =
      if-Ends (Left b) (check TokenType.comma s) _ _
        (λ e. behind b s _ (check-weight TokenType.comma s refl e) small (λ s1 e1.
          bind-Ends (Fewer b) (Left b) (primary s1) _ (less m primary good b (omega arith) s1 e1)
            (λ r e2.
              bind-Ends (Fewer b) (Left b) (parse_items doubles n primary r.1) _
                (less (b - 1) (parse_items doubles n primary)
                  (parse_items-Good n (b - 1) primary (mono (b - 1) m primary (omega arith) good)
                    (omega arith))
                  b (omega arith) r.1 e2)
                (λ r' e3. omega arith))))
        (λ e. small)
