-- ===== src/Selector/Parser/Ends.antt =====
-- Selector.cpp, class Parser: parses that end, by the tokens that are left.
use tiny_mq.Prelude.{
  ℕ, suc, ◌+◌, ◌-◌, ◌≤◌, ◌<◌, ◌≡◌, refl, sym, Bool, true, false, length, ◌==◌, if◌then◌else◌, Bytes,
  arith,
}
use tiny_mq.Selector.Tokenizer.{TokenType, Lexed, token, unexpected, next}
use tiny_mq.Selector.Tokenizer.Consumed.{weight, Fits, next-Fits}
use tiny_mq.Selector.Parser.{
  Parsed, ok, invalid, out_of_range, no_fuel, ◌>>=◌, State, advance_from, advance, place, check,
  consume,
}

abbrev pub at_token : TokenType → Bytes → Bytes → State
at_token type text rest = record { current = record { type = type; text = text }; rest = rest }

-- The tokens that are left, at most: one for each byte behind the current token, and that one.
abbrev pub measure : State → ℕ
measure s = length s.rest + weight s.current.type

-- A parse that ends, with a result of which `P` holds if it gives one.
abbrev pub Ends {ℓ} : {A : Type ℓ} → (A → Type 0) → Parsed A → Type 0
Ends P (ok a) = P a
Ends P invalid = Unit
Ends P out_of_range = Unit
Ends P no_fuel = ⊥

pub bind-Ends {ℓ κ} :
    {A : Type ℓ} {B : Type κ} (P : A → Type 0) (Q : B → Type 0) (p : Parsed A) (f : A → Parsed B)
    → Ends P p
    → ((a : A) → P a → Ends Q (f a))
    → Ends Q (p >>= f)
bind-Ends P Q (ok a) f e g = g a e
bind-Ends P Q invalid f e g = tt
bind-Ends P Q out_of_range f e g = tt
bind-Ends P Q no_fuel f e g = elim e [ ]

pub map-Ends {ℓ} :
    {A : Type ℓ} (P Q : A → Type 0) (p : Parsed A) → ((a : A) → P a → Q a) → Ends P p → Ends Q p
map-Ends P Q (ok a) f e = f a e
map-Ends P Q invalid f e = tt
map-Ends P Q out_of_range f e = tt
map-Ends P Q no_fuel f e = elim e [ ]

pub if-Ends {ℓ} :
    {A : Type ℓ} (P : A → Type 0) (b : Bool) (x y : Parsed A)
    → (b ≡ true → Ends P x)
    → (b ≡ false → Ends P y)
    → Ends P (if b then x else y)
if-Ends P true x y f g = f refl
if-Ends P false x y f g = g refl

abbrev pub Small : ℕ → State → Type 0
Small b s = measure s ≤ b

-- A rule's result that leaves at most `b` tokens, and fewer.
abbrev pub Left {ℓ} : {A : Type ℓ} → ℕ → A × State → Type 0
Left b r = Small b r.1

abbrev pub Fewer {ℓ} : {A : Type ℓ} → ℕ → A × State → Type 0
Fewer b r = measure r.1 < b

-- A rule that ends from any state with at most `m` tokens, and leaves no more of them.
abbrev pub Good {ℓ} : {A : Type ℓ} → ℕ → (State → Parsed (A × State)) → Type 0
Good m p = (b : ℕ) → b ≤ m → (s : State) → Small b s → Ends (Left b) (p s)

pub advance_from-Small : (rest : Bytes) → Ends (Small (length rest)) (advance_from rest)
unfolding advance_from
advance_from-Small rest = from (next rest) (next-Fits rest)
  where
    from :
        (x : Lexed)
        → Fits (length rest) x
        → Ends (Small (length rest)) (elim x [
          | token t left ↦ ok (record { current = t; rest = left })
          | unexpected c ↦ invalid
        ])
    from (token t left) fits = fits
    from (unexpected c) fits = tt

pub weight_of : ℕ → ℕ
weight_of p = if p == 23 then 0 else 1

pub weight-place : (t : TokenType) → weight t ≡ weight_of (place t)
unfolding weight_of
weight-place t = elim t as (λ k. weight k ≡ weight_of (place k)) [
  | TokenType.eof_token ↦ refl
  | _ ↦ refl
]

-- The current token is none but the end of the text if it is one that takes a byte.
pub check-weight :
    (t : TokenType) (s : State) → weight t ≡ 1 → check t s ≡ true → weight s.current.type ≡ 1
unfolding weight_of
check-weight t s w e =
    let same : place s.current.type ≡ place t = ground arith in
    let here = weight-place s.current.type in
    let there = weight-place t in rw (here, same, sym there) w

pub step : (b : ℕ) (s : State) → Small b s → Ends (Small b) (advance s)
step b s small =
    map-Ends (Small (length s.rest)) (Small b) (advance s) (λ s' e. omega arith)
      (advance_from-Small s.rest)

-- A token that is not the end of the text is taken.
pub take :
    (b : ℕ) (s : State)
    → weight s.current.type ≡ 1
    → Small b s
    → Ends (λ s'. measure s' < b) (advance s)
take b s w small =
    map-Ends (Small (length s.rest)) (λ s'. measure s' < b) (advance s) (λ s' e. omega arith)
      (advance_from-Small s.rest)

pub take_if :
    (t : TokenType) (b : ℕ) (s : State)
    → weight t ≡ 1
    → check t s ≡ true
    → Small b s
    → Ends (λ s'. measure s' < b) (advance s)
take_if t b s w e small = take b s (check-weight t s w e) small

pub consume-Small : (t : TokenType) (b : ℕ) (s : State) → Small b s → Ends (Small b) (consume t s)
unfolding consume
consume-Small t b s small =
    if-Ends (Small b) (check t s) (advance s) invalid (λ e. step b s small) (λ e. tt)

pub mono {ℓ} : {A : Type ℓ} (m n : ℕ) (p : State → Parsed (A × State)) → m ≤ n → Good n p → Good m p
mono m n p le good = λ b small s e. good b (omega arith) s e

-- A rule from a state with fewer than `b` tokens.
pub less {ℓ} :
    {A : Type ℓ} (m : ℕ) (p : State → Parsed (A × State))
    → Good m p
    → (b : ℕ) → b ≤ suc m
    → (s : State) → measure s < b
    → Ends (Fewer b) (p s)
less m p good b le s small =
    map-Ends (Left (b - 1)) (Fewer b) (p s) (λ r e. omega arith)
      (good (b - 1) (omega arith) s (omega arith))
