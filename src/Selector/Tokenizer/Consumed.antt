-- ===== src/Selector/Tokenizer/Consumed.antt =====
-- Selector.cpp, class Tokenizer: how much of the text a token takes.
use tiny_mq.Prelude.{
  ℕ, suc, ◌+◌, ◌≤◌, ◌≡◌, refl, Bool, true, false, Bool-cases, inl, inr, [], ◌∷◌, length, ◌==◌, ◌&&◌,
  ◌||◌, ◌++◌, map, if◌then◌else◌, Bytes, arith,
}
use tiny_mq.Selector.Tokenizer.{
  TokenType, Lexed, token, unexpected, is_digit, is_alpha, is_space, is_ident_char, skip_whitespace,
  span, read_string_body, read_fraction, read_number, read_ident, read_less, read_greater, keyword,
  to_upper, starts_with_digit, next_at, next,
}

-- One for a token that is taken from the text, and nothing for the end of it.
abbrev pub weight : TokenType → ℕ
weight TokenType.eof_token = 0
weight _ = 1

weight-bound : (t : TokenType) → weight t ≤ 1
weight-bound t = elim t as (λ k. weight k ≤ 1) [
  | TokenType.eof_token ↦ omega arith
  | _ ↦ omega arith
]

-- What is left and the token are no longer than the text was.
abbrev pub Fits : ℕ → Lexed → Type 0
Fits bound (token t left) = length left + weight t.type ≤ bound
Fits bound (unexpected c) = Unit

span-length : (p : ℕ → Bool) (text : Bytes) → length (span p text).1 ≤ length text
unfolding span
span-length p [] = omega arith
span-length p (c ∷ rest) =
    let ih = span-length p rest in
    elim (Bool-cases (p c)) [ inl e ↦ rw e (omega arith) | inr e ↦ rw e (omega arith) ]

span-taken :
    (p : ℕ → Bool) (c : ℕ) (rest : Bytes) → p c ≡ true → length (span p (c ∷ rest)).1 ≤ length rest
unfolding span
span-taken p c rest e = rw e (span-length p rest)

read_string_body-length : (text : Bytes) → length (read_string_body text).1 ≤ length text
unfolding read_string_body
read_string_body-length [] = omega arith
read_string_body-length (c ∷ []) = ground arith
read_string_body-length (c ∷ (d ∷ rest)) =
    let quoted = read_string_body-length rest in
    let plain = read_string_body-length (d ∷ rest) in ground arith

skip_whitespace-length : (text : Bytes) → length (skip_whitespace text) ≤ length text
unfolding skip_whitespace
skip_whitespace-length [] = omega arith
skip_whitespace-length (c ∷ rest) =
    let ih = skip_whitespace-length rest in
    elim (Bool-cases (is_space c)) [ inl e ↦ rw e (omega arith) | inr e ↦ rw e (omega arith) ]

read_fraction-Fits : (digits left : Bytes) → Fits (suc (length left)) (read_fraction digits left)
unfolding read_fraction
read_fraction-Fits digits [] = omega arith
read_fraction-Fits digits (c ∷ rest) =
    let s = span-length is_digit rest in
    elim (Bool-cases (c == b'.')) [ inl e ↦ rw e (omega arith) | inr e ↦ rw e (omega arith) ]

read_number-Fits :
    (sign text : Bytes) → Fits (suc (length (span is_digit text).1)) (read_number sign text)
unfolding read_number
read_number-Fits sign text =
    read_fraction-Fits (sign ++ (span is_digit text).0) (span is_digit text).1

read_less-Fits : (rest : Bytes) → Fits (suc (length rest)) (read_less rest)
unfolding read_less
read_less-Fits [] = omega arith
read_less-Fits (d ∷ rest) = elim (Bool-cases (d == b'>')) [
  | inl e ↦ rw e (omega arith)
  | inr e ↦ elim (Bool-cases (d == b'=')) [
    | inl f ↦ rw (e, f) (omega arith)
    | inr f ↦ rw (e, f) (omega arith)
  ]
]

read_greater-Fits : (rest : Bytes) → Fits (suc (length rest)) (read_greater rest)
unfolding read_greater
read_greater-Fits [] = omega arith
read_greater-Fits (d ∷ rest) = elim (Bool-cases (d == b'=')) [
  | inl e ↦ rw e (omega arith)
  | inr e ↦ rw e (omega arith)
]

read_ident-Fits :
    (c : ℕ) (rest : Bytes)
    → is_ident_char c ≡ true
    → Fits (suc (length rest)) (read_ident (c ∷ rest))
unfolding read_ident
read_ident-Fits c rest e =
    let taken = span-taken is_ident_char c rest e in
    let w = weight-bound (keyword (map to_upper (span is_ident_char (c ∷ rest)).0)) in omega arith

first_of_ident : (c : ℕ) → (is_alpha c || c == b'_') ≡ true → is_ident_char c ≡ true
unfolding is_ident_char
first_of_ident c e = ground arith

choose :
    (n : ℕ) (b : Bool) (x y : Lexed)
    → (b ≡ true → Fits n x)
    → (b ≡ false → Fits n y)
    → Fits n (if b then x else y)
choose n true x y f g = f refl
choose n false x y f g = g refl

widen : {m n : ℕ} (x : Lexed) → m ≤ n → Fits m x → Fits n x
widen (token t left) le fits = omega arith
widen (unexpected c) le fits = fits

next_at-Fits : (text : Bytes) → Fits (length text) (next_at text)
unfolding next_at
next_at-Fits [] = omega arith
next_at-Fits (c ∷ rest) =
    let digits = span-length is_digit rest in
    choose _ (c == b'\'') _ _ (λ e. let s = read_string_body-length rest in omega arith)
      (λ e1.
        choose _ (is_digit c) _ _
          (λ e.
            let s = span-taken is_digit c rest e in
            widen (read_number [] (c ∷ rest)) (omega arith) (read_number-Fits [] (c ∷ rest)))
          (λ e2.
            choose _ (c == b'-' && starts_with_digit rest) _ _
              (λ e.
                widen (read_number (c ∷ []) rest) (omega arith) (read_number-Fits (c ∷ []) rest))
              (λ e3.
                choose _ (is_alpha c || c == b'_') _ _
                  (λ e. read_ident-Fits c rest (first_of_ident c e))
                  (λ e4.
                    choose _ (c == b'=') _ _ (λ e. omega arith)
                      (λ e5.
                        choose _ (c == b'(') _ _ (λ e. omega arith)
                          (λ e6.
                            choose _ (c == b')') _ _ (λ e. omega arith)
                              (λ e7.
                                choose _ (c == b',') _ _ (λ e. omega arith)
                                  (λ e8.
                                    choose _ (c == b'<') _ _ (λ e. read_less-Fits rest)
                                      (λ e9.
                                        choose _ (c == b'>') _ _ (λ e. read_greater-Fits rest)
                                          (λ e10. tt))))))))))

pub next-Fits : (text : Bytes) → Fits (length text) (next text)
unfolding next
next-Fits text =
    widen (next_at (skip_whitespace text)) (skip_whitespace-length text)
      (next_at-Fits (skip_whitespace text))
