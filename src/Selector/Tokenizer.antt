-- ===== src/Selector/Tokenizer.antt =====
-- Selector.cpp, class Tokenizer, in the C locale. `_input` from `_pos` on is the rest of the text.
use Prim.Native.Char.{code}
use Prim.Native.String.{String}
pub mod Consumed
use tiny_mq.Prelude.{
  ℕ, ◌-◌, Bool, false, ◌&&◌, ◌||◌, [], ◌∷◌, ◌++◌, map, ◌==◌, leb, if◌then◌else◌, Bytes, bytes_eq,
}

pub data TokenType : Type 0 where
  ident string int_lit float_lit true_lit false_lit null_lit : TokenType
  and or not like between in_ is : TokenType
  eq neq lt lte gt gte lparen rparen comma eof_token : TokenType

pub record Token : Type 0 where
  pub type : TokenType
  pub text : Bytes

-- A token and the rest of the text, or the character that starts no token.
pub data Lexed : Type 0 where
  token : Token → Bytes → Lexed
  unexpected : ℕ → Lexed

abbrev pub codes : String → Bytes
codes String.[] = []
codes (String.◌∷◌ c s) = code c ∷ codes s

unfoldable pub is_digit : ℕ → Bool
is_digit c = leb b'0' c && leb c b'9'

unfoldable pub is_alpha : ℕ → Bool
is_alpha c = (leb b'a' c && leb c b'z') || (leb b'A' c && leb c b'Z')

unfoldable pub is_space : ℕ → Bool
is_space c = c == 32 || (leb 9 c && leb c 13)

unfoldable pub to_upper : ℕ → ℕ
to_upper c = if leb b'a' c && leb c b'z' then c - 32 else c

unfoldable pub is_ident_char : ℕ → Bool
unfolding is_alpha is_digit
is_ident_char c = is_alpha c || (is_digit c || (c == b'_' || c == b'.'))

unfoldable pub skip_whitespace : Bytes → Bytes
unfolding is_space
skip_whitespace [] = []
skip_whitespace (c ∷ rest) = if is_space c then skip_whitespace rest else c ∷ rest

-- The longest prefix of characters that pass the test.
unfoldable pub span : (ℕ → Bool) → Bytes → Bytes × Bytes
span p [] = ([], [])
span p (c ∷ rest) =
    let (taken, left) = span p rest in if p c then (c ∷ taken, left) else ([], c ∷ rest)

-- Behind the opening quote; a doubled quote is a quote, and the end of the text ends the literal.
unfoldable pub read_string_body : Bytes → Bytes × Bytes
read_string_body [] = ([], [])
read_string_body (c ∷ []) = if c == b'\'' then ([], []) else (c ∷ [], [])
read_string_body (c ∷ (d ∷ rest)) =
    let (quoted, left) = read_string_body rest in
    let (plain, left') = read_string_body (d ∷ rest) in
    if c == b'\''
    then (if d == b'\'' then (c ∷ quoted, left) else ([], d ∷ rest))
    else (c ∷ plain, left')

abbrev tok : TokenType → Bytes → Bytes → Lexed
tok type text rest = token (record { type = type; text = text }) rest

abbrev read_string : Bytes → Lexed
read_string rest = let (text, left) = read_string_body rest in tok string text left

-- The digits after a dot, if there is one.
unfoldable pub read_fraction : Bytes → Bytes → Lexed
read_fraction digits [] = tok int_lit digits []
read_fraction digits (c ∷ rest) =
    let (more, left) = span is_digit rest in
    if c == b'.' then tok float_lit (digits ++ c ∷ more) left else tok int_lit digits (c ∷ rest)

unfoldable pub read_number : Bytes → Bytes → Lexed
unfolding read_fraction is_digit span
read_number sign rest =
    let (digits, left) = span is_digit rest in read_fraction (sign ++ digits) left

unfoldable pub keyword : Bytes → TokenType
keyword upper =
    if bytes_eq upper (codes "AND")
    then and
    else if bytes_eq upper (codes "OR")
    then or
    else if bytes_eq upper (codes "NOT")
    then not
    else if bytes_eq upper (codes "LIKE")
    then like
    else if bytes_eq upper (codes "BETWEEN")
    then between
    else if bytes_eq upper (codes "IN")
    then in_
    else if bytes_eq upper (codes "IS")
    then is
    else if bytes_eq upper (codes "TRUE")
    then true_lit
    else if bytes_eq upper (codes "FALSE")
    then false_lit
    else if bytes_eq upper (codes "NULL")
    then null_lit
    else ident

unfoldable pub read_ident : Bytes → Lexed
unfolding keyword is_ident_char to_upper span
read_ident input =
    let (text, left) = span is_ident_char input in tok (keyword (map to_upper text)) text left

abbrev pub starts_with_digit : Bytes → Bool
starts_with_digit [] = false
starts_with_digit (d ∷ rest) = is_digit d

-- `<`, `<>`, `<=` and `>`, `>=`, by what follows.
unfoldable pub read_less : Bytes → Lexed
read_less [] = tok lt (codes "<") []
read_less (d ∷ rest) =
    if d == b'>'
    then tok neq (codes "<>") rest
    else if d == b'='
    then tok lte (codes "<=") rest
    else tok lt (codes "<") (d ∷ rest)

unfoldable pub read_greater : Bytes → Lexed
read_greater [] = tok gt (codes ">") []
read_greater (d ∷ rest) =
    if d == b'=' then tok gte (codes ">=") rest else tok gt (codes ">") (d ∷ rest)

unfoldable pub next_at : Bytes → Lexed
unfolding read_number read_ident read_less read_greater read_string_body
next_at [] = tok eof_token [] []
next_at (c ∷ rest) =
    if c == b'\''
    then read_string rest
    else if is_digit c
    then read_number [] (c ∷ rest)
    else if c == b'-' && starts_with_digit rest
    then read_number (c ∷ []) rest
    else if is_alpha c || c == b'_'
    then read_ident (c ∷ rest)
    else if c == b'='
    then tok eq (codes "=") rest
    else if c == b'('
    then tok lparen (codes "(") rest
    else if c == b')'
    then tok rparen (codes ")") rest
    else if c == b','
    then tok comma (codes ",") rest
    else if c == b'<'
    then read_less rest
    else if c == b'>'
    then read_greater rest
    else unexpected c

unfoldable pub next : Bytes → Lexed
unfolding next_at skip_whitespace
next input = next_at (skip_whitespace input)
