-- ===== src/Selector/Like.antt =====
-- Selector.cpp, likeToRegex, and std::regex_match on the patterns that it writes.
use tiny_mq.Prelude.{
  ℕ, ◌≡◌, refl, ap, Bool, true, false, Option, none, some, ◌&&◌, ◌||◌, not, List, [], ◌∷◌, ◌++◌,
  map, arith, ◌==◌, if◌then◌else◌, Bytes, Bool-cases, inl, inr, ◌∙◌,
}

-- The characters that the switch escapes.
unfoldable pub is_special : ℕ → Bool
is_special c =
    c == b'.'
    || (c == b'^'
        || (c == b'$'
            || (c == b'*'
                || (c == b'+'
                    || (c == b'?'
                        || (c == b'('
                            || (c == b')'
                                || (c == b'['
                                    || (c == b']'
                                        || (c == b'{'
                                            || (c == b'}' || (c == b'|' || c == 92))))))))))))

-- One pattern character, in the regex.
unfoldable pub like_char : ℕ → Bytes
like_char c =
    if c == b'%'
    then b'.' ∷ b'*' ∷ []
    else if c == b'_'
    then b'.' ∷ []
    else if is_special c
    then 92 ∷ c ∷ []
    else c ∷ []

unfoldable pub like_body : Bytes → Bytes
like_body [] = []
like_body (c ∷ pattern_) = like_char c ++ like_body pattern_

unfoldable pub like_to_regex : Bytes → Bytes
like_to_regex pattern_ = b'^' ∷ (like_body pattern_ ++ b'$' ∷ [])

-- What `.` matches in an ECMAScript regex: any byte but a line terminator.
unfoldable pub is_dot : ℕ → Bool
is_dot c = not (c == 10 || c == 13)

pub data Item : Type 0 where
  any_many any_one : Item
  literal : ℕ → Item

abbrev one_of : ℕ → Bytes → Bool
one_of c [] = false
one_of c (x ∷ xs) = c == x || one_of c xs

-- The characters that have a meaning of their own in an ECMAScript regex: SyntaxCharacter.
unfoldable pub is_operator : ℕ → Bool
is_operator c = one_of c (
    b'^' ∷ b'$' ∷ 92 ∷ b'.' ∷ b'*' ∷ b'+' ∷ b'?' ∷ b'(' ∷ b')' ∷ b'[' ∷ b']' ∷ b'{' ∷ b'}' ∷ b'|'
    ∷ [])

abbrev then_items : Item → Option (List Item) → Option (List Item)
then_items i none = none
then_items i (some items) = some (i ∷ items)

-- A regex of literals, escaped characters, `.` and `.*`, with an end anchor; `none` is a regex with
-- any other operator, escape or anchor, to which no meaning is given here.
unfoldable pub parse_items : Bytes → Option (List Item)
parse_items [] = none
parse_items (r ∷ []) = if r == b'$' then some [] else none
parse_items (r ∷ (q ∷ re)) =
    let skipped = parse_items re in
    let rest = parse_items (q ∷ re) in
    if r == 92
    then (if is_operator q then then_items (literal q) skipped else none)
    else if r == b'.'
    then (if q == b'*' then then_items any_many skipped else then_items any_one rest)
    else if is_operator r
    then none
    else then_items (literal r) rest

unfoldable pub match_items : List Item → Bytes → Bool
match_items [] [] = true
match_items [] (d ∷ s) = false
match_items (any_many ∷ items) [] = match_items items []
match_items (any_many ∷ items) (d ∷ s) =
    match_items items (d ∷ s) || (is_dot d && match_items (any_many ∷ items) s)
match_items (any_one ∷ items) [] = false
match_items (any_one ∷ items) (d ∷ s) = is_dot d && match_items items s
match_items (literal c ∷ items) [] = false
match_items (literal c ∷ items) (d ∷ s) = c == d && match_items items s

abbrev match_parsed : Option (List Item) → Bytes → Option Bool
match_parsed none s = none
match_parsed (some items) s = some (match_items items s)

-- regex_match for such a regex behind a start anchor; it always matches the whole text.
unfoldable pub regex_match : Bytes → Bytes → Option Bool
unfolding parse_items match_items
regex_match [] s = none
regex_match (r ∷ re) s = if r == b'^' then match_parsed (parse_items re) s else none

-- LIKE by itself: `%` stands for any run of characters, `_` for any one, the rest for itself. No
-- wildcard stands for a line break.
unfoldable pub like : Bytes → Bytes → Bool
like [] [] = true
like [] (d ∷ s) = false
like (c ∷ pattern_) [] = c == b'%' && like pattern_ []
like (c ∷ pattern_) (d ∷ s) =
    let skipped = like pattern_ (d ∷ s) in
    let longer = like (c ∷ pattern_) s in
    let rest = like pattern_ s in
    if c == b'%'
    then skipped || (is_dot d && longer)
    else if c == b'_'
    then is_dot d && rest
    else c == d && rest

abbrev item_of : ℕ → Item
item_of c = if c == b'%' then any_many else if c == b'_' then any_one else literal c

abbrev anchored : Bytes → Bytes
anchored pattern_ = like_body pattern_ ++ b'$' ∷ []

-- What follows a `.` that stands for `_` is never a `*`.
Follows : Bytes → Type 0
Follows rest = (q : ℕ) × (re : Bytes) × (rest ≡ q ∷ re) × ((q == b'*') ≡ false)

anchored-Follows : (pattern_ : Bytes) → Follows (anchored pattern_)
unfolding Follows like_body like_char is_special
anchored-Follows [] = (b'$', [], refl, refl)
anchored-Follows (c ∷ pattern_) = elim (Bool-cases (c == b'%')) [
  | inl e ↦ (b'.', b'*' ∷ anchored pattern_, (rw e refl), refl)
  | inr e ↦ elim (Bool-cases (c == b'_')) [
    | inl f ↦ (b'.', anchored pattern_, (rw (e, f) refl), refl)
    | inr f ↦ elim (Bool-cases (is_special c)) [
      | inl g ↦ (92, c ∷ anchored pattern_, (rw (e, f, g) refl), refl)
      | inr g ↦ (c, anchored pattern_, (rw (e, f, g) refl), ground arith)
    ]
  ]
]

underscore :
    (rest : Bytes)
    → Follows rest
    → parse_items (b'.' ∷ rest) ≡ then_items any_one (parse_items rest)
unfolding Follows parse_items
underscore rest (q, re, e, f) = rw (e, f) refl

-- What the switch escapes are the operators.
escaped : (c : ℕ) → is_special c ≡ true → is_operator c ≡ true
unfolding is_special is_operator
escaped c g = ground arith

ordinary :
    (c : ℕ)
    → is_special c ≡ false
    → ((c == 92) ≡ false) × ((c == b'.') ≡ false) × (is_operator c ≡ false)
unfolding is_special is_operator
ordinary c g = (ground arith, ground arith, ground arith)

plain :
    (c : ℕ) (rest : Bytes)
    → is_special c ≡ false
    → Follows rest
    → parse_items (c ∷ rest) ≡ then_items (literal c) (parse_items rest)
unfolding Follows parse_items
plain c rest g (q, re, e, f) =
    let (slash, dot, plain_) = ordinary c g in rw (e, slash, dot, plain_) refl

parse_items-anchored :
    (pattern_ : Bytes) → parse_items (anchored pattern_) ≡ some (map item_of pattern_)
unfolding parse_items like_body like_char
parse_items-anchored [] = refl
parse_items-anchored (c ∷ pattern_) = elim (Bool-cases (c == b'%')) [
  | inl e ↦ rw e (ap (then_items any_many) (parse_items-anchored pattern_))
  | inr e ↦ elim (Bool-cases (c == b'_')) [
    | inl f ↦
        rw (e, f)
          (underscore (anchored pattern_) (anchored-Follows pattern_)
            ∙ ap (then_items any_one) (parse_items-anchored pattern_))
    | inr f ↦ elim (Bool-cases (is_special c)) [
      | inl g ↦
          rw (e, f, g, escaped c g) (ap (then_items (literal c)) (parse_items-anchored pattern_))
      | inr g ↦
          rw (e, f, g)
            (plain c (anchored pattern_) g (anchored-Follows pattern_)
              ∙ ap (then_items (literal c)) (parse_items-anchored pattern_))
    ]
  ]
]

item_of-percent : (c : ℕ) → (c == b'%') ≡ true → any_many ≡ item_of c
item_of-percent c e = rw e refl

match_items-item_of : (pattern_ s : Bytes) → match_items (map item_of pattern_) s ≡ like pattern_ s
unfolding match_items like
match_items-item_of [] [] = refl
match_items-item_of [] (d ∷ s) = refl
match_items-item_of (c ∷ pattern_) [] = elim (Bool-cases (c == b'%')) [
  | inl e ↦ rw e (match_items-item_of pattern_ [])
  | inr e ↦ elim (Bool-cases (c == b'_')) [ inl f ↦ rw (e, f) refl | inr f ↦ rw (e, f) refl ]
]
match_items-item_of (c ∷ pattern_) (d ∷ s) = elim (Bool-cases (c == b'%')) [
  | inl e ↦
      rw (e, match_items-item_of pattern_ (d ∷ s))
        (ap (λ b. like pattern_ (d ∷ s) || (is_dot d && b))
          (ap (λ (i : Item). match_items (i ∷ map item_of pattern_) s) (item_of-percent c e)
            ∙ match_items-item_of (c ∷ pattern_) s))
  | inr e ↦ elim (Bool-cases (c == b'_')) [
    | inl f ↦ rw (e, f, match_items-item_of pattern_ s) refl
    | inr f ↦ rw (e, f, match_items-item_of pattern_ s) refl
  ]
]

-- The regex that is written for a LIKE pattern has no operator but `.`, `.*` and its two anchors,
-- and matches exactly the texts that the pattern stands for, where `%` stands for any run of
-- characters without a line break, `_` for any one that is no line break, and any other character
-- for itself.
pub regex_match-like_to_regex :
    (pattern_ s : Bytes) → regex_match (like_to_regex pattern_) s ≡ some (like pattern_ s)
unfolding regex_match like_to_regex
regex_match-like_to_regex pattern_ s =
    ap (λ (items : Option (List Item)). match_parsed items s) (parse_items-anchored pattern_)
    ∙ ap some (match_items-item_of pattern_ s)
