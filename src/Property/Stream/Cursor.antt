-- ===== src/Property/Stream/Cursor.antt =====
-- The read position of PropertiesStream: write, reset, nextValue, nextValueType and eof, of
-- MessageProperty.h and MessageProperty.cpp.
use tiny_mq.Prelude.{
  ℕ, zero, suc, ◌<◌, ◌≡◌, ◌≢◌, refl, arith, false, Option, none, some, List, [], ◌∷◌, ◌++◌, subst,
  map, append_assoc, length, length-append, bytes_eq_refl, if◌then◌else◌, ltb, lt→ltb, Option-cases,
  inl, inr,
}
use tiny_mq.Property.{ValueType, RawValue, raw_type, value_type_name}
use tiny_mq.Property.Stream.{
  PropertiesStream, begin_of, write, reset, clear, eof, get_elem?, element, next_offset, Next,
  undefined, bad_cast, found, same_type, next_value,
}

-- The offset is at an element or at the end.
abbrev pub WellPlaced : PropertiesStream → Type 0
WellPlaced s = (i : ℕ) → s.offset ≡ some i → i < length s.values

-- Reads of the given types one after another, with the stream they leave; `none` where one of them
-- is undefined or throws.
unfoldable pub read_all :
    List ValueType → PropertiesStream → Option (List RawValue × PropertiesStream)
unfolding next_value
read_all [] s = some ([], s)
read_all (t ∷ ts) s = elim (next_value t s) [
  | undefined ↦ none
  | bad_cast ↦ none
  | found r s' ↦ elim (read_all ts s') [ none ↦ none | some (rs, q) ↦ some (r ∷ rs, q) ]
]

abbrev at : List RawValue → ℕ → PropertiesStream
at rs i = record { values = rs; offset = if ltb i (length rs) then some i else none }

get_elem?-append :
    (pre : List RawValue) (r : RawValue) (rest : List RawValue)
    → get_elem? (pre ++ r ∷ rest) (length pre) ≡ some r
unfolding get_elem?
get_elem?-append [] r rest = refl
get_elem?-append (p ∷ pre) r rest = get_elem?-append pre r rest

element-at : (rs : List RawValue) (i : ℕ) → i < length rs → element (at rs i) ≡ get_elem? rs i
unfolding element
element-at rs i h = rw (element, lt→ltb i (length rs) h) refl

next_offset-at :
    (rs : List RawValue) (i : ℕ) → i < length rs → next_offset (at rs i) ≡ (at rs (suc i)).offset
unfolding next_offset
next_offset-at rs i h = rw (next_offset, lt→ltb i (length rs) h) refl

next_value-at :
    (pre : List RawValue) (r : RawValue) (rest : List RawValue)
    → next_value (raw_type r) (at (pre ++ r ∷ rest) (length pre))
      ≡ found r (at (pre ++ r ∷ rest) (suc (length pre)))
unfolding next_value same_type
next_value-at pre r rest =
    let h : length pre < length (pre ++ r ∷ rest) = omega (arith, length-append pre (r ∷ rest)) in
    rw
      (
        next_value,
        element-at (pre ++ r ∷ rest) (length pre) h,
        get_elem?-append pre r rest,
        bytes_eq_refl (value_type_name (raw_type r)),
        next_offset-at (pre ++ r ∷ rest) (length pre) h,
      )
      refl

read_all-at :
    (pre rest : List RawValue)
    → read_all (map raw_type rest) (at (pre ++ rest) (length pre))
      ≡ some (rest, record { values = pre ++ rest; offset = none })
unfolding read_all
read_all-at pre [] =
    let l : ltb (length pre) (length (pre ++ [])) ≡ false = ground (arith, length-append pre []) in
    rw l refl
read_all-at pre (r ∷ rest) =
    let step : (pre ++ r ∷ []) ++ rest ≡ pre ++ r ∷ rest = append_assoc pre (r ∷ []) rest in
    let len : length (pre ++ r ∷ []) ≡ suc (length pre) =
      omega (arith, length-append pre (r ∷ [])) in
    let next : read_all (map raw_type rest) (at (pre ++ r ∷ rest) (suc (length pre)))
        ≡ some (rest, record { values = pre ++ r ∷ rest; offset = none }) =
      subst
        (λ xs.
          read_all (map raw_type rest) (at xs (suc (length pre)))
          ≡ some (rest, record { values = xs; offset = none }))
        step
        (subst
          (λ n.
            read_all (map raw_type rest) (at ((pre ++ r ∷ []) ++ rest) n)
            ≡ some (rest, record { values = (pre ++ r ∷ []) ++ rest; offset = none }))
          len (read_all-at (pre ++ r ∷ []) rest)) in
    rw (read_all, next_value-at pre r rest, next) refl

at_start : (rs : List RawValue) → at rs 0 ≡ record { values = rs; offset = begin_of rs }
unfolding begin_of
at_start [] = refl
at_start (r ∷ rs) = ground arith

-- After reset, reads of the types of the values, one after another, give all the values in order
-- and leave the stream at its end, with its values.
pub read_all-reset :
    (s : PropertiesStream)
    → read_all (map raw_type s.values) (reset s) ≡ some (s.values, record s { offset = none })
unfolding reset begin_of
read_all-reset s =
    subst (λ q. read_all (map raw_type s.values) q ≡ some (s.values, record s { offset = none }))
      (at_start s.values) (read_all-at [] s.values)

abbrev pub after : PropertiesStream → Next → PropertiesStream
after s undefined = s
after s bad_cast = s
after s (found r q) = q

get_elem?-some : (rs : List RawValue) (i : ℕ) → i < length rs → get_elem? rs i ≢ none
unfolding get_elem?
get_elem?-some [] i h e = omega arith
get_elem?-some (r ∷ rs) zero h e = cc
get_elem?-some (r ∷ rs) (suc i) h e = get_elem?-some rs i (omega arith) e

-- Of a stream whose read position is at an element or at the end, a read that is not at the end is
-- defined; and write, reset, clear and a read, whatever comes of it, leave the position so.
pub next_value-WellPlaced :
    (t : ValueType) (s : PropertiesStream) (r : RawValue)
    → WellPlaced s
    → (eof s ≡ false → next_value t s ≢ undefined)
      × WellPlaced (after s (next_value t s))
      × WellPlaced (write s r)
      × WellPlaced (reset s)
      × WellPlaced (clear s)
unfolding next_value element next_offset write reset clear begin_of eof
next_value-WellPlaced t s r w = elim (Option-cases s.offset) [
  | inl o ↦ (
    λ e. ground arith,
    λ j h. ground (arith, w j),
    λ j h. absurd (ground arith),
    λ j h. ground arith,
    λ j h. absurd (ground arith),
  )
  | inr (i, o) ↦ (
    ground (arith, w i o, get_elem?-some s.values i (w i o)),
    λ j h. ground (arith, w i o),
    λ j h. omega (arith, w j h, length-append s.values (r ∷ [])),
    λ j h. ground arith,
    λ j h. absurd (ground arith),
  )
]
