-- ===== src/Body/ByteArray.antt =====
-- BytesMessage::writeBytes and readBytes (BytesMessage.cpp), and truncated bytes of an
-- ObjectMessage (ObjectMessage.cpp). `none` is an access outside the vector, which is undefined.
-- offset + size is below 2 ^ 64.
pub mod Write
use tiny_mq.Prelude.{
  ℕ, zero, suc, ◌+◌, ◌-◌, ◌≤◌, ◌<◌, ◌≡◌, ◌≢◌, refl, sym, ap, ◌∙◌, subst, arith, true, false, Option,
  none, some, [], ◌∷◌, ◌++◌, append-nil, append_assoc, Bytes, length, take, drop, replicate,
  length-append, length-replicate, length-take, length-drop, Option-cases, Bool-cases, take-append,
  drop-append, le→not_ltb, lt→ltb, ltb→lt, inl, inr, ltb, leb, if◌then◌else◌,
}
use tiny_mq.Prelude.Maps.{some_injective, none_differs}

-- BytesVector(n, 0)
abbrev pub zeros : ℕ → Bytes
zeros n = replicate n 0

-- vec[i] = b
unfoldable pub store : Bytes → ℕ → ℕ → Option Bytes
store [] i b = none
store (x ∷ xs) zero b = some (b ∷ xs)
store (x ∷ xs) (suc i) b = elim (store xs i b) [ none ↦ none | some ys ↦ some (x ∷ ys) ]

unfoldable pub write_loop : Bytes → Bytes → ℕ → Option Bytes
unfolding store
write_loop vec [] i = some vec
write_loop vec (b ∷ bs) i = elim (store vec i b) [
  | none ↦ none
  | some vec' ↦ write_loop vec' bs (suc i)
]

-- std::fill(vec.begin() + offset, vec.end(), 0)
unfoldable pub zero_from : Bytes → ℕ → Option Bytes
zero_from vec offset =
    if ltb (length vec) offset then none else some (take offset vec ++ zeros (length vec - offset))

abbrev pub if_empty : Bytes → Bytes → Bytes
if_empty [] fresh = fresh
if_empty (b ∷ bs) fresh = b ∷ bs

-- reserve does not change the size of the vector.
unfoldable pub write_bytes : Bytes → Bytes → ℕ → Option Bytes
unfolding zero_from write_loop
write_bytes data_ bs offset =
    let data_size = offset + length bs in
    let vec = if_empty data_ (zeros data_size) in
    if ltb (length vec) data_size
    then (elim (zero_from vec offset) [ none ↦ none | some vec' ↦ write_loop vec' bs offset ])
    else write_loop vec bs offset

-- The span is of elements of the vector.
unfoldable pub read_bytes : Bytes → ℕ → ℕ → Option Bytes
read_bytes data_ offset size =
    if leb (offset + size) (length data_) then some (take size (drop offset data_)) else none
