-- ===== src/Body/ByteArray/Write.antt =====
-- What writeBytes of BytesMessage.cpp writes, and where it is read back.
use tiny_mq.Prelude.{
  ℕ, zero, suc, ◌+◌, ◌-◌, ◌≤◌, ◌<◌, ◌≡◌, ◌≢◌, refl, sym, ap, ◌∙◌, subst, arith, true, false, none,
  some, [], ◌∷◌, ◌++◌, append-nil, append_assoc, Bytes, length, take, drop, length-append,
  length-replicate, length-take, length-drop, Option-cases, Bool-cases, take-append, drop-append,
  le→not_ltb, lt→ltb, ltb→lt, inl, inr, ltb, leb,
}
use tiny_mq.Prelude.Maps.{some_injective, none_differs}
use tiny_mq.Body.ByteArray.{zeros, store, write_loop, zero_from, if_empty, write_bytes, read_bytes}

store-append :
    (pre : Bytes) (x b : ℕ) (post : Bytes)
    → store (pre ++ x ∷ post) (length pre) b ≡ some (pre ++ b ∷ post)
unfolding store
store-append [] x b post = refl
store-append (p ∷ pre) x b post = rw (store, store-append pre x b post) refl

-- The loop over bytes that fit replaces as many.
write_loop-append :
    (pre mid post bs : Bytes)
    → length mid ≡ length bs
    → write_loop (pre ++ (mid ++ post)) bs (length pre) ≡ some (pre ++ (bs ++ post))
unfolding write_loop
write_loop-append pre [] post [] h = refl
write_loop-append pre [] post (b ∷ bs) h = absurd (omega arith)
write_loop-append pre (x ∷ mid) post [] h = absurd (omega arith)
write_loop-append pre (x ∷ mid) post (b ∷ bs) h =
    let ih = write_loop-append (pre ++ b ∷ []) mid post bs (omega arith) in
    let len : length (pre ++ b ∷ []) ≡ suc (length pre) =
      omega (arith, length-append pre (b ∷ [])) in
    rw (write_loop, store-append pre x b (mid ++ post))
      (subst (λ n. write_loop (pre ++ b ∷ (mid ++ post)) bs n ≡ some (pre ++ (b ∷ (bs ++ post))))
        len
        (rw (← append_assoc pre (b ∷ []) (mid ++ post), ← append_assoc pre (b ∷ []) (bs ++ post))
          ih))

length-store : (xs ys : Bytes) (i b : ℕ) → store xs i b ≡ some ys → length ys ≡ length xs
unfolding store
length-store [] ys i b h = ground arith
length-store (x ∷ xs) ys zero b h = ground arith
length-store (x ∷ xs) ys (suc i) b h = elim (Option-cases (store xs i b)) [
  | inl e ↦ ground (arith, e)
  | inr (zs, e) ↦ ground (arith, e, length-store xs zs i b e)
]

store_out : (xs : Bytes) (i b : ℕ) → length xs ≤ i → store xs i b ≡ none
unfolding store
store_out [] i b h = refl
store_out (x ∷ xs) zero b h = absurd (omega arith)
store_out (x ∷ xs) (suc i) b h = rw (store_out xs i b (omega arith)) refl

-- The loop runs past the end unless all bytes fit.
write_loop_out :
    (vec bs : Bytes) (i : ℕ)
    → 0 < length bs
    → length vec < i + length bs
    → write_loop vec bs i ≡ none
unfolding write_loop
write_loop_out vec [] i p h = absurd (omega arith)
write_loop_out vec (b ∷ []) i p h = rw (write_loop, store_out vec i b (omega arith)) refl
write_loop_out vec (b ∷ c ∷ bs) i p h = elim (Option-cases (store vec i b)) [
  | inl e ↦ rw (write_loop, e) refl
  | inr (v, e) ↦
      rw (write_loop, e)
        (write_loop_out v (c ∷ bs) (suc i) (omega arith) (omega (arith, length-store vec v i b e)))
]

take-drop : (n : ℕ) (xs : Bytes) → take n xs ++ drop n xs ≡ xs
take-drop zero xs = refl
take-drop (suc n) [] = refl
take-drop (suc n) (x ∷ xs) = ap (◌∷◌ x) (take-drop n xs)

zeros_add : (a b : ℕ) → zeros (a + b) ≡ zeros a ++ zeros b
zeros_add zero b = let e : 0 + b ≡ b = omega arith in ap zeros e
zeros_add (suc a) b =
    let e : suc (a + b) ≡ suc a + b = omega arith in
    subst (λ n. zeros n ≡ 0 ∷ (zeros a ++ zeros b)) e (ap (λ (xs : Bytes). 0 ∷ xs) (zeros_add a b))

if_empty_filled : (d f : Bytes) → d ≢ [] → if_empty d f ≡ d
if_empty_filled [] f h = absurd (h refl)
if_empty_filled (b ∷ d) f h = refl

-- The bytes between two positions, and what is around them.
split_at : (d : Bytes) (i n : ℕ) → d ≡ take i d ++ (take n (drop i d) ++ drop n (drop i d))
split_at d i n = sym (ap (λ r. take i d ++ r) (take-drop n (drop i d)) ∙ take-drop i d)

write_loop_fits :
    (d bs : Bytes) (i : ℕ)
    → i + length bs ≤ length d
    → write_loop d bs i ≡ some (take i d ++ (bs ++ drop (length bs) (drop i d)))
write_loop_fits d bs i h =
    let n = length bs in
    let pre = take i d in
    let mid = take n (drop i d) in
    let post = drop n (drop i d) in
    let len : length pre ≡ i = omega (arith, length-take i d) in
    let same : length mid ≡ n = omega (arith, length-take n (drop i d), length-drop i d) in
    ap (λ x. write_loop x bs i) (split_at d i n)
    ∙ subst (λ k. write_loop (pre ++ (mid ++ post)) bs k ≡ some (pre ++ (bs ++ post))) len
        (write_loop-append pre mid post bs same)

write_empty : (bs : Bytes) (offset : ℕ) → write_bytes [] bs offset ≡ some (zeros offset ++ bs)
unfolding write_bytes
write_empty bs offset =
    let size : length (zeros (offset + length bs)) ≡ offset + length bs =
      length-replicate {A = ℕ} (offset + length bs) 0 in
    let fits : ltb (length (zeros (offset + length bs))) (offset + length bs) ≡ false =
      ground arith in
    rw (write_bytes, fits, zeros_add offset (length bs))
      (subst (λ k. write_loop (zeros offset ++ zeros (length bs)) bs k ≡ some (zeros offset ++ bs))
        (length-replicate {A = ℕ} offset 0)
        (subst
          (λ r.
            write_loop (zeros offset ++ r) bs (length (zeros offset)) ≡ some (zeros offset ++ bs))
          (append-nil (zeros (length bs)))
          (write_loop-append (zeros offset) (zeros (length bs)) [] bs
              (length-replicate {A = ℕ} (length bs) 0)
            ∙ rw (append-nil bs) refl)))

write_inside :
    (d bs : Bytes) (offset : ℕ)
    → d ≢ []
    → offset + length bs ≤ length d
    → write_bytes d bs offset ≡ some (take offset d ++ (bs ++ drop (length bs) (drop offset d)))
unfolding write_bytes
write_inside d bs offset f h =
    rw
      (
        write_bytes,
        if_empty_filled d (zeros (offset + length bs)) f,
        le→not_ltb (length d) (offset + length bs) h,
      )
      (write_loop_fits d bs offset h)

write_outside :
    (d bs : Bytes) (offset : ℕ)
    → d ≢ []
    → length d < offset + length bs
    → write_bytes d bs offset ≡ none
unfolding write_bytes zero_from
write_outside d bs offset f h =
    let zeroed = take offset d ++ zeros (length d - offset) in
    let size : offset ≤ length d → length zeroed ≡ length d = λ i. omega (
      arith,
      length-append (take offset d) (zeros (length d - offset)),
      length-take offset d,
      length-replicate {A = ℕ} (length d - offset) 0,
    ) in
    rw
      (
        write_bytes,
        if_empty_filled d (zeros (offset + length bs)) f,
        lt→ltb (length d) (offset + length bs) h,
        zero_from,
      )
      (elim (Bool-cases (ltb (length d) offset)) [
        | inl e ↦ rw e refl
        | inr e ↦ rw e (write_loop_out zeroed bs offset (ground arith) (ground (arith, size)))
      ])

-- Bytes written into an empty message stand behind `offset` zeros. Bytes that end within the
-- message replace as many from `offset` on, and nothing else changes. Bytes that end past the end
-- of a message that is not empty are written outside its vector.
pub write_bytes_lem :
    (d bs : Bytes) (offset : ℕ)
    → (d ≡ [] → write_bytes d bs offset ≡ some (zeros offset ++ bs))
      × (d ≢ []
          → offset + length bs ≤ length d
          → write_bytes d bs offset
            ≡ some (take offset d ++ (bs ++ drop (length bs) (drop offset d))))
      × (d ≢ [] → length d < offset + length bs → write_bytes d bs offset ≡ none)
write_bytes_lem d bs offset = (
  λ e.
      subst (λ x. write_bytes x bs offset ≡ some (zeros offset ++ bs)) (sym e)
        (write_empty bs offset),
  write_inside d bs offset,
  write_outside d bs offset,
)

read_bytes_between :
    (pre bs post : Bytes) (offset : ℕ)
    → length pre ≡ offset
    → read_bytes (pre ++ (bs ++ post)) offset (length bs) ≡ some bs
unfolding read_bytes
read_bytes_between pre bs post offset h =
    let size : leb (offset + length bs) (length (pre ++ (bs ++ post))) ≡ true =
      ground (arith, length-append pre (bs ++ post), length-append bs post) in
    rw
      (
        read_bytes,
        size,
        drop-append offset pre (bs ++ post) h,
        take-append (length bs) bs post refl,
      )
      refl

-- What was written is read back, where the write was inside the message.
pub read_bytes-write_bytes :
    (d e bs : Bytes) (offset : ℕ)
    → write_bytes d bs offset ≡ some e
    → read_bytes e offset (length bs) ≡ some bs
read_bytes-write_bytes [] e bs offset h =
    subst (λ x. read_bytes x offset (length bs) ≡ some bs)
      (some_injective (rw (append-nil bs) (sym (write_empty bs offset)) ∙ h))
      (read_bytes_between (zeros offset) bs [] offset (length-replicate {A = ℕ} offset 0))
read_bytes-write_bytes (b ∷ d) e bs offset h =
    elim (Bool-cases (ltb (length (b ∷ d)) (offset + length bs))) [
      | inl o ↦
          absurd (none_differs (sym (write_outside (b ∷ d) bs offset (λ x. cc) (ltb→lt _ _ o)) ∙ h))
      | inr o ↦
          let inside : offset + length bs ≤ length (b ∷ d) = ground arith in
          let pre = take offset (b ∷ d) in
          let size : length pre ≡ offset = omega (arith, length-take offset (b ∷ d)) in
          subst (λ x. read_bytes x offset (length bs) ≡ some bs)
            (some_injective (sym (write_inside (b ∷ d) bs offset (λ x. cc) inside) ∙ h))
            (read_bytes_between pre bs (drop (length bs) (drop offset (b ∷ d))) offset size)
    ]
