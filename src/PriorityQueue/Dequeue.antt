-- ===== src/PriorityQueue/Dequeue.antt =====
-- dequeueFromBands, dequeueFromBandsOrReturnToken, try_dequeue and wait_dequeue_timed: what they
-- take, and the invariant of the mask and the semaphore.
use tiny_mq.Prelude.{
  ℕ, zero, suc, ◌≤◌, ◌<◌, ◌≡◌, refl, sym, ap, ◌∙◌, ◌⊎◌, inl, inr, Bool, true, false, Option, none,
  some, List, [], ◌∷◌, ◌++◌, length, length-append, arith, leb, ◌==◌, ==_refl, if◌then◌else◌,
  Bool-cases,
}
use tiny_mq.Message.{Message, clamp_priority}
use tiny_mq.PriorityQueue.{
  PriorityQueue, update, highest, enqueue, scan_bands, mask_loop, dequeue_from_bands,
  or_return_token, try_dequeue, empty,
}
use tiny_mq.PriorityQueue.Bands.{Moodycamel}
use tiny_mq.PriorityQueue.Order.{
  down, above, down_pop, down_empty, clamp_priority-lt, view, ordered, view-enqueue,
  ordered-enqueue,
}

-- The highest set bit, or no bit at all.
abbrev Highest : ℕ → (ℕ → Bool) → Type 0
Highest n mask =
    ((highest n mask ≡ none) × ((b : ℕ) → b < n → mask b ≡ false))
    ⊎ ((top : ℕ) × (highest n mask ≡ some top)
        × (top < n)
        × (mask top ≡ true)
        × ((b : ℕ) → top < b → b < n → mask b ≡ false))

highest_lem : (n : ℕ) (mask : ℕ → Bool) → Highest n mask
unfolding highest
highest_lem zero mask = inl (refl, λ b h. absurd (omega arith))
highest_lem (suc n) mask = elim (Bool-cases (mask n)) [
  | inl e ↦ inr (n, (rw e refl), omega arith, e, λ b h k. absurd (omega arith))
  | inr e ↦ elim (highest_lem n mask) [
    | inl (none_e, all) ↦ inl (
      (rw e none_e),
      λ b h. elim (Bool-cases (b == n)) [
        | inl s ↦ let k : b ≡ n = ground arith in rw k e
        | inr s ↦ all b (ground arith)
      ],
    )
    | inr (top, top_e, low, bit, all) ↦ inr (
      top,
      (rw e top_e),
      omega arith,
      bit,
      λ b h k. elim (Bool-cases (b == n)) [
        | inl s ↦ let k : b ≡ n = ground arith in rw k e
        | inr s ↦ all b h (ground arith)
      ],
    )
  ]
]

module _ (lib : Moodycamel) where
  -- A band whose bit is clear is empty, and the bits from 10 on are clear.
  pub record Masked (q : PriorityQueue lib) : Type 0 where
    pub clear_empty : (b : ℕ) → b < 10 → q.non_empty b ≡ false → view lib q b ≡ []
    pub unused_clear : (b : ℕ) → 10 ≤ b → q.non_empty b ≡ false

  -- A dequeue of q takes its first message, or finds that there is none.
  pub record Takes (q : PriorityQueue lib) (r : Option Message × PriorityQueue lib) : Type 0 where
    pub taken :
        ((ordered lib q ≡ []) × (r.0 ≡ none) × (ordered lib r.1 ≡ []))
        ⊎ ((msg : Message) × (ordered lib q ≡ msg ∷ ordered lib r.1) × (r.0 ≡ some msg))
    pub masked : Masked r.1
    pub same_sema : r.1.sema ≡ q.sema

  scan_bands_empty :
      (n : ℕ) (q : PriorityQueue lib)
      → ((b : ℕ) → b < n → view lib q b ≡ [])
      → scan_bands lib n q ≡ (none, q)
  unfolding scan_bands
  scan_bands_empty zero q h = refl
  scan_bands_empty (suc n) q h =
      rw (lib.try_dequeue_empty (q.bands n) (h n (omega arith)), scan_bands)
        (scan_bands_empty n q (λ b l. h b (omega arith)))

  List-cases :
      (xs : List Message) → (xs ≡ []) ⊎ ((x : Message) × (rest : List Message) × (xs ≡ x ∷ rest))
  List-cases [] = inl refl
  List-cases (x ∷ rest) = inr (x, rest, refl)

  -- All bits are clear: nothing is there.
  no_bits :
      (q : PriorityQueue lib)
      → Masked q
      → ((b : ℕ) → b < 16 → q.non_empty b ≡ false)
      → Takes q (scan_bands lib 10 q)
  no_bits q m clear =
      let empty_bands : (b : ℕ) → b < 10 → view lib q b ≡ [] =
        λ b l. m.clear_empty b l (clear b (omega arith)) in
      rw (scan_bands_empty 10 q empty_bands) (record {
        taken =
            inl (
              down_empty 10 (view lib q) empty_bands,
              refl,
              down_empty 10 (view lib q) empty_bands,
            );
        masked = m;
        same_sema = refl;
      })

  view-update :
      (q : PriorityQueue lib) (band b : ℕ) (rest : lib.Band)
      → lib.contents (update q.bands band rest b)
        ≡ (if band == b then lib.contents rest else view lib q b)
  view-update q band b rest = ground arith

  -- The highest set band gives its first message.
  top_band :
      (q : PriorityQueue lib) (band : ℕ) (msg : Message) (rest : lib.Band)
      → Masked q
      → band < 10
      → ((b : ℕ) → band < b → b < 16 → q.non_empty b ≡ false)
      → view lib q band ≡ msg ∷ lib.contents rest
      → Takes q (some msg, record q { bands = update q.bands band rest })
  top_band q band msg rest m low up e = record {
    taken = inr (
      msg,
      down_pop 10 band (view lib q) (λ b. lib.contents (update q.bands band rest b)) msg
          (lib.contents rest) low (λ b l k. m.clear_empty b k (up b l (omega arith))) e
          (view-update q band band rest ∙ simp ==_refl)
          (λ b other. view-update q band b rest ∙ ground arith),
      refl,
    );
    masked = record {
      clear_empty = λ b l c. elim (Bool-cases (band == b)) [
        | inl s ↦
            let k : band ≡ b = ground arith in
            let gone : view lib q band ≡ [] = rw k (m.clear_empty b l c) in cc
        | inr s ↦ view-update q band b rest ∙ rw s (m.clear_empty b l c)
      ];
      unused_clear = m.unused_clear;
    };
    same_sema = refl;
  }

  clear_bit-Masked :
      (q : PriorityQueue lib) (band : ℕ)
      → Masked q
      → view lib q band ≡ []
      → Masked (record q { non_empty = update q.non_empty band false })
  clear_bit-Masked q band m e = record {
    clear_empty = λ b l c. elim (Bool-cases (band == b)) [
      | inl s ↦ let k : band ≡ b = ground arith in rw (← k) e
      | inr s ↦ m.clear_empty b l (ground arith)
    ];
    unused_clear = λ b l. elim (Bool-cases (band == b)) [
      | inl s ↦ rw s refl
      | inr s ↦ rw s (m.unused_clear b l)
    ];
  }

  set_bit-lt : (q : PriorityQueue lib) (band : ℕ) → Masked q → q.non_empty band ≡ true → band < 10
  set_bit-lt q band m bit = elim (Bool-cases (leb 10 band)) [
    | inl s ↦
        let clear : q.non_empty band ≡ false = m.unused_clear band (ground arith) in absurd (cc)
    | inr s ↦ ground arith
  ]

  clear_bit-Takes :
      (q : PriorityQueue lib) (band : ℕ) (r : Option Message × PriorityQueue lib)
      → Takes (record q { non_empty = update q.non_empty band false }) r
      → Takes q r
  clear_bit-Takes q band r t = record {
    taken = t.taken;
    masked = t.masked;
    same_sema = t.same_sema;
  }

  -- With every bit from h on clear, more than h rounds are enough.
  mask_loop-Takes :
      (fuel h : ℕ) (q : PriorityQueue lib)
      → h < fuel
      → ((b : ℕ) → h ≤ b → b < 16 → q.non_empty b ≡ false)
      → Masked q
      → Takes q (mask_loop lib fuel q)
  unfolding mask_loop
  mask_loop-Takes zero h q l up m = absurd (omega arith)
  mask_loop-Takes (suc fuel) h q l up m = elim (highest_lem 16 q.non_empty) [
    | inl (e, clear) ↦ rw (e, mask_loop) (no_bits q m clear)
    | inr (band, e, low, bit, top) ↦
        let used : band < 10 = set_bit-lt q band m bit in
        let below : band < h = elim (Bool-cases (leb h band)) [
          | inl s ↦ let clear : q.non_empty band ≡ false = up band (ground arith) low in absurd (cc)
          | inr s ↦ ground arith
        ] in
        elim (List-cases (view lib q band)) [
          | inl gone ↦
              rw (e, lib.try_dequeue_empty (q.bands band) gone, mask_loop)
                (clear_bit-Takes q band _ (
                  mask_loop-Takes fuel band (record q { non_empty = update q.non_empty band false })
                    (omega arith)
                    (λ b l16 k. elim (Bool-cases (band == b)) [
                      | inl s ↦ rw s refl
                      | inr s ↦ rw s (top b (ground arith) k)
                    ])
                    (clear_bit-Masked q band m gone)))
          | inr (msg, rest, there) ↦
              let (b', e', c') = lib.try_dequeue_cons (q.bands band) msg rest there in
              rw (e, e', mask_loop)
                (top_band q band msg b' m used top (there ∙ ap (◌∷◌ msg) (sym c')))
        ]
  ]

  dequeue_from_bands-Takes : (q : PriorityQueue lib) → Masked q → Takes q (dequeue_from_bands lib q)
  unfolding dequeue_from_bands
  dequeue_from_bands-Takes q m =
      mask_loop-Takes 17 16 q (omega arith) (λ b l k. absurd (omega arith)) m

  -- The invariant between calls: the mask covers the bands, and there is a token for each message.
  pub record WellFormed (q : PriorityQueue lib) : Type 0 where
    pub masked : Masked q
    pub tokens : lib.count q.sema ≡ length (ordered lib q)

  -- What try_dequeue returns and leaves, whatever it had to clear in the mask.
  abbrev pub Dequeues : PriorityQueue lib → Option Message × PriorityQueue lib → Type 0
  Dequeues q r =
      WellFormed r.1
      × (((ordered lib q ≡ []) × (r.0 ≡ none) × (ordered lib r.1 ≡ []))
          ⊎ ((msg : Message) × (ordered lib q ≡ msg ∷ ordered lib r.1) × (r.0 ≡ some msg)))

  token_taken :
      (q q' : PriorityQueue lib) (r : Option Message × PriorityQueue lib) (n : ℕ)
      → length (ordered lib q) ≡ suc n
      → lib.count q'.sema ≡ n
      → ordered lib q' ≡ ordered lib q
      → Takes q' r
      → Dequeues q (or_return_token lib r)
  unfolding or_return_token
  token_taken q q' (none, q'') n len c same t = elim t.taken [
    | inl (e, _, _) ↦ absurd (omega (arith, ap length (sym same ∙ e)))
    | inr (x, e, f) ↦ absurd (cc)
  ]
  token_taken q q' (some msg, q'') n len c same t = elim t.taken [
    | inl (_, f, _) ↦ absurd (cc)
    | inr (x, e, f) ↦ (
      record {
        masked = t.masked;
        tokens = omega (arith, ap lib.count t.same_sema, ap length (sym same ∙ e));
      },
      inr (x, sym same ∙ e, f),
    )
  ]

  no_messages : (xs : List Message) → length xs ≡ 0 → xs ≡ []
  no_messages [] h = refl
  no_messages (x ∷ xs) h = absurd (omega arith)

  -- On a well-formed queue try_dequeue takes the first message in priority order, and only that
  -- one, or returns nothing exactly where the queue is empty. The queue stays well formed.
  pub try_dequeue-Dequeues : (q : PriorityQueue lib) → WellFormed q → Dequeues q (try_dequeue lib q)
  unfolding try_dequeue
  try_dequeue-Dequeues q w = go (lib.count q.sema) refl
    where
      go : (n : ℕ) → lib.count q.sema ≡ n → Dequeues q (try_dequeue lib q)
      go zero e =
          let nothing : ordered lib q ≡ [] = no_messages (ordered lib q) (sym w.tokens ∙ e) in
          rw (lib.wait_zero q.sema e, try_dequeue) (w, inl (nothing, refl, nothing))
      go (suc n) e =
          let (s', taken, left) = lib.wait_suc q.sema n e in
          rw (taken, try_dequeue)
            (token_taken q (record q { sema = s' }) _ n (sym w.tokens ∙ e) left refl
              (dequeue_from_bands-Takes (record q { sema = s' })
                (record {
                  clear_empty = w.masked.clear_empty;
                  unused_clear = w.masked.unused_clear;
                })))

  pub empty-WellFormed : WellFormed (empty lib)
  empty-WellFormed = record {
    masked = record { clear_empty = λ b l c. lib.contents-new_band; unused_clear = λ b l. refl };
    tokens =
        lib.count-new_sema
        ∙ ap length (sym (down_empty 10 (view lib (empty lib)) (λ b l. lib.contents-new_band)));
  }

  enqueue-Masked : (q : PriorityQueue lib) (msg : Message) → Masked q → Masked (enqueue lib q msg)
  unfolding enqueue
  enqueue-Masked q msg m = record {
    clear_empty = λ b l c. elim (Bool-cases (clamp_priority msg.headers.priority == b)) [
      | inl s ↦ absurd (ground arith)
      | inr s ↦ view-enqueue lib q msg b ∙ rw s (m.clear_empty b l (ground arith))
    ];
    unused_clear = λ b l.
        let low : clamp_priority msg.headers.priority < 10 =
          clamp_priority-lt msg.headers.priority in
        ground (arith, m.unused_clear b l);
  }

  sema-enqueue :
      (q : PriorityQueue lib) (msg : Message)
      → lib.count (enqueue lib q msg).sema ≡ suc (lib.count q.sema)
  unfolding enqueue
  sema-enqueue q msg = lib.count-signal q.sema

  -- Enqueueing on a well-formed queue keeps it well formed, and puts the message behind all of its
  -- own or a higher priority and ahead of all of lower priority.
  pub enqueue-WellFormed :
      (q : PriorityQueue lib) (msg : Message)
      → WellFormed q
      → WellFormed (enqueue lib q msg)
        × (ordered lib q
            ≡ above 10 (clamp_priority msg.headers.priority) (view lib q)
              ++ down (clamp_priority msg.headers.priority) (view lib q))
        × (ordered lib (enqueue lib q msg)
            ≡ above 10 (clamp_priority msg.headers.priority) (view lib q)
              ++ msg ∷ down (clamp_priority msg.headers.priority) (view lib q))
  enqueue-WellFormed q msg w =
      let (before, after) = ordered-enqueue lib q msg in
      let a : List Message = above 10 (clamp_priority msg.headers.priority) (view lib q) in
      let d : List Message = down (clamp_priority msg.headers.priority) (view lib q) in
      (
        record {
          masked = enqueue-Masked q msg w.masked;
          tokens = omega (
            arith,
            sema-enqueue q msg,
            w.tokens,
            ap length before,
            ap length after,
            length-append a d,
            length-append a (msg ∷ d),
          );
        },
        before,
        after,
      )
