-- ===== src/Message/Wire/Patch.antt =====
-- The reads and writes at fixed offsets in stored bytes, against the wire format.
use tiny_mq.Prelude.{
  ◌+◌, ◌≤◌, ◌≡◌, refl, sym, subst, ap, ◌∙◌, some, [], ◌∷◌, ◌++◌, append_assoc, Bytes, arith, ◌||◌,
  if◌then◌else◌, ℤ, pos, ◌+ℤ◌, ltb_ℤ, InInt64, InInt32, length, take, drop, get_or, write_int64,
  read_int64, write_int32, read_int64-write_int64, read_int32-write_int32, length-append,
  length-write_int64, length-write_int32, take-append, drop-append, le→not_ltb,
}
use tiny_mq.Message.{Message, clamp_priority}
use tiny_mq.Message.Wire.{
  Codec, stored_form, to_bytes, patch_delivery_time_in_bytes, patch_cached_delivery_time,
  priority_from_storage_bytes, delivery_time_from_storage_bytes, tail_bytes, header_strings,
  expiration_in_prefix, max_future_header_ms,
}
use tiny_mq.Message.Wire.Layout.{
  before_expiration, after_priority, stored_form_split, length-before_expiration, take-write_int64,
  drop-write_int64, take-write_int32, take_all,
}

get_or-append : (xs ys : Bytes) → 2 ≤ length xs → get_or (xs ++ ys) 1 0 ≡ get_or xs 1 0
get_or-append [] ys h = absurd (omega arith)
get_or-append (x ∷ []) ys h = absurd (omega arith)
get_or-append (x ∷ (y ∷ xs)) ys h = refl

-- Stored bytes: 35 bytes `a` with the magic at index 1, expiration `e`, delivery time `d`, priority
-- `p`, and the rest `c`.
module _ (a c : Bytes) (e d p : ℤ) (len : length a ≡ 35) (magic : get_or a 1 0 ≡ 2) where
  abbrev stored : ℤ → Bytes
  stored t = a ++ (write_int64 e ++ (write_int64 t ++ (write_int32 p ++ c)))

  length-stored : (t : ℤ) → length (stored t) ≡ 55 + length c
  length-stored t = simp (length-append, length-write_int64, length-write_int32) (omega arith)

  magic-stored : (t : ℤ) → get_or (stored t) 1 0 ≡ 2
  magic-stored t = get_or-append a _ (omega arith) ∙ magic

  length-front : length (a ++ write_int64 e) ≡ 43
  length-front = simp (length-append, length-write_int64) (omega arith)

  take-stored_43 : (t : ℤ) → take 43 (stored t) ≡ a ++ write_int64 e
  take-stored_43 t =
      ap (take 43) (sym (append_assoc a (write_int64 e) _))
      ∙ take-append 43 (a ++ write_int64 e) _ length-front

  drop-stored_43 : (t : ℤ) → drop 43 (stored t) ≡ write_int64 t ++ (write_int32 p ++ c)
  drop-stored_43 t =
      ap (drop 43) (sym (append_assoc a (write_int64 e) _))
      ∙ drop-append 43 (a ++ write_int64 e) _ length-front

  drop-stored_51 : (t : ℤ) → drop 51 (stored t) ≡ write_int32 p ++ c
  drop-stored_51 t =
      ap (drop 51) (
        sym (append_assoc a (write_int64 e) _)
        ∙ sym (append_assoc (a ++ write_int64 e) (write_int64 t) _))
      ∙ drop-append 51 ((a ++ write_int64 e) ++ write_int64 t) _
          (simp (length-append, length-write_int64) (omega arith))

  patch-stored : (t : ℤ) → patch_delivery_time_in_bytes (stored d) t ≡ stored t
  unfolding patch_delivery_time_in_bytes
  patch-stored t =
      rw
        (
          length-stored d,
          magic-stored d,
          take-stored_43 d,
          drop-stored_43 d,
          drop-write_int64,
          le→not_ltb (55 + length c) 51 (omega arith),
          append_assoc,
        )
        refl

  priority-stored : InInt32 p → priority_from_storage_bytes (stored d) ≡ clamp_priority p
  unfolding priority_from_storage_bytes
  priority-stored h =
      rw
        (
          length-stored d,
          magic-stored d,
          drop-stored_51 d,
          take-write_int32,
          le→not_ltb (55 + length c) 55 (omega arith),
          read_int32-write_int32 p h,
        )
        refl

  delivery_time-stored :
      (now_ms : ℤ)
      → InInt64 d
      → delivery_time_from_storage_bytes now_ms (stored d)
        ≡ (if ltb_ℤ d (pos 0) || ltb_ℤ (now_ms +ℤ pos max_future_header_ms) d then pos 0 else d)
  unfolding delivery_time_from_storage_bytes
  delivery_time-stored now_ms h =
      rw
        (
          length-stored d,
          magic-stored d,
          drop-stored_43 d,
          take-write_int64,
          le→not_ltb (55 + length c) 51 (omega arith),
          read_int64-write_int64 d h,
        )
        refl

  expiration-stored : InInt64 e → expiration_in_prefix (take 43 (stored d)) ≡ some e
  unfolding expiration_in_prefix
  expiration-stored h =
      rw
        (
          take-stored_43 d,
          length-front,
          get_or-append a (write_int64 e) (omega arith),
          magic,
          drop-append 35 a (write_int64 e) len,
        )
        (ap some (
          ap read_int64 (
            subst (λ n. take n (write_int64 e) ≡ write_int64 e) (length-write_int64 e)
              (take_all (write_int64 e)))
          ∙ read_int64-write_int64 e h))

module _ (codec : Codec) where
  -- Patching the delivery time in the stored bytes of a message gives exactly the stored bytes of
  -- the message with that delivery time.
  pub patch_delivery_time_in_bytes-stored_form :
      (m : Message) (t : ℤ)
      → patch_delivery_time_in_bytes (stored_form codec m) t
        ≡ stored_form codec (record m { headers = record (m.headers) { delivery_time = t } })
  unfolding tail_bytes header_strings
  patch_delivery_time_in_bytes-stored_form m t =
      ap (λ (b : Bytes). patch_delivery_time_in_bytes b t) (stored_form_split codec m)
      ∙ patch-stored (before_expiration codec m) (after_priority codec m) m.headers.expiration
          m.headers.delivery_time m.headers.priority (length-before_expiration codec m) refl t
      ∙ sym (
          stored_form_split codec (record m { headers = record (m.headers) { delivery_time = t } }))

  -- The band that replay takes from the stored bytes of a message is its priority, clamped to 0..9.
  pub priority_from_storage_bytes-stored_form :
      (m : Message)
      → InInt32 m.headers.priority
      → priority_from_storage_bytes (stored_form codec m) ≡ clamp_priority m.headers.priority
  priority_from_storage_bytes-stored_form m h =
      ap priority_from_storage_bytes (stored_form_split codec m)
      ∙ priority-stored (before_expiration codec m) (after_priority codec m) m.headers.expiration
          m.headers.delivery_time m.headers.priority (length-before_expiration codec m) refl h

  -- The delivery time that replay takes from the stored bytes of a message is the message's own,
  -- or 0 where that is negative or more than ten years past the clock.
  pub delivery_time_from_storage_bytes-stored_form :
      (m : Message) (now_ms : ℤ)
      → InInt64 m.headers.delivery_time
      → delivery_time_from_storage_bytes now_ms (stored_form codec m) ≡ (
          if ltb_ℤ m.headers.delivery_time (pos 0)
            || ltb_ℤ (now_ms +ℤ pos max_future_header_ms) m.headers.delivery_time
          then pos 0
          else m.headers.delivery_time)
  delivery_time_from_storage_bytes-stored_form m now_ms h =
      ap (delivery_time_from_storage_bytes now_ms) (stored_form_split codec m)
      ∙ delivery_time-stored (before_expiration codec m) (after_priority codec m)
          m.headers.expiration m.headers.delivery_time m.headers.priority
          (length-before_expiration codec m) refl now_ms h

  -- The 43-byte prefix that the sweep reads of a stored message shows the message's expiration.
  pub expiration_in_prefix-stored_form :
      (m : Message)
      → InInt64 m.headers.expiration
      → expiration_in_prefix (take 43 (stored_form codec m)) ≡ some m.headers.expiration
  expiration_in_prefix-stored_form m h =
      ap (λ (b : Bytes). expiration_in_prefix (take 43 b)) (stored_form_split codec m)
      ∙ expiration-stored (before_expiration codec m) (after_priority codec m) m.headers.expiration
          m.headers.delivery_time m.headers.priority (length-before_expiration codec m) refl h

  -- The cached bytes are the stored form of the message as it is.
  abbrev pub InSync : Message → Type 0
  InSync m = m.cached_storage_bytes ≡ stored_form codec m

  abbrev pub delayed_to : ℤ → Message → Message
  delayed_to t m = record m { headers = record (m.headers) { delivery_time = t } }

  stored_form_cached :
      (m : Message) (b : Bytes)
      → stored_form codec (record m { cached_storage_bytes = b }) ≡ stored_form codec m
  unfolding stored_form to_bytes tail_bytes
  stored_form_cached m b = refl

  -- Setting the delivery time in the header and then patching the cached bytes keeps the two in
  -- step.
  pub patch_cached_delivery_time-InSync :
      (m : Message) (t : ℤ) → InSync m → InSync (patch_cached_delivery_time (delayed_to t m) t)
  unfolding patch_cached_delivery_time
  patch_cached_delivery_time-InSync m t h =
      ap (λ (b : Bytes). patch_delivery_time_in_bytes b t) h
      ∙ patch_delivery_time_in_bytes-stored_form m t
      ∙ sym (stored_form_cached (delayed_to t m) _)
