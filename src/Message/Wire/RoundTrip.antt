-- ===== src/Message/Wire/RoundTrip.antt =====
-- fromBytes after toBytes.
use tiny_mq.Prelude.{
  ◌+◌, ◌^◌, ◌<◌, ◌≡◌, refl, sym, ap, ◌∙◌, Bool, true, false, not, [], ◌∷◌, ◌++◌, Bytes, arith, ◌==◌,
  InInt64, InInt32, length, le_bytes, of_le-le_bytes, write_int64, write_int32,
  read_int64-write_int64, read_int32-write_int32, length-append, length-le_bytes,
  length-write_int64, length-write_int32, take-append, drop-append, append-nil, replicate,
}
use tiny_mq.Property.Json.{read}
use native.Mathlib.Nat.{mod-eq_of_lt}
use tiny_mq.Message.{Message, Headers, Properties, Reliability, persistent, not_persistent}
use tiny_mq.Message.Wire.{
  Codec, reliability_byte, flag_byte, header_strings, tail_bytes, to_bytes, from_bytes, read_fixed,
  read_headers, read_strings, read_tail, got_message_id, got_reply_to, got_correlation_id, set_body,
  nonzero, properties_json, padding, unwritten,
}
use tiny_mq.Message.Wire.Layout.{
  take-write_int64, drop-write_int64, take-write_int32, drop-write_int32, take-le_bytes,
  drop-le_bytes, take-copy_to, drop-copy_to, read_string-write_string, take_all,
}

-- The values of the fields fit the source's types, and the lengths fit the 32-bit length fields.
pub record Fits (codec : Codec) (m : Message) : Type 0 where
  pub number : InInt64 m.number
  pub uuid : m.uuid < 2 ^ 128
  pub timestamp : InInt64 m.headers.timestamp
  pub expiration : InInt64 m.headers.expiration
  pub delivery_time : InInt64 m.headers.delivery_time
  pub priority : InInt32 m.headers.priority
  pub delivery_count : InInt32 m.headers.delivery_count
  pub message_id : length m.headers.message_id < 2 ^ 32
  pub reply_to : length m.headers.reply_to < 2 ^ 32
  pub correlation_id : length m.headers.correlation_id < 2 ^ 32
  pub type : length m.headers.type < 2 ^ 32
  pub properties : length (properties_json codec m.properties) < 2 ^ 32

-- The JSON text of a map is not empty, and loads over no properties to the map `rs`; of an empty map
-- nothing is written.
abbrev pub JsonLoads : Codec → Properties → Properties → Type 0
JsonLoads codec [] rs = rs ≡ []
JsonLoads codec (p ∷ ps) rs =
    (0 < length (codec.stringify (p ∷ ps)))
    × (codec.load_json [] (codec.stringify (p ∷ ps)) ≡ read rs)

ruleset field_laws = (
  take-write_int64, drop-write_int64, take-write_int32, drop-write_int32, take-le_bytes,
  drop-le_bytes, take-copy_to, drop-copy_to,
)

nonzero-reliability_byte : (r : Reliability) → nonzero (reliability_byte r) ≡ r
nonzero-reliability_byte persistent = refl
nonzero-reliability_byte not_persistent = refl

nonzero-flag_byte : (b : Bool) → not (flag_byte b == 0) ≡ b
nonzero-flag_byte true = refl
nonzero-flag_byte false = refl

module _ (codec : Codec) where
  -- The message s with what a record of m has before the body, where the text of m's properties
  -- loads to `rs`.
  abbrev pub restored : Message → Message → Properties → Message
  restored s m rs = record s {
    number = m.number;
    uuid = m.uuid;
    reliability = m.reliability;
    headers = m.headers;
    properties = rs;
  }

  padding_none :
      (h : Headers)
      → length h.message_id < 2 ^ 32
      → length h.reply_to < 2 ^ 32
      → length h.correlation_id < 2 ^ 32
      → length h.type < 2 ^ 32
      → padding h ≡ []
  padding_none h a b c d =
      let e : unwritten h.message_id
            + unwritten h.reply_to
            + unwritten h.correlation_id
            + unwritten h.type
          ≡ 0 =
        omega arith in
      ap (λ n. replicate n 0) e

  tail_bytes_short :
      (m : Message)
      → Fits codec m
      → tail_bytes codec m
        ≡ le_bytes 4 (length (properties_json codec m.properties))
          ++ (properties_json codec m.properties ++ m.body)
  unfolding tail_bytes
  tail_bytes_short m f = rw (
    padding_none m.headers f.message_id f.reply_to f.correlation_id f.type,
    append-nil,
    mod-eq_of_lt f.properties,
    take_all (properties_json codec m.properties),
  )

  -- A properties block that loads, and one of length 0.
  read_tail_json :
      (s : Message) (j b : Bytes) (ps : Properties)
      → length j < 2 ^ 32
      → 0 < length j
      → codec.load_json s.properties j ≡ read ps
      → read_tail codec s (le_bytes 4 (length j) ++ (j ++ b))
        ≡ set_body codec.set_data (record s { properties = ps }) b
  unfolding read_tail
  read_tail_json s j b ps short h e =
      rw
        (
          take-le_bytes,
          drop-le_bytes,
          of_le-le_bytes 4 (length j) short,
          take-append (length j) j b refl,
          drop-append (length j) j b refl,
        )
        (ground (
          arith,
          length-append (le_bytes 4 (length j)) (j ++ b),
          length-le_bytes 4 (length j),
          length-append j b,
        ))

  read_tail_none :
      (s : Message) (b : Bytes)
      → read_tail codec s (le_bytes 4 0 ++ b) ≡ set_body codec.set_data s b
  unfolding read_tail
  read_tail_none s b =
      rw (take-le_bytes, drop-le_bytes, of_le-le_bytes 4 0 (omega arith))
        (ground (arith, length-append (le_bytes 4 0) b, length-le_bytes 4 0))

  read_tail_properties :
      (s : Message) (ps rs : Properties) (b : Bytes)
      → length (properties_json codec ps) < 2 ^ 32
      → JsonLoads codec ps rs
      → s.properties ≡ []
      → read_tail codec s
          (le_bytes 4 (length (properties_json codec ps)) ++ (properties_json codec ps ++ b))
        ≡ set_body codec.set_data (record s { properties = rs }) b
  read_tail_properties s [] rs b short j e =
      read_tail_none s b
      ∙ ap (λ (q : Properties). set_body codec.set_data (record s { properties = q }) b) (e ∙ sym j)
  read_tail_properties s (p ∷ ps) rs b short (filled, j) e =
      read_tail_json s (codec.stringify (p ∷ ps)) b rs short filled
        (ap (λ (q : Properties). codec.load_json q (codec.stringify (p ∷ ps))) e ∙ j)

  read_strings_lem :
      (s : Message) (h : Headers) (rest : Bytes)
      → length h.message_id < 2 ^ 32
      → length h.reply_to < 2 ^ 32
      → length h.correlation_id < 2 ^ 32
      → length h.type < 2 ^ 32
      → read_strings codec s (header_strings h rest)
        ≡ read_tail codec
            (record s {
              headers = record (s.headers) {
                message_id = h.message_id;
                reply_to = h.reply_to;
                correlation_id = h.correlation_id;
                type = h.type;
              };
            })
            rest
  unfolding read_strings header_strings
  read_strings_lem s h rest a b c d =
      rw
        (
          read_string-write_string h.message_id _ a,
          got_message_id,
          read_string-write_string h.reply_to _ b,
          got_reply_to,
          read_string-write_string h.correlation_id _ c,
          got_correlation_id,
          read_string-write_string h.type rest d,
        )
        refl

  read_headers_lem :
      (s m : Message) (rest : Bytes)
      → Fits codec m
      → read_headers codec s (
          write_int64 m.headers.timestamp
          ++ (write_int64 m.headers.expiration
              ++ (write_int64 m.headers.delivery_time
                  ++ (write_int32 m.headers.priority
                      ++ (write_int32 m.headers.delivery_count
                          ++ (flag_byte m.headers.redelivered ∷ header_strings m.headers rest))))))
        ≡ read_tail codec (record s { headers = m.headers }) rest
  unfolding read_headers
  read_headers_lem s m rest f =
      simp
        (
          field_laws,
          nonzero-flag_byte,
          read_int64-write_int64 _ f.timestamp,
          read_int64-write_int64 _ f.expiration,
          read_int64-write_int64 _ f.delivery_time,
          read_int32-write_int32 _ f.priority,
          read_int32-write_int32 _ f.delivery_count,
          read_strings_lem _ m.headers rest f.message_id f.reply_to f.correlation_id f.type,
          length-append,
          length-write_int64,
          length-write_int32,
        )
        (ground arith)

  read_fixed_lem :
      (s m : Message) (rs : Properties)
      → Fits codec m
      → JsonLoads codec m.properties rs
      → s.properties ≡ []
      → read_fixed codec 2 s (
          write_int64 m.number
          ++ (codec.copy_to m.uuid
              ++ (reliability_byte m.reliability
                  ∷ (write_int64 m.headers.timestamp
                      ++ (write_int64 m.headers.expiration
                          ++ (write_int64 m.headers.delivery_time
                              ++ (write_int32 m.headers.priority
                                  ++ (write_int32 m.headers.delivery_count
                                      ++ (flag_byte m.headers.redelivered
                                          ∷ header_strings m.headers (tail_bytes codec m))))))))))
        ≡ set_body codec.set_data (restored s m rs) m.body
  unfolding read_fixed
  read_fixed_lem s m rs f j p =
      simp
        (
          field_laws,
          nonzero-reliability_byte,
          read_int64-write_int64 _ f.number,
          codec.copy_from-copy_to m.uuid f.uuid,
          read_headers_lem _ m (tail_bytes codec m) f,
        )
        (rw (tail_bytes_short m f) (read_tail_properties _ m.properties rs m.body f.properties j p))

  -- A message that fits the wire's fields, written by toBytes and read by fromBytes into a message
  -- with no properties, gives back its number, uuid, reliability and headers and the properties to
  -- which the JSON text of its own loads, which is assumed to load, and then sets the body's bytes.
  pub from_bytes-to_bytes :
      (s m : Message) (rs : Properties)
      → Fits codec m
      → JsonLoads codec m.properties rs
      → s.properties ≡ []
      → from_bytes codec s (to_bytes codec m) ≡ set_body codec.set_data (restored s m rs) m.body
  unfolding from_bytes to_bytes
  from_bytes-to_bytes s m rs f j p =
      simp (read_fixed_lem s m rs f j p, length-append, length-write_int64, codec.length-copy_to)
        (ground arith)
