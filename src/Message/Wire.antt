-- ===== src/Message/Wire.antt =====
-- Message.cpp: toBytes, fromBytes, writeString, readString, refreshCachedStorageBytes, and the
-- places that read or patch one header straight in stored bytes (Message.cpp,
-- TransactionBuffer.cpp, Destination.cpp, ConcurrentLinearStorage.cpp).
-- A read position `off` in a buffer is the rest of the buffer from `off` on: the test
-- `off + k > size` is `length rest < k`.
pub mod Layout
pub mod RoundTrip
pub mod Patch
pub mod Legacy
pub mod Json
pub mod Tests
use tiny_mq.Prelude.{
  ℕ, ◌+◌, ◌-◌, ◌%◌, ◌^◌, ◌<◌, ◌≡◌, Bool, true, false, ◌||◌, ◌&&◌, not, Option, none, some, [], ◌∷◌,
  ◌++◌, ltb, leb, ◌==◌, if◌then◌else◌, ℤ, pos, ◌+ℤ◌, ltb_ℤ, Bytes, le_bytes, of_le, write_int64,
  read_int64, write_int32, read_int32, length, take, drop, replicate, get_or,
}
use tiny_mq.Message.{
  Message, Headers, Properties, Reliability, not_persistent, persistent, default_headers,
  is_persistent, type_tag, clamp_priority, MessageType,
}
use tiny_mq.Property.Json.{Reading, read, threw}

-- fromBytes either returns, or leaves by an exception with what was set before.
pub data Loaded : Type 0 where
  loaded : Message → Loaded
  thrown : Message → Loaded

-- Poco::UUID's copyTo and copyFrom, the JSON text of a property map, what comes of such text when it
-- is loaded over one, the loading of a record that is older than the magic byte, and the virtual
-- setDataFromBytes of a class: a message keeps its body as the bytes that dataAsBytes gives of it, so
-- that `set_data` gives those of the body that is set, or of what an exception leaves of it.
-- Message/Wire/Json gives the last four by what Poco::JSON does.
pub record Codec : Type 0 where
  pub copy_to : ℕ → Bytes
  pub copy_from : Bytes → ℕ
  pub stringify : Properties → Bytes
  pub load_json : Properties → Bytes → Reading Properties
  pub from_legacy : Message → Bytes → Loaded
  pub set_data : MessageType → Bytes → Reading Bytes
  pub length-copy_to : (u : ℕ) → length (copy_to u) ≡ 16
  pub copy_from-copy_to : (u : ℕ) → u < 2 ^ 128 → copy_from (copy_to u) ≡ u

-- A string that is 2 ^ 32 bytes or longer has its length cut to 32 bits, and as many bytes written.
unfoldable pub write_string : Bytes → Bytes
write_string s = le_bytes 4 (length s) ++ take (length s % 2 ^ 32) s

abbrev pub unwritten : Bytes → ℕ
unwritten s = length s - length s % 2 ^ 32

-- The string and what follows it, or `none` on truncation.
unfoldable pub read_string : Bytes → Option (Bytes × Bytes)
read_string rest =
    if ltb (length rest) 4
    then none
    else if ltb (length (drop 4 rest)) (of_le (take 4 rest))
    then none
    else some (take (of_le (take 4 rest)) (drop 4 rest), drop (of_le (take 4 rest)) (drop 4 rest))

abbrev pub reliability_byte : Reliability → ℕ
reliability_byte not_persistent = 0
reliability_byte persistent = 1

abbrev pub flag_byte : Bool → ℕ
flag_byte false = 0
flag_byte true = 1

-- The buffer is allocated from the full sizes, zeroed, and filled from the left.
abbrev pub padding : Headers → Bytes
padding h =
    replicate
      (unwritten h.message_id
        + unwritten h.reply_to
        + unwritten h.correlation_id
        + unwritten h.type)
      0

unfoldable pub header_strings : Headers → Bytes → Bytes
header_strings h rest =
    write_string h.message_id
    ++ (write_string h.reply_to ++ (write_string h.correlation_id ++ (write_string h.type ++ rest)))

module _ (codec : Codec) where
  abbrev pub properties_json : Properties → Bytes
  properties_json [] = []
  properties_json (p ∷ ps) = codec.stringify (p ∷ ps)

  unfoldable pub tail_bytes : Message → Bytes
  tail_bytes m =
      le_bytes 4 (length (properties_json m.properties))
      ++ (take (length (properties_json m.properties) % 2 ^ 32) (properties_json m.properties)
          ++ (m.body ++ padding m.headers))

  unfoldable pub to_bytes : Message → Bytes
  to_bytes m =
      2
      ∷ (write_int64 m.number
          ++ (codec.copy_to m.uuid
              ++ (reliability_byte m.reliability
                  ∷ (write_int64 m.headers.timestamp
                      ++ (write_int64 m.headers.expiration
                          ++ (write_int64 m.headers.delivery_time
                              ++ (write_int32 m.headers.priority
                                  ++ (write_int32 m.headers.delivery_count
                                      ++ (flag_byte m.headers.redelivered
                                          ∷ header_strings m.headers (tail_bytes m))))))))))

  -- [1-byte type][toBytes() payload], the form of a record in storage and of the cached bytes.
  unfoldable pub stored_form : Message → Bytes
  stored_form m = type_tag m.kind ∷ to_bytes m

  unfoldable pub refresh_cached_storage_bytes : Message → Message
  refresh_cached_storage_bytes m =
      if is_persistent m then record m { cached_storage_bytes = stored_form m } else m

unfoldable pub got_body : Message → Reading Bytes → Loaded
got_body m (read body) = loaded (record m { body = body })
got_body m (threw body) = thrown (record m { body = body })

-- setDataFromBytes of the message's class, where there are bytes left.
unfoldable pub set_body : (MessageType → Bytes → Reading Bytes) → Message → Bytes → Loaded
unfolding got_body
set_body set_data m [] = loaded m
set_body set_data m (b ∷ bs) = got_body m (set_data m.kind (b ∷ bs))

abbrev pub nonzero : ℕ → Reliability
nonzero b = if b == 0 then not_persistent else persistent

module _ (codec : Codec) where
  -- What the JSON parser made of the properties, and the bytes that follow them.
  unfoldable pub got_properties : Message → Reading Properties → Bytes → Loaded
  unfolding set_body
  got_properties m (threw ps) rest = thrown (record m { properties = ps })
  got_properties m (read ps) rest = set_body codec.set_data (record m { properties = ps }) rest

  unfoldable pub read_properties : Message → ℕ → Bytes → Loaded
  unfolding got_properties set_body
  read_properties m len rest =
      if ltb 0 len && leb len (length rest)
      then got_properties m (codec.load_json m.properties (take len rest)) (drop len rest)
      else set_body codec.set_data m rest

  unfoldable pub read_tail : Message → Bytes → Loaded
  unfolding read_properties
  read_tail m rest =
      if ltb (length rest) 4
      then loaded m
      else read_properties m (of_le (take 4 rest)) (drop 4 rest)

  -- The four header strings in turn; a truncated one ends the reading.
  unfoldable pub got_type : Message → Option (Bytes × Bytes) → Loaded
  got_type m none = loaded m
  got_type m (some (s, rest)) =
      read_tail (record m { headers = record (m.headers) { type = s } }) rest

  unfoldable pub got_correlation_id : Message → Option (Bytes × Bytes) → Loaded
  unfolding got_type
  got_correlation_id m none = loaded m
  got_correlation_id m (some (s, rest)) =
      got_type (record m { headers = record (m.headers) { correlation_id = s } }) (read_string rest)

  unfoldable pub got_reply_to : Message → Option (Bytes × Bytes) → Loaded
  unfolding got_correlation_id
  got_reply_to m none = loaded m
  got_reply_to m (some (s, rest)) =
      got_correlation_id (record m { headers = record (m.headers) { reply_to = s } })
        (read_string rest)

  unfoldable pub got_message_id : Message → Option (Bytes × Bytes) → Loaded
  unfolding got_reply_to
  got_message_id m none = loaded m
  got_message_id m (some (s, rest)) =
      got_reply_to (record m { headers = record (m.headers) { message_id = s } }) (read_string rest)

  unfoldable pub read_strings : Message → Bytes → Loaded
  unfolding got_message_id
  read_strings m rest = got_message_id m (read_string rest)

  -- The numeric headers block: 3 * 8 + 2 * 4 + 1 bytes.
  unfoldable pub read_headers : Message → Bytes → Loaded
  read_headers m rest =
      if ltb (length rest) 33
      then loaded m
      else read_strings
          (record m {
            headers = record (m.headers) {
              timestamp = read_int64 (take 8 rest);
              expiration = read_int64 (take 8 (drop 8 rest));
              delivery_time = read_int64 (take 8 (drop 8 (drop 8 rest)));
              priority = read_int32 (take 4 (drop 8 (drop 8 (drop 8 rest))));
              delivery_count = read_int32 (take 4 (drop 4 (drop 8 (drop 8 (drop 8 rest)))));
              redelivered = not (get_or (drop 4 (drop 4 (drop 8 (drop 8 (drop 8 rest))))) 0 0 == 0);
            };
          })
          (drop 1 (drop 4 (drop 4 (drop 8 (drop 8 (drop 8 rest))))))

  -- Number, uuid and reliability; then the headers for magic 2, default headers for magic 1.
  unfoldable pub read_fixed : ℕ → Message → Bytes → Loaded
  read_fixed magic m rest =
      let m1 : Message = record m {
        number = read_int64 (take 8 rest);
        uuid = codec.copy_from (take 16 (drop 8 rest));
        reliability = nonzero (get_or (drop 16 (drop 8 rest)) 0 0);
      } in
      let rest' = drop 1 (drop 16 (drop 8 rest)) in
      if magic == 2
      then read_headers m1 rest'
      else read_tail (record m1 { headers = default_headers }) rest'

  unfoldable pub from_bytes : Message → Bytes → Loaded
  from_bytes m [] = loaded m
  from_bytes m (magic ∷ rest) =
      if magic == 1 || magic == 2
      then (if ltb (length rest) 25 then loaded m else read_fixed magic m rest)
      else codec.from_legacy m (magic ∷ rest)

-- patchCachedDeliveryTime and patchDeliveryTimeInBytes: the same code, twice in the source.
unfoldable pub patch_delivery_time_in_bytes : Bytes → ℤ → Bytes
patch_delivery_time_in_bytes data_ delivery_time =
    if ltb (length data_) 51
    then data_
    else if not (get_or data_ 1 0 == 2)
    then data_
    else take 43 data_ ++ (write_int64 delivery_time ++ drop 8 (drop 43 data_))

unfoldable pub patch_cached_delivery_time : Message → ℤ → Message
patch_cached_delivery_time m delivery_time = record m {
  cached_storage_bytes = patch_delivery_time_in_bytes m.cached_storage_bytes delivery_time;
}

-- The band for a replayed record: 4 where the bytes carry no headers.
unfoldable pub priority_from_storage_bytes : Bytes → ℕ
priority_from_storage_bytes data_ =
    if ltb (length data_) 55
    then 4
    else if not (get_or data_ 1 0 == 2)
    then 4
    else clamp_priority (read_int32 (take 4 (drop 51 data_)))

-- kMaxFutureHeaderMs: ten years.
abbrev pub max_future_header_ms : ℕ
max_future_header_ms = 315360000000

-- A stored delivery time out of the range of any legitimate send reads as 0.
unfoldable pub delivery_time_from_storage_bytes : ℤ → Bytes → ℤ
delivery_time_from_storage_bytes now_ms data_ =
    if ltb (length data_) 51
    then pos 0
    else if not (get_or data_ 1 0 == 2)
    then pos 0
    else let delivery_time = read_int64 (take 8 (drop 43 data_)) in
      if ltb_ℤ delivery_time (pos 0) || ltb_ℤ (now_ms +ℤ pos max_future_header_ms) delivery_time
      then pos 0
      else delivery_time

-- What sweepExpired reads of the first bytes of a record: `none` where they carry no expiration.
unfoldable pub expiration_in_prefix : Bytes → Option ℤ
expiration_in_prefix prefix =
    if ltb (length prefix) 43
    then none
    else if not (get_or prefix 1 0 == 2)
    then none
    else some (read_int64 (take 8 (drop 35 prefix)))
