-- ===== src/Message/Wire/Legacy/Load.antt =====
-- The legacy branch of fromBytes over a record that was made of propertiesAsBytes, of Message.cpp.
use tiny_mq.Prelude.{
  ℕ, ◌+◌, ◌%◌, ◌^◌, ◌<◌, ◌≡◌, ◌≢◌, refl, sym, ap, ◌∙◌, subst, arith, true, false, ◌||◌, ◌==◌, some,
  [], ◌∷◌, ◌++◌, Bytes, bytes_eq, if◌then◌else◌, length, take, drop, le_bytes, of_le,
  of_le-le_bytes, length-le_bytes, length-append, take-append, drop-append, lt→ltb, le→leb,
  le→not_ltb, append_assoc,
}
use tiny_mq.Selector.Tokenizer.{codes}
use tiny_mq.Message.{Message, Reliability, persistent, not_persistent, Properties, property}
use tiny_mq.Message.Wire.{loaded, set_body, from_bytes}
use tiny_mq.Message.Wire.Json.{json_codec, length_filled, set_body-data_as_bytes}
use tiny_mq.Message.Wire.Legacy.{
  Library, and_then, reliability_name, set_number, set_reliability, set_uuid, took_properties,
  set_properties, set_from_object, set_parsed, set_properties_from_bytes, from_legacy,
  persistent_json, properties_to_json, properties_as_bytes,
}
use tiny_mq.Message.Wire.Legacy.Members.{
  string_member, object_member, get-set_same, get-set_other, set_persistent_info-persistent_json,
}
use tiny_mq.Property.{raw_long, raw_string, raw_type}
use tiny_mq.Property.Poco.{Poco}
use tiny_mq.Body.{Body, type_of, data_as_bytes, set_data}
use tiny_mq.Body.Restore.{Storable, Restores}
use tiny_mq.Property.Json.{read, to_json, from_json, convert_member}
use tiny_mq.Property.Json.Members.{Unique, AllReadable}
use tiny_mq.Property.Json.RoundTrip.{from_json-to_json}

named_reliability :
    (r : Reliability)
    → (if bytes_eq (reliability_name r) (codes "PERSISTENT") then persistent else not_persistent)
      ≡ r
unfolding bytes_eq
named_reliability persistent = refl
named_reliability not_persistent = refl

set_uuid-uuid_string :
    (lib : Library) (m : Message) (u : ℕ)
    → u < 2 ^ 128
    → set_uuid lib m (some (raw_string (lib.uuid_string u))) ≡ loaded (record m { uuid = u })
unfolding set_uuid
set_uuid-uuid_string lib m u h = rw (set_uuid, lib.parse_uuid-uuid_string u h) refl

module _ (poco : Poco) (lib : Library) where
  -- The five members of the object of a message.
  record Members (o : poco.Object) (m : Message) : Type 0 where
    pub number : poco.get o (codes "number") ≡ some (poco.var_of (raw_long m.number))
    pub uuid : poco.get o (codes "uuid") ≡ some (poco.var_of (raw_string (lib.uuid_string m.uuid)))
    pub reliability :
        poco.get o (codes "reliability")
        ≡ some (poco.var_of (raw_string (reliability_name m.reliability)))
    pub info :
        poco.get o (codes "persistentInfo")
        ≡ some (poco.of_object (persistent_json poco m.persistent_info))
    pub properties :
        poco.get o (codes "properties") ≡ some (poco.of_object (to_json poco m.properties))

  properties_to_json-Members : (m : Message) → Members (properties_to_json poco lib m) m
  unfolding properties_to_json bytes_eq
  properties_to_json-Members m =
      let a =
        poco.set poco.new_object (codes "properties")
          (poco.of_object (to_json poco m.properties)) in
      let b = poco.set a (codes "number") (poco.var_of (raw_long m.number)) in
      let c = poco.set b (codes "uuid") (poco.var_of (raw_string (lib.uuid_string m.uuid))) in
      let d =
        poco.set c (codes "reliability")
          (poco.var_of (raw_string (reliability_name m.reliability))) in
      let past_info : (k : Bytes)
          → bytes_eq (codes "persistentInfo") k ≡ false
          → poco.get
              (poco.set d (codes "persistentInfo")
                (poco.of_object (persistent_json poco m.persistent_info)))
              k
            ≡ poco.get d k =
        λ k h. get-set_other poco d (codes "persistentInfo") k _ h in
      record {
        number =
            past_info (codes "number") refl
            ∙ (get-set_other poco c (codes "reliability") (codes "number") _ refl
                ∙ (get-set_other poco b (codes "uuid") (codes "number") _ refl
                    ∙ get-set_same poco a (codes "number") _));
        uuid =
            past_info (codes "uuid") refl
            ∙ (get-set_other poco c (codes "reliability") (codes "uuid") _ refl
                ∙ get-set_same poco b (codes "uuid") _);
        reliability =
            past_info (codes "reliability") refl ∙ get-set_same poco c (codes "reliability") _;
        info = get-set_same poco d (codes "persistentInfo") _;
        properties =
            past_info (codes "properties") refl
            ∙ (get-set_other poco c (codes "reliability") (codes "properties") _ refl
                ∙ (get-set_other poco b (codes "uuid") (codes "properties") _ refl
                    ∙ (get-set_other poco a (codes "number") (codes "properties") _ refl
                        ∙ get-set_same poco poco.new_object (codes "properties") _)));
      }

  -- The message of a legacy record, where its properties load to `rs`.
  abbrev pub reloaded : Message → Message → Properties → Message
  reloaded s m rs = record s {
    number = m.number;
    uuid = m.uuid;
    reliability = m.reliability;
    persistent_info = m.persistent_info;
    properties = rs;
  }

  set_from_object-Members :
      (s m : Message) (o : poco.Object) (rs : Properties)
      → Members o m
      → m.uuid < 2 ^ 128
      → from_json poco s.properties (poco.reread_object (to_json poco m.properties)) ≡ read rs
      → set_from_object poco lib s (poco.reread_object o) ≡ loaded (reloaded s m rs)
  unfolding set_from_object convert_member raw_type set_number set_reliability set_properties
      took_properties
  set_from_object-Members s m o rs h u f =
      rw
        (
          poco.get-reread_object o (codes "number"),
          h.number,
          poco.convert-reread (raw_long m.number) refl,
          string_member poco o (codes "uuid") (lib.uuid_string m.uuid) h.uuid,
          set_uuid-uuid_string lib _ m.uuid u,
          string_member poco o (codes "reliability") (reliability_name m.reliability) h.reliability,
          named_reliability m.reliability,
          object_member poco o (persistent_json poco m.persistent_info) (codes "persistentInfo")
              h.info,
          set_persistent_info-persistent_json poco m.persistent_info
              (record s { number = m.number; uuid = m.uuid; reliability = m.reliability }),
          object_member poco o (to_json poco m.properties) (codes "properties") h.properties,
          f,
        )
        refl

  -- [8-byte size][text][data], the records that fromBytes takes for ones without a magic byte.
  abbrev pub legacy_record : Message → Bytes
  legacy_record m =
      le_bytes 8 (length (properties_as_bytes poco lib m))
      ++ (properties_as_bytes poco lib m ++ m.body)

  set_properties_from_bytes_filled :
      (m : Message) (bs : Bytes)
      → bs ≢ []
      → set_properties_from_bytes poco lib m bs
        ≡ set_parsed poco lib (record m { properties = [] }) (poco.parse bs)
  unfolding set_properties_from_bytes
  set_properties_from_bytes_filled m [] h = absurd (h refl)
  set_properties_from_bytes_filled m (b ∷ bs) h = refl

  -- The three parts of a record whose first eight bytes are the size of the second.
  from_legacy_parts :
      (s : Message) (text body : Bytes)
      → text ≢ []
      → length text < 2 ^ 63
      → lib.allocates (length text) ≡ true
      → from_legacy poco lib s (le_bytes 8 (length text) ++ (text ++ body))
        ≡ and_then
            (set_properties_from_bytes poco lib s text)
            (λ m. set_body (set_data poco) m body)
  unfolding from_legacy
  from_legacy_parts s text body f short a =
      let n = length text in
      let record_ = le_bytes 8 n ++ (text ++ body) in
      let size : of_le (take 8 record_) ≡ n =
        ap of_le (take-append 8 (le_bytes 8 n) (text ++ body) (length-le_bytes 8 n))
        ∙ of_le-le_bytes 8 n (omega arith) in
      let all : length record_ ≡ 8 + (n + length body) = omega (
        arith,
        length-append (le_bytes 8 n) (text ++ body),
        length-le_bytes 8 n,
        length-append text body,
      ) in
      let behind : drop (8 + n) record_ ≡ body =
        ap (drop (8 + n)) (sym (append_assoc (le_bytes 8 n) text body))
        ∙ drop-append (8 + n) (le_bytes 8 n ++ text) body
            (omega (arith, length-append (le_bytes 8 n) text, length-le_bytes 8 n)) in
      rw
        (
          size,
          le→not_ltb (length record_) 8 (omega arith),
          a,
          behind,
          lt→ltb 0 n (length_filled text f),
          le→leb (8 + n) (length record_) (omega arith),
          drop-append 8 (le_bytes 8 n) (text ++ body) (length-le_bytes 8 n),
          take-append n text body refl,
        )
        refl

  properties_as_bytes_filled :
      (m : Message)
      → m.properties ≢ []
      → properties_as_bytes poco lib m ≡ poco.stringify (properties_to_json poco lib m)
  unfolding properties_as_bytes
  properties_as_bytes_filled m n =
      elim (m.properties)
          as (λ ps.
            ps ≢ []
            → (elim ps [ [] ↦ [] | q ∷ qs ↦ poco.stringify (properties_to_json poco lib m) ])
              ≡ poco.stringify (properties_to_json poco lib m)) [
                | [] ↦ λ h. absurd (h refl)
                | q ∷ qs ↦ λ h. refl
              ]
        n

  -- The text of a message, read into one that has none of it.
  set_properties_from_bytes-properties_as_bytes :
      (s m : Message) (rs : Properties)
      → m.properties ≢ []
      → poco.IsPrintable (properties_to_json poco lib m)
      → m.uuid < 2 ^ 128
      → from_json poco [] (poco.reread_object (to_json poco m.properties)) ≡ read rs
      → set_properties_from_bytes poco lib s (properties_as_bytes poco lib m)
        ≡ loaded (reloaded s m rs)
  unfolding set_parsed
  set_properties_from_bytes-properties_as_bytes s m rs n p u f =
      let o = properties_to_json poco lib m in
      rw
        (
          properties_as_bytes_filled m n,
          set_properties_from_bytes_filled s (poco.stringify o) (poco.stringify_filled o),
          poco.parse-stringify o p,
        )
        (set_from_object-Members (record s { properties = [] }) m o rs
          (properties_to_json-Members m) u f)

  -- A record that older versions wrote of a message with properties, [8-byte size][JSON of the
  -- message][data], where a vector of that size can be made, the size's lowest byte is neither 1 nor
  -- 2, the names are unique, no property is null or an empty byte array and the JSON prints: read by
  -- fromBytes into a message of the class of its body, which has no bytes if the data has none, it
  -- gives back number, uuid, reliability, the old paths, and what every name of a property stands
  -- for. The data is read back as the body of that class, where it is of a body that is stored
  -- without loss (for a map, unique names, no null and no empty byte array; for a stream, byte
  -- arrays of bytes; for both, JSON that prints; for an object, a class name shorter than 2 ^ 32
  -- bytes): the same text, bytes, object, or what the map's names stand for; a stream without its
  -- empty byte arrays.
  pub from_bytes-legacy_record :
      (s m : Message) (body : Body)
      → m.properties ≢ []
      → Unique m.properties
      → AllReadable m.properties
      → poco.IsPrintable (properties_to_json poco lib m)
      → m.uuid < 2 ^ 128
      → lib.allocates (length (properties_as_bytes poco lib m)) ≡ true
      → (length (properties_as_bytes poco lib m) % 256 == 1
          || length (properties_as_bytes poco lib m) % 256 == 2)
        ≡ false
      → type_of body ≡ s.kind
      → m.body ≡ data_as_bytes poco body
      → Storable poco body
      → (m.body ≡ [] → s.body ≡ [])
      → (rs : Properties) × (r : Body) × (from_bytes (json_codec poco lib) s (legacy_record m)
          ≡ loaded (record (reloaded s m rs) { body = data_as_bytes poco r }))
        × ((name : Bytes) → property rs name ≡ property m.properties name)
        × Restores poco body (read r)
  unfolding from_bytes le_bytes
  from_bytes-legacy_record s m body n u a p i al mg t b h e =
      let text = properties_as_bytes poco lib m in
      let (rs, f, k) = from_json-to_json poco m.properties u a in
      let printed = properties_as_bytes_filled m n in
      let filled : text ≢ [] =
        subst (λ t. t ≢ []) (sym printed) (poco.stringify_filled (properties_to_json poco lib m)) in
      let magic : (length text % 256 == 1 || length text % 256 == 2) ≡ false = mg in
      let (r, set, same) =
        set_body-data_as_bytes poco lib (reloaded s m rs) body t h (λ x. e (b ∙ x)) in
      (
        rs,
        r,
        rw magic (
            from_legacy_parts s text m.body filled
              (omega (arith, lib.allocates-lt (length text) al)) al
            ∙ rw (set_properties_from_bytes-properties_as_bytes s m rs n p i f)
                (ap (set_body (set_data poco) (reloaded s m rs)) b ∙ set)),
        k,
        same,
      )
