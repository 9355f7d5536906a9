-- ===== src/Message/Wire/Json.antt =====
-- The wire format of Message.cpp with the JSON text that MessageProperty.cpp gives its properties.
use tiny_mq.Prelude.{◌<◌, ◌≡◌, ◌≢◌, refl, sym, ap, ◌∙◌, arith, [], ◌∷◌, Bytes, length}
use tiny_mq.Message.{Message, Properties, property}
use tiny_mq.Message.Wire.{Codec, loaded, to_bytes, from_bytes, set_body, got_body}
use tiny_mq.Message.Wire.RoundTrip.{Fits, JsonLoads, restored, from_bytes-to_bytes}
use tiny_mq.Message.Wire.Legacy.{Library, from_legacy}
use tiny_mq.Property.Poco.{Poco}
use tiny_mq.Body.{Body, type_of, data_as_bytes, set_data}
use tiny_mq.Body.Restore.{Storable, Restores, set_data-data_as_bytes}
use tiny_mq.Property.Json.{read, to_json, to_text, load_text}
use tiny_mq.Property.Json.Members.{Unique, AllReadable}
use tiny_mq.Property.Json.RoundTrip.{load_text-to_text}

abbrev pub json_codec : Poco → Library → Codec
json_codec poco lib = record {
  copy_to = lib.copy_to;
  copy_from = lib.copy_from;
  stringify = to_text poco;
  load_json = load_text poco;
  from_legacy = from_legacy poco lib;
  set_data = set_data poco;
  length-copy_to = lib.length-copy_to;
  copy_from-copy_to = lib.copy_from-copy_to;
}

pub length_filled : (bs : Bytes) → bs ≢ [] → 0 < length bs
length_filled [] h = absurd (h refl)
length_filled (b ∷ bs) h = omega arith

module _ (poco : Poco) (lib : Library) where
  json_loads :
      (ps : Properties)
      → Unique ps
      → AllReadable ps
      → (ps ≢ [] → poco.IsPrintable (to_json poco ps))
      → (rs : Properties) × JsonLoads (json_codec poco lib) ps rs
        × ((name : Bytes) → property rs name ≡ property ps name)
  unfolding to_text
  json_loads [] u a p = ([], refl, λ name. refl)
  json_loads (kv ∷ ps) u a p =
      let (rs, l, k) = load_text-to_text poco (kv ∷ ps) u a (p (λ x. cc)) in
      let filled = poco.stringify_filled (to_json poco (kv ∷ ps)) in
      (rs, (length_filled (poco.stringify (to_json poco (kv ∷ ps))) filled, l), k)

  -- A record's body, set into a message of its class: where the bytes are none, the message's body
  -- is expected to have none.
  pub set_body-data_as_bytes :
      (s : Message) (b : Body)
      → type_of b ≡ s.kind
      → Storable poco b
      → (data_as_bytes poco b ≡ [] → s.body ≡ [])
      → (r : Body) × (set_body (set_data poco) s (data_as_bytes poco b)
          ≡ loaded (record s { body = data_as_bytes poco r }))
        × Restores poco b (read r)
  unfolding set_body
  set_body-data_as_bytes s b t h n =
      let (r, e, none_left, k) = set_data-data_as_bytes poco b h in
      (
        r,
        set_bytes s (data_as_bytes poco b) (data_as_bytes poco r)
            (ap (λ t. set_data poco t (data_as_bytes poco b)) (sym t) ∙ e) none_left n,
        k,
      )
    where
      set_bytes :
          (s : Message) (bs rs : Bytes)
          → set_data poco s.kind bs ≡ read rs
          → (bs ≡ [] → rs ≡ [])
          → (bs ≡ [] → s.body ≡ [])
          → set_body (set_data poco) s bs ≡ loaded (record s { body = rs })
      set_bytes s [] rs e f n =
          let left = f refl in
          let right = n refl in
          rw (set_body, left) (ap (λ (b : Bytes). loaded (record s { body = b })) right)
      set_bytes s (c ∷ bs) rs e f n = rw (set_body, e, got_body) refl

  -- A message that fits the wire's fields, whose properties have unique names and values that are
  -- not null and no empty byte array and print as JSON when there are any, is written by toBytes and
  -- read by fromBytes into a message of the same class with no properties, whose body has no bytes
  -- if the written one has none: number, uuid, reliability and headers are the same, and so is what
  -- every name of a property stands for. The body is read back as that of the class, where it is one
  -- that is stored without loss (for a map, unique names, no null and no empty byte array; for a
  -- stream, byte arrays of bytes; for both, JSON that prints; for an object, a class name shorter
  -- than 2 ^ 32 bytes): the same text, bytes, object, or what the map's names stand for; a stream
  -- without its empty byte arrays.
  pub from_bytes-to_bytes_json :
      (s m : Message) (body : Body)
      → Fits (json_codec poco lib) m
      → Unique m.properties
      → AllReadable m.properties
      → (m.properties ≢ [] → poco.IsPrintable (to_json poco m.properties))
      → s.properties ≡ []
      → type_of body ≡ s.kind
      → m.body ≡ data_as_bytes poco body
      → Storable poco body
      → (m.body ≡ [] → s.body ≡ [])
      → (rs : Properties) × (r : Body) × (from_bytes
            (json_codec poco lib)
            s
            (to_bytes (json_codec poco lib) m)
          ≡ loaded (record (restored (json_codec poco lib) s m rs) { body = data_as_bytes poco r }))
        × ((name : Bytes) → property rs name ≡ property m.properties name)
        × Restores poco body (read r)
  from_bytes-to_bytes_json s m body f u a p e t b h n =
      let (rs, j, k) = json_loads m.properties u a p in
      let s' = restored (json_codec poco lib) s m rs in
      let (r, set, same) = set_body-data_as_bytes s' body t h (λ x. n (b ∙ x)) in
      (
        rs,
        r,
        from_bytes-to_bytes (json_codec poco lib) s m rs f j e
            ∙ (ap (set_body (set_data poco) s') b ∙ set),
        k,
        same,
      )
