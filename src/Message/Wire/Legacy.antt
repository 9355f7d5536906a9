-- ===== src/Message/Wire/Legacy.antt =====
-- Message.cpp: setPropertiesFromBytes, propertiesToJSON, propertiesAsBytes and the legacy branch of
-- fromBytes, [8-byte properties size][JSON of the message][data]. A null pointer that is used is
-- Poco's NullPointerException.
pub mod Members
pub mod Load
mod Tests
use tiny_mq.Prelude.{
  ℕ, ◌+◌, ◌^◌, ◌<◌, ◌≡◌, Bool, true, false, ◌&&◌, Option, none, some, [], ◌∷◌, Bytes, bytes_eq, ltb,
  leb, if◌then◌else◌, length, take, drop, replicate, of_le,
}
use tiny_mq.Selector.Tokenizer.{codes}
use tiny_mq.Message.{
  Message, Paths, PersistentInfo, Reliability, persistent, not_persistent, Properties,
}
use tiny_mq.Message.Wire.{Loaded, loaded, thrown, set_body}
use tiny_mq.Property.{RawValue, raw_long, raw_string, long_type, string_type}
use tiny_mq.Property.Poco.{Poco}
use tiny_mq.Body.{set_data}
use tiny_mq.Property.Json.{Reading, read, threw, to_json, from_json, convert_member, member_object}

-- Poco::UUID as text and as 16 bytes, and which sizes a std::vector can be made of; `parse_uuid` is
-- `none` where parse throws.
pub record Library : Type 0 where
  pub copy_to : ℕ → Bytes
  pub copy_from : Bytes → ℕ
  pub uuid_string : ℕ → Bytes
  pub parse_uuid : Bytes → Option ℕ
  pub allocates : ℕ → Bool
  pub length-copy_to : (u : ℕ) → length (copy_to u) ≡ 16
  pub copy_from-copy_to : (u : ℕ) → u < 2 ^ 128 → copy_from (copy_to u) ≡ u
  pub parse_uuid-uuid_string : (u : ℕ) → u < 2 ^ 128 → parse_uuid (uuid_string u) ≡ some u
  pub allocates-lt : (n : ℕ) → allocates n ≡ true → n < 2 ^ 63

abbrev pub and_then : Loaded → (Message → Loaded) → Loaded
and_then (loaded m) k = k m
and_then (thrown m) k = thrown m

abbrev pub reliability_name : Reliability → Bytes
reliability_name not_persistent = codes "NOT_PERSISTENT"
reliability_name persistent = codes "PERSISTENT"

unfoldable pub set_number : Message → Option RawValue → Loaded
set_number m (some (raw_long z)) = loaded (record m { number = z })
set_number m _ = thrown m

unfoldable pub set_reliability : Message → Option RawValue → Loaded
set_reliability m (some (raw_string s)) = loaded (record m {
  reliability = if bytes_eq s (codes "PERSISTENT") then persistent else not_persistent;
})
set_reliability m _ = thrown m

-- What is assigned of one string member.
unfoldable pub set_string : (Message → Bytes → Message) → Message → Option RawValue → Loaded
set_string assign m (some (raw_string s)) = loaded (assign m s)
set_string assign m _ = thrown m

abbrev pub set_payload : (Paths → Bytes → Paths) → Message → Bytes → Message
set_payload f m s = record m {
  persistent_info = record (m.persistent_info) { payload = f m.persistent_info.payload s };
}

abbrev pub set_sent : (Paths → Bytes → Paths) → Message → Bytes → Message
set_sent f m s = record m {
  persistent_info = record (m.persistent_info) { sent = f m.persistent_info.sent s };
}

abbrev pub set_transaction : (Paths → Bytes → Paths) → Message → Bytes → Message
set_transaction f m s = record m {
  persistent_info = record (m.persistent_info) { transaction = f m.persistent_info.transaction s };
}

abbrev pub set_data_path : Paths → Bytes → Paths
set_data_path p s = record p { data_path = s }

abbrev pub set_properties_path : Paths → Bytes → Paths
set_properties_path p s = record p { properties_path = s }

module _ (lib : Library) where
  unfoldable pub set_uuid : Message → Option RawValue → Loaded
  set_uuid m (some (raw_string s)) = elim (lib.parse_uuid s) [
    | none ↦ thrown m
    | some u ↦ loaded (record m { uuid = u })
  ]
  set_uuid m _ = thrown m

module _ (poco : Poco) where
  -- The two paths of one member of persistInfo; `assign` says which of the message's they are.
  unfoldable pub set_paths :
      ((Paths → Bytes → Paths) → Message → Bytes → Message) → Option poco.Object → Message → Loaded
  unfolding set_string
  set_paths assign none m = thrown m
  set_paths assign (some o) m =
      and_then
        (set_string (assign set_data_path) m
          (convert_member poco string_type (poco.get o (codes "dataPath"))))
        (λ m'.
          set_string (assign set_properties_path) m'
            (convert_member poco string_type (poco.get o (codes "propertiesPath"))))

  unfoldable pub set_persistent_info : Option poco.Object → Message → Loaded
  unfolding set_paths
  set_persistent_info none m = thrown m
  set_persistent_info (some info) m =
      and_then (set_paths set_payload (member_object poco (poco.get info (codes "payload"))) m)
        (λ m1.
          and_then (set_paths set_sent (member_object poco (poco.get info (codes "sent"))) m1)
            (λ m2.
              set_paths set_transaction (member_object poco (poco.get info (codes "transaction")))
                m2))

  unfoldable pub took_properties : Message → Reading Properties → Loaded
  took_properties m (read ps) = loaded (record m { properties = ps })
  took_properties m (threw ps) = thrown (record m { properties = ps })

  -- The test before it asks for the message's object and not for this one.
  unfoldable pub set_properties : Message → Option poco.Object → Loaded
  unfolding took_properties
  set_properties m none = thrown m
  set_properties m (some o) = took_properties m (from_json poco m.properties o)

  -- Both keys of the paths of one state.
  unfoldable pub paths_json : Paths → poco.Object
  paths_json p =
      poco.set (poco.set poco.new_object (codes "dataPath") (poco.var_of (raw_string p.data_path)))
        (codes "propertiesPath") (poco.var_of (raw_string p.properties_path))

  unfoldable pub persistent_json : PersistentInfo → poco.Object
  unfolding paths_json
  persistent_json i =
      let a =
        poco.set poco.new_object (codes "transaction")
          (poco.of_object (paths_json i.transaction)) in
      let b = poco.set a (codes "payload") (poco.of_object (paths_json i.payload)) in
      poco.set b (codes "sent") (poco.of_object (paths_json i.sent))

module _ (poco : Poco) (lib : Library) where
  unfoldable pub set_from_object : Message → poco.Object → Loaded
  unfolding set_number set_uuid set_reliability set_persistent_info set_properties
  set_from_object m o =
      and_then (set_number m (convert_member poco long_type (poco.get o (codes "number")))) (λ m1.
        and_then (set_uuid lib m1 (convert_member poco string_type (poco.get o (codes "uuid"))))
          (λ m2.
            and_then
              (set_reliability m2
                (convert_member poco string_type (poco.get o (codes "reliability"))))
              (λ m3.
                and_then
                  (set_persistent_info poco
                    (member_object poco (poco.get o (codes "persistentInfo"))) m3)
                  (λ m4.
                    set_properties poco m4
                      (member_object poco (poco.get o (codes "properties")))))))

  unfoldable pub set_parsed : Message → Option poco.Object → Loaded
  unfolding set_from_object
  set_parsed m none = thrown m
  set_parsed m (some o) = set_from_object m o

  unfoldable pub set_properties_from_bytes : Message → Bytes → Loaded
  unfolding set_parsed
  set_properties_from_bytes m [] = loaded (record m { properties = [] })
  set_properties_from_bytes m (b ∷ bs) =
      set_parsed (record m { properties = [] }) (poco.parse (b ∷ bs))

  -- The properties are zeros where the record is shorter than their size.
  unfoldable pub from_legacy : Message → Bytes → Loaded
  unfolding set_properties_from_bytes set_body set_data
  from_legacy m bs =
      let size = of_le (take 8 bs) in
      let props =
        if ltb 0 size && leb (8 + size) (length bs)
        then take size (drop 8 bs)
        else replicate size 0 in
      if ltb (length bs) 8
      then loaded m
      else if lib.allocates size
      then and_then (set_properties_from_bytes m props)
          (λ m'. set_body (set_data poco) m' (drop (8 + size) bs))
      else thrown m

  unfoldable pub properties_to_json : Message → poco.Object
  unfolding persistent_json
  properties_to_json m =
      let a =
        poco.set poco.new_object (codes "properties")
          (poco.of_object (to_json poco m.properties)) in
      let b = poco.set a (codes "number") (poco.var_of (raw_long m.number)) in
      let c = poco.set b (codes "uuid") (poco.var_of (raw_string (lib.uuid_string m.uuid))) in
      let d =
        poco.set c (codes "reliability")
          (poco.var_of (raw_string (reliability_name m.reliability))) in
      poco.set d (codes "persistentInfo") (poco.of_object (persistent_json poco m.persistent_info))

  unfoldable pub properties_as_bytes : Message → Bytes
  unfolding properties_to_json
  properties_as_bytes m = elim (m.properties) [
    | [] ↦ []
    | p ∷ ps ↦ poco.stringify (properties_to_json m)
  ]
