-- ===== src/Message/Wire/Legacy/Members.antt =====
-- The members of the JSON object of a message, as setPropertiesFromBytes of Message.cpp reads them.
use tiny_mq.Prelude.{◌≡◌, refl, ◌∙◌, false, some, Bytes, bytes_eq, bytes_eq_refl}
use tiny_mq.Selector.Tokenizer.{codes}
use tiny_mq.Message.{Message, Paths, PersistentInfo}
use tiny_mq.Message.Wire.{loaded}
use tiny_mq.Message.Wire.Legacy.{
  set_string, set_payload, set_sent, set_transaction, set_data_path, set_properties_path, set_paths,
  set_persistent_info, paths_json, persistent_json,
}
use tiny_mq.Property.{raw_string, string_type, raw_type}
use tiny_mq.Property.Poco.{Poco}
use tiny_mq.Property.Json.{convert_member, member_object}

module _ (poco : Poco) where
  pub string_member :
      (o : poco.Object) (k s : Bytes)
      → poco.get o k ≡ some (poco.var_of (raw_string s))
      → convert_member poco string_type (poco.get (poco.reread_object o) k) ≡ some (raw_string s)
  unfolding convert_member raw_type
  string_member o k s h =
      rw (poco.get-reread_object o k, h) (poco.convert-reread (raw_string s) refl)

  pub object_member :
      (o e : poco.Object) (k : Bytes)
      → poco.get o k ≡ some (poco.of_object e)
      → member_object poco (poco.get (poco.reread_object o) k) ≡ some (poco.reread_object e)
  unfolding member_object
  object_member o e k h = rw (poco.get-reread_object o k, h) (poco.as_object-reread e)

  -- A member under one key, through the other keys that were set after it.
  pub get-set_same :
      (o : poco.Object) (k : Bytes) (v : poco.Var) → poco.get (poco.set o k v) k ≡ some v
  get-set_same o k v = poco.get-set o k v k ∙ rw (bytes_eq_refl k) refl

  pub get-set_other :
      (o : poco.Object) (k m : Bytes) (v : poco.Var)
      → bytes_eq k m ≡ false
      → poco.get (poco.set o k v) m ≡ poco.get o m
  get-set_other o k m v h = poco.get-set o k v m ∙ rw h refl

  set_paths-paths_json :
      (assign : (Paths → Bytes → Paths) → Message → Bytes → Message) (p : Paths) (m : Message)
      → set_paths poco assign (some (poco.reread_object (paths_json poco p))) m
        ≡ loaded (assign set_properties_path (assign set_data_path m p.data_path) p.properties_path)
  unfolding set_paths paths_json set_string bytes_eq
  set_paths-paths_json assign p m =
      let inner =
        poco.set poco.new_object (codes "dataPath") (poco.var_of (raw_string p.data_path)) in
      let o =
        poco.set inner (codes "propertiesPath") (poco.var_of (raw_string p.properties_path)) in
      rw
        (
          string_member o (codes "dataPath") p.data_path (
              get-set_other inner (codes "propertiesPath") (codes "dataPath") _ refl
              ∙ get-set_same poco.new_object (codes "dataPath") _),
          string_member o (codes "propertiesPath") p.properties_path
              (get-set_same inner (codes "propertiesPath") _),
        )
        refl

  pub set_persistent_info-persistent_json :
      (i : PersistentInfo) (m : Message)
      → set_persistent_info poco (some (poco.reread_object (persistent_json poco i))) m
        ≡ loaded (record m { persistent_info = i })
  unfolding set_persistent_info persistent_json bytes_eq
  set_persistent_info-persistent_json i m =
      let a =
        poco.set poco.new_object (codes "transaction")
          (poco.of_object (paths_json poco i.transaction)) in
      let b = poco.set a (codes "payload") (poco.of_object (paths_json poco i.payload)) in
      let o = poco.set b (codes "sent") (poco.of_object (paths_json poco i.sent)) in
      rw
        (
          object_member o (paths_json poco i.payload) (codes "payload") (
              get-set_other b (codes "sent") (codes "payload") _ refl
              ∙ get-set_same a (codes "payload") _),
          set_paths-paths_json set_payload i.payload m,
          object_member o (paths_json poco i.sent) (codes "sent") (get-set_same b (codes "sent") _),
          set_paths-paths_json set_sent i.sent _,
          object_member o (paths_json poco i.transaction) (codes "transaction") (
              get-set_other b (codes "sent") (codes "transaction") _ refl
              ∙ (get-set_other a (codes "payload") (codes "transaction") _ refl
                  ∙ get-set_same poco.new_object (codes "transaction") _)),
          set_paths-paths_json set_transaction i.transaction _,
        )
        refl
