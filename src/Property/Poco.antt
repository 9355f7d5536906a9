-- ===== src/Property/Poco.antt =====
-- What MessageProperty.cpp and the message bodies use of Poco::JSON and Poco::Dynamic, as an
-- interface with its laws. Poco is a third-party library and not part of the repository.
use tiny_mq.Prelude.{
  ◌≡◌, ◌≢◌, false, Option, none, some, List, [], Bytes, bytes_eq, if◌then◌else◌, map,
}
use tiny_mq.Property.{ValueType, RawValue, raw_byte, raw_byte_array, raw_type, map_option}
use tiny_mq.Property.Names.{listed, is_some, is_array, int8}

-- `var_of r` is the Var that holds r, `reread v` what the parser makes of the text that stringify
-- writes for v, and `reread_object` the same of an object. `IsPrintable` holds of the objects whose
-- text is JSON (strings in UTF-8, no infinity and no NaN). `convert t` is Var::convert to the raw
-- type t, `none` where it throws; as_object and as_array are getObject and getArray, `none` where
-- they return a null pointer.
pub record Poco : Type 1 where
  pub Object : Type 0
  pub Var : Type 0
  pub new_object : Object
  pub set : Object → Bytes → Var → Object
  pub get : Object → Bytes → Option Var
  pub names : Object → List Bytes
  pub null_var : Var
  pub var_of : RawValue → Var
  pub of_object : Object → Var
  pub of_array : List Var → Var
  pub as_object : Var → Option Object
  pub as_array : Var → Option (List Var)
  pub convert : ValueType → Var → Option RawValue
  pub stringify : Object → Bytes
  pub parse : Bytes → Option Object
  pub IsPrintable : Object → Type 0
  pub reread : Var → Var
  pub reread_object : Object → Object
  pub get-new_object : (m : Bytes) → get new_object m ≡ none
  pub get-set :
      (o : Object) (n : Bytes) (v : Var) (m : Bytes)
      → get (set o n v) m ≡ (if bytes_eq n m then some v else get o m)
  pub listed-names : (o : Object) (m : Bytes) → listed m (names o) ≡ is_some (get o m)
  pub stringify_filled : (o : Object) → stringify o ≢ []
  pub parse-stringify : (o : Object) → IsPrintable o → parse (stringify o) ≡ some (reread_object o)
  pub get-reread_object :
      (o : Object) (m : Bytes) → get (reread_object o) m ≡ map_option reread (get o m)
  pub as_object-reread : (o : Object) → as_object (reread (of_object o)) ≡ some (reread_object o)
  pub as_array-reread : (vs : List Var) → as_array (reread (of_array vs)) ≡ some (map reread vs)
  pub as_array_bytes :
      (bs : Bytes)
      → as_array (reread (var_of (raw_byte_array bs)))
        ≡ some (map (λ b. reread (var_of (raw_byte (int8 b)))) bs)
  pub convert-reread :
      (r : RawValue) → is_array r ≡ false → convert (raw_type r) (reread (var_of r)) ≡ some r
  pub convert_null : (t : ValueType) → convert t (reread null_var) ≡ none
  pub as_array_null : as_array (reread null_var) ≡ none
  pub raw_type-convert :
      (t : ValueType) (v : Var) (r : RawValue) → convert t v ≡ some r → raw_type r ≡ t
