-- ===== src/Property/Sample.antt =====
-- A small object model that satisfies the laws of Poco, in which one given object can be printed.
use tiny_mq.Prelude.{
  ℕ, ◌≡◌, ◌≢◌, refl, sym, ap, ◌∙◌, arith, false, Option, none, some, List, [], ◌∷◌, Bytes, bytes_eq,
  bytes_eq_refl, bytes_eq→eq, map, if◌then◌else◌, Bool-cases, inl, inr,
}
use tiny_mq.Prelude.Maps.{some_injective, none_differs}
use tiny_mq.Property.{
  ValueType, RawValue, raw_byte, raw_byte_array, raw_boolean, raw_short, raw_integer, raw_long,
  raw_character, raw_floating, raw_double, raw_string, raw_type, value_type_name,
  value_type_from_string, value_type_from_string-value_type_name, map_option,
}
use tiny_mq.Property.Poco.{Poco}
use tiny_mq.Property.Names.{listed, is_some, is_array, int8}

mutual
  pub data Var : Type 0 where
    null : Var
    raw : RawValue → Var
    obj : Fields → Var
    arr : Items → Var

  pub data Items : Type 0 where
    nil : Items
    cons : Var → Items → Items

  pub data Fields : Type 0 where
    end : Fields
    field : Bytes → Var → Fields → Fields

abbrev pub items : List Var → Items
items [] = nil
items (v ∷ vs) = cons v (items vs)

abbrev pub list_of : Items → List Var
list_of nil = []
list_of (cons v vs) = v ∷ list_of vs

abbrev pub byte_items : Bytes → Items
byte_items [] = nil
byte_items (b ∷ bs) = cons (raw (raw_byte (int8 b))) (byte_items bs)

abbrev pub reread_raw : RawValue → Var
reread_raw (raw_byte_array bs) = arr (byte_items bs)
reread_raw (raw_boolean b) = raw (raw_boolean b)
reread_raw (raw_byte z) = raw (raw_byte z)
reread_raw (raw_short z) = raw (raw_short z)
reread_raw (raw_integer z) = raw (raw_integer z)
reread_raw (raw_long z) = raw (raw_long z)
reread_raw (raw_character z) = raw (raw_character z)
reread_raw (raw_floating z) = raw (raw_floating z)
reread_raw (raw_double z) = raw (raw_double z)
reread_raw (raw_string z) = raw (raw_string z)

unfoldable mutual
  pub reread : Var → Var
  reread null = null
  reread (raw r) = reread_raw r
  reread (obj o) = obj (reread_fields o)
  reread (arr vs) = arr (reread_items vs)

  pub reread_items : Items → Items
  reread_items nil = nil
  reread_items (cons v vs) = cons (reread v) (reread_items vs)

  pub reread_fields : Fields → Fields
  reread_fields end = end
  reread_fields (field k v o) = field k (reread v) (reread_fields o)

abbrev pub get : Fields → Bytes → Option Var
get end m = none
get (field k v o) m = if bytes_eq k m then some v else get o m

abbrev pub set : Fields → Bytes → Var → Fields
set end n v = field n v end
set (field k w o) n v = if bytes_eq k n then field k v o else field k w (set o n v)

abbrev pub names : Fields → List Bytes
names end = []
names (field k v o) = k ∷ names o

abbrev pub as_object : Var → Option Fields
as_object (obj o) = some o
as_object null = none
as_object (raw r) = none
as_object (arr vs) = none

abbrev pub as_array : Var → Option (List Var)
as_array (arr vs) = some (list_of vs)
as_array null = none
as_array (raw r) = none
as_array (obj o) = none

abbrev pub convert : ValueType → Var → Option RawValue
convert t (raw r) =
    if bytes_eq (value_type_name (raw_type r)) (value_type_name t) then some r else none
convert t null = none
convert t (obj o) = none
convert t (arr vs) = none

pub get-set :
    (o : Fields) (n : Bytes) (v : Var) (m : Bytes)
    → get (set o n v) m ≡ (if bytes_eq n m then some v else get o m)
get-set end n v m = refl
get-set (field k w o) n v m =
    ground
      (arith, get-set o n v m, bytes_eq→eq k n, bytes_eq→eq k m, bytes_eq→eq n m, bytes_eq_refl m)

pub listed-names : (o : Fields) (m : Bytes) → listed m (names o) ≡ is_some (get o m)
listed-names end m = refl
listed-names (field k v o) m = ground (arith, listed-names o m)

pub get-reread_fields :
    (o : Fields) (m : Bytes) → get (reread_fields o) m ≡ map_option reread (get o m)
unfolding reread
get-reread_fields end m = refl
get-reread_fields (field k v o) m = ground (arith, get-reread_fields o m)

pub list_of-reread_items : (vs : List Var) → list_of (reread_items (items vs)) ≡ map reread vs
unfolding reread
list_of-reread_items [] = refl
list_of-reread_items (v ∷ vs) = ap (◌∷◌ (reread v)) (list_of-reread_items vs)

pub list_of-byte_items :
    (bs : Bytes) → list_of (byte_items bs) ≡ map (λ b. reread (raw (raw_byte (int8 b)))) bs
unfolding reread
list_of-byte_items [] = refl
list_of-byte_items (b ∷ bs) = ap (◌∷◌ (raw (raw_byte (int8 b)))) (list_of-byte_items bs)

pub convert-reread :
    (r : RawValue) → is_array r ≡ false → convert (raw_type r) (reread (raw r)) ≡ some r
unfolding reread
convert-reread r h = ground (arith, bytes_eq_refl (value_type_name (raw_type r)))

pub raw_type-convert :
    (t : ValueType) (v : Var) (r : RawValue) → convert t v ≡ some r → raw_type r ≡ t
raw_type-convert t null r h = ground arith
raw_type-convert t (obj o) r h = ground arith
raw_type-convert t (arr vs) r h = ground arith
raw_type-convert t (raw q) r h =
    elim (Bool-cases (bytes_eq (value_type_name (raw_type q)) (value_type_name t))) [
      | inl e ↦
          let same : q ≡ r = some_injective (sym (rw e refl) ∙ h) in
          ap raw_type (sym same)
          ∙ (sym (value_type_from_string-value_type_name (raw_type q))
              ∙ (ap value_type_from_string (bytes_eq→eq _ _ e)
                  ∙ value_type_from_string-value_type_name t))
      | inr e ↦ absurd (none_differs {x = r} (sym (rw e refl) ∙ h))
    ]

pub filled : (b : ℕ) (bs : Bytes) → b ∷ bs ≢ []
filled b bs h = cc

pub as_object-reread : (o : Fields) → as_object (reread (obj o)) ≡ some (reread_fields o)
unfolding reread
as_object-reread o = refl

pub as_array-reread : (vs : List Var) → as_array (reread (arr (items vs))) ≡ some (map reread vs)
unfolding reread
as_array-reread vs = ap some (list_of-reread_items vs)

pub as_array_bytes :
    (bs : Bytes)
    → as_array (reread (raw (raw_byte_array bs)))
      ≡ some (map (λ b. reread (raw (raw_byte (int8 b)))) bs)
unfolding reread
as_array_bytes bs = ap some (list_of-byte_items bs)

pub convert_null : (t : ValueType) → convert t (reread null) ≡ none
unfolding reread
convert_null t = refl

pub as_array_null : as_array (reread null) ≡ none
unfolding reread
as_array_null = refl

-- Of the objects only `sample` is printed, as "cde".
abbrev pub poco_of : Fields → Poco
poco_of sample = record {
  Object = Fields;
  Var = Var;
  new_object = end;
  set = set;
  get = get;
  names = names;
  null_var = null;
  var_of = raw;
  of_object = obj;
  of_array = λ vs. arr (items vs);
  as_object = as_object;
  as_array = as_array;
  convert = convert;
  stringify = λ o. 99 ∷ 100 ∷ 101 ∷ [];
  parse = λ bs. some (reread_fields sample);
  IsPrintable = λ o. o ≡ sample;
  reread = reread;
  reread_object = reread_fields;
  get-new_object = λ m. refl;
  get-set = get-set;
  listed-names = listed-names;
  stringify_filled = λ o. filled 99 (100 ∷ 101 ∷ []);
  parse-stringify = λ o h. ap (λ x. some (reread_fields x)) (sym h);
  get-reread_object = get-reread_fields;
  as_object-reread = as_object-reread;
  as_array-reread = as_array-reread;
  as_array_bytes = as_array_bytes;
  convert-reread = convert-reread;
  convert_null = convert_null;
  as_array_null = as_array_null;
  raw_type-convert = raw_type-convert;
}
