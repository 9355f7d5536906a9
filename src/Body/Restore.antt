-- ===== src/Body/Restore.antt =====
-- dataAsBytes and setDataFromBytes of the five message classes, one after the other.
use tiny_mq.Prelude.{
  ℕ, ◌^◌, ◌%◌, ◌≤◌, ◌<◌, ◌≡◌, ◌≢◌, refl, sym, ap, ◌∙◌, arith, true, Option, none, some, List, [],
  ◌∷◌, ◌++◌, Bytes, length, take, drop, le_bytes, of_le, of_le-le_bytes, length-le_bytes,
  length-append, take-append, drop-append, length-take, length-drop, Bool-cases, inl, inr, zero,
  suc, ◌+◌, ltb,
}
use native.Mathlib.Nat.{mod-eq_of_lt}
use tiny_mq.Message.{
  Properties, property, MessageType, undefined, text_message, stream_message, bytes_message,
  map_message, object_message,
}
use tiny_mq.Property.Poco.{Poco}
use tiny_mq.Property.Json
use tiny_mq.Property.Json.{Reading, read, threw}
use tiny_mq.Property.Json.Members.{Unique, AllReadable}
use tiny_mq.Property.Json.RoundTrip.{load_text-to_text as load_map_text}
use tiny_mq.Property.Stream
use tiny_mq.Property.Stream.{PropertiesStream}
use tiny_mq.Property.Stream.RoundTrip.{
  ArraysAreBytes, without_empty, load_stream_text-stream_text as load_stream,
}
use tiny_mq.Message.Wire.Layout.{take-le_bytes, drop-le_bytes, take_all}
use tiny_mq.Body.{
  Body, text, bytes, object, map_of, stream, type_of, object_bytes, set_object_bytes, map_bytes,
  data_as_bytes, set_map_bytes, set_stream_bytes, set_data_from_bytes, wrap, new_body, set_data,
  reset_body,
}
use tiny_mq.Property.{RawValue}

set_object_bytes-object_bytes :
    (body name : Bytes)
    → length name < 2 ^ 32
    → set_object_bytes (object_bytes body name) ≡ object body name
unfolding set_object_bytes object_bytes
set_object_bytes-object_bytes body name h =
    rw
      (
        mod-eq_of_lt h,
        take_all name,
        take-le_bytes,
        drop-le_bytes,
        of_le-le_bytes 4 (length name) h,
      )
      (ground (
        arith,
        length-append (le_bytes 4 (length name)) (name ++ body),
        length-le_bytes 4 (length name),
        length-append name body,
        take-append (length name) name body refl,
        drop-append (length name) name body refl,
      ))

-- What is set does not depend on what the body held, only on its class.
set_by_type : Poco → MessageType → Bytes → Reading Body
set_by_type poco undefined bs = threw (text [])
set_by_type poco text_message bs = set_data_from_bytes poco (text []) bs
set_by_type poco bytes_message bs = set_data_from_bytes poco (bytes []) bs
set_by_type poco object_message bs = set_data_from_bytes poco (object [] []) bs
set_by_type poco map_message bs = set_data_from_bytes poco (map_of []) bs
set_by_type poco stream_message bs = set_data_from_bytes poco (stream Stream.new_stream) bs

set_by_type-type_of :
    (poco : Poco) (q : Body) (bs : Bytes)
    → set_data_from_bytes poco q bs ≡ set_by_type poco (type_of q) bs
unfolding set_by_type set_data_from_bytes type_of set_stream_bytes Stream.clear
set_by_type-type_of poco (text s) bs = refl
set_by_type-type_of poco (bytes d) bs = refl
set_by_type-type_of poco (object d n) bs = refl
set_by_type-type_of poco (map_of ps) bs = refl
set_by_type-type_of poco (stream s) [] = refl
set_by_type-type_of poco (stream s) (b ∷ bs) = refl

module _ (poco : Poco) where
  -- The bodies that are stored without loss of a value: a class name shorter than 2 ^ 32 bytes,
  -- properties that are not null, byte arrays of bytes, JSON text where the text is printed, and
  -- in a map no empty byte array.
  abbrev pub Storable : Body → Type 0
  Storable (text s) = Unit
  Storable (bytes bs) = Unit
  Storable (object bs name) = length name < 2 ^ 32
  Storable (map_of ps) = Unique ps × AllReadable ps × (poco.IsPrintable (Json.to_json poco ps))
  Storable (stream s) = ArraysAreBytes s.values × (poco.IsPrintable (Stream.to_json poco s))

  -- The same body, as far as the accessors of its class tell; a stream has lost its empty byte
  -- arrays and stands at its end.
  abbrev pub Restores : Body → Reading Body → Type 0
  Restores (text s) r = r ≡ read (text s)
  Restores (bytes bs) r = r ≡ read (bytes bs)
  Restores (object bs name) r = r ≡ read (object bs name)
  Restores (map_of ps) r =
      (rs : Properties) × (r ≡ read (map_of rs)) × ((m : Bytes) → property rs m ≡ property ps m)
  Restores (stream s) r =
      r ≡ read (stream (record { values = without_empty s.values; offset = none }))

  set_map_bytes_filled : (bs : Bytes) → bs ≢ [] → set_map_bytes poco bs ≡ Json.load_text poco [] bs
  unfolding set_map_bytes
  set_map_bytes_filled [] h = absurd (h refl)
  set_map_bytes_filled (b ∷ bs) h = refl

  set_stream_bytes_filled :
      (s : PropertiesStream) (bs : Bytes)
      → bs ≢ []
      → set_stream_bytes poco s bs ≡ Stream.load_stream_text poco (Stream.clear s) bs
  unfolding set_stream_bytes
  set_stream_bytes_filled s [] h = absurd (h refl)
  set_stream_bytes_filled s (b ∷ bs) h = refl

  set_map_bytes-map_bytes :
      (ps : Properties)
      → Unique ps
      → AllReadable ps
      → poco.IsPrintable (Json.to_json poco ps)
      → (rs : Properties) × (set_map_bytes poco (map_bytes poco ps) ≡ read rs)
        × ((m : Bytes) → property rs m ≡ property ps m)
  unfolding set_map_bytes Json.to_text
  set_map_bytes-map_bytes [] u a p = ([], refl, λ m. refl)
  set_map_bytes-map_bytes (kv ∷ ps) u a p =
      let (rs, l, k) = load_map_text poco (kv ∷ ps) u a p in
      (
        rs,
        set_map_bytes_filled (Json.to_text poco (kv ∷ ps))
              (poco.stringify_filled (Json.to_json poco (kv ∷ ps)))
            ∙ l,
        k,
      )

  set_stream_bytes-to_text :
      (vs : List RawValue) (o : Option ℕ)
      → ArraysAreBytes vs
      → poco.IsPrintable (Stream.to_json poco (record { values = vs; offset = o }))
      → set_data_from_bytes poco
          (stream Stream.new_stream)
          (data_as_bytes poco (stream (record { values = vs; offset = o })))
        ≡ read (stream (record { values = without_empty vs; offset = none }))
  unfolding set_data_from_bytes data_as_bytes set_stream_bytes Stream.empty Stream.clear
      Stream.new_stream without_empty Stream.stream_text
  set_stream_bytes-to_text [] o a p = refl
  set_stream_bytes-to_text (v ∷ vs) o a p =
      let s : PropertiesStream = record { values = v ∷ vs; offset = o } in
      ap (wrap stream) (
        set_stream_bytes_filled Stream.new_stream (Stream.stream_text poco s)
          (poco.stringify_filled (Stream.to_json poco s))
        ∙ load_stream poco s Stream.new_stream a p)

  -- The bytes of a body, set into any body of the same class, give that body back: a text, the bytes,
  -- an object and its class name where that is shorter than 2 ^ 32 bytes; what every name of a map
  -- stands for, where names are unique, no property is null or an empty byte array and the map
  -- prints as JSON; and the values of a stream but its empty byte arrays, with the stream at its
  -- end, where its arrays are of bytes and it prints as JSON.
  pub set_data_from_bytes-data_as_bytes :
      (b q : Body)
      → type_of q ≡ type_of b
      → Storable b
      → Restores b (set_data_from_bytes poco q (data_as_bytes poco b))
  unfolding set_by_type type_of set_data_from_bytes data_as_bytes
  set_data_from_bytes-data_as_bytes b q e h =
      rw (set_by_type-type_of poco q (data_as_bytes poco b), e) (restore b h)
    where
      restore :
          (c : Body) → Storable c → Restores c (set_by_type poco (type_of c) (data_as_bytes poco c))
      restore (text s) i = refl
      restore (bytes bs) i = refl
      restore (object bs name) i = ap read (set_object_bytes-object_bytes bs name i)
      restore (map_of ps) (u, a, p) =
          let (rs, l, k) = set_map_bytes-map_bytes ps u a p in (rs, ap (wrap map_of) l, k)
      restore (stream s) (a, p) = set_stream_bytes-to_text s.values s.offset a p

  -- A body that is restored was read.
  read_of :
      (b : Body) (x : Reading Body) → Restores b x → (r : Body) × (x ≡ read r) × Restores b (read r)
  read_of (text s) x e = (text s, e, refl)
  read_of (bytes bs) x e = (bytes bs, e, refl)
  read_of (object bs name) x e = (object bs name, e, refl)
  read_of (map_of ps) x (rs, e, k) = (map_of rs, e, (rs, refl, k))
  read_of (stream s) x e = (_, e, refl)

  empty_again :
      (b q : Body)
      → type_of q ≡ type_of b
      → data_as_bytes poco b ≡ []
      → wrap (data_as_bytes poco) (set_data_from_bytes poco q []) ≡ read []
  unfolding type_of data_as_bytes set_data_from_bytes set_map_bytes set_stream_bytes object_bytes
      Stream.empty Stream.clear
  empty_again b (text s) t e = refl
  empty_again b (bytes bs) t e = refl
  empty_again (object bs name) (object d n) t e = absurd (
      omega (
        arith,
        ap length e,
        length-append (le_bytes 4 (length name)) (take (length name % 2 ^ 32) name ++ bs),
        length-le_bytes 4 (length name),
      ))
  empty_again (text s) (object d n) t e = cc
  empty_again (bytes s) (object d n) t e = cc
  empty_again (map_of s) (object d n) t e = cc
  empty_again (stream s) (object d n) t e = cc
  empty_again b (map_of ps) t e = refl
  empty_again b (stream s) t e = refl

  class_of : (b : Body) → (q : Body) × (new_body (type_of b) ≡ some q) × (type_of q ≡ type_of b)
  unfolding new_body type_of
  class_of (text s) = (_, refl, refl)
  class_of (bytes bs) = (_, refl, refl)
  class_of (object bs name) = (_, refl, refl)
  class_of (map_of ps) = (_, refl, refl)
  class_of (stream s) = (_, refl, refl)

  same_read : (x y : Bytes) → ◌≡◌ {A = Reading Bytes} (read x) (read y) → x ≡ y
  same_read x y e = cc

  -- The same by the class, with the body kept as its bytes: also no bytes stay no bytes.
  pub set_data-data_as_bytes :
      (b : Body)
      → Storable b
      → (r : Body) × (set_data poco (type_of b) (data_as_bytes poco b)
          ≡ read (data_as_bytes poco r))
        × (data_as_bytes poco b ≡ [] → data_as_bytes poco r ≡ [])
        × Restores b (read r)
  unfolding set_data
  set_data-data_as_bytes b h =
      let (q, f, t) = class_of b in
      let bs = data_as_bytes poco b in
      let (r, e, k) =
        read_of b (set_data_from_bytes poco q bs) (set_data_from_bytes-data_as_bytes b q t h) in
      let whole : wrap (data_as_bytes poco) (set_data_from_bytes poco q bs)
          ≡ read (data_as_bytes poco r) =
        ap (wrap (data_as_bytes poco)) e in
      (
        r,
        ap (λ o. reset_body poco o bs) f ∙ whole,
        (λ n. same_read (data_as_bytes poco r) [] (
            sym whole
            ∙ (ap (λ xs. wrap (data_as_bytes poco) (set_data_from_bytes poco q xs)) n
                ∙ empty_again b q t n))),
        k,
      )

take-take : (n k : ℕ) (xs : Bytes) → n ≤ k → take n (take k xs) ≡ take n xs
take-take zero k xs h = refl
take-take (suc n) zero xs h = absurd (omega arith)
take-take (suc n) (suc k) [] h = refl
take-take (suc n) (suc k) (x ∷ xs) h = ap (◌∷◌ x) (take-take n k xs (omega arith))

-- The bytes of an object message, cut anywhere before the end of the class name, give an empty body
-- and an empty class name.
pub set_object_bytes-take :
    (body name : Bytes) (k : ℕ)
    → length name < 2 ^ 32
    → k < 4 + length name
    → set_object_bytes (take k (object_bytes body name)) ≡ object [] []
unfolding set_object_bytes object_bytes
set_object_bytes-take body name k h short =
    let all = object_bytes body name in
    elim (Bool-cases (ltb (length (take k all)) 4)) [
      | inl e ↦ rw e refl
      | inr e ↦
          let far : 4 ≤ k = ground (arith, length-take k all) in
          let said : of_le (take 4 (take k all)) ≡ length name =
            ap of_le (take-take 4 k all far)
            ∙ rw (take-le_bytes) (of_le-le_bytes 4 (length name) h) in
          let cut : ltb (length (drop 4 (take k all))) (length name) ≡ true =
            ground (arith, length-drop 4 (take k all), length-take k all) in
          rw (e, said, cut) refl
    ]
