-- ===== src/Body/Tests.antt =====
-- The theorems on message bodies at concrete ones.
use tiny_mq.Prelude.{
  ◌+◌, ◌≤◌, ◌<◌, ◌≡◌, ◌≢◌, refl, none, some, [], ◌∷◌, ◌++◌, Bytes, take, drop, length,
}
use tiny_mq.Property.Sample.{poco_of}
use tiny_mq.Property.Tests.{colour, colour_json, colour_printed, colour-Unique, colour-AllReadable}
use tiny_mq.Body.{map_of, type_of, data_as_bytes, set_data_from_bytes}
use tiny_mq.Body.Restore.{Restores, set_data_from_bytes-data_as_bytes}
use tiny_mq.Body.ByteArray.Write.{write_bytes_lem}
use tiny_mq.Body.ByteArray.{write_bytes, zeros}

same_type : type_of (map_of []) ≡ type_of (map_of colour)
unfolding type_of
same_type = refl

set_data_from_bytes-data_as_bytes_example : Restores (poco_of colour_json) (map_of colour) (
    set_data_from_bytes
      (poco_of colour_json)
      (map_of [])
      (data_as_bytes (poco_of colour_json) (map_of colour)))
set_data_from_bytes-data_as_bytes_example =
    set_data_from_bytes-data_as_bytes (poco_of colour_json) (map_of colour) (map_of []) same_type
      (colour-Unique, colour-AllReadable, colour_printed)

abbrev three : Bytes
three = 1 ∷ 2 ∷ 3 ∷ []

abbrev two : Bytes
two = 9 ∷ 8 ∷ []

abbrev changed : Bytes
changed = 1 ∷ 9 ∷ 8 ∷ []

write_bytes_example :
    (three ≡ [] → write_bytes three two 2 ≡ some (zeros 2 ++ two))
    × (three ≢ []
        → 2 + length two ≤ length three
        → write_bytes three two 2
          ≡ some (take 2 three ++ (two ++ drop (length two) (drop 2 three))))
    × (three ≢ [] → length three < 2 + length two → write_bytes three two 2 ≡ none)
write_bytes_example = write_bytes_lem three two 2

within : write_bytes three two 1 ≡ some changed
unfolding write_bytes
within = refl
