-- ===== src/Message/Tests.antt =====
-- Properties of a message, set twice under one name.
use tiny_mq.Prelude.{◌≡◌, some, [], ◌∷◌, pos, Bytes, refl, bytes_eq}
use tiny_mq.Message.{Properties, PropertyValue, property, set_property}

abbrev name : Bytes
name = 114 ∷ []

abbrev once : Properties
once = set_property [] name (PropertyValue.integer (some (pos 1)))

first_value_stays :
    property (set_property once name (PropertyValue.integer (some (pos 2)))) name
    ≡ some (PropertyValue.integer (some (pos 1)))
unfolding property set_property bytes_eq
first_value_stays = refl
