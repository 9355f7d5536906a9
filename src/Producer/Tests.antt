-- ===== src/Producer/Tests.antt =====
-- The theorem on the options of a send, at a message with a delay.
use tiny_mq.Prelude.{ℕ, ◌≡◌, ◌≤◌, none, some, [], ◌∷◌, ◌⊎◌, false, pos, Bytes}
use tiny_mq.Message.{Message, persistent, text_message, shell}
use tiny_mq.Producer.{SendOptions, Producer, prepare_send_with}
use tiny_mq.Producer.Options.{Valid, Sent, prepare_send_with-Sent}

abbrev uuid_text : ℕ → Bytes
uuid_text u = u ∷ []

abbrev producer : Producer
producer = record { disable_message_id = false; disable_message_timestamp = false; defaults = none }

abbrev delayed : SendOptions
delayed = record {
  delivery_mode = persistent;
  priority = pos 7;
  time_to_live = pos 5000;
  delivery_delay = pos 100;
}

prepare_send_with-Sent_example :
    ((prepare_send_with uuid_text (pos 1000) producer [] delayed (shell text_message) ≡ none)
      × ¬ Valid delayed)
    ⊎ ((sent : Message) × (prepare_send_with uuid_text
            (pos 1000)
            producer
            []
            delayed
            (shell text_message)
          ≡ some sent)
        × Valid delayed
        × ((later : ℕ) → 1000 ≤ later → Sent 1000 later delayed sent))
prepare_send_with-Sent_example =
    prepare_send_with-Sent uuid_text 1000 producer delayed (shell text_message)
