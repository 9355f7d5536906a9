-- ===== src/Destination/DeadLetter.antt =====
-- Destination.cpp: setRedeliveryPolicy and deadLetter.
use tiny_mq.Prelude.{
  ℕ, ◌==◌, Bool, true, ◌||◌, not, Option, none, some, if◌then◌else◌, ℤ, pos, Bytes,
}
use tiny_mq.Message.{Message, PropertyValue, set_property, is_persistent}
use tiny_mq.Message.Wire.{Codec, stored_form}
use tiny_mq.PriorityQueue.{update}
use tiny_mq.PriorityQueue.Bands.{Moodycamel}
use tiny_mq.Consumer.{Storage, Location}
use tiny_mq.Selector.Tokenizer.{codes}
use tiny_mq.Destination.{Destination, DestinationType, is_queue_family, enqueue_or_schedule_on}

-- setRedeliveryPolicy takes a policy whose dead-letter queue, if it has one, is another destination
-- of the queue family. `self` and the queue are named by numbers; `false` is the exception.
unfoldable pub accepts_policy : ℕ → Option (ℕ × DestinationType) → Bool
accepts_policy self none = true
accepts_policy self (some (dlq, kind)) = not (dlq == self || not (is_queue_family kind))

-- The copy for the dead-letter queue.
unfoldable pub dead_copy : Bytes → Message → Message
dead_copy reason m = record m {
  headers = record (m.headers) { delivery_time = pos 0 };
  properties =
      set_property m.properties (codes "JMSXDeadLetterReason") (PropertyValue.string (some reason));
}

module _ (lib : Moodycamel) (storage : Storage) (codec : Codec) where
  abbrev Dest : Type 0
  Dest = Destination lib storage codec

  abbrev recorded : Dest → Message → storage.Store × Location → Dest × Message
  recorded d m (store', l) = (
    record d { stores = update d.stores 0 store' },
    record m {
      cached_storage_bytes = stored_form codec m;
      storage_tom_id = l.tom_id;
      storage_offset = l.offset;
    },
  )

  abbrev stored_dead : Message → Dest → Dest × Message
  stored_dead m d =
      if is_persistent m
      then recorded d m (storage.append (d.stores 0) m.uuid (stored_form codec m))
      else (d, m)

  abbrev enqueue_dead : ℤ → Dest × Message → Dest
  enqueue_dead now (d, m) = elim d.queue [
    | none ↦ d
    | some q ↦ enqueue_or_schedule_on lib storage codec now q m d
  ]

  -- deadLetter, as the change of the policy's dead-letter queue; without one the message is dropped.
  unfoldable pub dead_letter_to : ℤ → Bytes → Message → Option Dest → Option Dest
  unfolding dead_copy enqueue_or_schedule_on
  dead_letter_to now reason m none = none
  dead_letter_to now reason m (some dlq) =
      some (enqueue_dead now (stored_dead (dead_copy reason m) dlq))
