-- ===== src/PriorityQueue/Tests.antt =====
-- Tests of the priority queue, and its theorems at a queue of two messages.
use tiny_mq.Prelude.{◌≡◌, refl, some, ◌++◌, ◌∷◌, pos}
use tiny_mq.Message.{Message, shell, text_message, clamp_priority}
use tiny_mq.PriorityQueue.{
  PriorityQueue, enqueue, empty, try_dequeue, or_return_token, dequeue_from_bands, mask_loop,
  scan_bands, highest,
}
use tiny_mq.PriorityQueue.Bands.{sequential}
use tiny_mq.PriorityQueue.Order.{view, ordered, above, down}
use tiny_mq.PriorityQueue.Dequeue.{
  WellFormed, Dequeues, empty-WellFormed, enqueue-WellFormed, try_dequeue-Dequeues,
}

abbrev low : Message
low = record (shell text_message) {
  headers = record ((shell text_message).headers) { priority = pos 1 };
}

abbrev waiting : PriorityQueue sequential
waiting = enqueue sequential (enqueue sequential (empty sequential) low) (shell text_message)

waiting-WellFormed : WellFormed sequential waiting
waiting-WellFormed =
    (enqueue-WellFormed sequential _ (shell text_message)
      (enqueue-WellFormed sequential _ low (empty-WellFormed sequential)).0).0

-- The message of priority 4 comes first, though the one of priority 1 was sent before it.
higher_first : (try_dequeue sequential waiting).0 ≡ some (shell text_message)
unfolding try_dequeue or_return_token dequeue_from_bands mask_loop scan_bands highest enqueue
    clamp_priority
higher_first = refl

try_dequeue-Dequeues_example : Dequeues sequential waiting (try_dequeue sequential waiting)
try_dequeue-Dequeues_example = try_dequeue-Dequeues sequential waiting waiting-WellFormed

enqueue-WellFormed_example :
    WellFormed sequential (enqueue sequential waiting low)
    × (ordered sequential waiting
        ≡ above 10 (clamp_priority low.headers.priority) (view sequential waiting)
          ++ down (clamp_priority low.headers.priority) (view sequential waiting))
    × (ordered sequential (enqueue sequential waiting low)
        ≡ above 10 (clamp_priority low.headers.priority) (view sequential waiting)
          ++ low ∷ down (clamp_priority low.headers.priority) (view sequential waiting))
enqueue-WellFormed_example = enqueue-WellFormed sequential waiting low waiting-WellFormed
