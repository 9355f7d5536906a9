-- ===== src/ConcurrentLinearStorage/Tests.antt =====
-- The theorem on the calls at a worker over a store with one file.
use tiny_mq.Prelude.{◌≡◌, refl, true, false, ◌⊎◌, some, [], ◌∷◌, arith, pos, replicate, le_bytes}
use tiny_mq.Prelude.Maps.{find, nat_eq}
use tiny_mq.LinearStorage.Tom.{open_tom, header_bytes}
use tiny_mq.LinearStorage.Sweep.{first_cursor}
use tiny_mq.LinearStorage.Image.{image, record_of_slot}
use tiny_mq.LinearStorage.Write.{new_slot}
use tiny_mq.LinearStorage.Tests.{list_tree, one_file, one_file-Holds, slot1, slot2, uuid1}
use tiny_mq.ConcurrentLinearStorage.{Worker}
use tiny_mq.ConcurrentLinearStorage.Shutdown.{
  State, initial, created, joining, next, start, stop_called, stop_looks, Reach, here, then,
  Returns, Lost, initial-Lost,
}
use tiny_mq.ConcurrentLinearStorage.RoundTrip.{ReadsBack, append_call-ReadsBack}

abbrev worker : Worker list_tree
worker = record {
  storage = record { toms = (1, one_file) ∷ []; current_tom_id = 1; index = [] };
  running = true;
  sweep_interval_us = pos 1000000;
  last_sweep_us = pos 0;
  cursor = first_cursor;
}

current_file : find 1 worker.storage.toms ≡ some one_file
unfolding find
current_file = refl

append_call-ReadsBack_example :
    (w1 : Worker list_tree) × ReadsBack list_tree 3
      (replicate 7 0)
      uuid1
      (4 ∷ [])
      worker
      (record_of_slot 1 one_file.size (new_slot uuid1 (replicate 7 0) (4 ∷ [])))
      w1
unfolding open_tom image header_bytes le_bytes
append_call-ReadsBack_example =
    append_call-ReadsBack list_tree 3 (replicate 7 0) uuid1 (4 ∷ []) worker one_file
      (slot1 ∷ slot2 ∷ []) refl current_file refl one_file-Holds
      (record { uuid = refl; padding = refl; content = omega arith; size = omega arith })
      (omega arith)

-- stop() looks at the flag before the worker has set it.
abbrev too_early : State
too_early = record { running = false; thread = created; stopper = joining; stop_queued = false }

too_early-Reach : Reach initial too_early
unfolding next
too_early-Reach = then start refl (then stop_called refl (then stop_looks refl here))

initial-Lost_example :
    Returns too_early ⊎ (Lost too_early × ((s' : State) → Reach too_early s' → Lost s'))
initial-Lost_example = initial-Lost too_early too_early-Reach (λ e. ground arith)
