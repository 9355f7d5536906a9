-- ===== src/Scheduler/Tests.antt =====
-- The theorems on the delivery scheduler at a message that is due in a second.
use tiny_mq.Prelude.{◌≡◌, refl, ◌⊎◌, true, false, List, [], ◌∷◌, arith, ℤ, pos, ◌+ℤ◌, ◌≤ℤ◌, ◌<ℤ◌}
use tiny_mq.Message.{Message, shell, text_message}
use tiny_mq.Message.Wire.{max_future_header_ms}
use tiny_mq.Scheduler.{Scheduler, Entry, new_scheduler, enqueue_or_schedule, deliver, emplace}
use tiny_mq.Scheduler.Waits.{IsSorted}
use tiny_mq.Scheduler.Sends.{entry_of, corrected, enqueue_or_schedule_once}
use tiny_mq.Scheduler.System.{
  System, Reach, here, next, sends, start, send, Sound, start-Reach-Sound,
}

abbrev delayed : Message
delayed = record (shell text_message) {
  headers = record ((shell text_message).headers) { delivery_time = pos 2000 };
}

abbrev entry_at : ℤ → Entry
entry_at t = record { time = t; queue = 0; msg = delayed }

abbrev entries : List Entry
entries = entry_at (pos 1000) ∷ entry_at (pos 3000) ∷ []

entries-IsSorted : IsSorted entries
entries-IsSorted = ((omega arith, tt), (tt, tt))

abbrev now : ℤ
now = pos 1000

enqueue_or_schedule_once_example :
    ((delayed.headers.delivery_time ≤ℤ now)
      × (delayed.headers.delivery_time ≤ℤ now +ℤ pos max_future_header_ms)
      × (enqueue_or_schedule now now new_scheduler 3 delayed ≡ (new_scheduler, deliver 3 delayed)))
    ⊎ ((now +ℤ pos max_future_header_ms <ℤ delayed.headers.delivery_time)
        × (enqueue_or_schedule now now new_scheduler 3 delayed
            ≡ (new_scheduler, deliver 3 (corrected delayed))))
    ⊎ ((now <ℤ delayed.headers.delivery_time)
        × (delayed.headers.delivery_time ≤ℤ now +ℤ pos max_future_header_ms)
        × ((enqueue_or_schedule now now new_scheduler 3 delayed).1 ≡ [])
        × ((enqueue_or_schedule now now new_scheduler 3 delayed).0.pending
            ≡ emplace (entry_of 3 delayed) new_scheduler.pending)
        × ((enqueue_or_schedule now now new_scheduler 3 delayed).0.stopped ≡ false))
enqueue_or_schedule_once_example =
    enqueue_or_schedule_once now now new_scheduler 3 delayed refl (omega arith) (omega arith)

abbrev stopped_scheduler : Scheduler
stopped_scheduler = record new_scheduler { stopped = true }

abbrev after_send : System
after_send = send (start now) 3 delayed

sent : Reach (start now) after_send
sent = next here (sends (start now) 3 delayed)

start-Reach-Sound_example : Sound after_send
start-Reach-Sound_example = start-Reach-Sound now (omega arith) sent
