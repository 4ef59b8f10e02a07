-- ===== src/Tests/Threads.antt =====
-- The threads at concrete interleavings.
use bbserver.Base.{◌≡◌, ◌⊎◌, false, none, some, [], ◌∷◌, ◌++◌, arith, count_of, pos}
use bbserver.Types.{ClientEventCb, ev_recv}
use bbserver.Semaphore.{
  outside, to_lock, writing, Reach, start, move, call_read, call_write, wait_write,
}
use bbserver.Semaphore.Exclusion.{is_writing, is_reading, Reach-exclusive}
use bbserver.Semaphore.Progress.{Progress, Reach-Progress}
use bbserver.Queue.{
  create_client_event_queue, en_client_event_queue, de_client_event_queue_wait, QueueRun, done,
  next, enter, wait,
}
use bbserver.Queue.Order.{entered, left, run-fifo}

-- the second thread writes, and the first one waits to read
abbrev one_writes :
    Reach 2 (record { locked = false; reader_cnt = 0; wrt = 0 }) (to_lock ∷ writing ∷ [])
one_writes =
    move (to_lock ∷ []) []
      (move (to_lock ∷ []) [] (move [] (outside ∷ []) start call_read) call_write) wait_write

Reach-exclusive_example :
    (count_of is_writing (to_lock ∷ writing ∷ []) ≡ 0)
    ⊎ ((count_of is_writing (to_lock ∷ writing ∷ []) ≡ 1)
        × (count_of is_reading (to_lock ∷ writing ∷ []) ≡ 0))
Reach-exclusive_example = Reach-exclusive one_writes

Reach-Progress_example :
    Progress (record { locked = false; reader_cnt = 0; wrt = 0 }) (to_lock ∷ writing ∷ [])
Reach-Progress_example = Reach-Progress one_writes (omega arith)

abbrev event : ClientEventCb
event = record { fd = some (pos 7); event = ev_recv; type = none; msg_number = []; response = [] }

-- the event enters before the thread waits
abbrev late :
    QueueRun create_client_event_queue
      (de_client_event_queue_wait (en_client_event_queue create_client_event_queue event))
late =
    next (enter create_client_event_queue event)
      (next (wait (en_client_event_queue create_client_event_queue event)) done)

run-fifo_example :
    left late
      ++ (de_client_event_queue_wait (en_client_event_queue create_client_event_queue event)).items
    ≡ entered late
run-fifo_example = run-fifo late
