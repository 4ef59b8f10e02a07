-- ===== src/Queue/Order.antt =====
-- The order in which events leave the queue, and the wake-ups that are lost.
use bbserver.Base.{
  ℕ, suc, ◌+◌, ◌≤◌, ◌≡◌, refl, sym, ap, ◌∙◌, Option, none, some, List, [], ◌∷◌, ◌++◌, append-nil,
  append_assoc, arith, ◌==◌, if◌then◌else◌, length, length-append,
}
use bbserver.Types.{ClientEventCb}
use bbserver.Queue.{
  EventQueue, en_client_event_queue, de_client_event_queue_wait, take_head,
  de_client_event_queue_take, enter, wait, wake, take_event, QueueRun, done, next,
}

-- The events that the run puts in, in its order.
pub entered : {q r : EventQueue} → QueueRun q r → List ClientEventCb
entered done = []
entered (next (enter q e) r) = e ∷ entered r
entered (next (wait q) r) = entered r
entered (next (wake q h) r) = entered r
entered (next (take_event q h) r) = entered r

abbrev of_option : Option ClientEventCb → List ClientEventCb
of_option none = []
of_option (some e) = e ∷ []

-- The events that the run takes out, in its order.
pub left : {q r : EventQueue} → QueueRun q r → List ClientEventCb
left done = []
left (next (enter q e) r) = left r
left (next (wait q) r) = left r
left (next (wake q h) r) = left r
left (next (take_event q h) r) = of_option (de_client_event_queue_take q).1 ++ left r

items-enter :
    (q : EventQueue) (e : ClientEventCb) → (en_client_event_queue q e).items ≡ q.items ++ e ∷ []
unfolding en_client_event_queue
items-enter q e = ground arith

items-take :
    (q : EventQueue) (es : List ClientEventCb)
    → q.items ≡ es
    → of_option (take_head q es).1 ++ (take_head q es).0.items ≡ es
items-take q [] h = h
items-take q (e ∷ es) h = refl

awake-take :
    (q : EventQueue) (es : List ClientEventCb)
    → 1 ≤ q.awake
    → length (of_option (take_head q es).1) + (take_head q es).0.awake ≤ q.awake
awake-take q [] h = ground arith
awake-take q (e ∷ es) h = ground arith

-- Whatever the threads do, events leave the queue in the order in which they entered it and none is
-- lost or doubled: those in the queue and those entered are those that left and those still in the
-- queue.
pub run-fifo :
    {q r : EventQueue} (run : QueueRun q r) → left run ++ r.items ≡ q.items ++ entered run
unfolding left entered de_client_event_queue_wait de_client_event_queue_take
run-fifo {q} done = sym (append-nil q.items)
run-fifo (next (enter q e) r) =
    run-fifo r ∙ rw (items-enter q e) (append_assoc q.items (e ∷ []) (entered r))
run-fifo (next (wait q) r) = run-fifo r
run-fifo (next (wake q h) r) = run-fifo r
run-fifo {r = z} (next (take_event q h) r) =
    append_assoc (of_option (take_head q q.items).1) (left r) z.items
    ∙ rw (run-fifo r) (
        sym (
          append_assoc (of_option (take_head q q.items).1) (take_head q q.items).0.items
            (entered r))
        ∙ ap (λ es. es ++ entered r) (items-take q q.items refl))

-- The times that a thread is let go: an event entered while a thread is blocked, or a wake-up
-- without a signal.
pub signals : {q r : EventQueue} → QueueRun q r → ℕ
signals done = 0
signals (next (enter q e) r) = if q.blocked == 0 then signals r else suc (signals r)
signals (next (wait q) r) = signals r
signals (next (wake q h) r) = suc (signals r)
signals (next (take_event q h) r) = signals r

-- A signal that no thread waits for is lost: no more events leave the queue than threads were let
-- go, whatever the number of events in it and of threads that wait.
pub run-signals :
    {q r : EventQueue} (run : QueueRun q r) → length (left run) + r.awake ≤ q.awake + signals run
unfolding left signals en_client_event_queue de_client_event_queue_wait de_client_event_queue_take
run-signals done = ground arith
run-signals (next (enter q e) r) = let ih = run-signals r in ground (arith, ih)
run-signals (next (wait q) r) = run-signals r
run-signals (next (wake q h) r) = let ih = run-signals r in ground (arith, ih)
run-signals (next (take_event q h) r) =
    let ih = run-signals r in
    omega (
      arith,
      ih,
      awake-take q q.items h,
      length-append (of_option (take_head q q.items).1) (left r),
    )
