-- ===== src/Queue.antt =====
-- queue.cpp: the queue of events between the threads, with its mutex and its condition variable.
pub mod Destroy
pub mod Order
use bbserver.Base.{
  ℕ, zero, suc, ◌+◌, ◌-◌, ◌*◌, ◌/◌, ◌%◌, ◌^◌, ◌≤◌, ◌<◌, ◌≡◌, refl, sym, ap, ◌∙◌, ◌≢◌, ◌↔◌, ◌⊎◌, inl,
  inr, Bool, true, false, not, ◌&&◌, ◌||◌, Option, none, some, List, [], ◌∷◌, ◌++◌, map, append-nil,
  append_assoc, arith, ltb, leb, ◌==◌, if◌then◌else◌, ltb→lt, lt→ltb, ==_iff, ==_refl, Bool-cases,
  Option-cases, length, get_elem?, take, drop, replicate, any_of, all_of, count_of, first_of_list,
  length-append, take-append, drop-append, length-replicate, All, Bytes, codes, bytes_eq,
  bytes_eq_refl, bytes_eq→eq, Lacks, Lacks-append, Fault, out_of_range, invalid_argument, undefined,
  spinning, exited, Result, ok, err, ◌>>=◌, deref, ℤ, pos, negsuc, int_max, eq_ℤ, is_neg, is_pos,
  eq_ℤ_iff, eq_ℤ_refl,
}
use bbserver.Types.{ClientEventCb}

-- `clientEvQueue` from its head, the threads blocked on `cond_clientEvQueue`, and the threads that
-- the condition variable has let go and that have yet to take the mutex back.
pub record EventQueue : Type 0 where
  pub items : List ClientEventCb
  pub blocked : ℕ
  pub awake : ℕ

-- `create_client_event_queue`
abbrev pub create_client_event_queue : EventQueue
create_client_event_queue = record { items = []; blocked = 0; awake = 0 }

-- `pthread_cond_signal` lets one blocked thread go, if there is one, and is forgotten otherwise.
abbrev pub cond_signal : EventQueue → EventQueue
cond_signal q =
    if q.blocked == 0 then q else record q { blocked = q.blocked - 1; awake = q.awake + 1 }

-- `enClientEventQueue`: the mutex is held from its first call to its last.
unfoldable pub en_client_event_queue : EventQueue → ClientEventCb → EventQueue
en_client_event_queue q e = cond_signal (record q { items = q.items ++ e ∷ [] })

-- `deClientEventQueue` up to `pthread_cond_wait`, which is called whether the queue is empty or
-- not.
unfoldable pub de_client_event_queue_wait : EventQueue → EventQueue
de_client_event_queue_wait q = record q { blocked = q.blocked + 1 }

-- `isClientEventQueueEmpty`
abbrev pub is_client_event_queue_empty : EventQueue → Bool
is_client_event_queue_empty q = length q.items == 0

abbrev pub take_head : EventQueue → List ClientEventCb → EventQueue × Option ClientEventCb
take_head q [] = (record q { awake = q.awake - 1 }, none)
take_head q (e ∷ es) = (record q { items = es; awake = q.awake - 1 }, some e)

-- `deClientEventQueue` behind `pthread_cond_wait`: the head, or nullptr.
unfoldable pub de_client_event_queue_take : EventQueue → EventQueue × Option ClientEventCb
de_client_event_queue_take q = take_head q q.items

-- The steps of the threads that do not hold the mutex at the same time. `wake` is the wake-up
-- without a signal that the condition variable may have.
pub data QueueStep : EventQueue → EventQueue → Type 0 where
  enter : (q : EventQueue) (e : ClientEventCb) → QueueStep q (en_client_event_queue q e)
  wait : (q : EventQueue) → QueueStep q (de_client_event_queue_wait q)
  wake :
      (q : EventQueue)
      → 1 ≤ q.blocked
      → QueueStep q (record q { blocked = q.blocked - 1; awake = q.awake + 1 })
  take_event : (q : EventQueue) → 1 ≤ q.awake → QueueStep q (de_client_event_queue_take q).0

pub data QueueRun : EventQueue → EventQueue → Type 0 where
  done : {q : EventQueue} → QueueRun q q
  next : {q r s : EventQueue} → QueueStep q r → QueueRun r s → QueueRun q s
