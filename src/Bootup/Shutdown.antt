-- ===== src/Bootup/Shutdown.antt =====
-- The end of the server: when it comes, and what it leaves.
use bbserver.Base.{ℕ, suc, ◌≤◌, ◌≡◌, refl, false, none, some, [], ◌==◌, length, Result, ok, err}
use bbserver.Base.{blocked}
use bbserver.World.{World}
use bbserver.Clients.{client_list_clear, destroy_client_list}
use bbserver.Servers.Nodes.{sync_server_list_clear, destroy_sync_server_list}
use bbserver.Queue.{EventQueue}
use bbserver.Queue.Destroy.{
  destroy_client_event_queue, items_left, destroy_client_event_queue-never,
  destroy_client_event_queue-drains,
}
use bbserver.Timers.{destroy_timer}
use bbserver.Service.{destroy_connection}
use bbserver.Bootup.{Files, sys_terminate, sighup_handler}

abbrev queue_of : ℕ → ℕ → World → EventQueue
queue_of waiting awake w = record { items = w.events; blocked = waiting; awake = awake }

-- The rest of `sys_terminate` behind the queue.
abbrev after_queue : World → EventQueue → World
after_queue w q =
    destroy_connection (
      destroy_timer
        (destroy_sync_server_list (record (destroy_client_list w) { events = q.items })))

left_none :
    (r : Result EventQueue)
    → items_left r ≡ some []
    → (q : EventQueue) × (r ≡ ok q) × (q.items ≡ [])
unfolding items_left
left_none (ok q) e = (q, refl, cc)
left_none (err f) e = cc

-- `sys_terminate` returns, and leaves no event, when its loop over the queue gets as many rounds as
-- there are events, and each of its waits is let go: until then the other threads take at least as
-- many events as they enter, such as one that was woken before and takes one when a new one comes.
pub sys_terminate-drains :
    (others : EventQueue → EventQueue)
    → ((r : EventQueue) → length (others r).items ≤ length r.items)
    → (n waiting awake : ℕ) (w : World) → length w.events ≤ n
    → (v : World) × (sys_terminate n (λ r. some (others r)) waiting awake w ≡ ok v)
      × (v.events ≡ [])
unfolding sys_terminate destroy_connection sync_server_list_clear client_list_clear
sys_terminate-drains others keep n waiting awake w l =
    let (q, e, none_left) =
      left_none (destroy_client_event_queue n (λ r. some (others r)) (queue_of waiting awake w))
        (destroy_client_event_queue-drains others keep n (queue_of waiting awake w) l) in
    (after_queue w q, rw e refl, none_left)

-- With an event in the queue and no other thread that lets its wait go, `sys_terminate` blocks for
-- ever, so that the server that gets SIGHUP does not start again.
pub sighup_handler-blocked :
    (n waiting awake : ℕ) (files : Files) (fresh w : World)
    → (length w.events == 0) ≡ false
    → sighup_handler (suc n) (λ _. none) waiting awake files fresh w ≡ err blocked
unfolding sighup_handler sys_terminate client_list_clear
sighup_handler-blocked n waiting awake files fresh w e =
    rw (destroy_client_event_queue-never n (queue_of waiting awake w)) (rw e refl)
