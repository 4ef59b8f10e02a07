-- ===== src/Event/Invariant/History.antt =====
-- Any history of the server: what its threads, its timers and its service loop do, in any order.
use bbserver.Base.{Each, ℕ, ◌≡◌, Option, List, ◌++◌, ok, ℤ}
use mathlib.Core.Path.{subst}
use bbserver.World.{World, Os}
use bbserver.Conn.{service_round}
use bbserver.Servers.{sync_send_event_timeout}
use bbserver.Timers.{handle_master_timeout, handle_slave_timeout}
use bbserver.Event.Handle.{handle_client_event}
use bbserver.Event.Keeping.Dispatch.{handle_client_event_keeps}
use bbserver.Event.Invariant.{IsWorld}
use bbserver.Event.Invariant.Rules.{IsWorld-Rules}

-- A history from `w`: an event thread handles an event and returns, while the other threads do what
-- they do; a timer fires; the service loop comes back from select.
pub data Reach : World → World → Type 0 where
  starts : {w : World} → Reach w w
  handles :
      {w u v : World}
      → (n : ℕ) (os : Os) (others : World → World) → ((t : World) → Reach t (others t))
      → handle_client_event n os others u ≡ ok v
      → Reach w u
      → Reach w v
  fires_master : {w u : World} → Reach w u → Reach w (handle_master_timeout u)
  fires_slave : {w u : World} → Reach w u → Reach w (handle_slave_timeout u)
  serves :
      {w u : World}
      → (server_fd sync_server_fd : ℤ) (ready : Option (List ℤ)) → Reach w u
      → Reach w (record u {
        events = u.events ++ service_round u.conns.connections server_fd sync_server_fd ready;
      })

pub Reach-IsWorld : (w v : World) → Reach w v → IsWorld w → IsWorld v
unfolding handle_master_timeout handle_slave_timeout sync_send_event_timeout
Reach-IsWorld w v starts h = h
Reach-IsWorld w v (handles {u = u} n os others k e r) h = subst (Each IsWorld) e (
    handle_client_event_keeps IsWorld IsWorld-Rules n os others
      (λ t. Reach-IsWorld t (others t) (k t)) u (λ saves v f g. g) (Reach-IsWorld w u r h))
Reach-IsWorld w v (fires_master {u = u} r) h = Reach-IsWorld w u r h
Reach-IsWorld w v (fires_slave {u = u} r) h = Reach-IsWorld w u r h
Reach-IsWorld w v (serves {u = u} a b ready r) h = Reach-IsWorld w u r h
