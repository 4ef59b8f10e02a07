-- ===== src/Event/Handle.antt =====
-- event.cpp: `handle_client_event`, one event of the queue.
use bbserver.Base.{ℕ, List, [], ◌∷◌, Result, ok}
use bbserver.Types.{
  ClientEventCb, ClientEvType, ev_accept, ev_recv, ev_sync_precommit_ack, ev_sync_precommit_err,
  ev_sync_commit_success, ev_sync_commit_unsuccess, ev_sync_timeout_master, ev_sync_timeout_slave,
}
use bbserver.World.{World, Os}
use bbserver.Event.Peers.{proc_client_ev_accept, proc_client_ev_recv}
use bbserver.Event.Commit.{
  proc_sync_ev_precommit_ack, proc_sync_ev_precommit_err, proc_sync_ev_commit_success,
  proc_sync_ev_commit_unsuccess,
}
use bbserver.Event.Timeout.{proc_sync_ev_master_timeout, proc_sync_ev_slave_timeout}

-- The switch, with `n` rounds for the handlers' loops.
unfoldable pub dispatch :
    ℕ → Os → (World → World) → World → ClientEventCb → ClientEvType → Result World
dispatch n os others w ev ev_accept = proc_client_ev_accept os w ev
dispatch n os others w ev ev_recv = proc_client_ev_recv os w ev
dispatch n os others w ev ev_sync_precommit_ack = proc_sync_ev_precommit_ack n os w
dispatch n os others w ev ev_sync_precommit_err = proc_sync_ev_precommit_err n os w
dispatch n os others w ev ev_sync_commit_success = proc_sync_ev_commit_success n os w ev
dispatch n os others w ev ev_sync_commit_unsuccess = proc_sync_ev_commit_unsuccess n os w ev
dispatch n os others w ev ev_sync_timeout_master = ok (proc_sync_ev_master_timeout w)
dispatch n os others w ev ev_sync_timeout_slave = proc_sync_ev_slave_timeout n others w

-- A round of the loop, once `deClientEventQueue` returns: the event leaves the head of the queue.
unfoldable pub next_event : ℕ → Os → (World → World) → World → List ClientEventCb → Result World
unfolding dispatch
next_event n os others w [] = ok w
next_event n os others w (ev ∷ evs) = dispatch n os others (record w { events = evs }) ev ev.event

unfoldable pub handle_client_event : ℕ → Os → (World → World) → World → Result World
unfolding next_event
handle_client_event n os others w = next_event n os others w w.events
