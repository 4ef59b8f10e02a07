-- ===== src/Event/Keeping/Dispatch.antt =====
-- The switch over the events.
use bbserver.Base.{Each, ℕ, ◌≡◌, some, List, [], ◌∷◌, ℤ}
use bbserver.Types.{
  ClientEventCb, ClientEvType, ev_accept, ev_recv, ev_sync_precommit_ack, ev_sync_precommit_err,
  ev_sync_commit_success, ev_sync_commit_unsuccess, ev_sync_timeout_master, ev_sync_timeout_slave,
}
use bbserver.World.{World, Os}
use bbserver.Event.Handle.{dispatch, next_event, handle_client_event}
use bbserver.Types.{ClientCb, client_sync_slave}
use bbserver.Clients.{client_list_find}
use bbserver.Event.Keeping.{Rules, AnyFile}
use bbserver.Event.Keeping.Peers.{proc_client_ev_accept_keeps, proc_client_ev_recv_keeps}
use bbserver.Event.Keeping.Commits.{
  proc_sync_ev_precommit_ack_keeps, proc_sync_ev_precommit_err_keeps,
  proc_sync_ev_commit_success_keeps, proc_sync_ev_commit_unsuccess_keeps,
}
use bbserver.Event.Keeping.Timeouts.{
  proc_sync_ev_master_timeout_keeps, proc_sync_ev_slave_timeout_keeps,
}

-- The events that a commit may save the file on: the success of a COMMIT, and data from a master.
abbrev pub Saves : World → ClientEventCb → ClientEvType → Type 0
Saves w ev ev_recv =
    (fd : ℤ) × (c : ClientCb) × (ev.fd ≡ some fd)
    × (client_list_find w fd ≡ some c)
    × (c.type ≡ client_sync_slave)
Saves w ev ev_sync_commit_success = Unit
Saves w ev _ = ⊥

-- The same of the event at the head of the queue.
abbrev pub SavesNext : World → List ClientEventCb → Type 0
SavesNext w [] = ⊥
SavesNext w (ev ∷ evs) = Saves (record w { events = evs }) ev ev.event

module _ (P : World → Type 0) (rules : Rules P) (n : ℕ) (os : Os) (others : World → World)
    (keep : (v : World) → P v → P (others v)) where
  dispatch_keeps :
      (w : World) (ev : ClientEventCb) (t : ClientEvType)
      → (Saves w ev t → AnyFile P)
      → P w
      → Each P (dispatch n os others w ev t)
  unfolding dispatch
  dispatch_keeps w ev ev_accept any h = proc_client_ev_accept_keeps P rules os w ev h
  dispatch_keeps w ev ev_recv any h =
      proc_client_ev_recv_keeps P rules os w ev (λ fd c e f g. any (fd, c, e, f, g)) h
  dispatch_keeps w ev ev_sync_precommit_ack any h =
      proc_sync_ev_precommit_ack_keeps P rules n os w h
  dispatch_keeps w ev ev_sync_precommit_err any h =
      proc_sync_ev_precommit_err_keeps P rules n os w h
  dispatch_keeps w ev ev_sync_commit_success any h =
      proc_sync_ev_commit_success_keeps P rules (any tt) n os w ev h
  dispatch_keeps w ev ev_sync_commit_unsuccess any h =
      proc_sync_ev_commit_unsuccess_keeps P rules n os w ev h
  dispatch_keeps w ev ev_sync_timeout_master any h = proc_sync_ev_master_timeout_keeps P rules w h
  dispatch_keeps w ev ev_sync_timeout_slave any h =
      proc_sync_ev_slave_timeout_keeps P rules n others w keep h

  next_event_keeps :
      (w : World) (evs : List ClientEventCb)
      → (SavesNext w evs → AnyFile P)
      → P w
      → Each P (next_event n os others w evs)
  unfolding next_event
  next_event_keeps w [] any h = h
  next_event_keeps w (ev ∷ evs) any h =
      dispatch_keeps (record w { events = evs }) ev ev.event any
        (rules.quiet w evs w.calls w.timer_master w.timer_slave h)

  -- A property that allows for the changes of the handlers holds after an event if it held before.
  pub handle_client_event_keeps :
      (w : World)
      → (SavesNext w w.events → AnyFile P)
      → P w
      → Each P (handle_client_event n os others w)
  unfolding handle_client_event
  handle_client_event_keeps w any h = next_event_keeps w w.events any h
