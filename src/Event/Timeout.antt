-- ===== src/Event/Timeout.antt =====
-- event.cpp: the timers of the two roles.
pub mod Reset
pub mod Walk
use bbserver.Base.{
  ℕ, zero, suc, true, false, none, some, List, [], ◌∷◌, if◌then◌else◌, first_of_list, spinning,
  Result, ok, err, negsuc,
}
use bbserver.Types.{
  ClientCb, SyncState, sync_m_precommit_multicasted, sync_m_commited, sync_idle,
  ev_sync_precommit_err, ev_sync_commit_unsuccess,
}
use bbserver.World.{World}
use bbserver.Clients.{slave_acked, sync_set_slave_state, update}
use bbserver.Servers.{sync_get_master_state, sync_send_event}

abbrev pub master_timeout : World → SyncState → World
master_timeout w sync_m_precommit_multicasted =
    sync_send_event w ev_sync_precommit_err [] (negsuc 0) []
master_timeout w sync_m_commited = sync_send_event w ev_sync_commit_unsuccess [] (negsuc 0) []
master_timeout w _ = w

unfoldable pub proc_sync_ev_master_timeout : World → World
proc_sync_ev_master_timeout w = master_timeout w (sync_get_master_state w)

-- The first loop: every slave in the state is marked.
unfoldable pub mark_slaves : List ClientCb → List ClientCb
mark_slaves [] = []
mark_slaves (c ∷ cs) =
    (if slave_acked c then record c { slave_timeout = true } else c) ∷ mark_slaves cs

-- One round of the second loop.
unfoldable pub reset_slave : World → ClientCb → World
unfolding sync_set_slave_state update
reset_slave w c =
    let w' = (sync_set_slave_state w (some c.addr) sync_idle).0 in
    record w' { clients = update c.addr (λ d. record d { slave_timeout = false }) w'.clients }

unfoldable pub reset_loop : ℕ → World → Result World
unfolding reset_slave
reset_loop zero w = err spinning
reset_loop (suc n) w = elim (first_of_list slave_acked w.clients) [
  | none ↦ ok w
  | some c ↦ reset_loop n (reset_slave w c)
]

-- `proc_sync_ev_slave_timeout`; `others` is what the other threads do while this one sleeps
unfoldable pub proc_sync_ev_slave_timeout : ℕ → (World → World) → World → Result World
unfolding mark_slaves reset_loop
proc_sync_ev_slave_timeout n others w =
    reset_loop n (others (record w { clients = mark_slaves w.clients }))
