-- ===== src/Event/Keeping/Timeouts.antt =====
-- The time-outs of the two roles.
use bbserver.Base.{
  Each, ℕ, zero, suc, refl, inl, inr, false, some, [], Option-cases, first_of_list, negsuc,
}
use bbserver.Types.{
  ClientCb, SyncState, ev_sync_precommit_err, ev_sync_commit_unsuccess, sync_idle, sync_m_commited,
  sync_m_precommit_multicasted,
}
use bbserver.World.{World}
use bbserver.Clients.{sync_set_slave_state, slave_acked}
use bbserver.Servers.{sync_get_master_state, sync_send_event}
use bbserver.Clients.{slave_timer}
use bbserver.Event.Timeout.{
  master_timeout, proc_sync_ev_master_timeout, mark_slaves, reset_slave, reset_loop,
  proc_sync_ev_slave_timeout,
}
use bbserver.Event.Keeping.{Rules}

module _ (P : World → Type 0) (rules : Rules P) where
  master_timeout_keeps : (w : World) (s : SyncState) → P w → P (master_timeout w s)
  unfolding sync_send_event
  master_timeout_keeps w sync_m_precommit_multicasted h =
      let v = sync_send_event w ev_sync_precommit_err [] (negsuc 0) [] in
      rules.quiet w v.events w.calls w.timer_master w.timer_slave h
  master_timeout_keeps w sync_m_commited h =
      let v = sync_send_event w ev_sync_commit_unsuccess [] (negsuc 0) [] in
      rules.quiet w v.events w.calls w.timer_master w.timer_slave h
  master_timeout_keeps w _ h = h

  pub proc_sync_ev_master_timeout_keeps : (w : World) → P w → P (proc_sync_ev_master_timeout w)
  unfolding proc_sync_ev_master_timeout
  proc_sync_ev_master_timeout_keeps w h = master_timeout_keeps w (sync_get_master_state w) h

  reset_slave_keeps : (w : World) (c : ClientCb) → P w → P (reset_slave w c)
  unfolding reset_slave sync_set_slave_state
  reset_slave_keeps w c h =
      rules.assigns (sync_set_slave_state w (some c.addr) sync_idle).0
        (λ d. record d { slave_timeout = false }) c.addr (λ d. refl)
        (rules.quiet _ w.events w.calls w.timer_master (slave_timer sync_idle w.timer_slave)
          (rules.assigns w (λ d. record d { slave_state = sync_idle }) c.addr (λ d. refl) h))

  reset_loop_keeps : (n : ℕ) (w : World) → P w → Each P (reset_loop n w)
  unfolding reset_loop
  reset_loop_keeps zero w h = tt
  reset_loop_keeps (suc n) w h = elim (Option-cases (first_of_list slave_acked w.clients)) [
    | inl e ↦ rw (e, reset_loop) h
    | inr (c, e) ↦
        rw (e, reset_loop) (reset_loop_keeps n (reset_slave w c) (reset_slave_keeps w c h))
  ]

  pub proc_sync_ev_slave_timeout_keeps :
      (n : ℕ) (others : World → World) (w : World)
      → ((v : World) → P v → P (others v))
      → P w
      → Each P (proc_sync_ev_slave_timeout n others w)
  unfolding proc_sync_ev_slave_timeout
  proc_sync_ev_slave_timeout_keeps n others w k h =
      reset_loop_keeps n (others (record w { clients = mark_slaves w.clients }))
        (k (record w { clients = mark_slaves w.clients }) (rules.marks w h))
