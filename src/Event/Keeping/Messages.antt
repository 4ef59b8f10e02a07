-- ===== src/Event/Keeping/Messages.antt =====
-- The messages of the two-phase commit. A slave saves what its master has it commit.
use bbserver.Base.{
  Each, bind-Each, bind_any, if-Each, if-any, ℕ, ◌+◌, ◌-◌, refl, Bool, [], if◌then◌else◌, length,
  Bytes, codes, bytes_eq, Result, ℤ,
}
use bbserver.Types.{
  ClientCb, SyncState, ClientEvType, sync_m_precommited, sync_m_precommit_unsuccess,
  sync_m_operation_performed, sync_m_operation_unsuccess, sync_idle, sync_s_commited,
  sync_s_precommit_received, sync_s_precommit_ack, ev_sync_precommit_ack, ev_sync_precommit_err,
  ev_sync_commit_success, ev_sync_commit_unsuccess, is_state,
}
use bbserver.Text.{substr, has_prefix, before_slash}
use bbserver.World.{World}
use bbserver.Clients.{sync_set_slave_state, slave_timer}
use bbserver.Servers.{
  sync_check_server_state, sync_server_list_find, sync_set_master_state, sync_get_master_state,
  sync_send_event,
}
use bbserver.MsgNumber.{update_msg_number}
use bbserver.Board.{save_msg_write, save_msg_replace}
use bbserver.Msg.Slave.{
  set_slave, commit_write, commit_replace, turned_away, finish, slave_msg, process_sync_slave_msg,
}
use bbserver.Msg.Slave as Slave
use bbserver.Msg.Master.{
  Answer, set_server, all_answered, one_failed, number_behind, master_msg, process_sync_master_msg,
}
use bbserver.Msg.Strip.{strip_line}
use bbserver.Event.Keeping.{Rules, AnyFile}
use bbserver.Event.Keeping.Commands.{update_msg_number_keeps}

module _ (P : World → Type 0) (rules : Rules P) where
  -- The same of a reply to a master.
  abbrev pub Kept : Result Slave.Reply → Type 0
  Kept r = Each (λ p. P p.0) r

  set_slave_keeps : (w : World) (c : ClientCb) (s : SyncState) → P w → P (set_slave w c s)
  unfolding sync_set_slave_state
  set_slave_keeps w c s h =
      rules.quiet _ w.events w.calls w.timer_master (slave_timer s w.timer_slave)
        (rules.assigns w (λ d. record d { slave_state = s }) c.addr (λ d. refl) h)

  module _ (any : AnyFile P) where
    commit_write_keeps :
        (w : World) (c : ClientCb) (msg : Bytes) → P w → Kept (commit_write w c msg)
    unfolding commit_write
    commit_write_keeps w c msg h =
        bind_any (λ (r : Slave.Reply). P r.0) (substr msg 13 (length msg - 12)) _
          (λ body.
            bind-Each (λ (r : World × ℤ). P r.0) (λ (r : Slave.Reply). P r.0)
              (update_msg_number (set_slave w c sync_s_commited) (before_slash body)) _
              (update_msg_number_keeps P rules (set_slave w c sync_s_commited) (before_slash body)
                (set_slave_keeps w c sync_s_commited h))
              (λ r k. any r.0 (save_msg_write r.0.file body).0 k))

    commit_replace_keeps :
        (w : World) (c : ClientCb) (msg : Bytes) → P w → Kept (commit_replace w c msg)
    unfolding commit_replace
    commit_replace_keeps w c msg h =
        bind_any (λ (r : Slave.Reply). P r.0) (substr msg 15 (length msg - 14)) _
          (λ body.
            let w' = set_slave w c sync_s_commited in
            any w' (save_msg_replace w'.file body).0 (set_slave_keeps w c sync_s_commited h))

    finish_keeps : (w : World) (c : ClientCb) (msg : Bytes) (n : ℕ) → P w → Kept (finish w c msg n)
    finish_keeps w c msg n h =
        bind_any (λ (r : Slave.Reply). P r.0) (substr msg (n + 1) (length msg - n)) _
          (λ number. set_slave_keeps w c sync_idle h)

    slave_msg_keeps : (w : World) (c : ClientCb) (msg : Bytes) → P w → Kept (slave_msg w c msg)
    unfolding slave_msg
    slave_msg_keeps w c msg h =
        choose (bytes_eq msg (codes "PRECOMMIT")) _ _
          (set_slave_keeps (set_slave w c sync_s_precommit_received) c sync_s_precommit_ack
            (set_slave_keeps w c sync_s_precommit_received h))
          (choose (bytes_eq msg (codes "ABORT")) _ _ (set_slave_keeps w c sync_idle h) (
            choose (has_prefix msg (codes "COMMIT WRITE")) _ _
              (choose (turned_away w c) _ _ h (commit_write_keeps w c msg h))
              (choose (has_prefix msg (codes "COMMIT REPLACE")) _ _
                (choose (turned_away w c) _ _ h (commit_replace_keeps w c msg h))
                (choose (has_prefix msg (codes "END SUCCESS")) _ _ (finish_keeps w c msg 11 h) (
                  choose (has_prefix msg (codes "END UNSUCCESS")) _ _ (finish_keeps w c msg 13 h)
                    h)))))
      where
        choose : (b : Bool) (x y : Result Slave.Reply) → Kept x → Kept y → Kept (if b then x else y)
        choose = if-Each (λ p. P p.0)

    pub process_sync_slave_msg_keeps :
        (w : World) (c : ClientCb) (buf : Bytes) → P w → Kept (process_sync_slave_msg w c buf)
    unfolding process_sync_slave_msg
    process_sync_slave_msg_keeps w c buf h =
        bind_any (λ (r : Slave.Reply). P r.0) (strip_line buf) _ (λ msg. slave_msg_keeps w c msg h)

  -- The master goes on, and an event says so.
  ends_keeps :
      (w : World) (a : Answer) (s : SyncState) (e : ClientEvType) (number : Bytes)
      → P w
      → P (sync_send_event (sync_set_master_state w s) e number a.client.fd a.msg)
  unfolding sync_send_event
  ends_keeps w a s e number h =
      let v = sync_set_master_state w s in
      rules.quiet v (sync_send_event v e number a.client.fd a.msg).events v.calls v.timer_master
        v.timer_slave (rules.master w s h)

  answered_keeps :
      (w : World) (a : Answer) (s : SyncState) (e : ClientEvType) (number : Bytes)
      → P w
      → P (all_answered w a s e number)
  unfolding all_answered
  answered_keeps w a s e number h =
      let v = set_server w a s in
      let k = rules.server w a.server s h in
      if-any P (sync_check_server_state v.servers s) _ v (ends_keeps v a s e number k) k

  failed_keeps :
      (w : World) (a : Answer) (s : SyncState) (e : ClientEvType) (number : Bytes)
      → P w
      → P (one_failed w a s e number)
  unfolding one_failed
  failed_keeps w a s e number h =
      let v = set_server w a s in
      let k = rules.server w a.server s h in
      if-any P (is_state (sync_get_master_state v) s) v _ k (ends_keeps v a s e number k)

  master_msg_keeps : (w : World) (a : Answer) → P w → Each P (master_msg w a)
  unfolding master_msg
  master_msg_keeps w a h =
      choose (bytes_eq a.msg (codes "5.0 PRECOMMIT ACK")) _ _
        (answered_keeps w a sync_m_precommited ev_sync_precommit_ack [] h)
        (choose (bytes_eq a.msg (codes "5.1 ERROR PRECOMMIT")) _ _
          (failed_keeps w a sync_m_precommit_unsuccess ev_sync_precommit_err [] h)
          (choose (has_prefix a.msg (codes "6.0 COMMITED SUCCESS")) _ _
            (bind_any P (number_behind a.msg 20) _
              (λ n. answered_keeps w a sync_m_operation_performed ev_sync_commit_success n h))
            (choose (has_prefix a.msg (codes "6.1 COMMITED UNSUCCESS")) _ _
              (bind_any P (number_behind a.msg 22) _
                (λ n. failed_keeps w a sync_m_operation_unsuccess ev_sync_commit_unsuccess n h))
              (choose (has_prefix a.msg (codes "6.2 COMMITED UNSUCCESS UNKNOWN")) _ _
                (bind_any P (number_behind a.msg 30) _
                  (λ n. failed_keeps w a sync_m_operation_unsuccess ev_sync_commit_unsuccess n h))
                h))))
    where
      choose : (b : Bool) (x y : Result World) → Each P x → Each P y → Each P (if b then x else y)
      choose = if-Each P

  pub process_sync_master_msg_keeps :
      (w : World) (c : ClientCb) (buf : Bytes) → P w → Each P (process_sync_master_msg w c buf)
  unfolding process_sync_master_msg
  process_sync_master_msg_keeps w c buf h = bind_any P (strip_line buf) _ (λ msg.
      master_msg_keeps w (record { client = c; msg = msg; server = sync_server_list_find w c.fd })
        h)
