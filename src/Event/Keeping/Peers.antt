-- ===== src/Event/Keeping/Peers.antt =====
-- New connections and received data. What a master sends may have the file saved.
use bbserver.Base.{
  Each, bind-Each, bind_any, if-Each, if-any, ℕ, ◌≡◌, refl, inl, inr, Option, none, some, [], ◌∷◌,
  ◌++◌, ltb, ◌==◌, Option-cases, length, Bytes, codes, deref, ℤ, pos,
}
use bbserver.Types.{
  ClientCb, ClientEventCb, ClientType, client_user, client_sync_master, client_sync_slave,
  sync_disconnect,
}
use bbserver.World.{World, Os, called, accept_call, recv_call, close_call}
use bbserver.Text.{has_prefix}
use bbserver.Conn.{conn_del, conn_is_exist}
use bbserver.Clients.{client_list_add, client_list_find}
use bbserver.Servers.{ip_size, sync_server_list_find}
use bbserver.Event.Peers.{
  send_response_to_client, drop_connection, admit, admit_if, proc_client_ev_accept, unlinked,
  disconnected, handle_data, answer, received, receive_for, proc_client_ev_recv,
}
use bbserver.World.{SysCall, send_call}
use bbserver.Types.{is_user}
use bbserver.Event.Peers.{accepted_client, msg_greeting}
use bbserver.Event.Keeping.{Rules, AnyFile}
use bbserver.Event.Keeping.Commands.{process_client_msg_keeps}
use bbserver.Event.Keeping.Messages.{process_sync_slave_msg_keeps, process_sync_master_msg_keeps}
use bbserver.Msg.Slave as Slave
use bbserver.Msg.Master.{process_sync_master_msg}
use bbserver.Msg.Slave.{process_sync_slave_msg}

module _ (P : World → Type 0) (rules : Rules P) where
  pub called_keeps : (w : World) (c : SysCall) → P w → P (called w c)
  called_keeps w c h = rules.quiet w w.events (c ∷ w.calls) w.timer_master w.timer_slave h

  drop_connection_keeps : (w : World) (fd : ℤ) → P w → P (drop_connection w fd)
  unfolding drop_connection
  drop_connection_keeps w fd h =
      let w' = record w { conns = conn_del w.conns fd } in
      if-any P (conn_is_exist w.conns.connections fd) (called w' (close_call fd)) w'
        (called_keeps w' (close_call fd) (rules.closes w fd h)) (rules.closes w fd h)

  admit_if_keeps :
      (w : World) (t : ClientType) (o : Option (ℕ × Bytes × ℕ)) → P w → Each P (admit_if w t o)
  unfolding admit_if admit client_list_add
  admit_if_keeps w t none h = h
  admit_if_keeps w t (some (fd, ip, port)) h =
      let c = accepted_client w.next_addr fd ip port t in
      let k = rules.comes w fd c refl h in
      if-Each P (ltb (length ip) ip_size) _ _
        (if-any P (is_user t) _ _ (called_keeps _ (send_call (pos fd) msg_greeting) k) k) tt

  pub proc_client_ev_accept_keeps :
      (os : Os) (w : World) (ev : ClientEventCb) → P w → Each P (proc_client_ev_accept os w ev)
  unfolding proc_client_ev_accept
  proc_client_ev_accept_keeps os w ev h = bind_any P (deref ev.fd) _ (λ fd.
      bind_any P (deref ev.type) _ (λ t.
        admit_if_keeps (called w (accept_call fd)) t (os.accept w.calls fd)
          (called_keeps w (accept_call fd) h)))

  unlinked_keeps : (w : World) (fd : ℤ) (t : ClientType) → P w → P (unlinked w fd t)
  unfolding unlinked
  unlinked_keeps w fd client_sync_master h =
      rules.server w (sync_server_list_find w fd) sync_disconnect h
  unlinked_keeps w fd client_user h = h
  unlinked_keeps w fd client_sync_slave h = h

  disconnected_keeps : (w : World) (c : ClientCb) → P w → P (disconnected w c)
  unfolding disconnected
  disconnected_keeps w c h =
      rules.goes (unlinked (drop_connection w c.fd) c.fd c.type) (some c.addr)
        (unlinked_keeps (drop_connection w c.fd) c.fd c.type (drop_connection_keeps w c.fd h))

  handle_data_keeps :
      (os : Os) (w : World) (c : ClientCb) (t : ClientType) (buf : Bytes)
      → (t ≡ client_sync_slave → AnyFile P)
      → P w
      → Each (λ r. P r.0) (handle_data os w c t buf)
  unfolding handle_data
  handle_data_keeps os w c client_user buf any h = process_client_msg_keeps P rules os w c buf h
  handle_data_keeps os w c client_sync_master buf any h =
      bind-Each P (λ (r : World × Bytes). P r.0) (process_sync_master_msg w c buf) _
        (process_sync_master_msg_keeps P rules w c buf h) (λ v k. k)
  handle_data_keeps os w c client_sync_slave buf any h =
      bind-Each (λ (r : Slave.Reply). P r.0) (λ (r : World × Bytes). P r.0)
        (process_sync_slave_msg w c buf) _
        (process_sync_slave_msg_keeps P rules (any refl) w c buf h) (λ r k. k)

  answer_keeps : (w : World) (c : ClientCb) (response : Bytes) → P w → P (answer w c response)
  unfolding answer send_response_to_client
  answer_keeps w c response h =
      let w' = send_response_to_client w c response in
      let k = called_keeps w (send_call c.fd (response ++ b'\n' ∷ [])) h in
      if-any P (length response == 0) w _ h (
        if-any P (has_prefix response (codes "4.0 BYE")) _ w'
          (rules.goes (drop_connection w' c.fd) (some c.addr) (drop_connection_keeps w' c.fd k)) k)

  received_keeps :
      (os : Os) (w : World) (c : ClientCb) (o : Option Bytes)
      → (c.type ≡ client_sync_slave → AnyFile P)
      → P w
      → Each P (received os w c o)
  unfolding received
  received_keeps os w c none any h = h
  received_keeps os w c (some []) any h = disconnected_keeps w c h
  received_keeps os w c (some (b ∷ buf)) any h =
      bind-Each (λ (r : World × Bytes). P r.0) P (handle_data os w c c.type (b ∷ buf)) _
        (handle_data_keeps os w c c.type (b ∷ buf) any h) (λ r k. answer_keeps r.0 c r.1 k)

  receive_for_keeps :
      (os : Os) (w : World) (o : Option ClientCb)
      → ((c : ClientCb) → o ≡ some c → c.type ≡ client_sync_slave → AnyFile P)
      → P w
      → Each P (receive_for os w o)
  unfolding receive_for
  receive_for_keeps os w none any h = h
  receive_for_keeps os w (some c) any h =
      received_keeps os (called w (recv_call c.fd)) c (os.recv w.calls c.fd) (any c refl)
        (called_keeps w (recv_call c.fd) h)

  pub proc_client_ev_recv_keeps :
      (os : Os) (w : World) (ev : ClientEventCb)
      → ((fd : ℤ) (c : ClientCb)
          → ev.fd ≡ some fd
          → client_list_find w fd ≡ some c
          → c.type ≡ client_sync_slave
          → AnyFile P)
      → P w
      → Each P (proc_client_ev_recv os w ev)
  unfolding proc_client_ev_recv
  proc_client_ev_recv_keeps os w ev any h = elim (Option-cases ev.fd) [
    | inl e ↦ rw e tt
    | inr (fd, e) ↦ rw e (receive_for_keeps os w (client_list_find w fd) (λ c. any fd c e) h)
  ]
