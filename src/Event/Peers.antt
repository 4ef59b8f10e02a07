-- ===== src/Event/Peers.antt =====
-- event.cpp: new connections, received data, and the answers to clients.
use bbserver.Base.{
  ℕ, ◌+◌, Option, none, some, [], ◌∷◌, ◌++◌, ltb, ◌==◌, if◌then◌else◌, length, Bytes, codes,
  undefined, Result, ok, err, ◌>>=◌, deref, ℤ, pos,
}
use bbserver.Text.{has_prefix}
use bbserver.Types.{
  ClientCb, ClientEventCb, ClientType, client_user, client_sync_master, client_sync_slave,
  sync_null, sync_idle, sync_disconnect, is_user,
}
use bbserver.World.{World, Os, called, accept_call, recv_call, send_call, close_call}
use bbserver.Conn.{conn_add, conn_del, conn_is_exist}
use bbserver.Clients.{new_client, client_list_add, client_list_del, client_list_find}
use bbserver.Servers.{ip_size, sync_server_list_find, sync_server_list_set_state}
use bbserver.Msg.Client.{process_client_msg}
use bbserver.Msg.Master.{process_sync_master_msg}
use bbserver.Msg.Slave.{process_sync_slave_msg}

-- MSG_GREETING
abbrev pub msg_greeting : Bytes
msg_greeting =
    codes
      "0.0 GREETING \nCOMMANDS: USER, READ, WRITE, REPLACE, QUIT\nBoth upper and lower case supported, please type \"HELP\" or \"help\" for more information!\n"

-- `send_response_to_client`: what send returns is printed only
unfoldable pub send_response_to_client : World → ClientCb → Bytes → World
send_response_to_client w c response = called w (send_call c.fd (response ++ b'\n' ∷ []))

-- `conn_del`: the descriptor is closed if the table has it
unfoldable pub drop_connection : World → ℤ → World
unfolding conn_del
drop_connection w fd =
    let w' = record w { conns = conn_del w.conns fd } in
    if conn_is_exist w.conns.connections fd then called w' (close_call fd) else w'

-- The client that `proc_client_ev_accept` makes.
abbrev pub accepted_client : ℕ → ℕ → Bytes → ℕ → ClientType → ClientCb
accepted_client a fd ip port t = record (new_client a) {
  fd = pos fd;
  ip = ip;
  port = port;
  type = t;
  slave_state = if is_user t then sync_idle else sync_null;
}

-- The list and the table with the new client, and the greeting for a user.
unfoldable pub admit : World → ClientType → ℕ × Bytes × ℕ → Result World
unfolding conn_add client_list_add
admit w t (fd, ip, port) =
    let c = accepted_client w.next_addr fd ip port t in
    let w' =
      client_list_add (record w { conns = conn_add w.conns (pos fd); next_addr = w.next_addr + 1 })
        c in
    if ltb (length ip) ip_size
    then ok (if is_user t then called w' (send_call (pos fd) msg_greeting) else w')
    else err undefined

unfoldable pub admit_if : World → ClientType → Option (ℕ × Bytes × ℕ) → Result World
unfolding admit
admit_if w t none = ok w
admit_if w t (some peer) = admit w t peer

unfoldable pub proc_client_ev_accept : Os → World → ClientEventCb → Result World
unfolding admit_if
proc_client_ev_accept os w ev = do
  fd ← deref ev.fd
  t ← deref ev.type
  admit_if (called w (accept_call fd)) t (os.accept w.calls fd)

-- A server of ours is noted as disconnected.
unfoldable pub unlinked : World → ℤ → ClientType → World
unfolding sync_server_list_set_state
unlinked w fd client_sync_master =
    (sync_server_list_set_state w (sync_server_list_find w fd) sync_disconnect).0
unlinked w fd client_user = w
unlinked w fd client_sync_slave = w

-- The end of the stream: the connection is closed and the client goes.
unfoldable pub disconnected : World → ClientCb → World
unfolding drop_connection client_list_del unlinked
disconnected w c = (client_list_del (unlinked (drop_connection w c.fd) c.fd c.type) (some c.addr)).0

-- The three message handlers, by the role of the peer: the world and the response.
unfoldable pub handle_data : Os → World → ClientCb → ClientType → Bytes → Result (World × Bytes)
unfolding process_client_msg process_sync_master_msg process_sync_slave_msg
handle_data os w c client_user buf = process_client_msg os w c buf
handle_data os w c client_sync_master buf = do w' ← process_sync_master_msg w c buf; ok (w', [])
handle_data os w c client_sync_slave buf = do r ← process_sync_slave_msg w c buf; ok (r.0, r.1)

-- The response is sent, if there is one; after "4.0 BYE" the connection is closed.
unfoldable pub answer : World → ClientCb → Bytes → World
unfolding send_response_to_client drop_connection client_list_del
answer w c response =
    let w' = send_response_to_client w c response in
    if length response == 0
    then w
    else if has_prefix response (codes "4.0 BYE")
    then (client_list_del (drop_connection w' c.fd) (some c.addr)).0
    else w'

-- By what recv returned.
unfoldable pub received : Os → World → ClientCb → Option Bytes → Result World
unfolding disconnected handle_data answer
received os w c none = ok w
received os w c (some []) = ok (disconnected w c)
received os w c (some (b ∷ buf)) = do r ← handle_data os w c c.type (b ∷ buf); ok (answer r.0 c r.1)

unfoldable pub receive_for : Os → World → Option ClientCb → Result World
unfolding received
receive_for os w none = ok w
receive_for os w (some c) = received os (called w (recv_call c.fd)) c (os.recv w.calls c.fd)

unfoldable pub proc_client_ev_recv : Os → World → ClientEventCb → Result World
unfolding receive_for
proc_client_ev_recv os w ev = do fd ← deref ev.fd; receive_for os w (client_list_find w fd)
