-- ===== src/Event/Invariant/Servers.antt =====
-- The broadcasts and the connections to the peers keep the shape of the shared state.
use bbserver.Base.{
  Each, bind-Each, if-Each, ℕ, ◌+◌, ◌≤◌, inl, inr, not, Option, none, some, List, [], ◌∷◌, arith,
  ltb, Bool-cases, length, Bytes, ℤ, is_neg,
}
use bbserver.Types.{SyncServerCb, SyncState, is_state, sync_disconnect, sync_idle}
use bbserver.World.{World, Os, SysCall, socket_call, called}
use bbserver.Conn.Table.{IsTable, conn_add-IsTable}
use bbserver.Clients.{client_list_add}
use bbserver.Clients.Find.{Below}
use bbserver.Servers.{
  broadcast, send_loop, settle, sync_set_master_state, sync_check_server_state, ip_size,
  connect_with, sync_connect_to_server, connect_loop, connect_servers, init_sync_server_connection,
  Connected, dialled,
}
use bbserver.Servers.Count.{Rising, set_first-Rising}
use bbserver.Event.Invariant.{IsWorld}

send_loop-Rising :
    (os : Os) (m : Bytes) (s : SyncState) (n : ℕ) (ps : List SyncServerCb) (log : List SysCall)
    → Rising n ps
    → Rising n (send_loop os m s ps log).nodes
unfolding send_loop
send_loop-Rising os m s n [] log h = tt
send_loop-Rising os m s n (p ∷ ps) log h = elim (Bool-cases (os.sends log p.fd m)) [
  | inl e ↦ rw e (h.0, send_loop-Rising os m s (p.addr + 1) ps _ h.1)
  | inr e ↦ rw e h
]

settle-IsWorld : (w : World) (s : SyncState) → IsWorld w → IsWorld (settle w s)
unfolding sync_set_master_state
settle-IsWorld w s h = elim (Bool-cases (sync_check_server_state w.servers s)) [
  | inl e ↦ rw e (h.0, h.1, set_first-Rising s 0 w.servers h.2)
  | inr e ↦ rw e h
]

pub broadcast-IsWorld :
    (os : Os) (m : Bytes) (s : SyncState) (w : World) → IsWorld w → IsWorld (broadcast os w m s).0
unfolding broadcast
broadcast-IsWorld os m s w h =
    let sent = send_loop os m s w.servers w.calls in
    let w' : World = record w { servers = sent.nodes; calls = sent.log } in
    let kept : IsWorld w' = (h.0, h.1, send_loop-Rising os m s 0 w.servers w.calls h.2) in
    elim (Bool-cases sent.complete) [ inl e ↦ rw e (settle-IsWorld w' s kept) | inr e ↦ rw e kept ]

-- What a connection to a peer touches besides the list of servers.
abbrev IsHeld : World → Type 0
IsHeld w = Below w.next_addr w.clients × IsTable w.conns

connect_with-IsHeld :
    (os : Os) (w : World) (ip : Bytes) (port : ℕ) (o : Option ℕ)
    → IsHeld w
    → Each (λ r. IsHeld r.0) (connect_with os w ip port o)
unfolding connect_with client_list_add
connect_with-IsHeld os w ip port none h = tt
connect_with-IsHeld os w ip port (some fd) h =
    if-Each (λ (r : World × ℤ). IsHeld r.0) (not (os.connects w.calls fd ip port)) _ _ h
      (if-Each (λ (r : World × ℤ). IsHeld r.0) (ltb (length ip) ip_size) _ _
        ((omega arith, h.0), conn_add-IsTable w.conns fd h.1) tt)

sync_connect_to_server-IsHeld :
    (os : Os) (w : World) (ip : Bytes) (port : ℕ)
    → IsHeld w
    → Each (λ r. IsHeld r.0) (sync_connect_to_server os w ip port)
unfolding sync_connect_to_server
sync_connect_to_server-IsHeld os w ip port h =
    connect_with-IsHeld os (called w socket_call) ip port (os.socket w.calls) h

abbrev IsDialled : ℕ → Connected → Type 0
IsDialled n r = IsHeld r.world × Rising n r.nodes

dialled-IsDialled :
    (n : ℕ) (p : SyncServerCb) (fd : ℤ) (r : Connected)
    → n ≤ p.addr
    → IsDialled (p.addr + 1) r
    → IsDialled n (dialled p fd r)
dialled-IsDialled n p fd r l h = elim (Bool-cases (is_neg fd)) [
  | inl e ↦ rw e (h.0, (l, h.1))
  | inr e ↦ rw e (h.0, (l, h.1))
]

connect_loop-IsDialled :
    (os : Os) (n : ℕ) (ps : List SyncServerCb) (w : World)
    → IsHeld w
    → Rising n ps
    → Each (IsDialled n) (connect_loop os ps w)
unfolding connect_loop
connect_loop-IsDialled os n [] w h b = (h, tt)
connect_loop-IsDialled os n (p ∷ ps) w h b =
    if-Each (IsDialled n) (is_state p.state sync_disconnect) _ _
      (bind-Each (λ (c : World × ℤ). IsHeld c.0) (IsDialled n)
        (sync_connect_to_server os w p.ip p.port) _
        (sync_connect_to_server-IsHeld os w p.ip p.port h)
        (λ c k.
          bind-Each (IsDialled (p.addr + 1)) (IsDialled n) (connect_loop os ps c.0) _
            (connect_loop-IsDialled os (p.addr + 1) ps c.0 k b.1)
            (λ r d. dialled-IsDialled n p c.1 r b.0 d)))
      (bind-Each (IsDialled (p.addr + 1)) (IsDialled n) (connect_loop os ps w) _
        (connect_loop-IsDialled os (p.addr + 1) ps w h b.1) (λ r d. (d.0, (b.0, d.1))))

connect_servers-IsWorld :
    (os : Os) (w : World) (ps : List SyncServerCb)
    → IsWorld w
    → Rising 0 ps
    → Each (λ r. IsWorld r.0) (connect_servers os w ps)
unfolding connect_servers
connect_servers-IsWorld os w [] h b = h
connect_servers-IsWorld os w (p ∷ ps) h b =
    bind-Each (IsDialled 0) (λ (r : World × ℤ). IsWorld r.0) (connect_loop os (p ∷ ps) w) _
      (connect_loop-IsDialled os 0 (p ∷ ps) w (h.0, h.1) b)
      (λ r d. settle-IsWorld (record r.world { servers = r.nodes }) sync_idle (d.0.0, d.0.1, d.1))

pub init_sync_server_connection-IsWorld :
    (os : Os) (w : World) → IsWorld w → Each (λ r. IsWorld r.0) (init_sync_server_connection os w)
unfolding init_sync_server_connection
init_sync_server_connection-IsWorld os w h = connect_servers-IsWorld os w w.servers h h.2
