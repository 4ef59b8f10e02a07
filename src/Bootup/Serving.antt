-- ===== src/Bootup/Serving.antt =====
-- The server from its start on: the state that its threads share, over any history.
use bbserver.Base.{
  Each, bind-Each, bind_any, if-Each, ℕ, ◌+◌, ◌%◌, ◌^◌, ◌≤◌, ◌≡◌, refl, not, Option, none, some,
  List, [], ◌∷◌, ◌++◌, arith, ◌==◌, length, Bytes, exited, ok, err, ℤ, pos, negsuc,
}
use mathlib.Core.Path.{subst}
use bbserver.Text.{atoi, to_unsigned}
use bbserver.Types.{SyncState, SyncServerCb}
use bbserver.World.{World, Os, socket_call, setsockopt_call, bind_call, listen_call}
use bbserver.Conn.{conn_init, conn_add}
use bbserver.Conn.Table.{IsTable, conn_init-IsTable, conn_add-IsTable}
use bbserver.Servers.{sync_server_list_add}
use bbserver.Servers.Config.{add_peers, peer_node, init_sync_server_list, peer_loop}
use bbserver.Servers.Count.{Rising}
use bbserver.Service.{server_sock, create_tcp_server_sock, start_conn_service}
use bbserver.Bootup.{System, sys_bootup}
use bbserver.Event.Invariant.{IsWorld}
use bbserver.Event.Invariant.History.{Reach, Reach-IsWorld}

-- Addresses rise along the list of servers from the one bound on, and stay under the other.
abbrev Within : ℕ → ℕ → List SyncServerCb → Type 0
Within n k [] = n ≤ k
Within n k (p ∷ ps) = (n ≤ p.addr) × Within (p.addr + 1) k ps

Within-Rising : (n k : ℕ) (ps : List SyncServerCb) → Within n k ps → Rising n ps
Within-Rising n k [] h = tt
Within-Rising n k (p ∷ ps) h = (h.0, Within-Rising (p.addr + 1) k ps h.1)

Within-end :
    (n k : ℕ) (ps : List SyncServerCb) (p : SyncServerCb)
    → p.addr ≡ k
    → Within n k ps
    → Within n (k + 1) (ps ++ p ∷ [])
Within-end n k [] p e h = (omega (arith, e, h), omega (arith, e))
Within-end n k (q ∷ ps) p e h = (h.0, Within-end (q.addr + 1) k ps p e h.1)

-- No client, and servers whose addresses are under that of the next node.
abbrev IsFresh : World → Type 0
IsFresh w = (w.clients ≡ []) × Within 0 w.next_addr w.servers

add_peers-IsFresh :
    (resolve : Bytes → Option Bytes) (unset : SyncState) (w : World) (ps : List (Bytes × Bytes))
    → IsFresh w
    → Each IsFresh (add_peers resolve unset w ps)
unfolding add_peers sync_server_list_add
add_peers-IsFresh resolve unset w [] h = h
add_peers-IsFresh resolve unset w ((server, serverport) ∷ ps) h =
    bind_any IsFresh (atoi serverport) _ (λ port.
      let p = peer_node resolve unset w.next_addr server (to_unsigned port) in
      add_peers-IsFresh resolve unset
        (sync_server_list_add (record w { next_addr = w.next_addr + 1 }) p) ps
        (h.0, Within-end 0 w.next_addr w.servers p refl h.1))

init_sync_server_list-IsFresh :
    (resolve : Bytes → Option Bytes) (unset : SyncState) (w : World)
    → IsFresh w
    → Each (λ r. IsFresh r.0) (init_sync_server_list resolve unset w)
unfolding init_sync_server_list
init_sync_server_list-IsFresh resolve unset w h =
    if-Each (λ r. IsFresh r.0) (length w.config.peers == 0) (ok (w, negsuc 0)) _ h
      (bind_any (λ r. IsFresh r.0) (peer_loop (length w.config.peers + 1) w.config.peers) _
        (λ ps.
          bind-Each IsFresh (λ r. IsFresh r.0)
            (add_peers resolve unset (record w { servers = [] }) ps) _
            (add_peers-IsFresh resolve unset (record w { servers = [] }) ps (h.0, omega arith))
            (λ v k. k)))

sys_bootup-IsFresh :
    (resolve : Bytes → Option Bytes) (unset : SyncState) (s : System)
    → s.world.servers ≡ []
    → Each (λ t. IsFresh t.world) (sys_bootup resolve unset s)
unfolding sys_bootup
sys_bootup-IsFresh resolve unset s e =
    let w = record s.world { clients = []; events = [] } in
    bind-Each (λ r. IsFresh r.0) (λ t. IsFresh t.world) (init_sync_server_list resolve unset w) _
      (init_sync_server_list-IsFresh resolve unset w (refl, rw e (omega arith))) (λ r k. k)

-- What a listening socket leaves: its descriptor is from 0 on.
abbrev IsOpened : World × ℤ → Type 0
IsOpened r = IsFresh r.0 × IsTable (conn_add r.0.conns r.1)

server_sock-IsOpened :
    (os : Os) (w : World) (port : ℕ) (o : Option ℕ)
    → IsFresh w
    → IsTable w.conns
    → Each IsOpened (server_sock os w port o)
server_sock-IsOpened os w port none h t = tt
server_sock-IsOpened os w port (some fd) h t =
    let c = setsockopt_call fd ∷ socket_call ∷ w.calls in
    let b = bind_call fd (port % 2 ^ 16) ∷ c in
    let opened = ok (record w { calls = listen_call fd ∷ b }, pos fd) in
    if-Each IsOpened (not (os.binds c fd (port % 2 ^ 16))) (err exited) _ tt (
      if-Each IsOpened (not (os.listens b fd)) (err exited) opened tt
        (h, conn_add-IsTable w.conns fd t))

create_tcp_server_sock-IsOpened :
    (os : Os) (w : World) (port : ℕ)
    → IsFresh w
    → IsTable w.conns
    → Each IsOpened (create_tcp_server_sock os w port)
unfolding create_tcp_server_sock
create_tcp_server_sock-IsOpened os w port h t =
    server_sock-IsOpened os w port (os.socket w.calls) h t

start_conn_service-IsWorld :
    (os : Os) (w : World) → IsFresh w → Each (λ r. IsWorld r.0) (start_conn_service os w)
unfolding start_conn_service
start_conn_service-IsWorld os w h =
    bind-Each IsOpened (λ r. IsWorld r.0)
      (create_tcp_server_sock os (record w { conns = conn_init }) w.config.bb_port) _
      (create_tcp_server_sock-IsOpened os (record w { conns = conn_init }) w.config.bb_port h
        conn_init-IsTable)
      (λ (v, server_fd) k.
        bind-Each IsOpened (λ r. IsWorld r.0)
          (create_tcp_server_sock os (record v { conns = conn_add v.conns server_fd })
            v.config.sync_port)
          _
          (create_tcp_server_sock-IsOpened os (record v { conns = conn_add v.conns server_fd })
            v.config.sync_port k.0 k.1)
          (λ (u, sync_server_fd) l.
            (rw l.0.0 tt, l.1, Within-Rising 0 u.next_addr u.servers l.0.1)))

-- From the start of a process with no server in its list on, after `sys_bootup` and the opening of
-- the two listening sockets, and through any history of handled events, time-outs and rounds of the
-- service loop: every client has its own address, which no later client gets; the table of
-- connections has its 1024 slots and no descriptor has two of them; and every server has its own
-- address.
pub Reach-served :
    (resolve : Bytes → Option Bytes) (unset : SyncState) (os : Os) (s t : System) (w v : World)
    (server_fd sync_server_fd : ℤ)
    → s.world.servers ≡ []
    → sys_bootup resolve unset s ≡ ok t
    → start_conn_service os t.world ≡ ok (w, server_fd, sync_server_fd)
    → Reach w v
    → IsWorld v
Reach-served resolve unset os s t w v server_fd sync_server_fd e f g r =
    let fresh = subst (Each (λ u. IsFresh u.world)) f (sys_bootup-IsFresh resolve unset s e) in
    Reach-IsWorld w v r
      (subst (Each (λ r. IsWorld r.0)) g (start_conn_service-IsWorld os t.world fresh))
