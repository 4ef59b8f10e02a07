-- ===== src/Servers.antt =====
-- list.cpp, the list of synchronization servers, and sync.cpp, the messages of the master.
-- A pointer to a server is its address or, for null, `none`.
pub mod Broadcast
pub mod Connect
pub mod Config
pub mod Nodes
pub mod Count
pub mod Links
use bbserver.Base.{
  ℕ, zero, suc, ◌+◌, ◌-◌, ◌*◌, ◌/◌, ◌%◌, ◌^◌, ◌≤◌, ◌<◌, ◌≡◌, refl, sym, ap, ◌∙◌, ◌≢◌, ◌↔◌, ◌⊎◌, inl,
  inr, Bool, true, false, not, ◌&&◌, ◌||◌, Option, none, some, List, [], ◌∷◌, ◌++◌, map, append-nil,
  append_assoc, arith, ltb, leb, ◌==◌, if◌then◌else◌, ltb→lt, lt→ltb, ==_iff, ==_refl, Bool-cases,
  Option-cases, length, get_elem?, take, drop, replicate, any_of, all_of, count_of, first_of_list,
  length-append, take-append, drop-append, length-replicate, All, Bytes, codes, bytes_eq,
  bytes_eq_refl, bytes_eq→eq, Lacks, Lacks-append, Fault, out_of_range, invalid_argument, undefined,
  spinning, exited, Result, ok, err, ◌>>=◌, deref, ℤ, pos, negsuc, int_max, eq_ℤ, is_neg, is_pos,
  eq_ℤ_iff, eq_ℤ_refl,
}
use bbserver.Types.{
  ClientType, ClientCmdType, cmd_unset, client_cmd_write, client_cmd_replace, SyncState, sync_max,
  sync_disconnect, sync_idle, sync_m_precommit_multicasted, sync_m_precommited,
  sync_m_precommit_unsuccess, sync_m_commited, sync_m_operation_performed,
  sync_m_operation_unsuccess, SyncServerCb, ClientEventCb, ClientEvType, is_state,
  sync_state_timeout,
}
use bbserver.World.{Os, World, SysCall, socket_call, connect_call, send_call, called, enqueue}
use bbserver.Conn.{conn_add}
use bbserver.Clients.{new_client, client_list_add}

-- An assignment through the pointer `a`.
unfoldable pub update_server :
    ℕ → (SyncServerCb → SyncServerCb) → List SyncServerCb → List SyncServerCb
update_server a f [] = []
update_server a f (p ∷ ps) = (if p.addr == a then f p else p) ∷ update_server a f ps

-- `sync_server_list_add`: behind the last node
unfoldable pub sync_server_list_add : World → SyncServerCb → World
sync_server_list_add w p = record w { servers = w.servers ++ p ∷ [] }

-- `sync_server_list_find`: the first node with the descriptor
unfoldable pub sync_server_list_find : World → ℤ → Option SyncServerCb
sync_server_list_find w fd = first_of_list (λ (p : SyncServerCb). eq_ℤ p.fd fd) w.servers

-- with the value that it returns
unfoldable pub sync_server_list_set_state : World → Option SyncServerCb → SyncState → World × ℤ
unfolding update_server
sync_server_list_set_state w none s = (w, negsuc 0)
sync_server_list_set_state w (some p) s =
    (record w { servers = update_server p.addr (λ q. record q { state = s }) w.servers }, pos 1)

-- `start_timer_master`, `stop_timer_master` and the switch of `sync_set_master_state`
abbrev pub master_timer : SyncState → ℕ → ℕ
master_timer sync_m_precommit_multicasted t = sync_state_timeout
master_timer sync_m_commited t = sync_state_timeout
master_timer sync_m_precommited t = 0
master_timer sync_m_precommit_unsuccess t = 0
master_timer sync_m_operation_performed t = 0
master_timer sync_m_operation_unsuccess t = 0
master_timer _ t = t

-- The first node keeps the state of the master.
abbrev pub set_first : SyncState → List SyncServerCb → List SyncServerCb
set_first s [] = []
set_first s (p ∷ ps) = record p { master_state = s } ∷ ps

unfoldable pub sync_set_master_state : World → SyncState → World
sync_set_master_state w s = record w {
  servers = set_first s w.servers;
  timer_master = master_timer s w.timer_master;
}

abbrev pub first_master : List SyncServerCb → SyncState
first_master [] = sync_max
first_master (p ∷ ps) = p.master_state

unfoldable pub sync_get_master_state : World → SyncState
sync_get_master_state w = first_master w.servers

-- `sync_check_server_state`: every server is in the state
abbrev pub sync_check_server_state : List SyncServerCb → SyncState → Bool
sync_check_server_state ps s = all_of (λ (p : SyncServerCb). is_state p.state s) ps

-- What the loop over the servers leaves: the nodes, the calls made, and whether it came to its end.
pub record Sent : Type 0 where
  pub nodes : List SyncServerCb
  pub log : List SysCall
  pub complete : Bool

-- The loop of the four functions below: sends the message to each server in turn and puts it into
-- the state, up to the first send that fails.
unfoldable pub send_loop : Os → Bytes → SyncState → List SyncServerCb → List SysCall → Sent
send_loop os m s [] log = record { nodes = []; log = log; complete = true }
send_loop os m s (p ∷ ps) log =
    let rest = send_loop os m s ps (send_call p.fd m ∷ log) in
    if os.sends log p.fd m
    then record rest { nodes = record p { state = s } ∷ rest.nodes }
    else record { nodes = p ∷ ps; log = send_call p.fd m ∷ log; complete = false }

-- `if(sync_check_server_state(s)) sync_set_master_state(s)`
abbrev pub settle : World → SyncState → World
settle w s = if sync_check_server_state w.servers s then sync_set_master_state w s else w

-- The body that the four functions share: the loop, `return -1` out of it, and what follows it.
unfoldable pub broadcast : Os → World → Bytes → SyncState → World × ℤ
unfolding send_loop sync_set_master_state
broadcast os w m s =
    let sent = send_loop os m s w.servers w.calls in
    let w' = record w { servers = sent.nodes; calls = sent.log } in
    if sent.complete then (settle w' s, pos 0) else (w', negsuc 0)

unfoldable pub sync_send_precommit : Os → World → World × ℤ
unfolding broadcast
sync_send_precommit os w = broadcast os w (codes "PRECOMMIT\n") sync_m_precommit_multicasted

unfoldable pub sync_send_abort : Os → World → World × ℤ
unfolding broadcast
sync_send_abort os w = broadcast os w (codes "ABORT\n") sync_idle

-- The text of `sync_send_commit`.
abbrev pub keyword : ClientCmdType → Bytes
keyword client_cmd_write = codes "WRITE"
keyword client_cmd_replace = codes "REPLACE"
keyword cmd_unset = []

abbrev pub commit_text : ClientCmdType → Bytes → Bytes
commit_text k body = codes "COMMIT " ++ (keyword k ++ (b' ' ∷ (body ++ b'\n' ∷ [])))

unfoldable pub sync_send_commit : Os → World → ClientCmdType → Bytes → World × ℤ
unfolding broadcast
sync_send_commit os w k body = broadcast os w (commit_text k body) sync_m_commited

abbrev pub end_text : Bool → Bytes → Bytes
end_text success number =
    (if success then codes "END SUCCESS" else codes "END UNSUCCESS")
    ++ (b' ' ∷ (number ++ b'\n' ∷ []))

unfoldable pub sync_send_success : Os → World → Bool → Bytes → World × ℤ
unfolding broadcast
sync_send_success os w success number = broadcast os w (end_text success number) sync_idle

-- `ip` of a client has 32 bytes, with the closing 0.
abbrev pub ip_size : ℕ
ip_size = 32

-- `sync_connect_to_server` behind `socket`: a refused descriptor is left open.
unfoldable pub connect_with : Os → World → Bytes → ℕ → Option ℕ → Result (World × ℤ)
unfolding conn_add client_list_add
connect_with os w ip port none = err exited
connect_with os w ip port (some fd) =
    let w' = called w (connect_call fd ip port) in
    if not (os.connects w.calls fd ip port)
    then ok (w', negsuc 0)
    else if ltb (length ip) ip_size
    then ok (
      client_list_add
          (record w' { conns = conn_add w'.conns (pos fd); next_addr = w'.next_addr + 1 })
          (record (new_client w'.next_addr) {
            fd = pos fd;
            ip = ip;
            port = port;
            type = ClientType.client_sync_master;
          }),
      pos fd,
    )
    else err undefined

unfoldable pub sync_connect_to_server : Os → World → Bytes → ℕ → Result (World × ℤ)
unfolding connect_with
sync_connect_to_server os w ip port =
    connect_with os (called w socket_call) ip port (os.socket w.calls)

-- What the loop of `init_sync_server_connection` leaves: the nodes done, the world, `initState`.
pub record Connected : Type 0 where
  pub nodes : List SyncServerCb
  pub world : World
  pub init_state : ℤ

abbrev pub keep_node : SyncServerCb → Connected → Connected
keep_node p r = record r { nodes = p ∷ r.nodes }

abbrev pub fail_node : SyncServerCb → Connected → Connected
fail_node p r = record r { nodes = p ∷ r.nodes; init_state = negsuc 0 }

-- The node once the connection is there, or not.
abbrev pub dialled : SyncServerCb → ℤ → Connected → Connected
dialled p fd r =
    if is_neg fd then fail_node p r else keep_node (record p { fd = fd; state = sync_idle }) r

unfoldable pub connect_loop : Os → List SyncServerCb → World → Result Connected
connect_loop os [] w = ok (record { nodes = []; world = w; init_state = pos 0 })
connect_loop os (p ∷ ps) w =
    let skip = (do r ← connect_loop os ps w; ok (keep_node p r)) in
    let dial = (do
      c ← sync_connect_to_server os w p.ip p.port
      r ← connect_loop os ps c.0
      ok (dialled p c.1 r)) in
    if is_state p.state sync_disconnect then dial else skip

abbrev pub connected : Connected → World × ℤ
connected r = (settle (record r.world { servers = r.nodes }) sync_idle, r.init_state)

unfoldable pub connect_servers : Os → World → List SyncServerCb → Result (World × ℤ)
unfolding connect_loop sync_set_master_state
connect_servers os w [] = ok (w, negsuc 0)
connect_servers os w (p ∷ ps) = do r ← connect_loop os (p ∷ ps) w; ok (connected r)

-- `init_sync_server_connection`: -1 if there is no server or one cannot be connected to
unfoldable pub init_sync_server_connection : Os → World → Result (World × ℤ)
unfolding connect_servers
init_sync_server_connection os w = connect_servers os w w.servers

unfoldable pub sync_send_event : World → ClientEvType → Bytes → ℤ → Bytes → World
sync_send_event w e number fd m =
    enqueue w (record { fd = some fd; event = e; type = none; msg_number = number; response = m })

unfoldable pub sync_send_event_timeout : World → ClientEvType → World
sync_send_event_timeout w e =
    enqueue w (record { fd = none; event = e; type = none; msg_number = []; response = [] })
