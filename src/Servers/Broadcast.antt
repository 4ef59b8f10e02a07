-- ===== src/Servers/Broadcast.antt =====
-- Which servers a broadcast of the master reaches.
use bbserver.Base.{◌≡◌, refl, true, false, List, [], ◌∷◌, ◌++◌, map, arith, All, Bytes, pos, negsuc}
use bbserver.Types.{SyncServerCb, SyncState}
use bbserver.Types.Codes.{is_state_refl}
use bbserver.World.{Os, World, SysCall, send_call}
use bbserver.Servers.{send_loop, broadcast, set_first, master_timer, sync_check_server_state}

abbrev pub to_state : SyncState → SyncServerCb → SyncServerCb
to_state s p = record p { state = s }

-- The calls of a loop that sends the message to each node, newest first.
abbrev pub send_calls : Bytes → List SyncServerCb → List SysCall → List SysCall
send_calls m [] log = log
send_calls m (p ∷ ps) log = send_calls m ps (send_call p.fd m ∷ log)

-- A server that takes the message whenever it is sent.
abbrev pub Takes : Os → Bytes → SyncServerCb → Type 0
Takes os m p = (log : List SysCall) → os.sends log p.fd m ≡ true

abbrev pub Refuses : Os → Bytes → SyncServerCb → Type 0
Refuses os m p = (log : List SysCall) → os.sends log p.fd m ≡ false

send_loop_complete :
    (os : Os) (m : Bytes) (s : SyncState) (ps : List SyncServerCb) (log : List SysCall)
    → All (Takes os m) ps
    → send_loop os m s ps log
      ≡ record { nodes = map (to_state s) ps; log = send_calls m ps log; complete = true }
unfolding send_loop
send_loop_complete os m s [] log h = refl
send_loop_complete os m s (p ∷ ps) log h =
    rw (h.0 log, send_loop_complete os m s ps (send_call p.fd m ∷ log) h.1)

send_loop_stops :
    (os : Os) (m : Bytes) (s : SyncState) (pre : List SyncServerCb) (p : SyncServerCb)
    (post : List SyncServerCb) (log : List SysCall)
    → All (Takes os m) pre
    → Refuses os m p
    → send_loop os m s (pre ++ p ∷ post) log ≡ record {
      nodes = map (to_state s) pre ++ p ∷ post;
      log = send_call p.fd m ∷ send_calls m pre log;
      complete = false;
    }
unfolding send_loop
send_loop_stops os m s [] p post log h r = rw (r log)
send_loop_stops os m s (q ∷ pre) p post log h r =
    rw (h.0 log, send_loop_stops os m s pre p post (send_call q.fd m ∷ log) h.1 r)

pub check-to_state :
    (s : SyncState) (ps : List SyncServerCb)
    → sync_check_server_state (map (to_state s) ps) s ≡ true
check-to_state s [] = refl
check-to_state s (p ∷ ps) = rw (is_state_refl s) (check-to_state s ps)

-- A broadcast that every server takes: each is sent the message once, in the order of the list, and
-- is put into the state; the master's state becomes the same, with its timer set or stopped for
-- that state; the result is 0, and nothing else changes.
pub broadcast_complete :
    (os : Os) (w : World) (m : Bytes) (s : SyncState)
    → All (Takes os m) w.servers
    → broadcast os w m s ≡ (
      record w {
        servers = set_first s (map (to_state s) w.servers);
        calls = send_calls m w.servers w.calls;
        timer_master = master_timer s w.timer_master;
      },
      pos 0,
    )
unfolding broadcast
broadcast_complete os w m s h =
    rw (send_loop_complete os m s w.servers w.calls h, check-to_state s w.servers)

-- A broadcast that a server refuses stops there with -1: the servers before it are in the new
-- state, that server and those behind it are sent nothing more and stay as they were, and the
-- master's state and timer do not change.
pub broadcast_stops :
    (os : Os) (w : World) (m : Bytes) (s : SyncState) (pre : List SyncServerCb) (p : SyncServerCb)
    (post : List SyncServerCb)
    → w.servers ≡ pre ++ p ∷ post
    → All (Takes os m) pre
    → Refuses os m p
    → broadcast os w m s ≡ (
      record w {
        servers = map (to_state s) pre ++ p ∷ post;
        calls = send_call p.fd m ∷ send_calls m pre w.calls;
      },
      negsuc 0,
    )
unfolding broadcast
broadcast_stops os w m s pre p post e h r = rw (e, send_loop_stops os m s pre p post w.calls h r)

-- A broadcast touches the servers, the calls and the timer of the master only.
pub record Kept (v w : World) : Type 0 where
  pub clients : v.clients ≡ w.clients
  pub events : v.events ≡ w.events
  pub file : v.file ≡ w.file
  pub msg_number : v.msg_number ≡ w.msg_number
  pub conns : v.conns ≡ w.conns
  pub config : v.config ≡ w.config
  pub next_addr : v.next_addr ≡ w.next_addr

pub broadcast-Kept :
    (os : Os) (w : World) (m : Bytes) (s : SyncState) → Kept (broadcast os w m s).0 w
unfolding broadcast
broadcast-Kept os w m s = ground arith
