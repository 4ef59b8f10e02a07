-- ===== src/Bootup.antt =====
-- bootup.cpp: the start of the server, its end, and the signals. What is printed and bbserv.pid are
-- left out.
pub mod Bounds
pub mod Shutdown
pub mod Reload
pub mod Serving
pub mod Restart
use bbserver.Base.{
  ℕ, zero, suc, ◌+◌, ◌-◌, ◌*◌, ◌/◌, ◌%◌, ◌^◌, ◌≤◌, ◌<◌, ◌≡◌, refl, sym, ap, ◌∙◌, ◌≢◌, ◌↔◌, ◌⊎◌, inl,
  inr, Bool, true, false, not, ◌&&◌, ◌||◌, Option, none, some, List, [], ◌∷◌, ◌++◌, map, append-nil,
  append_assoc, arith, ltb, leb, ◌==◌, if◌then◌else◌, ltb→lt, lt→ltb, ==_iff, ==_refl, Bool-cases,
  Option-cases, length, get_elem?, take, drop, replicate, any_of, all_of, count_of, first_of_list,
  length-append, take-append, drop-append, length-replicate, All, Bytes, codes, bytes_eq,
  bytes_eq_refl, bytes_eq→eq, Lacks, Lacks-append, Fault, out_of_range, invalid_argument, undefined,
  spinning, exited, Result, ok, err, ◌>>=◌, deref, ℤ, pos, negsuc, int_max, eq_ℤ, is_neg, is_pos,
  eq_ℤ_iff, eq_ℤ_refl,
}
use bbserver.Types.{SysCfg, SyncState, ClientEventCb, debug_level_none, debug_level_d}
use bbserver.Board.{BbFile}
use bbserver.World.{World, SysCall}
use bbserver.Conn.{ConnTable}
use bbserver.Clients.{create_client_list, destroy_client_list}
use bbserver.Servers.Nodes.{destroy_sync_server_list}
use bbserver.Servers.Config.{init_sync_server_list}
use bbserver.Semaphore.{Access, init_access}
use bbserver.MsgNumber.{load_msg_number}
use bbserver.Queue.{EventQueue, create_client_event_queue}
use bbserver.Queue.Destroy.{destroy_client_event_queue}
use bbserver.Config.{load_config}
use bbserver.Config.Options.{load_option}
use bbserver.Timers.{create_timers, destroy_timer}
use bbserver.Service.{destroy_connection}

-- The files that the server finds: the text of a configuration file, and the board file of a name.
pub record Files : Type 0 where
  pub configs : Bytes → Option Bytes
  pub boards : Bytes → BbFile

-- DEFAULT_CFG_FILE
abbrev pub default_cfg_file : Bytes
default_cfg_file = codes "bbserv.conf"

-- exit when no file is named
abbrev pub check_bb_file : SysCfg → Result SysCfg
check_bb_file c = if length c.bb_file == 0 then err exited else ok c

-- `sys_load_config` up to `load_msg_number`
unfoldable pub configured : Files → SysCfg → List (ℕ × Bytes) → List Bytes → Result SysCfg
configured files c opts args = do
  r ← load_config files.configs c (some default_cfg_file)
  d ← load_option files.configs r.0 opts args
  check_bb_file d

unfoldable pub sys_load_config : Files → World → List (ℕ × Bytes) → List Bytes → Result World
unfolding configured
sys_load_config files w opts args = do
  c ← configured files w.config opts args
  r ← load_msg_number (record w { config = c; file = files.boards c.bb_file })
  ok r.0

-- `sys_reload_config_sighub`: the switch for debugging stays.
unfoldable pub sys_reload_config_sighub : Files → SysCfg → Result SysCfg
sys_reload_config_sighub files c = do
  r ← load_config files.configs c (some c.cfg_file)
  check_bb_file (record r.0 {
    debug = c.debug;
    debug_level = if c.debug then debug_level_d else debug_level_none;
  })

-- The threads that the server starts.
pub data Thread : Type 0 where
  event_thread connection_thread : Thread

-- The world with what is outside of it: the access to the file, and the threads.
pub record System : Type 0 where
  pub world : World
  pub access : Access
  pub threads : List Thread

-- `create_thread_pool`
abbrev pub create_thread_pool : System → System
create_thread_pool s = record s {
  threads = s.threads ++ replicate s.world.config.th_max event_thread;
}

-- `sys_bootup`; `resolve` and `unset` are those of `init_sync_server_list`
unfoldable pub sys_bootup : (Bytes → Option Bytes) → SyncState → System → Result System
sys_bootup resolve unset s =
    let w = record (create_client_list s.world) { events = create_client_event_queue.items } in
    let t = create_thread_pool (record s { world = w }) in
    (do
      r ← init_sync_server_list resolve unset t.world
      ok (record {
        world = create_timers r.0;
        access = init_access;
        threads = t.threads ++ connection_thread ∷ [];
      }))

-- The two calls of `main`; `fresh` is the world of a new process.
unfoldable pub started :
    (Bytes → Option Bytes)
    → SyncState
    → Files
    → World
    → List (ℕ × Bytes)
    → List Bytes
    → Result System
unfolding sys_load_config sys_bootup
started resolve unset files fresh opts args = do
  w ← sys_load_config files fresh opts args
  sys_bootup resolve unset (record { world = w; access = init_access; threads = [] })

-- `sys_terminate`: `blocked` and `awake` count the event threads in `deClientEventQueue`, and
-- `others` is what they and the other threads do while this one waits there.
unfoldable pub sys_terminate : ℕ → (EventQueue → Option EventQueue) → ℕ → ℕ → World → Result World
sys_terminate n others blocked awake w = do
  let w' = destroy_client_list w
  q ←
      destroy_client_event_queue n others
        (record { items = w'.events; blocked = blocked; awake = awake })
  ok (
      destroy_connection
        (destroy_timer (destroy_sync_server_list (record w' { events = q.items }))))

-- The signal that a handler sends to its own process when it has ended the service.
pub data Signal : Type 0 where
  sigint sigterm : Signal

-- `sigint_handler`, with the default action for SIGINT back in place
abbrev pub sigint_handler :
    ℕ → (EventQueue → Option EventQueue) → ℕ → ℕ → World → Result (World × Signal)
sigint_handler n others blocked awake w = do
  v ← sys_terminate n others blocked awake w
  ok (v, sigint)

abbrev pub sigquit_handler :
    ℕ → (EventQueue → Option EventQueue) → ℕ → ℕ → World → Result (World × Signal)
sigquit_handler n others blocked awake w = do
  v ← sys_terminate n others blocked awake w
  ok (v, sigterm)

-- `sighup_handler`: execve starts the program anew, in the world `fresh`, with `-f` for its command
-- line.
unfoldable pub sighup_handler :
    ℕ → (EventQueue → Option EventQueue) → ℕ → ℕ → Files → World → World → Result World
sighup_handler n others blocked awake files fresh w = do
  v ← sys_terminate n others blocked awake w
  sys_load_config files fresh ((b'f', []) ∷ []) []
