-- ===== src/Tests/Boot.antt =====
-- The start and the end of the server, its sockets and its queue at concrete values.
use bbserver.Base.{
  inr, length, ◌+◌, ◌≡◌, refl, true, false, none, some, List, [], ◌∷◌, ◌++◌, arith, replicate,
  count_of, codes, spinning, ok, err, pos,
}
use bbserver.Types.{SysCfg, ClientEventCb, sync_idle, sync_null, ev_sync_commit_success}
use bbserver.World.{World}
use bbserver.Queue.{EventQueue, en_client_event_queue, de_client_event_queue_take}
use bbserver.Queue.Destroy.{
  entered-taken, destroy_client_event_queue, destroy_client_event_queue-entering,
}
use bbserver.Conn.{conn_init, conn_check_fd_set}
use bbserver.Conn.Table.{TableOp, adds, dels, run_table, reads}
use bbserver.Service.Setup.{listening-unread}
use bbserver.World.{Os}
use bbserver.Config.RoundTrip.{config_text, load_config-config_text}
use bbserver.Tests.Config.{stored, stored-IsStored}
use bbserver.Config.{load_config}
use bbserver.Config.Options.{load_option, option_loop, option_step}
use bbserver.Semaphore.{init_access}
use bbserver.Bootup.{
  started, Files, default_cfg_file, event_thread, connection_thread, System, configured,
  sys_terminate, sighup_handler,
}
use bbserver.Bootup.Bounds.{IsStarted, configured-IsStarted}
use bbserver.Board.{BbFile, save_msg_write}
use bbserver.Bootup.Restart.{by_default, started-recovers, sighup_handler-recovers}
use bbserver.Bootup.Shutdown.{sys_terminate-drains}
use bbserver.Tests.{board_file, os, client, server, world, board, config}

-- the stored configuration under each name
abbrev files : Files
files = record { configs = λ name. some (config_text stored); boards = λ name. board }

abbrev loaded : SysCfg
loaded = record stored { cfg_file = default_cfg_file }

load_default : load_config files.configs config (some default_cfg_file) ≡ ok (loaded, pos 0)
unfolding bbserver.Text.to_string
load_default =
    load_config-config_text files.configs config stored default_cfg_file stored-IsStored
      (omega arith) (omega arith) (omega arith) refl

-- started with -d
abbrev debugging : SysCfg
debugging = record loaded { debug = true; debug_level = 1 }

configured_d : configured files config ((b'd', []) ∷ []) [] ≡ ok debugging
unfolding configured load_option option_loop option_step
configured_d = rw load_default refl

configured-IsStarted_example : IsStarted debugging
configured-IsStarted_example =
    configured-IsStarted files config debugging ((b'd', []) ∷ []) [] configured_d

abbrev pub before_boot : System
before_boot = record {
  world = record (world [] []) { config = debugging };
  access = init_access;
  threads = [];
}

-- the world has no peers, so that the list of them stays
abbrev pub booted : System
booted = record {
  world = record (world [] []) { config = debugging };
  access = init_access;
  threads = replicate 20 event_thread ++ connection_thread ∷ [];
}

abbrev pending : ClientEventCb
pending = record {
  fd = none;
  event = ev_sync_commit_success;
  type = none;
  msg_number = codes "3";
  response = [];
}

-- one client, one peer, and two events that nobody has taken
abbrev running : World
running = record (world (client 1 sync_idle ∷ []) (server 1 sync_idle ∷ [])) {
  events = pending ∷ pending ∷ [];
}

-- an event comes in, and a thread that was woken before takes one
abbrev relieved : EventQueue → EventQueue
relieved q = (de_client_event_queue_take (en_client_event_queue q pending)).0

sys_terminate-drains_example :
    (v : World) × (sys_terminate 2 (λ q. some (relieved q)) 18 2 running ≡ ok v) × (v.events ≡ [])
sys_terminate-drains_example =
    sys_terminate-drains relieved (λ q. entered-taken q pending) 2 18 2 running (omega arith)

abbrev waiting_queue : EventQueue
waiting_queue = record { items = pending ∷ []; blocked = 3; awake = 0 }

destroy_client_event_queue-entering_example :
    destroy_client_event_queue 5 (λ q. some (en_client_event_queue q pending)) waiting_queue
    ≡ err spinning
destroy_client_event_queue-entering_example =
    destroy_client_event_queue-entering (λ q. pending) 5 waiting_queue refl

abbrev history : List TableOp
history = adds 4 ∷ adds 5 ∷ adds 9 ∷ dels (pos 9) ∷ []

listening-unread_example :
    (count_of
        (reads 4)
        (conn_check_fd_set (run_table conn_init history).connections (pos 4 ∷ pos 5 ∷ []))
      ≡ 0)
    × (count_of
          (reads 5)
          (conn_check_fd_set (run_table conn_init history).connections (pos 4 ∷ pos 5 ∷ []))
        ≡ 0)
listening-unread_example =
    listening-unread 3 4 (adds 9 ∷ dels (pos 9) ∷ []) (pos 4 ∷ pos 5 ∷ []) (omega arith)
      (tt, ((refl, refl), tt))

-- a new descriptor for each socket
abbrev pub counting : Os
counting = record os { socket = λ log. some (4 + length log) }

abbrev one_line : BbFile
one_line = board_file (codes "1/ann/hi\n")

started-recovers_example :
    (t : System) × (started (λ name. none) sync_null files (world [] []) [] [] ≡ ok t)
    × (t.world.msg_number ≡ pos 2)
    × (t.world.config ≡ by_default stored)
    × (t.threads ≡ replicate 20 event_thread ++ connection_thread ∷ [])
unfolding save_msg_write bbserver.Text.to_string
started-recovers_example =
    started-recovers (λ name. none) sync_null files (world [] []) stored one_line
      (codes "1/ann/hi\n") (codes "bob/yo") 2
      (record { stored = stored-IsStored; zeros = omega arith; size = omega arith; text = refl })
      refl refl refl (inr (codes "1/ann/hi", omega arith, refl)) (omega arith) (omega arith) refl

sighup_handler-recovers_example :
    (v : World) × (sighup_handler 2 (λ q. some (relieved q)) 18 2 files (world [] []) running
      ≡ ok v)
    × (v.config ≡ record (by_default stored) { daemon = false })
    × (v.msg_number ≡ pos 2)
unfolding save_msg_write bbserver.Text.to_string
sighup_handler-recovers_example =
    sighup_handler-recovers relieved (λ q. entered-taken q pending) 2 18 2 files (world [] [])
      running stored one_line (codes "1/ann/hi\n") (codes "bob/yo") 2 (omega arith)
      (record { stored = stored-IsStored; zeros = omega arith; size = omega arith; text = refl })
      refl refl (inr (codes "1/ann/hi", omega arith, refl)) (omega arith) (omega arith) refl
