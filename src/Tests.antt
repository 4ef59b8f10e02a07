-- ===== src/Tests.antt =====
-- Sample values: a file of two messages, clients, servers and a system whose calls succeed.
mod Files
mod Peers
mod Commands
mod Phases
mod Threads
mod Start
mod Config
mod Boot
mod Rounds
mod Runs
mod Sessions
use bbserver.Base.{
  ℕ, zero, suc, ◌+◌, ◌-◌, ◌*◌, ◌/◌, ◌%◌, ◌^◌, ◌≤◌, ◌<◌, ◌≡◌, refl, sym, ap, ◌∙◌, ◌≢◌, ◌↔◌, ◌⊎◌, inl,
  inr, Bool, true, false, not, ◌&&◌, ◌||◌, Option, none, some, List, [], ◌∷◌, ◌++◌, map, append-nil,
  append_assoc, arith, ltb, leb, ◌==◌, if◌then◌else◌, ltb→lt, lt→ltb, ==_iff, ==_refl, Bool-cases,
  Option-cases, length, get_elem?, take, drop, replicate, any_of, all_of, count_of, first_of_list,
  length-append, take-append, drop-append, length-replicate, All, Bytes, codes, bytes_eq,
  bytes_eq_refl, bytes_eq→eq, Lacks, Lacks-append, Fault, out_of_range, invalid_argument, undefined,
  spinning, exited, Result, ok, err, ◌>>=◌, deref, ℤ, pos, negsuc, int_max, eq_ℤ, is_neg, is_pos,
  eq_ℤ_iff, eq_ℤ_refl,
}
use bbserver.Types.{
  ClientCb, SyncServerCb, ClientEventCb, SysCfg, SyncState, client_user, client_sync_slave,
  cmd_unset, client_cmd_write, sync_null, sync_idle, sync_s_precommit_ack, sync_u_waiting_commit,
  sync_u_waiting_save, sync_m_precommit_multicasted, sync_m_precommited, ev_recv,
  ev_sync_commit_success,
}
use bbserver.Board.{BbFile}
use bbserver.World.{World, Os}

abbrev pub one_message : Bytes
one_message = codes "1/ann/hi"

abbrev pub two_message : Bytes
two_message = codes "2/bob/yo"

abbrev pub board_file : Bytes → BbFile
board_file s = record { content = some s; readable = true; writable = true; creatable = true }

abbrev pub board : BbFile
board = board_file (codes "1/ann/hi\n2/bob/yo\n")

-- every call succeeds, but for a send to the descriptor 13
abbrev pub os : Os
os = record {
  socket = λ log. some 20;
  binds = λ log fd port. true;
  listens = λ log fd. true;
  connects = λ log fd ip port. true;
  accept = λ log fd. none;
  recv = λ log fd. none;
  sends = λ log fd m. not (eq_ℤ fd (pos 13));
}

abbrev pub client : ℕ → SyncState → ClientCb
client a s = record {
  addr = a;
  fd = pos (4 + a);
  type = client_user;
  cmd = client_cmd_write;
  slave_state = s;
  name = codes "ann";
  ip = codes "10.0.0.1";
  port = 5000;
  slave_timeout = false;
  msg_number = codes "3";
  msg = codes "3/ann/new";
}

abbrev pub server : ℕ → SyncState → SyncServerCb
server a s = record {
  addr = a;
  fd = pos (10 + a);
  hostname = codes "peer";
  ip = codes "10.0.0.2";
  port = 10000;
  state = s;
  master_state = sync_m_precommit_multicasted;
}

abbrev pub config : SysCfg
config = record {
  th_max = 20;
  bb_port = 9000;
  sync_port = 10000;
  bb_file = codes "bbfile";
  peers = [];
  daemon = false;
  debug = false;
  cfg_file = codes "bbserv.conf";
  sync_enable = false;
  debug_level = 1;
}

abbrev pub world : List ClientCb → List SyncServerCb → World
world cs ps = record {
  config = config;
  msg_number = pos 2;
  clients = cs;
  servers = ps;
  events = [];
  file = board;
  conns = record { connections = []; read_fd_set = [] };
  timer_master = 0;
  timer_slave = 0;
  next_addr = 7;
  calls = [];
}
