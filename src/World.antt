-- ===== src/World.antt =====
-- The state that the threads of the server share: the global variables of the sources, and the
-- system calls made so far. What a call returns is the environment's choice.
use bbserver.Base.{ℕ, Bool, Option, List, [], ◌∷◌, ◌++◌, leb, Bytes, ℤ}
use bbserver.Types.{ClientCb, SyncServerCb, ClientEventCb, SysCfg}
use bbserver.Board.{BbFile}
use bbserver.Conn.{ConnTable}

-- The calls that the environment sees, with the bytes that are sent.
pub data SysCall : Type 0 where
  socket_call : SysCall
  setsockopt_call : ℕ → SysCall
  bind_call : ℕ → ℕ → SysCall
  listen_call : ℕ → SysCall
  connect_call : ℕ → Bytes → ℕ → SysCall
  accept_call : ℤ → SysCall
  recv_call : ℤ → SysCall
  send_call : ℤ → Bytes → SysCall
  close_call : ℤ → SysCall

-- The operating system: what each call returns, after the calls made before it (newest first).
pub record Os : Type 0 where
  -- a descriptor, or -1
  pub socket : List SysCall → Option ℕ
  -- bind of a port and listen do not return -1
  pub binds : List SysCall → ℕ → ℕ → Bool
  pub listens : List SysCall → ℕ → Bool
  -- connect returns 0
  pub connects : List SysCall → ℕ → Bytes → ℕ → Bool
  -- a descriptor with the peer's address and port, or -1
  pub accept : List SysCall → ℤ → Option (ℕ × Bytes × ℕ)
  -- the bytes that recv puts into the buffer; none of them at the end of the stream; or -1
  pub recv : List SysCall → ℤ → Option Bytes
  -- send does not return -1
  pub sends : List SysCall → ℤ → Bytes → Bool

pub record World : Type 0 where
  -- `SysCfgCB`
  pub config : SysCfg
  -- `msgNumber`
  pub msg_number : ℤ
  -- `clientList`, from its head
  pub clients : List ClientCb
  -- `syncServerList`, from its head
  pub servers : List SyncServerCb
  -- `clientEvQueue`, from its head
  pub events : List ClientEventCb
  -- the file that `bbFile` names
  pub file : BbFile
  -- `connections` and `read_fd_set`
  pub conns : ConnTable
  -- the seconds that `timerid_master` and `timerid_slave` are set to; 0 when stopped
  pub timer_master : ℕ
  pub timer_slave : ℕ
  -- the address that the next `new clientCB` returns
  pub next_addr : ℕ
  -- the system calls so far, newest first
  pub calls : List SysCall

abbrev pub called : World → SysCall → World
called w c = record w { calls = c ∷ w.calls }

-- `enClientEventQueue`: at the tail
abbrev pub enqueue : World → ClientEventCb → World
enqueue w e = record w { events = w.events ++ e ∷ [] }

-- LOG(X)
abbrev pub logs : World → ℕ → Bool
logs w level = leb level w.config.debug_level
