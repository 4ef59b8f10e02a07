-- ===== src/Types.antt =====
-- The enumerations of common.h and sync.h and the records of list.h, queue.h and config.h.
pub mod Codes
use bbserver.Base.{
  ℕ, zero, suc, ◌+◌, ◌-◌, ◌*◌, ◌/◌, ◌%◌, ◌^◌, ◌≤◌, ◌<◌, ◌≡◌, refl, sym, ap, ◌∙◌, ◌≢◌, ◌↔◌, ◌⊎◌, inl,
  inr, Bool, true, false, not, ◌&&◌, ◌||◌, Option, none, some, List, [], ◌∷◌, ◌++◌, map, append-nil,
  append_assoc, arith, ltb, leb, ◌==◌, if◌then◌else◌, ltb→lt, lt→ltb, ==_iff, ==_refl, Bool-cases,
  Option-cases, length, get_elem?, take, drop, replicate, any_of, all_of, count_of, first_of_list,
  length-append, take-append, drop-append, length-replicate, All, Bytes, codes, bytes_eq,
  bytes_eq_refl, bytes_eq→eq, Lacks, Lacks-append, Fault, out_of_range, invalid_argument, undefined,
  spinning, Result, ok, err, ◌>>=◌, deref, ℤ, pos, negsuc, int_max, eq_ℤ, is_neg, is_pos, eq_ℤ_iff,
  eq_ℤ_refl,
}

-- `clientType`
pub data ClientType : Type 0 where
  client_user client_sync_master client_sync_slave : ClientType

-- `clientCmdType`; `cmd_unset` is the 0 that memset leaves in a new client.
pub data ClientCmdType : Type 0 where
  cmd_unset client_cmd_write client_cmd_replace : ClientCmdType

-- `clientEvType`
pub data ClientEvType : Type 0 where
  ev_accept ev_recv : ClientEvType
  ev_sync_precommit_ack ev_sync_precommit_err : ClientEvType
  ev_sync_commit_success ev_sync_commit_unsuccess : ClientEvType
  ev_sync_timeout_master ev_sync_timeout_slave : ClientEvType

-- `syncState`; `sync_null` is the 0 that memset leaves in a new client.
pub data SyncState : Type 0 where
  sync_null sync_disconnect sync_idle : SyncState
  sync_m_precommit_multicasted sync_m_precommited sync_m_precommit_unsuccess : SyncState
  sync_m_commited sync_m_operation_performed sync_m_operation_unsuccess : SyncState
  sync_s_precommit_received sync_s_precommit_ack sync_s_commited sync_s_undo : SyncState
  sync_u_waiting_commit sync_u_waiting_save sync_u_saving sync_u_saved sync_max : SyncState

-- The values of the enumerators.
abbrev pub sync_code : SyncState → ℕ
sync_code sync_null = 0
sync_code sync_disconnect = 1
sync_code sync_idle = 2
sync_code sync_m_precommit_multicasted = 3
sync_code sync_m_precommited = 4
sync_code sync_m_precommit_unsuccess = 5
sync_code sync_m_commited = 6
sync_code sync_m_operation_performed = 7
sync_code sync_m_operation_unsuccess = 8
sync_code sync_s_precommit_received = 9
sync_code sync_s_precommit_ack = 10
sync_code sync_s_commited = 11
sync_code sync_s_undo = 12
sync_code sync_u_waiting_commit = 13
sync_code sync_u_waiting_save = 14
sync_code sync_u_saving = 15
sync_code sync_u_saved = 16
sync_code sync_max = 17

-- `==` on the enumerations compares the values.
abbrev pub is_state : SyncState → SyncState → Bool
is_state a b = sync_code a == sync_code b

abbrev pub is_user : ClientType → Bool
is_user client_user = true
is_user client_sync_master = false
is_user client_sync_slave = false

abbrev pub is_slave : ClientType → Bool
is_slave client_user = false
is_slave client_sync_master = false
is_slave client_sync_slave = true

-- `clientCB`. `addr` stands for the node's address: a pointer to a client is its address.
pub record ClientCb : Type 0 where
  pub addr : ℕ
  pub fd : ℤ
  pub type : ClientType
  pub cmd : ClientCmdType
  pub slave_state : SyncState
  pub name : Bytes
  pub ip : Bytes
  pub port : ℕ
  pub slave_timeout : Bool
  pub msg_number : Bytes
  pub msg : Bytes

-- `syncServerCB`
pub record SyncServerCb : Type 0 where
  pub addr : ℕ
  pub fd : ℤ
  pub hostname : Bytes
  pub ip : Bytes
  pub port : ℕ
  pub state : SyncState
  pub master_state : SyncState

-- `clientEventCB`. A field that the sender leaves as `new` made it is `none`.
pub record ClientEventCb : Type 0 where
  pub fd : Option ℤ
  pub event : ClientEvType
  pub type : Option ClientType
  pub msg_number : Bytes
  pub response : Bytes

-- `sysCfg`, less `maxConnections`, which nothing reads.
pub record SysCfg : Type 0 where
  pub th_max : ℕ
  pub bb_port : ℕ
  pub sync_port : ℕ
  pub bb_file : Bytes
  pub peers : Bytes
  pub daemon : Bool
  pub debug : Bool
  pub cfg_file : Bytes
  pub sync_enable : Bool
  pub debug_level : ℕ

-- `DbgLevel`
abbrev pub debug_level_none : ℕ
debug_level_none = 0

abbrev pub debug_level_d : ℕ
debug_level_d = 1

-- SYNC_STATE_TIMEOUT, in seconds
abbrev pub sync_state_timeout : ℕ
sync_state_timeout = 10

-- MAX_CONN
abbrev pub max_conn : ℕ
max_conn = 1024
