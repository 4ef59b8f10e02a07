-- ===== src/Msg/Master.antt =====
-- msg.cpp: `process_sync_master_msg`, what the master does on an answer of a slave.
pub mod Round
pub mod Passed
pub mod Orders
pub mod Votes
use bbserver.Base.{
  ℕ, zero, suc, ◌+◌, ◌-◌, ◌*◌, ◌/◌, ◌%◌, ◌^◌, ◌≤◌, ◌<◌, ◌≡◌, refl, sym, ap, ◌∙◌, ◌≢◌, ◌↔◌, ◌⊎◌, inl,
  inr, Bool, true, false, not, ◌&&◌, ◌||◌, Option, none, some, List, [], ◌∷◌, ◌++◌, map, append-nil,
  append_assoc, arith, ltb, leb, ◌==◌, if◌then◌else◌, ltb→lt, lt→ltb, ==_iff, ==_refl, Bool-cases,
  Option-cases, length, get_elem?, take, drop, replicate, any_of, all_of, count_of, first_of_list,
  length-append, take-append, drop-append, length-replicate, All, Bytes, codes, bytes_eq,
  bytes_eq_refl, bytes_eq→eq, Lacks, Lacks-append, Fault, out_of_range, invalid_argument, undefined,
  spinning, exited, Result, ok, err, ◌>>=◌, deref, ℤ, pos, negsuc, int_max, eq_ℤ, is_neg, is_pos,
  eq_ℤ_iff, eq_ℤ_refl,
}
use bbserver.Text.{substr, has_prefix}
use bbserver.Types.{
  ClientCb, SyncServerCb, SyncState, ClientEvType, ev_sync_precommit_ack, ev_sync_precommit_err,
  ev_sync_commit_success, ev_sync_commit_unsuccess, sync_m_precommited, sync_m_precommit_unsuccess,
  sync_m_operation_performed, sync_m_operation_unsuccess, is_state,
}
use bbserver.World.{World}
use bbserver.Servers.{
  sync_server_list_find, sync_server_list_set_state, sync_check_server_state, sync_set_master_state,
  sync_get_master_state, sync_send_event,
}
use bbserver.Msg.Strip.{strip_line}

-- What the branches need: the client, its message, the server found by its descriptor.
pub record Answer : Type 0 where
  pub client : ClientCb
  pub msg : Bytes
  pub server : Option SyncServerCb

abbrev pub set_server : World → Answer → SyncState → World
set_server w a s = (sync_server_list_set_state w a.server s).0

-- A good answer: when every server has given it, the master goes on, and the event says so.
unfoldable pub all_answered : World → Answer → SyncState → ClientEvType → Bytes → World
all_answered w a s e number =
    let w' = set_server w a s in
    if sync_check_server_state w'.servers s
    then sync_send_event (sync_set_master_state w' s) e number a.client.fd a.msg
    else w'

-- A bad answer: the first one stops the master, and only that one makes an event.
unfoldable pub one_failed : World → Answer → SyncState → ClientEvType → Bytes → World
one_failed w a s e number =
    let w' = set_server w a s in
    if is_state (sync_get_master_state w') s
    then w'
    else sync_send_event (sync_set_master_state w' s) e number a.client.fd a.msg

-- The number behind a keyword of the given length and a blank.
abbrev pub number_behind : Bytes → ℕ → Result Bytes
number_behind msg n = substr msg (n + 1) (length msg - n)

unfoldable pub master_msg : World → Answer → Result World
unfolding all_answered one_failed
master_msg w a =
    if bytes_eq a.msg (codes "5.0 PRECOMMIT ACK")
    then ok (all_answered w a sync_m_precommited ev_sync_precommit_ack [])
    else if bytes_eq a.msg (codes "5.1 ERROR PRECOMMIT")
    then ok (one_failed w a sync_m_precommit_unsuccess ev_sync_precommit_err [])
    else if has_prefix a.msg (codes "6.0 COMMITED SUCCESS")
    then (do
      n ← number_behind a.msg 20
      ok (all_answered w a sync_m_operation_performed ev_sync_commit_success n))
    else if has_prefix a.msg (codes "6.1 COMMITED UNSUCCESS")
    then (do
      n ← number_behind a.msg 22
      ok (one_failed w a sync_m_operation_unsuccess ev_sync_commit_unsuccess n))
    else if has_prefix a.msg (codes "6.2 COMMITED UNSUCCESS UNKNOWN")
    then (do
      n ← number_behind a.msg 30
      ok (one_failed w a sync_m_operation_unsuccess ev_sync_commit_unsuccess n))
    else ok w

-- `process_sync_master_msg`; it leaves the response empty and returns 0
unfoldable pub process_sync_master_msg : World → ClientCb → Bytes → Result World
unfolding master_msg
process_sync_master_msg w c buf = do
  msg ← strip_line buf
  master_msg w (record { client = c; msg = msg; server = sync_server_list_find w c.fd })
