-- ===== src/Msg/Slave.antt =====
-- msg.cpp: `process_sync_slave_msg`, what a slave does on a message of its master.
pub mod Commit
use bbserver.Base.{
  ℕ, zero, suc, ◌+◌, ◌-◌, ◌*◌, ◌/◌, ◌%◌, ◌^◌, ◌≤◌, ◌<◌, ◌≡◌, refl, sym, ap, ◌∙◌, ◌≢◌, ◌↔◌, ◌⊎◌, inl,
  inr, Bool, true, false, not, ◌&&◌, ◌||◌, Option, none, some, List, [], ◌∷◌, ◌++◌, map, append-nil,
  append_assoc, arith, ltb, leb, ◌==◌, if◌then◌else◌, ltb→lt, lt→ltb, ==_iff, ==_refl, Bool-cases,
  Option-cases, length, get_elem?, take, drop, replicate, any_of, all_of, count_of, first_of_list,
  length-append, take-append, drop-append, length-replicate, All, Bytes, codes, bytes_eq,
  bytes_eq_refl, bytes_eq→eq, Lacks, Lacks-append, Fault, out_of_range, invalid_argument, undefined,
  spinning, exited, Result, ok, err, ◌>>=◌, deref, ℤ, pos, negsuc, int_max, eq_ℤ, is_neg, is_pos,
  eq_ℤ_iff, eq_ℤ_refl,
}
use bbserver.Text.{substr, before_slash, has_prefix}
use bbserver.Types.{
  ClientCb, SyncState, sync_idle, sync_s_precommit_received, sync_s_precommit_ack, sync_s_commited,
  is_state, debug_level_d,
}
use bbserver.World.{World, logs}
use bbserver.Board.{save_msg_write, save_msg_replace}
use bbserver.Clients.{sync_set_slave_state}
use bbserver.MsgNumber.{update_msg_number}
use bbserver.Msg.Strip.{strip_line}

-- The world, the text put into `response`, and the value returned.
abbrev pub Reply : Type 0
Reply = World × Bytes × ℤ

-- `sync_set_slave_state(pClient, state)`
abbrev pub set_slave : World → ClientCb → SyncState → World
set_slave w c s = (sync_set_slave_state w (some c.addr) s).0

abbrev pub precommit : World → ClientCb → Reply
precommit w c = (
  set_slave (set_slave w c sync_s_precommit_received) c sync_s_precommit_ack,
  codes "5.0 PRECOMMIT ACK",
  pos 0,
)

-- The answer to COMMIT WRITE, by what `save_msg_write` returned.
abbrev pub write_answer : ℤ → Bytes
write_answer ret =
    if eq_ℤ ret (pos 0) then codes "6.0 COMMITED SUCCESS" else codes "6.1 COMMITED UNSUCCESS"

-- The answer to COMMIT REPLACE, by what `save_msg_replace` returned.
abbrev pub replace_answer : ℤ → Bytes
replace_answer ret =
    if eq_ℤ ret (pos 0)
    then codes "6.0 COMMITED SUCCESS"
    else if eq_ℤ ret (negsuc 0)
    then codes "6.2 COMMITED UNSUCCESS UNKNOWN"
    else codes "6.1 COMMITED UNSUCCESS"

-- The branch COMMIT WRITE behind its guard.
unfoldable pub commit_write : World → ClientCb → Bytes → Result Reply
commit_write w c msg = do
  body ← substr msg 13 (length msg - 12)
  r ← update_msg_number (set_slave w c sync_s_commited) (before_slash body)
  let saved = save_msg_write (r.0).file body
  ok (record (r.0) { file = saved.0 }, write_answer saved.1 ++ b' ' ∷ before_slash body, pos 0)

-- The branch COMMIT REPLACE behind its guard.
unfoldable pub commit_replace : World → ClientCb → Bytes → Result Reply
commit_replace w c msg = do
  body ← substr msg 15 (length msg - 14)
  let w' = set_slave w c sync_s_commited
  let saved = save_msg_replace w'.file body
  ok (record w' { file = saved.0 }, replace_answer saved.1 ++ b' ' ∷ before_slash body, pos 0)

-- `if(SYNC_S_PRECOMMIT_ACK != state){ LOG(DEBUG_LEVEL_D){ …; return -1; } }`: the return is a part
-- of what is logged, so it is taken only if the debug level is at least 1.
abbrev pub turned_away : World → ClientCb → Bool
turned_away w c = not (is_state sync_s_precommit_ack c.slave_state) && logs w debug_level_d

-- END SUCCESS and END UNSUCCESS, whose keyword has the given length: the number must be there.
abbrev pub finish : World → ClientCb → Bytes → ℕ → Result Reply
finish w c msg n = do
  number ← substr msg (n + 1) (length msg - n)
  ok (set_slave w c sync_idle, [], pos 0)

unfoldable pub slave_msg : World → ClientCb → Bytes → Result Reply
unfolding commit_write commit_replace
slave_msg w c msg =
    if bytes_eq msg (codes "PRECOMMIT")
    then ok (precommit w c)
    else if bytes_eq msg (codes "ABORT")
    then ok (set_slave w c sync_idle, [], pos 0)
    else if has_prefix msg (codes "COMMIT WRITE")
    then (if turned_away w c then ok (w, [], negsuc 0) else commit_write w c msg)
    else if has_prefix msg (codes "COMMIT REPLACE")
    then (if turned_away w c then ok (w, [], negsuc 0) else commit_replace w c msg)
    else if has_prefix msg (codes "END SUCCESS")
    then finish w c msg 11
    else if has_prefix msg (codes "END UNSUCCESS")
    then finish w c msg 13
    else ok (w, [], pos 0)

-- `process_sync_slave_msg`, for the client that the pointer leads to and the bytes received
unfoldable pub process_sync_slave_msg : World → ClientCb → Bytes → Result Reply
unfolding slave_msg
process_sync_slave_msg w c buf = do msg ← strip_line buf; slave_msg w c msg
