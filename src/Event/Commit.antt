-- ===== src/Event/Commit.antt =====
-- event.cpp: the master's side of a two-phase commit. Each handler is a loop that takes the first
-- waiting client, over and over; `n` bounds its rounds.
pub mod Phase
pub mod Save
pub mod Fail
pub mod Agreement
use bbserver.Base.{
  ℕ, zero, suc, ◌+◌, ◌-◌, ◌*◌, ◌/◌, ◌%◌, ◌^◌, ◌≤◌, ◌<◌, ◌≡◌, refl, sym, ap, ◌∙◌, ◌≢◌, ◌↔◌, ◌⊎◌, inl,
  inr, Bool, true, false, not, ◌&&◌, ◌||◌, Option, none, some, List, [], ◌∷◌, ◌++◌, map, append-nil,
  append_assoc, arith, ltb, leb, ◌==◌, if◌then◌else◌, ltb→lt, lt→ltb, ==_iff, ==_refl, Bool-cases,
  Option-cases, length, get_elem?, take, drop, replicate, any_of, all_of, count_of, first_of_list,
  length-append, take-append, drop-append, length-replicate, All, Bytes, codes, bytes_eq,
  bytes_eq_refl, bytes_eq→eq, Lacks, Lacks-append, Fault, out_of_range, invalid_argument, undefined,
  spinning, exited, Result, ok, err, ◌>>=◌, deref, ℤ, pos, negsuc, int_max, eq_ℤ, is_neg, is_pos,
  eq_ℤ_iff, eq_ℤ_refl,
}
use bbserver.Text.{has_prefix, before_slash}
use bbserver.Types.{
  ClientCb, ClientEventCb, ClientCmdType, cmd_unset, client_cmd_write, client_cmd_replace,
  sync_u_waiting_save,
}
use bbserver.World.{World, Os}
use bbserver.Board.{save_msg_write, save_msg_replace}
use bbserver.Clients.{
  sync_set_client_state, sync_clear_client_cmd, sync_find_waiting_commit_user_client,
  sync_find_waiting_save_user_client, waits_commit, waits_save,
}
use bbserver.Servers.{sync_send_commit, sync_send_abort, sync_send_success}
use bbserver.Event.Peers.{send_response_to_client}

-- The round of `proc_sync_ev_precommit_ack` for one client.
unfoldable pub commit_client : Os → World → ClientCb → World
unfolding sync_send_commit sync_set_client_state
commit_client os w c =
    (sync_set_client_state (sync_send_commit os w c.cmd c.msg).0 (some c.addr)
      sync_u_waiting_save).0

unfoldable pub proc_sync_ev_precommit_ack : ℕ → Os → World → Result World
unfolding commit_client
proc_sync_ev_precommit_ack zero os w = err spinning
proc_sync_ev_precommit_ack (suc n) os w = elim (first_of_list waits_commit w.clients) [
  | none ↦ ok w
  | some c ↦ proc_sync_ev_precommit_ack n os (commit_client os w c)
]

-- The round of `proc_sync_ev_precommit_err` for one client.
unfoldable pub refuse_client : World → ClientCb → World
unfolding send_response_to_client sync_clear_client_cmd
refuse_client w c =
    (sync_clear_client_cmd (send_response_to_client w c (codes "3.2 ERROR WRITE")) (some c.addr)).0

unfoldable pub refuse_loop : ℕ → World → Result World
unfolding refuse_client
refuse_loop zero w = err spinning
refuse_loop (suc n) w = elim (first_of_list waits_commit w.clients) [
  | none ↦ ok w
  | some c ↦ refuse_loop n (refuse_client w c)
]

unfoldable pub proc_sync_ev_precommit_err : ℕ → Os → World → Result World
unfolding refuse_loop sync_send_abort
proc_sync_ev_precommit_err n os w = refuse_loop n (sync_send_abort os w).0

-- What the master did with the message: its world, the response, `isSuccess`.
pub record Saved : Type 0 where
  pub world : World
  pub response : Bytes
  pub success : Bool

abbrev pub saved_write : Bytes → ℤ → World → Saved
saved_write m ret w =
    if eq_ℤ ret (pos 0)
    then record { world = w; response = codes "3.0 WROTE " ++ before_slash m; success = true }
    else record { world = w; response = codes "3.2 ERROR WRITE"; success = false }

abbrev pub saved_replace : Bytes → ℤ → World → Saved
saved_replace m ret w =
    if eq_ℤ ret (pos 0)
    then record { world = w; response = codes "3.0 WROTE " ++ before_slash m; success = true }
    else if eq_ℤ ret (negsuc 0)
    then record { world = w; response = codes "3.1 UNKNOWN " ++ before_slash m; success = false }
    else record { world = w; response = codes "3.2 ERROR WRITE"; success = false }

-- With no command `isSuccess` is read before it is set.
unfoldable pub save_client : World → ClientCmdType → Bytes → Result Saved
save_client w client_cmd_write m =
    let f = save_msg_write w.file m in ok (saved_write m f.1 (record w { file = f.0 }))
save_client w client_cmd_replace m =
    let f = save_msg_replace w.file m in ok (saved_replace m f.1 (record w { file = f.0 }))
save_client w cmd_unset m = err undefined

-- The END message to the servers, the response to the client, and the command cleared.
unfoldable pub conclude : Os → ClientCb → Bytes → Saved → World
unfolding sync_send_success send_response_to_client sync_clear_client_cmd
conclude os c number s =
    (sync_clear_client_cmd
      (send_response_to_client (sync_send_success os s.world s.success number).0 c s.response)
      (some c.addr)).0

-- `continue` leaves the client where it is, so that the next round finds it again.
unfoldable pub proc_sync_ev_commit_success : ℕ → Os → World → ClientEventCb → Result World
unfolding save_client conclude
proc_sync_ev_commit_success zero os w ev = err spinning
proc_sync_ev_commit_success (suc n) os w ev = elim (first_of_list waits_save w.clients) [
  | none ↦ ok w
  | some c ↦ elim (bytes_eq ev.msg_number c.msg_number) [
    | false ↦ proc_sync_ev_commit_success n os w ev
    | true ↦ do
      s ← save_client w c.cmd c.msg
      proc_sync_ev_commit_success n os (conclude os c ev.msg_number s) ev
  ]
]

-- The response of `proc_sync_ev_commit_unsuccess`.
abbrev pub failed_response : ClientEventCb → ClientCb → ClientCmdType → Bytes
failed_response ev c client_cmd_write = codes "3.2 ERROR WRITE"
failed_response ev c client_cmd_replace =
    if has_prefix ev.response (codes "6.2 COMMITED UNSUCCESS UNKNOWN")
    then codes "3.1 UNKNOWN " ++ c.msg_number
    else codes "3.2 ERROR WRITE"
failed_response ev c cmd_unset = []

unfoldable pub fail_client : Os → World → ClientEventCb → ClientCb → World
unfolding send_response_to_client sync_clear_client_cmd sync_send_success
fail_client os w ev c =
    (sync_send_success os
      (sync_clear_client_cmd (send_response_to_client w c (failed_response ev c c.cmd))
        (some c.addr)).0
      false ev.msg_number).0

unfoldable pub proc_sync_ev_commit_unsuccess : ℕ → Os → World → ClientEventCb → Result World
unfolding fail_client
proc_sync_ev_commit_unsuccess zero os w ev = err spinning
proc_sync_ev_commit_unsuccess (suc n) os w ev = elim (first_of_list waits_save w.clients) [
  | none ↦ ok w
  | some c ↦ elim (not (length ev.msg_number == 0) && not (bytes_eq ev.msg_number c.msg_number)) [
    | true ↦ proc_sync_ev_commit_unsuccess n os w ev
    | false ↦ proc_sync_ev_commit_unsuccess n os (fail_client os w ev c) ev
  ]
]
