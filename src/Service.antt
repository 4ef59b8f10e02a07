-- ===== src/Service.antt =====
-- connection.cpp: the listening sockets and the table as `start_conn_service` sets them up, and
-- what shutdown closes.
pub mod Close
pub mod Setup
use bbserver.Base.{
  ℕ, zero, suc, ◌+◌, ◌-◌, ◌*◌, ◌/◌, ◌%◌, ◌^◌, ◌≤◌, ◌<◌, ◌≡◌, refl, sym, ap, ◌∙◌, ◌≢◌, ◌↔◌, ◌⊎◌, inl,
  inr, Bool, true, false, not, ◌&&◌, ◌||◌, Option, none, some, List, [], ◌∷◌, ◌++◌, map, append-nil,
  append_assoc, arith, ltb, leb, ◌==◌, if◌then◌else◌, ltb→lt, lt→ltb, ==_iff, ==_refl, Bool-cases,
  Option-cases, length, get_elem?, take, drop, replicate, any_of, all_of, count_of, first_of_list,
  length-append, take-append, drop-append, length-replicate, All, Bytes, codes, bytes_eq,
  bytes_eq_refl, bytes_eq→eq, Lacks, Lacks-append, Fault, out_of_range, invalid_argument, undefined,
  spinning, exited, Result, ok, err, ◌>>=◌, deref, ℤ, pos, negsuc, int_max, eq_ℤ, is_neg, is_pos,
  eq_ℤ_iff, eq_ℤ_refl,
}
use bbserver.Types.{ClientEventCb, max_conn}
use bbserver.World.{
  World, Os, SysCall, socket_call, setsockopt_call, bind_call, listen_call, close_call, called,
}
use bbserver.Conn.{
  ConnTable, conn_init, conn_add, fill_slot, conn_close_all, conn_check_fd_set, free_slot,
}

-- `create_tcp_server_sock` behind the socket, with CHECK_EXIT around bind and listen; htons takes
-- the port in 16 bits.
abbrev pub listen_on : Os → World → ℕ → ℕ → Result (World × ℤ)
listen_on os w fd port =
    let c = setsockopt_call fd ∷ w.calls in
    let b = bind_call fd (port % 2 ^ 16) ∷ c in
    if not (os.binds c fd (port % 2 ^ 16))
    then err exited
    else if not (os.listens b fd)
    then err exited
    else ok (record w { calls = listen_call fd ∷ b }, pos fd)

abbrev pub server_sock : Os → World → ℕ → Option ℕ → Result (World × ℤ)
server_sock os w port none = err exited
server_sock os w port (some fd) = listen_on os (called w socket_call) fd port

unfoldable pub create_tcp_server_sock : Os → World → ℕ → Result (World × ℤ)
create_tcp_server_sock os w port = server_sock os w port (os.socket w.calls)

-- `start_conn_service` up to its loop: the two listening descriptors.
unfoldable pub start_conn_service : Os → World → Result (World × ℤ × ℤ)
unfolding create_tcp_server_sock conn_init conn_add
start_conn_service os w = do
  (v, server_fd) ← create_tcp_server_sock os (record w { conns = conn_init }) w.config.bb_port
  (u, sync_server_fd) ←
      create_tcp_server_sock os (record v { conns = conn_add v.conns server_fd }) v.config.sync_port
  ok (record u { conns = conn_add u.conns sync_server_fd }, server_fd, sync_server_fd)

-- The calls of `conn_close_all`, newest first, in front of those made before.
abbrev pub close_calls : List ℤ → List SysCall → List SysCall
close_calls [] log = log
close_calls (x ∷ s) log = close_calls s (if is_pos x then close_call x ∷ log else log)

-- `destroy_connection`
unfoldable pub destroy_connection : World → World
unfolding conn_close_all
destroy_connection w = record w {
  conns = conn_close_all w.conns;
  calls = close_calls w.conns.connections w.calls;
}
