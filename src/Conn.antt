-- ===== src/Conn.antt =====
-- connection.cpp: the table of connections, the set for select, and a round of the service loop.
-- A descriptor set is the list of its members; `close` and `select` themselves are system calls.
pub mod Table
use bbserver.Base.{
  ℕ, zero, suc, ◌+◌, ◌-◌, ◌*◌, ◌/◌, ◌%◌, ◌^◌, ◌≤◌, ◌<◌, ◌≡◌, refl, sym, ap, ◌∙◌, ◌≢◌, ◌↔◌, ◌⊎◌, inl,
  inr, Bool, true, false, not, ◌&&◌, ◌||◌, Option, none, some, List, [], ◌∷◌, ◌++◌, map, append-nil,
  append_assoc, arith, ltb, leb, ◌==◌, if◌then◌else◌, ltb→lt, lt→ltb, ==_iff, ==_refl, Bool-cases,
  Option-cases, length, get_elem?, take, drop, replicate, any_of, all_of, count_of, first_of_list,
  length-append, take-append, drop-append, length-replicate, All, Bytes, codes, bytes_eq,
  bytes_eq_refl, bytes_eq→eq, Lacks, Lacks-append, Fault, out_of_range, invalid_argument, undefined,
  spinning, Result, ok, err, ◌>>=◌, deref, ℤ, pos, negsuc, int_max, eq_ℤ, is_neg, is_pos, eq_ℤ_iff,
  eq_ℤ_refl,
}
use bbserver.Types.{ClientEventCb, client_user, client_sync_slave, ev_accept, ev_recv, max_conn}

-- `connections` and `read_fd_set`
pub record ConnTable : Type 0 where
  pub connections : List ℤ
  pub read_fd_set : List ℤ

abbrev pub free_slot : ℤ
free_slot = negsuc 0

-- FD_ISSET
abbrev pub fd_isset : ℤ → List ℤ → Bool
fd_isset fd = any_of (eq_ℤ fd)

-- FD_CLR
abbrev pub fd_clr : ℤ → List ℤ → List ℤ
fd_clr fd [] = []
fd_clr fd (x ∷ s) = if eq_ℤ fd x then fd_clr fd s else x ∷ fd_clr fd s

-- `conn_init`: every slot free, the set empty
unfoldable pub conn_init : ConnTable
conn_init = record { connections = replicate max_conn free_slot; read_fd_set = [] }

-- The loop of `conn_set_fdset`: what it adds to the set.
unfoldable pub conn_set_fdset : List ℤ → List ℤ
conn_set_fdset [] = []
conn_set_fdset (x ∷ s) = if is_neg x then conn_set_fdset s else x ∷ conn_set_fdset s

unfoldable pub conn_is_exist : List ℤ → ℤ → Bool
conn_is_exist s fd = if is_neg fd then false else any_of (eq_ℤ fd) s

-- The loop of `conn_add`: the first free slot takes the descriptor; a full table does not.
unfoldable pub fill_slot : ℤ → List ℤ → List ℤ
fill_slot fd [] = []
fill_slot fd (x ∷ s) = if is_neg x then fd ∷ s else x ∷ fill_slot fd s

unfoldable pub conn_add : ConnTable → ℤ → ConnTable
unfolding fill_slot conn_is_exist
conn_add t fd =
    if conn_is_exist t.connections fd
    then t
    else record t { connections = fill_slot fd t.connections; read_fd_set = fd ∷ t.read_fd_set }

-- The loop of `conn_del`: every slot with the descriptor is freed.
unfoldable pub free_slots : ℤ → List ℤ → List ℤ
free_slots fd [] = []
free_slots fd (x ∷ s) = (if eq_ℤ x fd then free_slot else x) ∷ free_slots fd s

unfoldable pub conn_del : ConnTable → ℤ → ConnTable
unfolding free_slots conn_is_exist
conn_del t fd =
    if conn_is_exist t.connections fd
    then record t {
      connections = free_slots fd t.connections;
      read_fd_set = fd_clr fd t.read_fd_set;
    }
    else t

-- `conn_close_all`: descriptor 0 is not closed
abbrev pub close_slots : List ℤ → List ℤ
close_slots [] = []
close_slots (x ∷ s) = (if is_pos x then free_slot else x) ∷ close_slots s

unfoldable pub conn_close_all : ConnTable → ConnTable
conn_close_all t = record { connections = close_slots t.connections; read_fd_set = [] }

abbrev pub accept_event : ℤ → Bool → ClientEventCb
accept_event fd user = record {
  fd = some fd;
  event = ev_accept;
  type = some (if user then client_user else client_sync_slave);
  msg_number = [];
  response = [];
}

abbrev pub recv_event : ℤ → ClientEventCb
recv_event fd = record {
  fd = some fd;
  event = ev_recv;
  type = none;
  msg_number = [];
  response = [];
}

-- The loop of `conn_check_fd_set` over the slots from 2 on.
pub ready_events : List ℤ → List ℤ → List ClientEventCb
ready_events ready [] = []
ready_events ready (x ∷ s) =
    if is_pos x && fd_isset x ready
    then recv_event x ∷ ready_events ready s
    else ready_events ready s

unfoldable pub conn_check_fd_set : List ℤ → List ℤ → List ClientEventCb
unfolding ready_events
conn_check_fd_set connections ready = ready_events ready (drop 2 connections)

-- The events that a round of `start_conn_service` enqueues, in order, when select has returned the
-- ready set, or `none` for an error.
unfoldable pub service_round : List ℤ → ℤ → ℤ → Option (List ℤ) → List ClientEventCb
unfolding conn_check_fd_set
service_round connections server_fd sync_server_fd none = []
service_round connections server_fd sync_server_fd (some ready) =
    if fd_isset server_fd ready
    then accept_event server_fd true ∷ []
    else if fd_isset sync_server_fd ready
    then accept_event sync_server_fd false ∷ []
    else conn_check_fd_set connections ready
