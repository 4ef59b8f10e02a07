-- ===== src/Service/Setup.antt =====
-- The set-up of the service: the listening descriptors have the first two slots of the table, and
-- keep them.
use bbserver.Base.{
  ℕ, zero, suc, ◌-◌, ◌%◌, ◌^◌, ◌≤◌, ◌≡◌, refl, ap, ◌∙◌, ◌≢◌, inl, inr, true, false, some, List, [],
  ◌∷◌, arith, Bool-cases, drop, replicate, any_of, count_of, All, ok, ℤ, pos, eq_ℤ,
}
use bbserver.Types.{max_conn}
use bbserver.World.{World, Os, SysCall, socket_call, setsockopt_call, bind_call, listen_call}
use bbserver.Conn.{
  ConnTable, conn_init, conn_is_exist, conn_add, fill_slot, conn_del, free_slots, conn_check_fd_set,
  free_slot,
}
use bbserver.Conn.Table.{
  slots_of, IsTable, TableOp, adds, dels, run_table, reads, ready_events-count,
  run_table-init-IsTable,
}
use bbserver.Service.{create_tcp_server_sock, start_conn_service}

-- bind and listen succeed, whatever was called before.
pub record Listens (os : Os) : Type 0 where
  pub binds : (log : List SysCall) (fd port : ℕ) → os.binds log fd port ≡ true
  pub listens : (log : List SysCall) (fd : ℕ) → os.listens log fd ≡ true

-- The calls for one listening socket, in front of those made before.
abbrev pub listening_calls : ℕ → ℕ → List SysCall → List SysCall
listening_calls fd port log =
    listen_call fd ∷ bind_call fd (port % 2 ^ 16) ∷ setsockopt_call fd ∷ socket_call ∷ log

create_tcp_server_sock-Listens :
    (os : Os) (w : World) (port fd : ℕ)
    → Listens os
    → os.socket w.calls ≡ some fd
    → create_tcp_server_sock os w port
      ≡ ok (record w { calls = listening_calls fd port w.calls }, pos fd)
unfolding create_tcp_server_sock
create_tcp_server_sock-Listens os w port fd l e = rw e (
    rw (l.binds (setsockopt_call fd ∷ socket_call ∷ w.calls) fd (port % 2 ^ 16)) (
      rw (l.listens (bind_call fd (port % 2 ^ 16) ∷ setsockopt_call fd ∷ socket_call ∷ w.calls) fd)
        refl))

any_of-free : (n a : ℕ) → any_of (eq_ℤ (pos a)) (replicate n free_slot) ≡ false
any_of-free zero a = refl
any_of-free (suc n) a = ground (arith, any_of-free n a)

-- The table with the two descriptors in front.
abbrev pub two_slots : ℕ → ℕ → List ℤ → List ℤ → ConnTable
two_slots a b s r = record { connections = pos a ∷ pos b ∷ s; read_fd_set = r }

abbrev one_slot : ℕ → List ℤ → List ℤ → ConnTable
one_slot a s r = record { connections = pos a ∷ s; read_fd_set = r }

conn_add-first :
    (n a : ℕ) (r : List ℤ)
    → conn_add (record { connections = replicate (suc n) free_slot; read_fd_set = r }) (pos a)
      ≡ one_slot a (replicate n free_slot) (pos a ∷ r)
unfolding conn_add conn_is_exist fill_slot
conn_add-first n a r = rw (any_of-free n a) refl

conn_add-second :
    (n a b : ℕ) (r : List ℤ)
    → a ≢ b
    → conn_add (one_slot a (replicate (suc n) free_slot) r) (pos b)
      ≡ two_slots a b (replicate n free_slot) (pos b ∷ r)
unfolding conn_add conn_is_exist fill_slot
conn_add-second n a b r h = ground (arith, h, any_of-free n b)

-- The world with the board's socket in the table.
abbrev after_first : World → ℕ → World
after_first w a = record w {
  conns = one_slot a (replicate 1023 free_slot) (pos a ∷ []);
  calls = listening_calls a w.config.bb_port w.calls;
}

-- `start_conn_service` up to its loop on an Os whose sockets are two different descriptors that can
-- listen: the board's socket has the first slot of the table and the peers' the second, every other
-- slot is free, and the system calls are those for the two ports, the board's first.
pub start_conn_service-Listens :
    (os : Os) (w : World) (a b : ℕ)
    → Listens os
    → os.socket w.calls ≡ some a
    → os.socket (listening_calls a w.config.bb_port w.calls) ≡ some b
    → a ≢ b
    → start_conn_service os w
      ≡ ok (
        record w {
          conns = two_slots a b (replicate (max_conn - 2) free_slot) (pos b ∷ pos a ∷ []);
          calls = listening_calls b w.config.sync_port (listening_calls a w.config.bb_port w.calls);
        },
        pos a,
        pos b,
      )
unfolding start_conn_service conn_init
start_conn_service-Listens os w a b l e f h =
    rw (create_tcp_server_sock-Listens os (record w { conns = conn_init }) w.config.bb_port a l e) (
      rw (conn_add-first 1023 a []) (
        rw (create_tcp_server_sock-Listens os (after_first w a) w.config.sync_port b l f)
          (rw (conn_add-second 1022 a b (pos a ∷ []) h) refl)))

-- The table starts with the two descriptors.
abbrev pub Leads : ℕ → ℕ → List ℤ → Type 0
Leads a b s = (rest : List ℤ) × (s ≡ pos a ∷ pos b ∷ rest)

-- An operation that closes neither of the two.
abbrev pub Spares : ℕ → ℕ → TableOp → Type 0
Spares a b (adds n) = Unit {0}
Spares a b (dels fd) = (eq_ℤ (pos a) fd ≡ false) × (eq_ℤ (pos b) fd ≡ false)

conn_add-Leads :
    (a b n : ℕ) (t : ConnTable)
    → Leads a b t.connections
    → Leads a b (conn_add t (pos n)).connections
unfolding conn_add fill_slot
conn_add-Leads a b n t (rest, e) = elim (Bool-cases (conn_is_exist t.connections (pos n))) [
  | inl i ↦ rw i (rest, e)
  | inr i ↦ rw i (fill_slot (pos n) rest, ap (fill_slot (pos n)) e)
]

free_slots-others :
    (a b : ℕ) (fd : ℤ) (rest : List ℤ)
    → (eq_ℤ (pos a) fd ≡ false) × (eq_ℤ (pos b) fd ≡ false)
    → free_slots fd (pos a ∷ pos b ∷ rest) ≡ pos a ∷ pos b ∷ free_slots fd rest
unfolding free_slots
free_slots-others a b fd rest s = rw (s.0, s.1) refl

conn_del-Leads :
    (a b : ℕ) (fd : ℤ) (t : ConnTable)
    → (eq_ℤ (pos a) fd ≡ false) × (eq_ℤ (pos b) fd ≡ false)
    → Leads a b t.connections
    → Leads a b (conn_del t fd).connections
unfolding conn_del free_slots
conn_del-Leads a b fd t s (rest, e) = elim (Bool-cases (conn_is_exist t.connections fd)) [
  | inl i ↦ rw i (free_slots fd rest, ap (free_slots fd) e ∙ free_slots-others a b fd rest s)
  | inr i ↦ rw i (rest, e)
]

run_table-Leads :
    (a b : ℕ) (ops : List TableOp) (t : ConnTable)
    → All (Spares a b) ops
    → Leads a b t.connections
    → Leads a b (run_table t ops).connections
unfolding run_table
run_table-Leads a b [] t s l = l
run_table-Leads a b (adds n ∷ ops) t s l =
    run_table-Leads a b ops (conn_add t (pos n)) s.1 (conn_add-Leads a b n t l)
run_table-Leads a b (dels fd ∷ ops) t s l =
    run_table-Leads a b ops (conn_del t fd) s.1 (conn_del-Leads a b fd t s.0 l)

conn_init-Leads :
    (a b : ℕ) → a ≢ b → Leads a b (conn_add (conn_add conn_init (pos a)) (pos b)).connections
unfolding conn_init
conn_init-Leads a b h = (
  replicate 1022 free_slot,
  ap (λ t. (conn_add t (pos b)).connections) (conn_add-first 1023 a [])
      ∙ ap (λ t. t.connections) (conn_add-second 1022 a b (pos a ∷ []) h),
)

slots_of-rest :
    (a b : ℕ) (s : List ℤ)
    → Leads a b s
    → slots_of (pos a) s ≤ 1
    → slots_of (pos b) s ≤ 1
    → (slots_of (pos a) (drop 2 s) ≡ 0) × (slots_of (pos b) (drop 2 s) ≡ 0)
slots_of-rest a b s (rest, e) oa ob =
    rw e (ground (arith, oa, ap (slots_of (pos a)) e), ground (arith, ob, ap (slots_of (pos b)) e))

conn_check_fd_set-count :
    (n : ℕ) (s ready : List ℤ)
    → slots_of (pos (suc n)) (drop 2 s) ≡ 0
    → count_of (reads (suc n)) (conn_check_fd_set s ready) ≡ 0
unfolding conn_check_fd_set
conn_check_fd_set-count n s ready h = ground (arith, ready_events-count ready (drop 2 s) n)

-- Once the service has its two listening descriptors and until one of them is closed, whatever else
-- is added to the table or deleted from it, the scan for received data enqueues no receive event
-- for either of the two.
pub listening-unread :
    (a b : ℕ) (ops : List TableOp) (ready : List ℤ)
    → suc a ≢ suc b
    → All (Spares (suc a) (suc b)) ops
    → (count_of (reads (suc a)) (
          conn_check_fd_set
            (run_table conn_init (adds (suc a) ∷ adds (suc b) ∷ ops)).connections
            ready)
        ≡ 0)
      × (count_of (reads (suc b)) (
            conn_check_fd_set
              (run_table conn_init (adds (suc a) ∷ adds (suc b) ∷ ops)).connections
              ready)
          ≡ 0)
unfolding run_table
listening-unread a b ops ready h s = (
  conn_check_fd_set-count a t.connections ready apart.0,
  conn_check_fd_set-count b t.connections ready apart.1,
)
  where
    start : ConnTable
    start = conn_add (conn_add conn_init (pos (suc a))) (pos (suc b))

    t : ConnTable
    t = run_table start ops

    v : IsTable t
    v = run_table-init-IsTable (adds (suc a) ∷ adds (suc b) ∷ ops)

    apart :
        (slots_of (pos (suc a)) (drop 2 t.connections) ≡ 0)
        × (slots_of (pos (suc b)) (drop 2 t.connections) ≡ 0)
    apart =
        slots_of-rest (suc a) (suc b) t.connections
          (run_table-Leads (suc a) (suc b) ops start s (conn_init-Leads (suc a) (suc b) h))
          (v.once (pos (suc a)) refl) (v.once (pos (suc b)) refl)
