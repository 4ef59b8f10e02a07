-- ===== src/Conn/Table.antt =====
-- The table of connections: its size, who is in it, and that nobody is in it twice.
use bbserver.Base.{
  ℕ, zero, suc, ◌+◌, ◌≤◌, ◌≡◌, refl, ◌∙◌, inl, inr, Bool, false, not, ◌&&◌, ◌||◌, Option, some,
  List, [], ◌∷◌, arith, ltb, if◌then◌else◌, Bool-cases, length, drop, replicate, any_of, count_of,
  length-replicate, ℤ, pos, negsuc, eq_ℤ, is_neg, eq_ℤ_iff,
}
use bbserver.Types.{ClientEventCb, ClientEvType, ev_recv, max_conn}
use bbserver.Conn.{
  ConnTable, free_slot, conn_init, conn_is_exist, fill_slot, conn_add, free_slots, conn_del,
  fd_isset, ready_events, service_round,
}

-- How many slots hold the descriptor.
abbrev pub slots_of : ℤ → List ℤ → ℕ
slots_of fd = count_of (eq_ℤ fd)

abbrev pub free_slots_of : List ℤ → ℕ
free_slots_of = count_of is_neg

pub slots_of-exist : (fd : ℤ) (s : List ℤ) → any_of (eq_ℤ fd) s ≡ false → slots_of fd s ≡ 0
slots_of-exist fd [] h = refl
slots_of-exist fd (x ∷ s) h = ground (arith, slots_of-exist fd s)

slots_of-fill_slot :
    (n : ℕ) (g : ℤ) (s : List ℤ)
    → is_neg g ≡ false
    → slots_of g (fill_slot (pos n) s)
      ≡ (if eq_ℤ g (pos n) then (if ltb 0 (free_slots_of s) then 1 else 0) else 0) + slots_of g s
unfolding fill_slot
slots_of-fill_slot n g [] h = ground arith
slots_of-fill_slot n g (x ∷ s) h = ground (arith, slots_of-fill_slot n g s)

length-fill_slot : (fd : ℤ) (s : List ℤ) → length (fill_slot fd s) ≡ length s
unfolding fill_slot
length-fill_slot fd [] = refl
length-fill_slot fd (x ∷ s) = ground (arith, length-fill_slot fd s)

length-free_slots : (fd : ℤ) (s : List ℤ) → length (free_slots fd s) ≡ length s
unfolding free_slots
length-free_slots fd [] = refl
length-free_slots fd (x ∷ s) = ground (arith, length-free_slots fd s)

slots_of-free_slots :
    (fd g : ℤ) (s : List ℤ)
    → is_neg g ≡ false
    → slots_of g (free_slots fd s) ≡ (if eq_ℤ g fd then 0 else slots_of g s)
unfolding free_slots
slots_of-free_slots fd g [] h = ground arith
slots_of-free_slots fd g (x ∷ s) h =
    ground (arith, slots_of-free_slots fd g s, eq_ℤ_iff g fd, eq_ℤ_iff x fd, eq_ℤ_iff g x)

-- Every descriptor has at most one slot.
pub record IsTable (t : ConnTable) : Type 0 where
  pub size : length t.connections ≡ max_conn
  pub once : (g : ℤ) → is_neg g ≡ false → slots_of g t.connections ≤ 1

slots_of-replicate : (n : ℕ) (g : ℤ) → is_neg g ≡ false → slots_of g (replicate n free_slot) ≡ 0
slots_of-replicate zero g h = refl
slots_of-replicate (suc n) g h = ground (arith, slots_of-replicate n g)

pub conn_init-IsTable : IsTable conn_init
unfolding conn_init
conn_init-IsTable = record {
  size = length-replicate max_conn free_slot;
  once = λ g h. omega (arith, slots_of-replicate max_conn g h);
}

-- `conn_add` of an accepted descriptor keeps the size of the table and one slot a descriptor.
pub conn_add-IsTable : (t : ConnTable) (n : ℕ) → IsTable t → IsTable (conn_add t (pos n))
unfolding conn_add conn_is_exist
conn_add-IsTable t n v = elim (Bool-cases (any_of (eq_ℤ (pos n)) t.connections)) [
  | inl e ↦ rw e v
  | inr e ↦ rw e (record {
    size = length-fill_slot (pos n) t.connections ∙ v.size;
    once = λ g h. ground (
      arith,
      slots_of-fill_slot n g t.connections h,
      v.once g h,
      eq_ℤ_iff g (pos n),
      slots_of-exist (pos n) t.connections e,
    );
  })
]

pub conn_del-IsTable : (t : ConnTable) (fd : ℤ) → IsTable t → IsTable (conn_del t fd)
unfolding conn_del
conn_del-IsTable t fd v = elim (Bool-cases (conn_is_exist t.connections fd)) [
  | inl e ↦ rw e (record {
    size = length-free_slots fd t.connections ∙ v.size;
    once = λ g h. ground (arith, slots_of-free_slots fd g t.connections h, v.once g h);
  })
  | inr e ↦ rw e v
]

exist-slots_of : (g : ℤ) (s : List ℤ) → any_of (eq_ℤ g) s ≡ ltb 0 (slots_of g s)
exist-slots_of g [] = refl
exist-slots_of g (x ∷ s) = ground (arith, exist-slots_of g s)

conn_is_exist-slots_of :
    (g : ℤ) (s : List ℤ) → is_neg g ≡ false → conn_is_exist s g ≡ ltb 0 (slots_of g s)
unfolding conn_is_exist
conn_is_exist-slots_of g s h = rw h (exist-slots_of g s)

-- After `conn_add` a descriptor from 0 on is in the table exactly when it was there before, or when
-- it is the one that was added and a slot was free.
pub conn_is_exist-add :
    (t : ConnTable) (n : ℕ) (g : ℤ)
    → is_neg g ≡ false
    → conn_is_exist (conn_add t (pos n)).connections g
      ≡ (conn_is_exist t.connections g || (eq_ℤ g (pos n) && ltb 0 (free_slots_of t.connections)))
unfolding conn_add
conn_is_exist-add t n g h = elim (Bool-cases (conn_is_exist t.connections (pos n))) [
  | inl e ↦ rw e (ground (arith, eq_ℤ_iff g (pos n)))
  | inr e ↦ rw e (
      ground (
        arith,
        conn_is_exist-slots_of g t.connections h,
        conn_is_exist-slots_of g (fill_slot (pos n) t.connections) h,
        slots_of-fill_slot n g t.connections h,
      ))
]

-- After `conn_del` a descriptor from 0 on is in the table exactly when it was there before and is
-- not the one that was deleted.
pub conn_is_exist-del :
    (t : ConnTable) (fd g : ℤ)
    → is_neg g ≡ false
    → conn_is_exist (conn_del t fd).connections g
      ≡ (conn_is_exist t.connections g && not (eq_ℤ g fd))
unfolding conn_del
conn_is_exist-del t fd g h = elim (Bool-cases (conn_is_exist t.connections fd)) [
  | inl e ↦ rw e (
      ground (
        arith,
        conn_is_exist-slots_of g t.connections h,
        conn_is_exist-slots_of g (free_slots fd t.connections) h,
        slots_of-free_slots fd g t.connections h,
      ))
  | inr e ↦ rw e (ground (arith, eq_ℤ_iff g fd))
]

-- What the program does with the table over its life.
pub data TableOp : Type 0 where
  adds : ℕ → TableOp
  dels : ℤ → TableOp

unfoldable pub run_table : ConnTable → List TableOp → ConnTable
run_table t [] = t
run_table t (adds n ∷ ops) = run_table (conn_add t (pos n)) ops
run_table t (dels fd ∷ ops) = run_table (conn_del t fd) ops

pub run_table-IsTable : (ops : List TableOp) (t : ConnTable) → IsTable t → IsTable (run_table t ops)
unfolding run_table
run_table-IsTable [] t v = v
run_table-IsTable (adds n ∷ ops) t v =
    run_table-IsTable ops (conn_add t (pos n)) (conn_add-IsTable t n v)
run_table-IsTable (dels fd ∷ ops) t v =
    run_table-IsTable ops (conn_del t fd) (conn_del-IsTable t fd v)

-- After `conn_init` and any history of `conn_add` and `conn_del` the table has its 1024 slots, and
-- no descriptor has two of them.
pub run_table-init-IsTable : (ops : List TableOp) → IsTable (run_table conn_init ops)
run_table-init-IsTable ops = run_table-IsTable ops conn_init conn_init-IsTable

-- An event of a connection that has data.
abbrev pub reads : ℕ → ClientEventCb → Bool
reads n e = reads_fd n e.event e.fd
  where
    reads_fd : ℕ → ClientEvType → Option ℤ → Bool
    reads_fd n ev_recv (some fd) = eq_ℤ (pos n) fd
    reads_fd n _ _ = false

pub ready_events-count :
    (ready s : List ℤ) (n : ℕ)
    → count_of (reads (suc n)) (ready_events ready s)
      ≡ (if fd_isset (pos (suc n)) ready then slots_of (pos (suc n)) s else 0)
unfolding ready_events
ready_events-count ready [] n = ground arith
ready_events-count ready (pos zero ∷ s) n = ground (arith, ready_events-count ready s n)
ready_events-count ready (pos (suc m) ∷ s) n =
    ground (arith, ready_events-count ready s n, eq_ℤ_iff (pos (suc n)) (pos (suc m)))
ready_events-count ready (negsuc m ∷ s) n = ground (arith, ready_events-count ready s n)

-- In a round without a new connection there is one receive event for each slot, from 2 on, that
-- holds a ready descriptor other than 0, and none for any other descriptor. While a listening
-- socket is ready, nobody is read from.
pub service_round-reads :
    (connections ready : List ℤ) (server_fd sync_server_fd : ℤ) (n : ℕ)
    → count_of (reads (suc n)) (service_round connections server_fd sync_server_fd (some ready)) ≡ (
        if fd_isset server_fd ready || fd_isset sync_server_fd ready
        then 0
        else if fd_isset (pos (suc n)) ready
        then slots_of (pos (suc n)) (drop 2 connections)
        else 0)
unfolding service_round
service_round-reads connections ready server_fd sync_server_fd n =
    ground (arith, ready_events-count ready (drop 2 connections) n)
