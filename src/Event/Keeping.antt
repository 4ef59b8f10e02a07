-- ===== src/Event/Keeping.antt =====
-- What a property of the shared state must allow for, so that the handlers keep it.
pub mod Commands
pub mod Messages
pub mod Peers
pub mod Commits
pub mod Timeouts
pub mod Dispatch
use bbserver.Base.{
  Each, bind-Each, bind_any, weaken, if-Each, ℕ, zero, suc, ◌+◌, ◌-◌, ◌*◌, ◌/◌, ◌%◌, ◌^◌, ◌≤◌, ◌<◌,
  ◌≡◌, refl, sym, ap, ◌∙◌, ◌≢◌, ◌↔◌, ◌⊎◌, inl, inr, Bool, true, false, not, ◌&&◌, ◌||◌, Option,
  none, some, List, [], ◌∷◌, ◌++◌, map, append-nil, append_assoc, arith, ltb, leb, ◌==◌,
  if◌then◌else◌, ltb→lt, lt→ltb, ==_iff, ==_refl, Bool-cases, Option-cases, length, get_elem?, take,
  drop, replicate, any_of, all_of, count_of, first_of_list, length-append, take-append, drop-append,
  length-replicate, All, Bytes, codes, bytes_eq, bytes_eq_refl, bytes_eq→eq, Lacks, Lacks-append,
  Fault, out_of_range, invalid_argument, undefined, spinning, blocked, exited, Result, ok, err,
  ◌>>=◌, deref, ℤ, pos, negsuc, int_max, eq_ℤ, is_neg, is_pos, eq_ℤ_iff, eq_ℤ_refl,
}
use bbserver.Types.{ClientCb, SyncServerCb, ClientEventCb, SyncState}
use bbserver.Board.{BbFile}
use bbserver.World.{World, Os, SysCall}
use bbserver.Conn.{conn_add, conn_del}
use bbserver.Clients.{update, client_list_del}
use bbserver.Servers.{
  sync_server_list_set_state, sync_set_master_state, broadcast, init_sync_server_connection,
}
use bbserver.Event.Timeout.{mark_slaves}

-- The changes that the handlers of the events make, one by one.
pub record Rules (P : World → Type 0) : Type 0 where
  -- the events, the calls and the timers
  pub quiet :
      (w : World) (events : List ClientEventCb) (calls : List SysCall) (master slave : ℕ)
      → P w
      → P (record w { events = events; calls = calls; timer_master = master; timer_slave = slave })
  pub number : (w : World) (n : ℤ) → P w → P (record w { msg_number = n })
  -- an assignment to a client, and the marks of the slaves' time-out
  pub assigns :
      (w : World) (f : ClientCb → ClientCb) (a : ℕ)
      → ((c : ClientCb) → (f c).addr ≡ c.addr)
      → P w
      → P (record w { clients = update a f w.clients })
  pub marks : (w : World) → P w → P (record w { clients = mark_slaves w.clients })
  -- a client with a connection, and the end of either
  pub comes :
      (w : World) (n : ℕ) (c : ClientCb)
      → c.addr ≡ w.next_addr
      → P w
      → P (record w {
        clients = c ∷ w.clients;
        conns = conn_add w.conns (pos n);
        next_addr = w.next_addr + 1;
      })
  pub goes : (w : World) (o : Option ℕ) → P w → P (client_list_del w o).0
  pub closes : (w : World) (fd : ℤ) → P w → P (record w { conns = conn_del w.conns fd })
  -- the states of the servers and of the master
  pub server :
      (w : World) (o : Option SyncServerCb) (s : SyncState)
      → P w
      → P (sync_server_list_set_state w o s).0
  pub master : (w : World) (s : SyncState) → P w → P (sync_set_master_state w s)
  pub sends : (os : Os) (w : World) (m : Bytes) (s : SyncState) → P w → P (broadcast os w m s).0
  pub connects : (os : Os) (w : World) → P w → Each (λ r. P r.0) (init_sync_server_connection os w)
  -- a command of a user that is carried out at once, for want of peers
  pub saves :
      (w : World) (f : BbFile) → w.config.sync_enable ≡ false → P w → P (record w { file = f })

-- Any change of the file.
abbrev pub AnyFile : (World → Type 0) → Type 0
AnyFile P = (w : World) (f : BbFile) → P w → P (record w { file = f })
