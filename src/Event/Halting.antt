-- ===== src/Event/Halting.antt =====
-- No handler of an event hangs, but for a commit whose number is not the waiting client's.
pub mod Messages
use bbserver.Base.{
  Each, bind-Each, bind_any, weaken, if-Each, ℕ, zero, suc, ◌+◌, ◌-◌, ◌*◌, ◌/◌, ◌%◌, ◌^◌, ◌≤◌, ◌<◌,
  ◌≡◌, refl, sym, ap, ◌∙◌, ◌≢◌, ◌↔◌, ◌⊎◌, inl, inr, Bool, true, false, not, ◌&&◌, ◌||◌, Option,
  none, some, List, [], ◌∷◌, ◌++◌, map, append-nil, append_assoc, arith, ltb, leb, ◌==◌,
  if◌then◌else◌, ltb→lt, lt→ltb, ==_iff, ==_refl, Bool-cases, Option-cases, length, get_elem?, take,
  drop, replicate, any_of, all_of, count_of, first_of_list, length-append, take-append, drop-append,
  length-replicate, All, Bytes, codes, bytes_eq, bytes_eq_refl, bytes_eq→eq, Lacks, Lacks-append,
  Fault, out_of_range, invalid_argument, undefined, spinning, blocked, exited, Result, ok, err,
  ◌>>=◌, deref, ℤ, pos, negsuc, int_max, eq_ℤ, is_neg, is_pos, eq_ℤ_iff, eq_ℤ_refl,
}
use mathlib.Core.Path.{subst}
use bbserver.Types.{
  ClientCb, ClientEventCb, ClientType, client_user, client_sync_master, client_sync_slave,
  ClientEvType, ev_accept, ev_recv, ev_sync_precommit_ack, ev_sync_precommit_err,
  ev_sync_commit_success, ev_sync_commit_unsuccess, ev_sync_timeout_master, ev_sync_timeout_slave,
}
use bbserver.World.{World, Os, called, accept_call, recv_call}
use bbserver.Clients.{client_list_find, slave_acked, waits_commit, waits_save}
use bbserver.Clients.Find.{count_of-le}
use bbserver.Servers.{ip_size}
use bbserver.Msg.Slave.{process_sync_slave_msg}
use bbserver.Msg.Master.{process_sync_master_msg}
use bbserver.Event.Peers.{
  admit, admit_if, proc_client_ev_accept, handle_data, answer, received, receive_for,
  proc_client_ev_recv,
}
use bbserver.Event.Commit.Phase.{
  proc_sync_ev_precommit_ack-Committed, proc_sync_ev_precommit_err_ends,
}
use bbserver.Event.Commit.Save.{IsDue, proc_sync_ev_commit_success-Settled}
use bbserver.Event.Commit.Fail.{IsFailed, proc_sync_ev_commit_unsuccess_ends}
use bbserver.Event.Timeout.{mark_slaves, proc_sync_ev_slave_timeout}
use bbserver.Event.Timeout.Reset.{proc_sync_ev_slave_timeout_ends}
use bbserver.Event.Handle.{dispatch, next_event, handle_client_event}
use bbserver.Event.Invariant.{IsWorld}
use bbserver.Event.Invariant.Rules.{mark_slaves-Below}
use bbserver.Event.Halting.Messages.{
  Halts, bind-Halts, if-Halts, deref-Halts, Halts-ok, process_client_msg-Halts,
  process_sync_slave_msg-Halts, process_sync_master_msg-Halts,
}

admit_if-Halts : (w : World) (t : ClientType) (o : Option (ℕ × Bytes × ℕ)) → Halts (admit_if w t o)
unfolding admit_if admit
admit_if-Halts w t none = tt
admit_if-Halts w t (some (fd, ip, port)) = if-Halts (ltb (length ip) ip_size) _ _ tt tt

proc_client_ev_accept-Halts :
    (os : Os) (w : World) (ev : ClientEventCb) → Halts (proc_client_ev_accept os w ev)
unfolding proc_client_ev_accept
proc_client_ev_accept-Halts os w ev = bind-Halts (deref ev.fd) _ (deref-Halts ev.fd) (λ fd.
    bind-Halts (deref ev.type) _ (deref-Halts ev.type)
      (λ t. admit_if-Halts (called w (accept_call fd)) t (os.accept w.calls fd)))

handle_data-Halts :
    (os : Os) (w : World) (c : ClientCb) (t : ClientType) (buf : Bytes)
    → Halts (handle_data os w c t buf)
unfolding handle_data
handle_data-Halts os w c client_user buf = process_client_msg-Halts os w c buf
handle_data-Halts os w c client_sync_master buf =
    bind-Halts (process_sync_master_msg w c buf) _ (process_sync_master_msg-Halts w c buf) (λ v. tt)
handle_data-Halts os w c client_sync_slave buf =
    bind-Halts (process_sync_slave_msg w c buf) _ (process_sync_slave_msg-Halts w c buf) (λ r. tt)

received-Halts : (os : Os) (w : World) (c : ClientCb) (o : Option Bytes) → Halts (received os w c o)
unfolding received
received-Halts os w c none = tt
received-Halts os w c (some []) = tt
received-Halts os w c (some (b ∷ buf)) =
    bind-Halts (handle_data os w c c.type (b ∷ buf)) _ (handle_data-Halts os w c c.type (b ∷ buf))
      (λ r. tt)

receive_for-Halts : (os : Os) (w : World) (o : Option ClientCb) → Halts (receive_for os w o)
unfolding receive_for
receive_for-Halts os w none = tt
receive_for-Halts os w (some c) =
    received-Halts os (called w (recv_call c.fd)) c (os.recv w.calls c.fd)

proc_client_ev_recv-Halts :
    (os : Os) (w : World) (ev : ClientEventCb) → Halts (proc_client_ev_recv os w ev)
unfolding proc_client_ev_recv
proc_client_ev_recv-Halts os w ev =
    bind-Halts (deref ev.fd) _ (deref-Halts ev.fd)
      (λ fd. receive_for-Halts os w (client_list_find w fd))

-- An event that ends a COMMIT is for every client that waits for the save.
abbrev pub IsForAll : ClientEventCb → List ClientCb → ClientEvType → Type 0
IsForAll ev cs ev_sync_commit_success = All (IsDue ev) cs
IsForAll ev cs ev_sync_commit_unsuccess = All (IsFailed ev) cs
IsForAll ev cs _ = Unit

-- What an event thread finds in the queue.
abbrev pub IsServed : World → List ClientEventCb → Type 0
IsServed w [] = Unit
IsServed w (ev ∷ evs) = IsForAll ev w.clients ev.event

module _ (n : ℕ) (os : Os) (others : World → World) where
  slave_timeout-Halts :
      (w : World)
      → IsWorld (others (record w { clients = mark_slaves w.clients }))
      → length (others (record w { clients = mark_slaves w.clients })).clients < n
      → Halts (proc_sync_ev_slave_timeout n others w)
  slave_timeout-Halts w h l =
      let v = others (record w { clients = mark_slaves w.clients }) in
      let (last, e, clients, file) =
        proc_sync_ev_slave_timeout_ends n v.next_addr others w v refl h.0
          (omega (arith, l, count_of-le slave_acked v.clients)) in
      Halts-ok (proc_sync_ev_slave_timeout n others w) last e

  dispatch-Halts :
      (w : World) (ev : ClientEventCb) (t : ClientEvType)
      → IsWorld w
      → length w.clients < n
      → IsWorld (others (record w { clients = mark_slaves w.clients }))
      → length (others (record w { clients = mark_slaves w.clients })).clients < n
      → IsForAll ev w.clients t
      → Halts (dispatch n os others w ev t)
  unfolding dispatch
  dispatch-Halts w ev ev_accept h l k m d = proc_client_ev_accept-Halts os w ev
  dispatch-Halts w ev ev_recv h l k m d = proc_client_ev_recv-Halts os w ev
  dispatch-Halts w ev ev_sync_precommit_ack h l k m d =
      let r =
        proc_sync_ev_precommit_ack-Committed n w.next_addr os w h.0
          (omega (arith, l, count_of-le waits_commit w.clients)) in
      Halts-ok _ r.last r.returns
  dispatch-Halts w ev ev_sync_precommit_err h l k m d =
      let (last, e, clients, calls, servers, file) =
        proc_sync_ev_precommit_err_ends n w.next_addr os w h.0
          (omega (arith, l, count_of-le waits_commit w.clients)) in
      Halts-ok _ last e
  dispatch-Halts w ev ev_sync_commit_success h l k m d =
      let r =
        proc_sync_ev_commit_success-Settled os ev n w.next_addr w h.0 d
          (omega (arith, l, count_of-le waits_save w.clients)) in
      Halts-ok _ r.last r.returns
  dispatch-Halts w ev ev_sync_commit_unsuccess h l k m d =
      let (last, e, clients, file) =
        proc_sync_ev_commit_unsuccess_ends n w.next_addr os w ev h.0 d
          (omega (arith, l, count_of-le waits_save w.clients)) in
      Halts-ok _ last e
  dispatch-Halts w ev ev_sync_timeout_master h l k m d = tt
  dispatch-Halts w ev ev_sync_timeout_slave h l k m d = slave_timeout-Halts w k m

  next_event-Halts :
      (w : World) (evs : List ClientEventCb)
      → IsWorld w
      → length w.clients < n
      → ((v : World) → IsWorld v → IsWorld (others v))
      → length (others (record w { clients = mark_slaves w.clients; events = drop 1 evs })).clients
        < n
      → IsServed w evs
      → Halts (next_event n os others w evs)
  unfolding next_event
  next_event-Halts w [] h l k m d = tt
  next_event-Halts w (ev ∷ evs) h l k m d =
      dispatch-Halts (record w { events = evs }) ev ev.event h l
        (k _ (mark_slaves-Below w.next_addr w.clients h.0, h.1, h.2)) m d

  -- The next event of a queue is handled without a loop that never ends, whatever the operating
  -- system returns: when the clients, the table and the servers have their shape, the other threads
  -- keep it, the handlers' loops get more rounds than there are clients, also after the sleep of
  -- the slaves' time-out, and an event that ends a COMMIT is for every client that waits for the
  -- save: a success has its number, and it has a command; a failure has its number or none.
  pub handle_client_event-Halts :
      (w : World)
      → IsWorld w
      → length w.clients < n
      → ((v : World) → IsWorld v → IsWorld (others v))
      → length
          (others (record w { clients = mark_slaves w.clients; events = drop 1 w.events })).clients
        < n
      → IsServed w w.events
      → Halts (handle_client_event n os others w)
  unfolding handle_client_event
  handle_client_event-Halts w h l k m d = next_event-Halts w w.events h l k m d
