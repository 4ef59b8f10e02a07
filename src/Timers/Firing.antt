-- ===== src/Timers/Firing.antt =====
-- The master's time-out from the timer to the users' answers.
use bbserver.Base.{
  All, inr, none, some, negsuc, ℕ, ◌<◌, ◌≡◌, refl, ap, ◌∙◌, List, [], ◌∷◌, arith, count_of, Result,
  ok, ◌>>=◌,
}
use bbserver.Types.{
  ClientCb, ClientEventCb, sync_m_precommit_multicasted, sync_m_commited, ev_sync_commit_unsuccess,
}
use bbserver.World.{World, Os}
use bbserver.Clients.{waits_commit, waits_save}
use bbserver.Clients.Find.{Below, swept}
use bbserver.Servers.{
  sync_send_abort, sync_get_master_state, sync_send_event_timeout, sync_send_event,
}
use bbserver.Event.Timeout.{proc_sync_ev_master_timeout}
use bbserver.Event.Commit.{proc_sync_ev_precommit_err, proc_sync_ev_commit_unsuccess}
use bbserver.Event.Commit.Fail.{IsFailed, proc_sync_ev_commit_unsuccess_ends}
use bbserver.Event.Commit.Phase.{cleared, refusals, proc_sync_ev_precommit_err_ends}
use bbserver.Event.Handle.{handle_client_event, next_event, dispatch}
use bbserver.Timers.{handle_master_timeout}

-- What the master's timer leads to: the timer fires, and an event thread handles the event of the
-- time-out and then the one that it makes.
unfoldable pub time_out : ℕ → Os → (World → World) → World → Result World
unfolding handle_master_timeout handle_client_event
time_out n os others w = do
  v ← handle_client_event n os others (handle_master_timeout w)
  handle_client_event n os others v

time_out-err :
    (n : ℕ) (os : Os) (others : World → World) (w : World)
    → w.events ≡ []
    → sync_get_master_state w ≡ sync_m_precommit_multicasted
    → time_out n os others w
      ≡ proc_sync_ev_precommit_err n os (record w { events = []; timer_master = 0 })
unfolding time_out handle_client_event handle_master_timeout sync_send_event_timeout
    proc_sync_ev_master_timeout sync_send_event sync_get_master_state next_event dispatch
time_out-err n os others w e m = rw (e, m) refl

swept_none_left : (cs : List ClientCb) → count_of waits_commit (swept waits_commit cleared cs) ≡ 0
swept_none_left [] = refl
swept_none_left (c ∷ cs) = ground (arith, swept_none_left cs)

-- The time-out of the first phase. The queue is empty, the master has sent PRECOMMIT and not gone
-- on, the addresses of the clients descend along the list, and the handlers get more rounds than
-- clients wait for the commit. When the timer fires, an event thread handles two events and comes
-- to its end: after the ABORT broadcast each waiting client has been sent "3.2 ERROR WRITE" once,
-- in the order of the list, none waits for the commit any more, and the file is as it was.
pub time_out_answers :
    (n k : ℕ) (os : Os) (others : World → World) (w : World)
    → w.events ≡ []
    → sync_get_master_state w ≡ sync_m_precommit_multicasted
    → Below k w.clients
    → count_of waits_commit w.clients < n
    → (last : World) × (time_out n os others w ≡ ok last)
      × (last.clients ≡ swept waits_commit cleared w.clients)
      × (count_of waits_commit last.clients ≡ 0)
      × (last.calls
          ≡ refusals w.clients
              (sync_send_abort os (record w { events = []; timer_master = 0 })).0.calls)
      × (last.file ≡ w.file)
time_out_answers n k os others w e m b l =
    let (last, f, clients, calls, servers, file) =
      proc_sync_ev_precommit_err_ends n k os (record w { events = []; timer_master = 0 }) b l in
    (
      last,
      time_out-err n os others w e m ∙ f,
      clients,
      ap (count_of waits_commit) clients ∙ swept_none_left w.clients,
      calls,
      file,
    )

-- What the time-out of the second phase enqueues: no number, so that it is for every client.
abbrev pub late_event : ClientEventCb
late_event = record {
  fd = some (negsuc 0);
  event = ev_sync_commit_unsuccess;
  type = none;
  msg_number = [];
  response = [];
}

time_out-late_event :
    (n : ℕ) (os : Os) (others : World → World) (w : World)
    → w.events ≡ []
    → sync_get_master_state w ≡ sync_m_commited
    → time_out n os others w
      ≡ proc_sync_ev_commit_unsuccess n os (record w { events = []; timer_master = 0 }) late_event
unfolding time_out handle_client_event handle_master_timeout sync_send_event_timeout
    proc_sync_ev_master_timeout sync_send_event sync_get_master_state next_event dispatch
time_out-late_event n os others w e m = rw (e, m) refl

late_event-IsFailed : (cs : List ClientCb) → All (IsFailed late_event) cs
late_event-IsFailed [] = tt
late_event-IsFailed (c ∷ cs) = (inr refl, late_event-IsFailed cs)

no_save_left : (cs : List ClientCb) → count_of waits_save (swept waits_save cleared cs) ≡ 0
no_save_left [] = refl
no_save_left (c ∷ cs) = ground (arith, no_save_left cs)

-- The time-out of the second phase. The queue is empty, the master has sent COMMIT and not gone on,
-- the addresses of the clients descend along the list, and the handlers get more rounds than
-- clients wait for the save. When the timer fires, an event thread handles two events and comes to
-- its end: each waiting client is cleared and every other is as it was, none waits for the save any
-- more, and the file is as it was, whatever servers have carried out the COMMIT already.
pub time_out_fails :
    (n k : ℕ) (os : Os) (others : World → World) (w : World)
    → w.events ≡ []
    → sync_get_master_state w ≡ sync_m_commited
    → Below k w.clients
    → count_of waits_save w.clients < n
    → (last : World) × (time_out n os others w ≡ ok last)
      × (last.clients ≡ swept waits_save cleared w.clients)
      × (count_of waits_save last.clients ≡ 0)
      × (last.file ≡ w.file)
time_out_fails n k os others w e m b l =
    let (last, f, clients, file) =
      proc_sync_ev_commit_unsuccess_ends n k os (record w { events = []; timer_master = 0 })
        late_event b (late_event-IsFailed w.clients) l in
    (
      last,
      time_out-late_event n os others w e m ∙ f,
      clients,
      ap (count_of waits_save) clients ∙ no_save_left w.clients,
      file,
    )
