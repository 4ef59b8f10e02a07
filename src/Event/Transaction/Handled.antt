-- ===== src/Event/Transaction/Handled.antt =====
-- The two events of a two-phase commit that goes well, and what the second leaves.
use bbserver.Base.{
  ℕ, suc, ◌≡◌, refl, sym, ap, ◌∙◌, ◌≢◌, true, none, some, List, [], ◌∷◌, ◌++◌, arith, count_of,
  first_of_list, All, Bytes, bytes_eq, bytes_eq_refl, ok,
}
use mathlib.Core.Path.{subst}
use bbserver.Text.{before_slash}
use bbserver.Types.{
  ClientCb, ClientEventCb, ClientCmdType, cmd_unset, client_cmd_write, client_cmd_replace, is_user,
  sync_idle, sync_m_precommited, sync_m_commited, sync_m_operation_performed,
}
use bbserver.World.{World, Os, SysCall, send_call}
use bbserver.Clients.{
  update, waits_commit, waits_save, sync_set_client_state, sync_clear_client_cmd,
}
use bbserver.Board.{save_msg_write, save_msg_replace}
use bbserver.Event.Peers.{send_response_to_client}
use bbserver.Clients.Single.{
  client_at, first_of_list-update, first_of_list-update-none, update-update,
}
use bbserver.Servers.{sync_send_success, sync_send_commit, commit_text, end_text}
use bbserver.Servers.Broadcast.{broadcast-Kept}
use bbserver.Servers.Links.{fds, sends_to, Listening, broadcast-IsSent}
use bbserver.Msg.Client.Start.{waiting}
use bbserver.Msg.Master.Round.{precommit_phase, commit_phase, answer_event}
use bbserver.Event.Commit.{
  Saved, save_client, saved_write, saved_replace, commit_client, conclude,
  proc_sync_ev_precommit_ack, proc_sync_ev_commit_success,
}
use bbserver.Event.Commit.Phase.{to_waiting_save, cleared}
use bbserver.Event.Commit.Save.{file_after}
use bbserver.Event.Transaction.Steps.{Stage}
use bbserver.Event.Handle.{dispatch, next_event, handle_client_event}

-- An event thread takes the one event.
handles_one :
    (n : ℕ) (os : Os) (others : World → World) (w : World) (ev : ClientEventCb)
    → w.events ≡ ev ∷ []
    → handle_client_event n os others w
      ≡ dispatch n os others (record w { events = [] }) ev ev.event
unfolding handle_client_event next_event
handles_one n os others w ev e = rw e refl

proc_sync_ev_precommit_ack-one :
    (n : ℕ) (os : Os) (w : World) (c : ClientCb)
    → first_of_list waits_commit w.clients ≡ some c
    → first_of_list waits_commit (commit_client os w c).clients ≡ none
    → proc_sync_ev_precommit_ack (suc (suc n)) os w ≡ ok (commit_client os w c)
unfolding proc_sync_ev_precommit_ack
proc_sync_ev_precommit_ack-one n os w c e f =
    rw (e, proc_sync_ev_precommit_ack) (rw (f, proc_sync_ev_precommit_ack) refl)

proc_sync_ev_commit_success-none :
    (n : ℕ) (os : Os) (w : World) (ev : ClientEventCb)
    → first_of_list waits_save w.clients ≡ none
    → proc_sync_ev_commit_success (suc n) os w ev ≡ ok w
unfolding proc_sync_ev_commit_success
proc_sync_ev_commit_success-none n os w ev e = rw (e, proc_sync_ev_commit_success) refl

proc_sync_ev_commit_success-one :
    (n : ℕ) (os : Os) (w : World) (ev : ClientEventCb) (c : ClientCb) (s : Saved)
    → first_of_list waits_save w.clients ≡ some c
    → bytes_eq ev.msg_number c.msg_number ≡ true
    → save_client w c.cmd c.msg ≡ ok s
    → first_of_list waits_save (conclude os c ev.msg_number s).clients ≡ none
    → proc_sync_ev_commit_success (suc (suc n)) os w ev ≡ ok (conclude os c ev.msg_number s)
unfolding proc_sync_ev_commit_success
proc_sync_ev_commit_success-one n os w ev c s e t g f =
    rw (e, proc_sync_ev_commit_success)
      (rw (t, proc_sync_ev_commit_success)
        (rw g (proc_sync_ev_commit_success-none n os (conclude os c ev.msg_number s) ev f)))

-- The user, the only client of its address, with no other user whose command is under way.
pub record IsAlone (w : World) (c : ClientCb) : Type 0 where
  pub user : is_user c.type ≡ true
  pub here : client_at c.addr w.clients ≡ some c
  pub no_commit : count_of waits_commit w.clients ≡ 0
  pub no_save : count_of waits_save w.clients ≡ 0

-- The user's state when the peers have been sent COMMIT.
abbrev pub committing : ClientCmdType → Bytes → ClientCb → ClientCb
committing k m c = to_waiting_save (waiting k m c)

-- All peers have acknowledged: they are sent COMMIT.
pub precommit_ack-Stage :
    (n : ℕ) (os : Os) (others : World → World) (w u : World) (c d : ClientCb) (k : ClientCmdType)
    (m : Bytes) (log : List SysCall)
    → IsAlone w c
    → All (Listening os) (fds w.servers)
    → Stage w c (waiting k m) sync_m_precommited (answer_event precommit_phase [] d ∷ []) log u
    → (v : World) × (handle_client_event (suc (suc n)) os others u ≡ ok v)
      × Stage w c
          (committing k m)
          sync_m_commited
          []
          (sends_to (commit_text k m) (fds w.servers) log)
          v
unfolding dispatch commit_client sync_set_client_state sync_send_commit
precommit_ack-Stage n os others w u c d k m log alone listening st =
    let t : World = record u { events = [] } in
    let user = waiting k m c in
    let text = commit_text k m in
    let kept = broadcast-Kept os t text sync_m_commited in
    let sent = broadcast-IsSent os t text sync_m_commited (rw st.links listening) in
    let clients : (commit_client os t user).clients ≡ update c.addr (committing k m) w.clients =
      ap (update c.addr to_waiting_save) (kept.clients ∙ st.clients)
      ∙ update-update (waiting k m) to_waiting_save c.addr w.clients (λ x. refl) in
    (
      commit_client os t user,
      handles_one (suc (suc n)) os others u (answer_event precommit_phase [] d) st.events
          ∙ proc_sync_ev_precommit_ack-one n os t user
              (ap (first_of_list waits_commit) st.clients
                ∙ first_of_list-update waits_commit (waiting k m) c.addr w.clients c alone.here
                    alone.no_commit (ground (arith, alone.user)))
              (ap (first_of_list waits_commit) clients
                ∙ first_of_list-update-none waits_commit (committing k m) c.addr w.clients
                    alone.no_commit (λ x. ground arith)),
      record {
        clients = clients;
        file = kept.file ∙ st.file;
        links = sent.links ∙ st.links;
        moved = sent.moved;
        rising = sent.rising st.rising;
        events = kept.events;
        calls = sent.calls ∙ rw (st.links, st.calls) refl;
      },
    )

-- What the whole of it leaves, with what the master's save came to.
pub record IsDone (w : World) (c : ClientCb) (k : ClientCmdType) (m : Bytes) (log : List SysCall)
    (v : World) : Type 0 where
  pub saved : Saved
  pub save : save_client w k m ≡ ok saved
  pub clients :
      v.clients
      ≡ update c.addr
          (λ d. record d { cmd = k; msg = []; msg_number = []; slave_state = sync_idle })
          w.clients
  pub file : v.file ≡ file_after k m w.file
  pub events : v.events ≡ []
  pub calls :
      v.calls
      ≡ send_call c.fd (saved.response ++ b'\n' ∷ [])
        ∷ sends_to (end_text saved.success (before_slash m)) (fds w.servers) log

-- The answer depends on the file only.
save_client-file :
    (u w : World) (k : ClientCmdType) (m : Bytes)
    → k ≢ cmd_unset
    → u.file ≡ w.file
    → (s : Saved) × (t : Saved) × (save_client u k m ≡ ok s)
      × (save_client w k m ≡ ok t)
      × (s.response ≡ t.response)
      × (s.success ≡ t.success)
      × (s.world ≡ record u { file = file_after k m u.file })
unfolding save_client
save_client-file u w client_cmd_write m set e = (
  saved_write m (save_msg_write u.file m).1 (record u { file = (save_msg_write u.file m).0 }),
  saved_write m (save_msg_write w.file m).1 (record w { file = (save_msg_write w.file m).0 }),
  refl,
  refl,
  rw e (ground arith),
  rw e (ground arith),
  ground arith,
)
save_client-file u w client_cmd_replace m set e = (
  saved_replace m (save_msg_replace u.file m).1 (record u { file = (save_msg_replace u.file m).0 }),
  saved_replace m (save_msg_replace w.file m).1 (record w { file = (save_msg_replace w.file m).0 }),
  refl,
  refl,
  rw e (ground arith),
  rw e (ground arith),
  ground arith,
)
save_client-file u w cmd_unset m set e = absurd (set refl)

-- All peers have carried out the command: the master does, and answers the user.
pub commit_success-IsDone :
    (n : ℕ) (os : Os) (others : World → World) (w u : World) (c d : ClientCb) (k : ClientCmdType)
    (m : Bytes) (log : List SysCall)
    → k ≢ cmd_unset
    → IsAlone w c
    → All (Listening os) (fds w.servers)
    → Stage w c
        (committing k m)
        sync_m_operation_performed
        (answer_event commit_phase (before_slash m) d ∷ [])
        log
        u
    → (v : World) × (handle_client_event (suc (suc n)) os others u ≡ ok v) × IsDone w c k m log v
unfolding dispatch conclude sync_send_success sync_clear_client_cmd send_response_to_client
commit_success-IsDone n os others w u c d k m log set alone listening st =
    let t : World = record u { events = [] } in
    let user = committing k m c in
    let ev = answer_event commit_phase (before_slash m) d in
    let (s, r, e, e', response, success, world) = save_client-file t w k m set st.file in
    let text = end_text s.success (before_slash m) in
    let kept = broadcast-Kept os s.world text sync_idle in
    let sent = broadcast-IsSent os s.world text sync_idle (
      subst (λ (x : World). All (Listening os) (fds x.servers)) (sym world)
        (rw st.links listening)) in
    let clients : (conclude os user ev.msg_number s).clients
        ≡ update c.addr (λ x. cleared (committing k m x)) w.clients =
      ap (update c.addr cleared) (kept.clients ∙ ap (λ (x : World). x.clients) world ∙ st.clients)
      ∙ update-update (committing k m) cleared c.addr w.clients (λ x. refl) in
    let same : sends_to text (fds t.servers) t.calls ≡ sends_to text (fds w.servers) log =
      rw (st.links, st.calls) refl in
    let ended : (sync_send_success os s.world s.success (before_slash m)).0.calls
        ≡ sends_to text (fds w.servers) log =
      sent.calls ∙ ap (λ (x : World). sends_to text (fds x.servers) x.calls) world ∙ same in
    (
      conclude os user ev.msg_number s,
      handles_one (suc (suc n)) os others u ev st.events
          ∙ proc_sync_ev_commit_success-one n os t ev user s
              (ap (first_of_list waits_save) st.clients
                ∙ first_of_list-update waits_save (committing k m) c.addr w.clients c alone.here
                    alone.no_save (ground (arith, alone.user)))
              (bytes_eq_refl (before_slash m)) e
              (ap (first_of_list waits_save) clients
                ∙ first_of_list-update-none waits_save (λ x. cleared (committing k m x)) c.addr
                    w.clients alone.no_save (λ x. ground arith)),
      record {
        saved = r;
        save = e';
        clients = clients;
        file = kept.file ∙ ap (λ (x : World). x.file) world ∙ ap (file_after k m) st.file;
        events = kept.events ∙ ap (λ (x : World). x.events) world;
        calls =
            ap (◌∷◌ (send_call c.fd (s.response ++ b'\n' ∷ []))) ended
            ∙ rw (response, success) refl;
      },
    )
