-- ===== src/Event/Transaction/Steps.antt =====
-- The steps of a two-phase commit that goes well, one after the other.
use bbserver.Base.{
  suc, ◌<◌, ◌≡◌, refl, sym, ap, ◌∙◌, inl, inr, true, false, List, [], ◌∷◌, arith, Bool-cases,
  length, any_of, All, Bytes, codes, Lacks, ok, ℤ, eq_ℤ,
}
use mathlib.Core.Path.{subst}
use bbserver.Types.{
  ClientCb, ClientEventCb, ClientCmdType, SyncServerCb, SyncState, is_state, sync_idle,
  sync_m_precommit_multicasted,
}
use bbserver.Types.Codes.{is_state→eq}
use bbserver.World.{World, Os, SysCall}
use bbserver.Clients.{update, sync_save_client_cmd}
use bbserver.Servers.{settle, sync_send_precommit, sync_check_server_state, sync_set_master_state}
use bbserver.Servers.Broadcast.{broadcast-Kept}
use bbserver.Servers.Connect.{Linked, init_sync_server_connection-Linked, settle_kept}
use bbserver.Servers.Count.{Rising, missing, none_missing, set_first-Rising}
use bbserver.Servers.Links.{fds, sends_to, Listening, broadcast-IsSent, settle-links, missing_all}
use bbserver.Msg.Client.{start_sync}
use bbserver.Msg.Client.Start.{waiting}
use bbserver.Msg.Master.Round.{Phase, state_of, answer_event, Answers-IsRound}
use bbserver.Msg.Master.Passed.{last_of, Answers-IsPassed, Answers-events, Answers-Rising}
use bbserver.Msg.Master.Orders.{read_answers, read_answers-Answers, Distinct, Pending}

-- Where the commit of the command of `c` stands, in the world `v`, when it began in `w`: what it
-- has made of the client, the state of every server, the events, and the calls.
pub record Stage (w : World) (c : ClientCb) (f : ClientCb → ClientCb) (s : SyncState)
    (evs : List ClientEventCb) (log : List SysCall) (v : World) : Type 0 where
  pub clients : v.clients ≡ update c.addr f w.clients
  pub file : v.file ≡ w.file
  pub links : fds v.servers ≡ fds w.servers
  pub moved : sync_check_server_state v.servers s ≡ true
  pub rising : Rising 0 v.servers
  pub events : v.events ≡ evs
  pub calls : v.calls ≡ log

-- The connections to the peers, in some order, each once.
pub record IsEveryPeer (w : World) (cs : List ClientCb) : Type 0 where
  pub distinct : Distinct cs
  pub linked : All (λ c. any_of (λ x. eq_ℤ x c.fd) (fds w.servers) ≡ true) cs
  pub all : length cs ≡ length w.servers

length-fds : (ps : List SyncServerCb) → length (fds ps) ≡ length ps
length-fds [] = refl
length-fds (p ∷ ps) = ap suc (length-fds ps)

linked-Pending :
    (s t : SyncState) (ps : List SyncServerCb) (fd : ℤ)
    → is_state s t ≡ false
    → sync_check_server_state ps s ≡ true
    → any_of (λ x. eq_ℤ x fd) (fds ps) ≡ true
    → Pending t ps fd
linked-Pending s t [] fd d a h = absurd (ground arith)
linked-Pending s t (p ∷ ps) fd d a h = elim (Bool-cases (eq_ℤ p.fd fd)) [
  | inl e ↦ (p, rw e refl, ground (arith, is_state→eq p.state s, ap (λ r. is_state r t)))
  | inr e ↦
      let (q, f, g) = linked-Pending s t ps fd d (ground arith) (ground arith) in (q, rw e f, g)
]

-- From the connections to the servers that wait for their answers.
every_Pending :
    (s t : SyncState) (ps : List SyncServerCb) (cs : List ClientCb)
    → is_state s t ≡ false
    → sync_check_server_state ps s ≡ true
    → All (λ c. any_of (λ x. eq_ℤ x c.fd) (fds ps) ≡ true) cs
    → All (λ c. Pending t ps c.fd) cs
every_Pending s t ps [] d a h = tt
every_Pending s t ps (c ∷ cs) d a h =
    (linked-Pending s t ps c.fd d a h.0, every_Pending s t ps cs d a h.1)

settle-rest :
    (w : World) (s : SyncState)
    → Rising 0 w.servers
    → ((settle w s).events ≡ w.events) × Rising 0 (settle w s).servers
unfolding sync_set_master_state
settle-rest w s h = elim (Bool-cases (sync_check_server_state w.servers s)) [
  | inl e ↦ rw e (refl, set_first-Rising s 0 w.servers h)
  | inr e ↦ rw e (refl, h)
]

-- The user's command starts the first phase.
pub start_sync-Stage :
    (os : Os) (w : World) (c : ClientCb) (k : ClientCmdType) (m : Bytes)
    → 0 < length w.servers
    → All Linked w.servers
    → All (Listening os) (fds w.servers)
    → Rising 0 w.servers
    → w.events ≡ []
    → (v : World) × (start_sync os w c k m ≡ ok (v, []))
      × Stage w c
          (waiting k m)
          sync_m_precommit_multicasted
          []
          (sends_to (codes "PRECOMMIT\n") (fds w.servers) w.calls)
          v
unfolding start_sync sync_save_client_cmd sync_send_precommit
start_sync-Stage os w c k m some_peer linked listening rising empty =
    let u : World = record w { clients = update c.addr (waiting k m) w.clients } in
    let t = settle u sync_idle in
    let (clients, calls, file) = settle_kept u sync_idle in
    let (events, rising') = settle-rest u sync_idle rising in
    let links = settle-links u sync_idle in
    let sent =
      broadcast-IsSent os t (codes "PRECOMMIT\n") sync_m_precommit_multicasted
        (rw links listening) in
    let kept = broadcast-Kept os t (codes "PRECOMMIT\n") sync_m_precommit_multicasted in
    (
      (sync_send_precommit os t).0,
      rw (init_sync_server_connection-Linked os u some_peer linked) refl,
      record {
        clients = kept.clients ∙ clients;
        file = kept.file ∙ file;
        links = sent.links ∙ links;
        moved = sent.moved;
        rising = sent.rising rising';
        events = kept.events ∙ events ∙ empty;
        calls = sent.calls ∙ rw (links, calls) refl;
      },
    )

-- The peers answer, each once and in any order.
pub read_answers-Stage :
    (ph : Phase) (number : Bytes) (w v : World) (c : ClientCb) (f : ClientCb → ClientCb)
    (s : SyncState) (log : List SysCall) (d : ClientCb) (cs : List ClientCb)
    → is_state s (state_of ph) ≡ false
    → Lacks b'\r' number
    → IsEveryPeer w (d ∷ cs)
    → Stage w c f s [] log v
    → (u : World) × (read_answers ph number v (d ∷ cs) ≡ ok u)
      × Stage w c f (state_of ph) (answer_event ph number (last_of d cs) ∷ []) log u
read_answers-Stage ph number w v c f s log d cs other lacks peers st =
    let t = state_of ph in
    let (u, r, e, numbered) =
      read_answers-Answers ph number 0 v (d ∷ cs) lacks st.rising peers.distinct (
        every_Pending s t v.servers (d ∷ cs) other st.moved (
          subst (λ ls. All (λ x. any_of (λ fd. eq_ℤ fd x.fd) ls ≡ true) (d ∷ cs)) (sym st.links)
            peers.linked)) in
    let passed = Answers-IsPassed ph v u (d ∷ cs) r in
    let round = Answers-IsRound ph 0 v u (d ∷ cs) st.rising r in
    let none_left : missing t u.servers ≡ 0 = omega (
      arith,
      round.counted,
      missing_all s t v.servers other st.moved,
      peers.all,
      length-fds v.servers,
      length-fds w.servers,
      ap length st.links,
    ) in
    (
      u,
      e,
      record {
        clients = passed.clients ∙ st.clients;
        file = passed.file ∙ st.file;
        links = passed.links ∙ st.links;
        moved = sym (none_missing t u.servers) ∙ rw none_left refl;
        rising = Answers-Rising ph 0 v u (d ∷ cs) st.rising r;
        events =
            Answers-events ph number 0 v u d cs r st.rising numbered none_left ∙ rw st.events refl;
        calls = passed.calls ∙ st.calls;
      },
    )
