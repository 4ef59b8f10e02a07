-- ===== src/Event/Transaction.antt =====
-- A two-phase commit from the user's command to its answer.
pub mod Steps
pub mod Handled
use bbserver.Base.{
  Each, bind-Each, bind_any, weaken, if-Each, ℕ, zero, suc, ◌+◌, ◌-◌, ◌*◌, ◌/◌, ◌%◌, ◌^◌, ◌≤◌, ◌<◌,
  ◌≡◌, refl, sym, ap, ◌∙◌, ◌≢◌, ◌↔◌, ◌⊎◌, inl, inr, Bool, true, false, not, ◌&&◌, ◌||◌, Option,
  none, some, List, [], ◌∷◌, ◌++◌, map, append-nil, append_assoc, arith, ltb, leb, ◌==◌,
  if◌then◌else◌, ltb→lt, lt→ltb, ==_iff, ==_refl, Bool-cases, Option-cases, length, get_elem?, take,
  drop, replicate, any_of, all_of, count_of, first_of_list, length-append, take-append, drop-append,
  length-replicate, All, Bytes, codes, bytes_eq, bytes_eq_refl, bytes_eq→eq, Lacks, Lacks-append,
  Fault, out_of_range, invalid_argument, undefined, spinning, blocked, exited, Result, ok, err,
  ◌>>=◌, deref, ℤ, pos, negsuc, int_max, eq_ℤ, is_neg, is_pos, eq_ℤ_iff, eq_ℤ_refl,
}
use bbserver.Text.{before_slash}
use bbserver.Types.{
  ClientCb, ClientCmdType, cmd_unset, sync_m_precommit_multicasted, sync_m_commited,
}
use bbserver.World.{World, Os, SysCall}
use bbserver.Servers.{commit_text}
use bbserver.Servers.Connect.{Linked}
use bbserver.Servers.Count.{Rising}
use bbserver.Servers.Links.{fds, sends_to, Listening}
use bbserver.Msg.Client.{start_sync}
use bbserver.Msg.Client.Start.{waiting}
use bbserver.Msg.Master.Round.{precommit_phase, commit_phase}
use bbserver.Msg.Master.Passed.{last_of}
use bbserver.Msg.Master.Orders.{read_answers}
use bbserver.Event.Handle.{handle_client_event}
use bbserver.Event.Transaction.Steps.{IsEveryPeer, start_sync-Stage, read_answers-Stage}
use bbserver.Event.Transaction.Handled.{
  IsAlone, IsDone, committing, precommit_ack-Stage, commit_success-IsDone,
}

-- The user's command; the peers' acknowledgements, over these connections in this order; the event
-- that they make; the peers' reports of success; and the event that those make.
unfoldable pub transact :
    ℕ
    → Os
    → (World → World)
    → World
    → ClientCb
    → ClientCmdType
    → Bytes
    → List ClientCb
    → List ClientCb
    → Result World
unfolding start_sync read_answers handle_client_event
transact n os others w c k m acks reports = do
  r ← start_sync os w c k m
  x ← read_answers precommit_phase [] r.0 acks
  y ← handle_client_event n os others x
  z ← read_answers commit_phase (before_slash m) y reports
  handle_client_event n os others z

-- The calls of the first phase and of the start of the second, newest first.
abbrev pub phase_calls : World → ClientCmdType → Bytes → List SysCall
phase_calls w k m =
    sends_to (commit_text k m) (fds w.servers)
      (sends_to (codes "PRECOMMIT\n") (fds w.servers) w.calls)

-- What a commit of `k` and `m` for the user `c` needs: a number that a line can hold; nothing else
-- under way; and peers that are all connected and take what they are sent.
pub record IsReady (os : Os) (w : World) (c : ClientCb) (k : ClientCmdType) (m : Bytes)
    : Type 0 where
  pub set : k ≢ cmd_unset
  pub number : Lacks b'\r' (before_slash m)
  pub alone : IsAlone w c
  pub empty : w.events ≡ []
  pub some_peer : 0 < length w.servers
  pub rising : Rising 0 w.servers
  pub linked : All Linked w.servers
  pub listening : All (Listening os) (fds w.servers)

transact-cons :
    (n : ℕ) (os : Os) (others : World → World) (w : World) (c d e : ClientCb) (k : ClientCmdType)
    (m : Bytes) (ds es : List ClientCb)
    → IsReady os w c k m
    → IsEveryPeer w (d ∷ ds)
    → IsEveryPeer w (e ∷ es)
    → (v : World) × (transact (suc (suc n)) os others w c k m (d ∷ ds) (e ∷ es) ≡ ok v)
      × IsDone w c k m (phase_calls w k m) v
unfolding transact
transact-cons n os others w c d e k m ds es h acks reports =
    let (v1, g1, s1) =
      start_sync-Stage os w c k m h.some_peer h.linked h.listening h.rising h.empty in
    let (v2, g2, s2) =
      read_answers-Stage precommit_phase [] w v1 c (waiting k m) sync_m_precommit_multicasted
        (sends_to (codes "PRECOMMIT\n") (fds w.servers) w.calls) d ds refl tt acks s1 in
    let (v3, g3, s3) =
      precommit_ack-Stage n os others w v2 c (last_of d ds) k m
        (sends_to (codes "PRECOMMIT\n") (fds w.servers) w.calls) h.alone h.listening s2 in
    let (v4, g4, s4) =
      read_answers-Stage commit_phase (before_slash m) w v3 c (committing k m) sync_m_commited
        (phase_calls w k m) e es refl h.number reports s3 in
    let (v5, g5, done) =
      commit_success-IsDone n os others w v4 c (last_of e es) k m (phase_calls w k m) h.set h.alone
        h.listening s4 in
    (v5, rw g1 (rw g2 (rw g3 (rw g4 g5))), done)

transact-order :
    (n : ℕ) (os : Os) (others : World → World) (w : World) (c : ClientCb) (k : ClientCmdType)
    (m : Bytes) (acks reports : List ClientCb)
    → IsReady os w c k m
    → IsEveryPeer w acks
    → IsEveryPeer w reports
    → (v : World) × (transact (suc (suc n)) os others w c k m acks reports ≡ ok v)
      × IsDone w c k m (phase_calls w k m) v
transact-order n os others w c k m [] reports h a r = absurd (omega (arith, h.some_peer, a.all))
transact-order n os others w c k m (d ∷ ds) [] h a r = absurd (omega (arith, h.some_peer, r.all))
transact-order n os others w c k m (d ∷ ds) (e ∷ es) h a r =
    transact-cons n os others w c d e k m ds es h a r

-- A two-phase commit that goes well, from the user's command to its answer, for whatever command
-- and record, and in whatever orders the peers answer. There is a peer; each is connected, has its
-- own address and takes what it is sent; the queue is empty and no other user's command is under
-- way; the number in front of the record has no carriage return; each peer answers once in each
-- phase; and the handlers' loops get two rounds or more. Then it comes to its end, and the master
-- has sent PRECOMMIT, COMMIT with the record and END with the outcome of its own save to each peer
-- once, in the order of the list, and at last that save's answer to the user; the file is the one
-- after that save; the user is idle with its record and number cleared, every other client is as it
-- was, and the queue is empty.
pub transact-IsDone :
    (n : ℕ) (os : Os) (others : World → World) (w : World) (c : ClientCb) (k : ClientCmdType)
    (m : Bytes) (acks reports : List ClientCb)
    → 1 < n
    → IsReady os w c k m
    → IsEveryPeer w acks
    → IsEveryPeer w reports
    → (v : World) × (transact n os others w c k m acks reports ≡ ok v)
      × IsDone w c k m (phase_calls w k m) v
transact-IsDone zero os others w c k m acks reports l h a r = absurd (omega (arith, l))
transact-IsDone (suc zero) os others w c k m acks reports l h a r = absurd (omega (arith, l))
transact-IsDone (suc (suc n)) os others w c k m acks reports l h a r =
    transact-order n os others w c k m acks reports h a r
