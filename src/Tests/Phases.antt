-- ===== src/Tests/Phases.antt =====
-- The two phases at concrete lists of clients.
use bbserver.Base.{
  ◌≡◌, refl, inl, inr, true, none, some, [], ◌∷◌, arith, Bytes, codes, spinning, ok, err, pos,
}
use bbserver.Types.{
  ClientEventCb, sync_u_waiting_commit, sync_u_waiting_save, sync_m_precommited, sync_null,
  ev_sync_commit_success,
}
use bbserver.World.{World}
use bbserver.Clients.{waits_commit}
use bbserver.Clients.Find.{swept}
use bbserver.Servers.{sync_send_abort}
use bbserver.Event.Commit.{proc_sync_ev_precommit_err, proc_sync_ev_commit_success}
use bbserver.Event.Commit.Phase.{
  Committed, cleared, refusals, proc_sync_ev_precommit_ack-Committed,
  proc_sync_ev_precommit_err_ends,
}
use bbserver.Event.Commit.Save.{
  Settled, proc_sync_ev_commit_success_spins, proc_sync_ev_commit_success-Settled,
}
use bbserver.Types.{client_sync_slave, sync_s_precommit_ack, ev_sync_commit_unsuccess}
use bbserver.Clients.{waits_save, slave_acked}
use bbserver.Event.Commit.{proc_sync_ev_commit_unsuccess}
use bbserver.Event.Commit.Fail.{proc_sync_ev_commit_unsuccess_ends}
use bbserver.Event.Timeout.{proc_sync_ev_slave_timeout}
use bbserver.Event.Timeout.Reset.{to_idle, proc_sync_ev_slave_timeout_ends}
use bbserver.Tests.{os, client, server, world}

abbrev board_waits : World
board_waits =
    world
      (client 3 sync_u_waiting_commit ∷ client 2 sync_null ∷ client 1 sync_u_waiting_commit ∷ [])
      (server 1 sync_m_precommited ∷ [])

proc_sync_ev_precommit_ack-Committed_example : Committed 3 os board_waits
proc_sync_ev_precommit_ack-Committed_example =
    proc_sync_ev_precommit_ack-Committed 3 4 os board_waits
      (omega arith, (omega arith, (omega arith, tt))) (omega arith)

proc_sync_ev_precommit_err_ends_example :
    (last : World) × (proc_sync_ev_precommit_err 3 os board_waits ≡ ok last)
    × (last.clients ≡ swept waits_commit cleared board_waits.clients)
    × (last.calls ≡ refusals board_waits.clients (sync_send_abort os board_waits).0.calls)
    × (last.servers ≡ (sync_send_abort os board_waits).0.servers)
    × (last.file ≡ board_waits.file)
proc_sync_ev_precommit_err_ends_example =
    proc_sync_ev_precommit_err_ends 3 4 os board_waits
      (omega arith, (omega arith, (omega arith, tt))) (omega arith)

abbrev committed : World
committed =
    world (client 3 sync_u_waiting_save ∷ client 2 sync_null ∷ [])
      (server 1 sync_m_precommited ∷ [])

abbrev success : Bytes → ClientEventCb
success number = record {
  fd = some (pos 11);
  event = ev_sync_commit_success;
  type = none;
  msg_number = number;
  response = [];
}

proc_sync_ev_commit_success_spins_example :
    proc_sync_ev_commit_success 100 os committed (success (codes "4")) ≡ err spinning
proc_sync_ev_commit_success_spins_example =
    proc_sync_ev_commit_success_spins 100 os committed (success (codes "4"))
      (client 3 sync_u_waiting_save) refl (λ e. ground (arith, e))

proc_sync_ev_commit_success-Settled_example : Settled 2 os committed (success (codes "3"))
proc_sync_ev_commit_success-Settled_example =
    proc_sync_ev_commit_success-Settled os (success (codes "3")) 2 4 committed
      (omega arith, (omega arith, tt)) (inr (refl, λ e. cc), (inl refl, tt)) (omega arith)

abbrev failure : ClientEventCb
failure = record (success []) { event = ev_sync_commit_unsuccess }

proc_sync_ev_commit_unsuccess_ends_example :
    (last : World) × (proc_sync_ev_commit_unsuccess 2 os committed failure ≡ ok last)
    × (last.clients ≡ swept waits_save cleared committed.clients)
    × (last.file ≡ committed.file)
proc_sync_ev_commit_unsuccess_ends_example =
    proc_sync_ev_commit_unsuccess_ends 2 4 os committed failure (omega arith, (omega arith, tt))
      (inr refl, (inl refl, tt)) (omega arith)

abbrev acknowledged : World
acknowledged =
    world
      (record (client 2 sync_s_precommit_ack) { type = client_sync_slave }
        ∷ client 1 sync_null
        ∷ [])
      []

abbrev marked : World
marked =
    world
      (record (client 2 sync_s_precommit_ack) { type = client_sync_slave; slave_timeout = true }
        ∷ client 1 sync_null
        ∷ [])
      []

proc_sync_ev_slave_timeout_ends_example :
    (last : World) × (proc_sync_ev_slave_timeout 2 (λ v. marked) acknowledged ≡ ok last)
    × (last.clients ≡ swept slave_acked to_idle marked.clients)
    × (last.file ≡ marked.file)
proc_sync_ev_slave_timeout_ends_example =
    proc_sync_ev_slave_timeout_ends 2 3 (λ v. marked) acknowledged marked refl
      (omega arith, (omega arith, tt)) (omega arith)
