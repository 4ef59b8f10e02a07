-- ===== src/Tests/Runs.antt =====
-- Whole runs of the server: from its start, over an event, and through a commit.
use bbserver.Base.{
  Each, ◌≡◌, refl, inl, inr, true, none, some, [], ◌∷◌, arith, replicate, Bytes, codes, ok, pos,
}
use bbserver.Types.{
  client_cmd_write, sync_null, sync_idle, sync_u_waiting_save, sync_m_commited,
  ev_sync_commit_success, ev_sync_precommit_ack,
}
use bbserver.World.{World}
use bbserver.Conn.{conn_init, free_slot}
use bbserver.Conn.Table.{conn_init-IsTable}
use bbserver.Service.Setup.{two_slots, listening_calls, start_conn_service-Listens}
use bbserver.Bootup.{sys_bootup}
use bbserver.Bootup.Serving.{Reach-served}
use bbserver.Timers.{handle_master_timeout}
use bbserver.Event.Handle.{handle_client_event}
use bbserver.Event.Invariant.{IsWorld}
use bbserver.Event.Invariant.History.{starts, handles, fires_master}
use bbserver.Event.Halting.{handle_client_event-Halts}
use bbserver.Event.Halting.Messages.{Halts}
use bbserver.Event.Calm.{handle_client_event-IsCalm}
use bbserver.Event.Transaction.{transact, transact-IsDone, phase_calls, IsReady}
use bbserver.Event.Transaction.Handled.{IsDone}
use bbserver.Types.{client_sync_slave}
use bbserver.Msg.Slave.Commit.{numbered}
use bbserver.Event.Replicas.{follow, commit_messages, transact-follow}
use bbserver.Tests.{os, client, server, world, config, board}
use bbserver.Tests.Boot.{before_boot, booted, counting}
use bbserver.Tests.Rounds.{link}

-- a user, and two peers that take what they are sent
abbrev start : World
start =
    world (client 2 sync_idle ∷ client 1 sync_null ∷ [])
      (server 1 sync_idle ∷ server 2 sync_idle ∷ [])

abbrev text : Bytes
text = numbered 3 (codes "ann/new")

start-IsReady : IsReady os start (client 2 sync_idle) client_cmd_write text
unfolding bbserver.Text.to_string
start-IsReady = record {
  set = λ e. cc;
  number = omega arith;
  alone = record { user = refl; here = refl; no_commit = refl; no_save = refl };
  empty = refl;
  some_peer = omega arith;
  rising = (omega arith, (omega arith, tt));
  linked = (refl, (refl, tt));
  listening = ((λ m log. refl), ((λ m log. refl), tt));
}

transact-IsDone_example :
    (v : World) × (transact 2 os
        (λ w. w)
        start
        (client 2 sync_idle)
        client_cmd_write
        text
        (link 2 ∷ link 1 ∷ [])
        (link 1 ∷ link 2 ∷ [])
      ≡ ok v)
    × IsDone start
        (client 2 sync_idle)
        client_cmd_write
        text
        (phase_calls start client_cmd_write text)
        v
transact-IsDone_example =
    transact-IsDone 2 os (λ w. w) start (client 2 sync_idle) client_cmd_write text
      (link 2 ∷ link 1 ∷ []) (link 1 ∷ link 2 ∷ []) (omega arith) start-IsReady
      (record { distinct = ((refl, tt), (tt, tt)); linked = (refl, (refl, tt)); all = refl })
      (record { distinct = ((refl, tt), (tt, tt)); linked = (refl, (refl, tt)); all = refl })

-- a peer with the same file, and the master's connection
abbrev replica : World
replica = world (record (client 1 sync_null) { type = client_sync_slave } ∷ []) []

transact-follow_example :
    (v : World) × (u : World) × (done : IsDone start
      (client 2 sync_idle)
      client_cmd_write
      text
      (phase_calls start client_cmd_write text)
      v)
    × (transact 2 os
          (λ w. w)
          start
          (client 2 sync_idle)
          client_cmd_write
          text
          (link 2 ∷ link 1 ∷ [])
          (link 1 ∷ link 2 ∷ [])
        ≡ ok v)
    × (follow replica (pos 5) (commit_messages client_cmd_write text done.saved.success) ≡ ok u)
    × (u.file ≡ v.file)
unfolding bbserver.Clients.client_list_find
transact-follow_example =
    transact-follow 2 os (λ w. w) start replica (client 2 sync_idle)
      (record (client 1 sync_null) { type = client_sync_slave }) (pos 5) client_cmd_write
      (codes "1/ann/hi\n2/bob/yo\n") (codes "ann/new") 3 (link 2 ∷ link 1 ∷ [])
      (link 1 ∷ link 2 ∷ []) (omega arith) start-IsReady
      (record { distinct = ((refl, tt), (tt, tt)); linked = (refl, (refl, tt)); all = refl })
      (record { distinct = ((refl, tt), (tt, tt)); linked = (refl, (refl, tt)); all = refl }) refl
      refl refl (record { positive = omega arith; small = omega arith; clean = omega arith })

-- a user that waits for the save, and the success of its number
abbrev due : World
due =
    record (world (client 3 sync_u_waiting_save ∷ client 2 sync_null ∷ [])
      (server 1 sync_m_commited ∷ [])) {
        conns = conn_init;
        events =
            record {
              fd = some (pos 11);
              event = ev_sync_commit_success;
              type = none;
              msg_number = codes "3";
              response = [];
            }
            ∷ [];
      }

handle_client_event-Halts_example : Halts (handle_client_event 3 os (λ w. w) due)
handle_client_event-Halts_example =
    handle_client_event-Halts 3 os (λ w. w) due
      ((omega arith, (omega arith, tt)), conn_init-IsTable, (omega arith, tt)) (omega arith)
      (λ v h. h) (unfold bbserver.Event.Timeout.mark_slaves in omega arith)
      (inr (refl, λ e. cc), (inl refl, tt))

-- all peers have acknowledged
abbrev acknowledged : World
acknowledged = record due {
  config = record config { sync_enable = true };
  events =
      record {
        fd = some (pos 11);
        event = ev_sync_precommit_ack;
        type = none;
        msg_number = [];
        response = [];
      }
      ∷ [];
}

handle_client_event-IsCalm_example :
    Each (λ v. v.file ≡ board) (handle_client_event 3 os (λ w. w) acknowledged)
handle_client_event-IsCalm_example =
    handle_client_event-IsCalm 3 os (λ w. w) acknowledged refl (λ v h. h) (λ s. s)

-- the server when it has opened its sockets
abbrev served : World
served = record booted.world {
  conns = two_slots 4 8 (replicate 1022 free_slot) (pos 8 ∷ pos 4 ∷ []);
  calls = listening_calls 8 10000 (listening_calls 4 9000 []);
}

-- after a time-out of the master, which has nothing under way
timed_out : handle_client_event 1 counting (λ w. w) (handle_master_timeout served) ≡ ok served
unfolding handle_client_event handle_master_timeout
    bbserver.Event.Timeout.proc_sync_ev_master_timeout bbserver.Servers.sync_get_master_state
timed_out = refl

Reach-served_example : IsWorld served
unfolding sys_bootup bbserver.Servers.Config.init_sync_server_list
Reach-served_example =
    Reach-served (λ name. none) sync_null counting before_boot booted served served (pos 4) (pos 8)
      refl refl
      (start_conn_service-Listens counting booted.world 4 8
        (record { binds = λ log fd port. refl; listens = λ log fd. refl }) refl refl (omega arith))
      (handles 1 counting (λ w. w) (λ t. starts) timed_out (fires_master starts))
