-- ===== src/Tests/Peers.antt =====
-- The peers at concrete lists.
use bbserver.Base.{
  ◌≡◌, refl, some, List, [], ◌∷◌, ◌++◌, arith, if◌then◌else◌, codes, ok, ℤ, pos, negsuc,
}
use bbserver.Types.{
  sync_null, sync_idle, sync_m_commited, sync_m_precommited, sync_m_precommit_multicasted,
  ev_sync_precommit_err, sync_s_precommit_ack, sync_m_precommit_unsuccess, client_cmd_write,
  client_cmd_replace, sync_s_commited, is_state, ClientCb,
}
use bbserver.World.{World, send_call}
use bbserver.Board.{open_in_out, save_msg_replace, endl}
use bbserver.Text.{to_string, before_slash}
use bbserver.Servers.{broadcast, commit_text, sync_get_master_state}
use bbserver.Servers.Broadcast.{to_state, send_calls, broadcast_stops}
use bbserver.Msg.Slave.{set_slave, process_sync_slave_msg}
use bbserver.Msg.Slave.Commit.{
  numbered, replace_outcome, process_sync_slave_msg-commit_write,
  process_sync_slave_msg-commit_replace, process_sync_slave_msg-turned_away,
  process_sync_slave_msg_unguarded,
}
use bbserver.Msg.Master.{process_sync_master_msg}
use bbserver.Msg.Master.Votes.{answer_event, process_sync_master_msg_error}
use bbserver.Tests.{os, client, server, world, board}

abbrev slots : List ℤ
slots = pos 3 ∷ pos 4 ∷ pos 7 ∷ negsuc 0 ∷ []

abbrev two_servers : World
two_servers = world [] (server 1 sync_m_precommit_multicasted ∷ server 2 sync_m_precommited ∷ [])

-- the second server does not take what it is sent
abbrev broken_server : World
broken_server = world [] (server 1 sync_m_precommited ∷ server 3 sync_m_precommited ∷ [])

broadcast_stops_example : broadcast os broken_server (codes "go") sync_m_commited ≡ (
  record broken_server {
    servers =
        to_state sync_m_commited (server 1 sync_m_precommited) ∷ server 3 sync_m_precommited ∷ [];
    calls =
        send_call (pos 13) (codes "go")
        ∷ send_calls (codes "go") (server 1 sync_m_precommited ∷ []) [];
  },
  negsuc 0,
)
broadcast_stops_example =
    broadcast_stops os broken_server (codes "go") sync_m_commited (server 1 sync_m_precommited ∷ [])
      (server 3 sync_m_precommited) [] refl ((λ log. refl), tt) (λ log. refl)

abbrev ready_slave : ClientCb
ready_slave = client 1 sync_s_precommit_ack

abbrev slave_world : World
slave_world = world (ready_slave ∷ []) []

process_sync_slave_msg-commit_write_example :
    process_sync_slave_msg slave_world ready_slave
      (commit_text client_cmd_write (numbered 3 (codes "ann/new")))
    ≡ ok (
      record (set_slave slave_world ready_slave sync_s_commited) {
        msg_number = pos 3;
        file = record board {
          content = some (codes "1/ann/hi\n2/bob/yo\n" ++ (numbered 3 (codes "ann/new") ++ endl));
        };
      },
      codes "6.0 COMMITED SUCCESS " ++ to_string (pos 3),
      pos 0,
    )
process_sync_slave_msg-commit_write_example =
    process_sync_slave_msg-commit_write slave_world ready_slave (codes "1/ann/hi\n2/bob/yo\n")
      (codes "ann/new") 3 refl refl (omega arith) (omega arith) (omega arith)

process_sync_slave_msg-commit_replace_example :
    process_sync_slave_msg slave_world ready_slave
      (commit_text client_cmd_replace (codes "1/ann/x"))
    ≡ ok (
      record (set_slave slave_world ready_slave sync_s_commited) {
        file = (save_msg_replace board (codes "1/ann/x")).0;
      },
      replace_outcome (open_in_out board) (before_slash (codes "1/ann/x"))
          ++ b' ' ∷ before_slash (codes "1/ann/x"),
      pos 0,
    )
process_sync_slave_msg-commit_replace_example =
    process_sync_slave_msg-commit_replace slave_world ready_slave (codes "1/ann/x") refl
      (omega arith)

abbrev early : ClientCb
early = client 1 sync_idle

process_sync_slave_msg-turned_away_example :
    (process_sync_slave_msg slave_world early (commit_text client_cmd_write (codes "3/a/b"))
      ≡ ok (slave_world, [], negsuc 0))
    × (process_sync_slave_msg slave_world early (commit_text client_cmd_replace (codes "3/a/b"))
        ≡ ok (slave_world, [], negsuc 0))
process_sync_slave_msg-turned_away_example =
    process_sync_slave_msg-turned_away slave_world early (codes "3/a/b") (λ e. cc) (omega arith)
      (omega arith)

abbrev quiet : World
quiet = record slave_world { config = record slave_world.config { debug_level = 0 } }

process_sync_slave_msg_unguarded_example :
    (process_sync_slave_msg quiet early (commit_text client_cmd_write (codes "3/a/b"))
      ≡ process_sync_slave_msg quiet ready_slave (commit_text client_cmd_write (codes "3/a/b")))
    × (process_sync_slave_msg quiet early (commit_text client_cmd_replace (codes "3/a/b"))
        ≡ process_sync_slave_msg quiet ready_slave (commit_text client_cmd_replace (codes "3/a/b")))
process_sync_slave_msg_unguarded_example =
    process_sync_slave_msg_unguarded quiet early sync_s_precommit_ack (codes "3/a/b") refl
      (omega arith)

-- the connection to the first server
abbrev link : ClientCb
link = record (client 1 sync_null) { fd = pos 11 }

process_sync_master_msg_error_example :
    (v : World) × (u : World) × (process_sync_master_msg two_servers link
        (codes "5.1 ERROR PRECOMMIT\n")
      ≡ ok v)
    × (process_sync_master_msg v link (codes "5.1 ERROR PRECOMMIT\n") ≡ ok u)
    × (v.events ≡ (
        if is_state (sync_get_master_state two_servers) sync_m_precommit_unsuccess
        then []
        else answer_event link (codes "5.1 ERROR PRECOMMIT") ev_sync_precommit_err [] ∷ []))
    × (u.events ≡ v.events)
process_sync_master_msg_error_example =
    process_sync_master_msg_error two_servers link link (λ e. cc)
