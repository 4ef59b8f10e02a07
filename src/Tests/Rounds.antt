-- ===== src/Tests/Rounds.antt =====
-- The time-outs and a round of acknowledgements at concrete lists.
use bbserver.Base.{ℕ, ◌+◌, ◌≡◌, refl, some, [], ◌∷◌, arith, count_of, ok, pos}
use bbserver.Types.{
  ClientCb, SyncServerCb, sync_null, sync_u_waiting_commit, sync_m_precommit_multicasted,
  sync_m_commited, sync_u_waiting_save,
}
use bbserver.World.{World}
use bbserver.Clients.{waits_commit, waits_save}
use bbserver.Clients.Find.{swept}
use bbserver.Servers.{
  sync_server_list_find, sync_server_list_set_state, sync_set_master_state, sync_send_event,
  sync_send_abort,
}
use bbserver.Event.Commit.Phase.{cleared, refusals}
use bbserver.Msg.Master.{all_answered}
use bbserver.Msg.Master.Round.{
  precommit_phase, answered, answered_lem, Answers, no_answers, next_answer, IsRound,
  Answers-IsRound,
}
use bbserver.Timers.Firing.{time_out, time_out_answers, time_out_fails}
use bbserver.Tests.{os, client, server, world}

-- a user that waits, and two peers that have been sent PRECOMMIT
abbrev asked : World
asked =
    world (client 2 sync_u_waiting_commit ∷ client 1 sync_null ∷ [])
      (server 1 sync_m_precommit_multicasted ∷ server 2 sync_m_precommit_multicasted ∷ [])

time_out_answers_example :
    (last : World) × (time_out 2 os (λ w. w) asked ≡ ok last)
    × (last.clients ≡ swept waits_commit cleared asked.clients)
    × (count_of waits_commit last.clients ≡ 0)
    × (last.calls
        ≡ refusals asked.clients
            (sync_send_abort os (record asked { events = []; timer_master = 0 })).0.calls)
    × (last.file ≡ asked.file)
unfolding bbserver.Servers.sync_get_master_state
time_out_answers_example =
    time_out_answers 2 3 os (λ w. w) asked refl refl (omega arith, (omega arith, tt)) (omega arith)

-- the same peers when they have been sent COMMIT, and a user that waits for the save
abbrev sent_commit : World
sent_commit = world (client 2 sync_u_waiting_save ∷ client 1 sync_null ∷ []) (
    record (server 1 sync_m_commited) { master_state = sync_m_commited }
    ∷ server 2 sync_m_commited
    ∷ [])

time_out_fails_example :
    (last : World) × (time_out 2 os (λ w. w) sent_commit ≡ ok last)
    × (last.clients ≡ swept waits_save cleared sent_commit.clients)
    × (count_of waits_save last.clients ≡ 0)
    × (last.file ≡ sent_commit.file)
unfolding bbserver.Servers.sync_get_master_state
time_out_fails_example =
    time_out_fails 2 3 os (λ w. w) sent_commit refl refl (omega arith, (omega arith, tt))
      (omega arith)

-- the connections of the two peers
abbrev pub link : ℕ → ClientCb
link n = record (client n sync_null) { fd = pos (10 + n) }

abbrev asked_server : ℕ → SyncServerCb
asked_server n = server n sync_m_precommit_multicasted

-- the second peer has acknowledged, and then the first
abbrev one_ack : World
one_ack = answered precommit_phase [] asked (link 2) (asked_server 2)

abbrev two_acks : World
two_acks = answered precommit_phase [] one_ack (link 1) (asked_server 1)

found_second : sync_server_list_find asked (pos 12) ≡ some (asked_server 2)
unfolding sync_server_list_find
found_second = refl

found_first : sync_server_list_find one_ack (pos 11) ≡ some (asked_server 1)
unfolding sync_server_list_find all_answered sync_server_list_set_state sync_set_master_state
    sync_send_event
found_first = refl

acks : Answers precommit_phase asked (link 2 ∷ link 1 ∷ []) two_acks
acks =
    next_answer [] (asked_server 2) tt found_second refl
      (answered_lem precommit_phase [] asked (link 2) (asked_server 2) tt found_second)
      (next_answer [] (asked_server 1) tt found_first refl
        (answered_lem precommit_phase [] one_ack (link 1) (asked_server 1) tt found_first)
        no_answers)

Answers-IsRound_example : IsRound precommit_phase asked (link 2 ∷ link 1 ∷ []) two_acks
Answers-IsRound_example =
    Answers-IsRound precommit_phase 0 asked two_acks (link 2 ∷ link 1 ∷ [])
      (omega arith, (omega arith, tt)) acks
