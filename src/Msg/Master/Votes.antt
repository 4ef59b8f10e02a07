-- ===== src/Msg/Master/Votes.antt =====
-- How the master counts the answers of the slaves.
use bbserver.Base.{
  ℕ, ◌-◌, ◌≡◌, refl, ◌≢◌, inl, inr, Bool, ◌||◌, Option, none, some, List, [], ◌∷◌, ◌++◌, arith,
  ◌==◌, if◌then◌else◌, Bool-cases, length, all_of, length-append, Bytes, codes, Lacks, Lacks-append,
  ok,
}
use bbserver.Text.Search.{substr_behind}
use bbserver.Types.{
  ClientCb, ClientEventCb, ClientEvType, SyncServerCb, SyncState, ev_sync_precommit_ack,
  ev_sync_precommit_err, ev_sync_commit_success, sync_m_precommited, sync_m_precommit_unsuccess,
  sync_m_operation_performed, is_state,
}
use bbserver.Types.Codes.{is_state_refl, is_state→eq}
use bbserver.World.{World}
use bbserver.Servers.{
  update_server, set_first, first_master, sync_check_server_state, sync_server_list_find,
  sync_server_list_set_state, sync_set_master_state, sync_get_master_state, sync_send_event,
}
use bbserver.Msg.Strip.{strip_line, strip_line-append}
use bbserver.Msg.Master.{Answer, set_server, all_answered, one_failed, process_sync_master_msg}

-- Every server but the one at the address `a` is in the state.
abbrev pub others_are : SyncState → ℕ → List SyncServerCb → Bool
others_are s a = all_of (λ (q : SyncServerCb). q.addr == a || is_state q.state s)

check-update_server :
    (s : SyncState) (a : ℕ) (ps : List SyncServerCb)
    → sync_check_server_state (update_server a (λ q. record q { state = s }) ps) s
      ≡ others_are s a ps
unfolding update_server
check-update_server s a [] = refl
check-update_server s a (p ∷ ps) = elim (Bool-cases (p.addr == a)) [
  | inl e ↦ rw (e, is_state_refl s) (check-update_server s a ps)
  | inr e ↦ rw e (elim (Bool-cases (is_state p.state s)) [
    | inl t ↦ rw t (check-update_server s a ps)
    | inr t ↦ rw t
  ])
]

-- The event that the master makes for an answer.
abbrev pub answer_event : ClientCb → Bytes → ClientEvType → Bytes → ClientEventCb
answer_event c msg e number = record {
  fd = some c.fd;
  event = e;
  type = none;
  msg_number = number;
  response = msg;
}

all_answered-events :
    (w : World) (c : ClientCb) (msg : Bytes) (p : SyncServerCb) (s : SyncState) (e : ClientEvType)
    (number : Bytes)
    → (all_answered w (record { client = c; msg = msg; server = some p }) s e number).events ≡ (
        if others_are s p.addr w.servers
        then w.events ++ answer_event c msg e number ∷ []
        else w.events)
unfolding all_answered sync_server_list_set_state sync_send_event sync_set_master_state
all_answered-events w c msg p s e number = elim (Bool-cases (others_are s p.addr w.servers)) [
  | inl t ↦ rw (check-update_server s p.addr w.servers, t)
  | inr t ↦ rw (check-update_server s p.addr w.servers, t)
]

-- A PRECOMMIT ACK that comes over the connection of a server of the list starts the second phase,
-- by one event at the end of the queue, exactly when every other server has acknowledged before;
-- otherwise nothing is enqueued.
pub process_sync_master_msg-ack :
    (w : World) (c : ClientCb) (p : SyncServerCb)
    → sync_server_list_find w c.fd ≡ some p
    → (v : World) × (process_sync_master_msg w c (codes "5.0 PRECOMMIT ACK\n") ≡ ok v)
      × (v.events ≡ (
          if others_are sync_m_precommited p.addr w.servers
          then w.events ++ answer_event c (codes "5.0 PRECOMMIT ACK") ev_sync_precommit_ack [] ∷ []
          else w.events))
unfolding process_sync_master_msg strip_line
process_sync_master_msg-ack w c p e = (
  all_answered w (record { client = c; msg = codes "5.0 PRECOMMIT ACK"; server = some p })
      sync_m_precommited ev_sync_precommit_ack [],
  rw e,
  all_answered-events w c (codes "5.0 PRECOMMIT ACK") p sync_m_precommited ev_sync_precommit_ack [],
)

abbrev success_keyword : Bytes
success_keyword = codes "6.0 COMMITED SUCCESS "

-- A COMMITED SUCCESS with a number that comes over the connection of a server of the list starts
-- the save, by one event with that number at the end of the queue, exactly when every other server
-- has reported success before; otherwise nothing is enqueued. The number has no carriage return.
pub process_sync_master_msg-success :
    (w : World) (c : ClientCb) (p : SyncServerCb) (number : Bytes)
    → sync_server_list_find w c.fd ≡ some p
    → Lacks b'\r' number
    → (v : World) × (process_sync_master_msg w c
          (codes "6.0 COMMITED SUCCESS " ++ (number ++ b'\n' ∷ []))
        ≡ ok v)
      × (v.events ≡ (
          if others_are sync_m_operation_performed p.addr w.servers
          then w.events
            ++ answer_event c
                (codes "6.0 COMMITED SUCCESS " ++ number)
                ev_sync_commit_success
                number
              ∷ []
          else w.events))
unfolding process_sync_master_msg
process_sync_master_msg-success w c p number e r = (
  all_answered w
      (record { client = c; msg = codes "6.0 COMMITED SUCCESS " ++ number; server = some p })
      sync_m_operation_performed ev_sync_commit_success number,
  rw (
    strip_line-append b'6' (codes ".0 COMMITED SUCCESS " ++ number)
        (omega arith, Lacks-append b'\r' (codes ".0 COMMITED SUCCESS ") number (omega arith) r),
    e,
    substr_behind success_keyword number (length (success_keyword ++ number) - 20)
        (omega (arith, length-append success_keyword number)),
  ),
  all_answered-events w c (codes "6.0 COMMITED SUCCESS " ++ number) p sync_m_operation_performed
      ev_sync_commit_success number,
)

update_server-ne-nil :
    (a : ℕ) (f : SyncServerCb → SyncServerCb) (ps : List SyncServerCb)
    → ps ≢ []
    → update_server a f ps ≢ []
unfolding update_server
update_server-ne-nil a f [] h = absurd (h refl)
update_server-ne-nil a f (p ∷ ps) h = λ e. cc

first_master-set_first :
    (s : SyncState) (ps : List SyncServerCb) → ps ≢ [] → first_master (set_first s ps) ≡ s
first_master-set_first s [] h = absurd (h refl)
first_master-set_first s (p ∷ ps) h = refl

first_master-update :
    (s : SyncState) (a : ℕ) (ps : List SyncServerCb)
    → first_master (update_server a (λ q. record q { state = s }) ps) ≡ first_master ps
unfolding update_server
first_master-update s a [] = refl
first_master-update s a (p ∷ ps) = ground arith

-- An answer about the server itself leaves the master's state.
master-set_server :
    (w : World) (a : Answer) (s : SyncState) (o : Option SyncServerCb)
    → sync_get_master_state (sync_server_list_set_state w o s).0 ≡ sync_get_master_state w
unfolding sync_get_master_state sync_server_list_set_state
master-set_server w a s none = refl
master-set_server w a s (some p) = first_master-update s p.addr w.servers

servers-set_server :
    (w : World) (s : SyncState) (o : Option SyncServerCb)
    → w.servers ≢ []
    → (sync_server_list_set_state w o s).0.servers ≢ []
unfolding sync_server_list_set_state
servers-set_server w s none h = h
servers-set_server w s (some p) h = update_server-ne-nil p.addr _ w.servers h

events-set_server :
    (w : World) (s : SyncState) (o : Option SyncServerCb)
    → (sync_server_list_set_state w o s).0.events ≡ w.events
unfolding sync_server_list_set_state
events-set_server w s none = refl
events-set_server w s (some p) = refl

module _ (w : World) (a : Answer) (s : SyncState) (e : ClientEvType) (number : Bytes) where
  -- After a bad answer the master's state is the failure.
  one_failed-master : w.servers ≢ [] → sync_get_master_state (one_failed w a s e number) ≡ s
  unfolding one_failed
  one_failed-master h = elim (Bool-cases (is_state (sync_get_master_state (set_server w a s)) s)) [
    | inl t ↦ rw t (is_state→eq _ s t)
    | inr t ↦ rw t (
        unfold sync_get_master_state sync_send_event sync_set_master_state in
        first_master-set_first s (set_server w a s).servers (servers-set_server w s a.server h))
  ]

  -- A bad answer makes an event exactly when the master has not failed before.
  one_failed-events : (one_failed w a s e number).events ≡ (
      if is_state (sync_get_master_state w) s
      then w.events
      else w.events ++ answer_event a.client a.msg e number ∷ [])
  unfolding one_failed sync_send_event sync_set_master_state
  one_failed-events =
      rw (master-set_server w a s a.server)
        (elim (Bool-cases (is_state (sync_get_master_state w) s)) [
          | inl t ↦ rw t (events-set_server w s a.server)
          | inr t ↦ rw (t, events-set_server w s a.server)
        ])

-- With at least one server, an ERROR PRECOMMIT makes one event that stops the master, if the master
-- has not failed before, and a second one, from whichever server, makes none.
pub process_sync_master_msg_error :
    (w : World) (c d : ClientCb)
    → w.servers ≢ []
    → (v : World) × (u : World) × (process_sync_master_msg w c (codes "5.1 ERROR PRECOMMIT\n")
        ≡ ok v)
      × (process_sync_master_msg v d (codes "5.1 ERROR PRECOMMIT\n") ≡ ok u)
      × (v.events ≡ (
          if is_state (sync_get_master_state w) sync_m_precommit_unsuccess
          then w.events
          else w.events
            ++ answer_event c (codes "5.1 ERROR PRECOMMIT") ev_sync_precommit_err [] ∷ []))
      × (u.events ≡ v.events)
unfolding process_sync_master_msg strip_line
process_sync_master_msg_error w c d h =
    let v = one_failed w (answer_of w c) sync_m_precommit_unsuccess ev_sync_precommit_err [] in
    let failed =
      one_failed-master w (answer_of w c) sync_m_precommit_unsuccess ev_sync_precommit_err [] h in
    (
      v,
      one_failed v (answer_of v d) sync_m_precommit_unsuccess ev_sync_precommit_err [],
      refl,
      refl,
      one_failed-events w (answer_of w c) sync_m_precommit_unsuccess ev_sync_precommit_err [],
      rw (failed) at
          (one_failed-events v (answer_of v d) sync_m_precommit_unsuccess ev_sync_precommit_err []),
    )
  where
    answer_of : World → ClientCb → Answer
    answer_of x y = record {
      client = y;
      msg = codes "5.1 ERROR PRECOMMIT";
      server = sync_server_list_find x y.fd;
    }
