-- ===== src/Msg/Master/Round.antt =====
-- A round of answers in either phase: the slaves answer in any order.
use bbserver.Base.{
  ℕ, suc, ◌+◌, ◌-◌, ◌≡◌, refl, sym, ap, ◌∙◌, inl, inr, Bool, true, false, ◌&&◌, none, some, List,
  [], ◌∷◌, ◌++◌, arith, ltb, ◌==◌, if◌then◌else◌, Bool-cases, length, count_of, length-append,
  Bytes, codes, Lacks, Lacks-append, Result, ok, err, eq_ℤ,
}
use mathlib.Core.Path.{subst}
use bbserver.Text.Search.{substr_behind}
use bbserver.Types.{
  ClientCb, ClientEventCb, ClientEvType, SyncServerCb, SyncState, ev_sync_precommit_ack,
  ev_sync_commit_success, sync_m_precommited, sync_m_operation_performed, is_state,
}
use bbserver.World.{World}
use bbserver.Servers.{
  update_server, sync_check_server_state, sync_server_list_find, sync_server_list_set_state,
  sync_set_master_state, sync_send_event,
}
use bbserver.Servers.Count.{
  Rising, missing, moved, missing-set_first, set_first-Rising, moved-Rising, missing-moved,
  none_missing,
}
use bbserver.Msg.Strip.{strip_line-append}
use bbserver.Msg.Master.{all_answered, process_sync_master_msg}

-- The two phases: the slaves acknowledge PRECOMMIT, and they report the success of COMMIT.
pub data Phase : Type 0 where
  precommit_phase commit_phase : Phase

abbrev pub state_of : Phase → SyncState
state_of precommit_phase = sync_m_precommited
state_of commit_phase = sync_m_operation_performed

abbrev pub event_of : Phase → ClientEvType
event_of precommit_phase = ev_sync_precommit_ack
event_of commit_phase = ev_sync_commit_success

-- An answer, which has the number of the message in the second phase, and what the event has of it.
abbrev pub answer_of : Phase → Bytes → Bytes
answer_of precommit_phase number = codes "5.0 PRECOMMIT ACK"
answer_of commit_phase number = codes "6.0 COMMITED SUCCESS " ++ number

abbrev pub number_of : Phase → Bytes → Bytes
number_of precommit_phase number = []
number_of commit_phase number = number

-- The events that start what follows the phase.
abbrev pub starts : Phase → ClientEventCb → Bool
starts ph e = starts_type ph e.event
  where
    starts_type : Phase → ClientEvType → Bool
    starts_type precommit_phase ev_sync_precommit_ack = true
    starts_type commit_phase ev_sync_commit_success = true
    starts_type _ _ = false

-- The world after the answer of the server `p`, over the connection of `c`.
abbrev pub answered : Phase → Bytes → World → ClientCb → SyncServerCb → World
answered ph number w c p =
    all_answered w (record { client = c; msg = answer_of ph number; server = some p }) (state_of ph)
      (event_of ph) (number_of ph number)

pub answered_lem :
    (ph : Phase) (number : Bytes) (w : World) (c : ClientCb) (p : SyncServerCb)
    → Lacks b'\r' number
    → sync_server_list_find w c.fd ≡ some p
    → process_sync_master_msg w c (answer_of ph number ++ b'\n' ∷ [])
      ≡ ok (answered ph number w c p)
unfolding process_sync_master_msg
answered_lem precommit_phase number w c p l e =
    rw (strip_line-append b'5' (codes ".0 PRECOMMIT ACK") (omega arith), e) refl
answered_lem commit_phase number w c p l e =
    rw
      (
        strip_line-append b'6' (codes ".0 COMMITED SUCCESS " ++ number)
            (omega arith, Lacks-append b'\r' (codes ".0 COMMITED SUCCESS ") number (omega arith) l),
        e,
        substr_behind (codes "6.0 COMMITED SUCCESS ") number
            (length (codes "6.0 COMMITED SUCCESS " ++ number) - 20)
            (omega (arith, length-append (codes "6.0 COMMITED SUCCESS ") number)),
      )
      refl

-- What one answer does.
pub record IsVote (ph : Phase) (n : ℕ) (w v : World) : Type 0 where
  pub rising : Rising n v.servers
  pub counted : suc (missing (state_of ph) v.servers) ≡ missing (state_of ph) w.servers
  made :
      count_of (starts ph) v.events
      ≡ count_of (starts ph) w.events + (if missing (state_of ph) v.servers == 0 then 1 else 0)
  size : length v.events ≡ length w.events + (if missing (state_of ph) v.servers == 0 then 1 else 0)

count-end {ℓ} :
    {A : Type ℓ}
    → (p : A → Bool) (xs : List A) (x : A) → p x ≡ true
    → count_of p (xs ++ x ∷ []) ≡ count_of p xs + 1
count-end p [] x h = ground (arith, h)
count-end p (y ∷ ys) x h = ground (arith, count-end p ys x h)

abbrev pub answer_event : Phase → Bytes → ClientCb → ClientEventCb
answer_event ph number c = record {
  fd = some c.fd;
  event = event_of ph;
  type = none;
  msg_number = number_of ph number;
  response = answer_of ph number;
}

starts_event :
    (ph : Phase) (number : Bytes) (c : ClientCb) → starts ph (answer_event ph number c) ≡ true
starts_event precommit_phase number c = refl
starts_event commit_phase number c = refl

pub answered-IsVote :
    (ph : Phase) (number : Bytes) (n : ℕ) (w : World) (c : ClientCb) (p : SyncServerCb)
    → Rising n w.servers
    → sync_server_list_find w c.fd ≡ some p
    → is_state p.state (state_of ph) ≡ false
    → IsVote ph n w (answered ph number w c p)
unfolding all_answered sync_server_list_set_state sync_send_event sync_set_master_state
    sync_server_list_find
answered-IsVote ph number n w c p b e h = elim (Bool-cases (sync_check_server_state next s)) [
  | inl t ↦ rw t (record {
    rising = set_first-Rising s n next (moved-Rising s p.addr n w.servers b);
    counted = ap suc (missing-set_first s s next) ∙ fewer;
    made = rw (missing-set_first s s next) (
        rw (none_missing s next ∙ t)
          (count-end (starts ph) w.events (answer_event ph number c) (starts_event ph number c)));
    size =
        rw (missing-set_first s s next) (rw (none_missing s next ∙ t) (length-append w.events _));
  })
  | inr t ↦ rw t (record {
    rising = moved-Rising s p.addr n w.servers b;
    counted = fewer;
    made = rw (none_missing s next ∙ t) (omega arith);
    size = rw (none_missing s next ∙ t) (omega arith);
  })
]
  where
    s : SyncState
    s = state_of ph

    next : List SyncServerCb
    next = update_server p.addr (moved s) w.servers

    fewer : suc (missing s next) ≡ missing s w.servers
    fewer = missing-moved (λ r. eq_ℤ r.fd c.fd) s n w.servers p b e h

-- A round of answers: each comes over the connection of a server that has not given it before, with
-- the number that the slave puts behind it.
pub data Answers (ph : Phase) : World → List ClientCb → World → Type 0 where
  no_answers : {w : World} → Answers ph w [] w
  next_answer :
      {w v u : World} {c : ClientCb} {cs : List ClientCb}
      → (number : Bytes) (p : SyncServerCb) → Lacks b'\r' number
      → sync_server_list_find w c.fd ≡ some p
      → is_state p.state (state_of ph) ≡ false
      → process_sync_master_msg w c (answer_of ph number ++ b'\n' ∷ []) ≡ ok v
      → Answers ph v cs u
      → Answers ph w (c ∷ cs) u

-- What a round comes to: one event for what follows if no server is missing any more, and no event
-- otherwise.
pub record IsRound (ph : Phase) (w : World) (cs : List ClientCb) (u : World) : Type 0 where
  pub counted : missing (state_of ph) u.servers + length cs ≡ missing (state_of ph) w.servers
  pub made :
      count_of (starts ph) u.events
      ≡ count_of (starts ph) w.events
        + (if ltb 0 (length cs) && (missing (state_of ph) u.servers == 0) then 1 else 0)
  pub size :
      length u.events
      ≡ length w.events
        + (if ltb 0 (length cs) && (missing (state_of ph) u.servers == 0) then 1 else 0)

pub ok-injective {ℓ} : {A : Type ℓ} {a b : A} → ok a ≡ ok b → a ≡ b
ok-injective {A = A} {a = a} e = ap value e
  where
    value : Result A → A
    value (ok b) = b
    value (err f) = a

vote-then :
    (ph : Phase) (n : ℕ) (w v u : World) (c : ClientCb) (cs : List ClientCb)
    → IsVote ph n w v
    → IsRound ph v cs u
    → IsRound ph w (c ∷ cs) u
vote-then ph n w v u c cs h k = record {
  counted = omega (arith, h.counted, k.counted);
  made = ground (arith, h.counted, h.made, k.counted, k.made);
  size = ground (arith, h.counted, h.size, k.counted, k.size);
}

-- In whatever order the slaves acknowledge a PRECOMMIT, or report the success of a COMMIT, with
-- each server in the list under its own address and none answering twice: every answer counts one
-- server, the event that starts the next step is made exactly when the last answer has come, it is
-- made once, and nothing else is enqueued.
pub Answers-IsRound :
    (ph : Phase) (n : ℕ) (w u : World) (cs : List ClientCb)
    → Rising n w.servers
    → Answers ph w cs u
    → IsRound ph w cs u
Answers-IsRound ph n w u [] b no_answers = record {
  counted = omega arith;
  made = ground arith;
  size = ground arith;
}
Answers-IsRound ph n w u (c ∷ cs) b (next_answer {v = v} number p l e h f rest) =
    let vote : IsVote ph n w v =
      subst (IsVote ph n w) (ok-injective (sym (answered_lem ph number w c p l e) ∙ f))
        (answered-IsVote ph number n w c p b e h) in
    vote-then ph n w v u c cs vote (Answers-IsRound ph n v u cs vote.rising rest)
