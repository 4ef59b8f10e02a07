-- ===== src/Msg/Master/Passed.antt =====
-- What a round of answers leaves as it was, and the event that it makes.
use bbserver.Base.{
  ℕ, ◌≡◌, refl, sym, ap, ◌∙◌, inl, inr, false, some, List, [], ◌∷◌, ◌++◌, append-nil, arith, ◌==◌,
  if◌then◌else◌, Bool-cases, Bytes, Lacks, ok,
}
use mathlib.Core.Path.{subst}
use bbserver.Types.{ClientCb, SyncServerCb, SyncState}
use bbserver.World.{World}
use bbserver.Servers.{
  update_server, sync_check_server_state, sync_server_list_find, sync_server_list_set_state,
  sync_set_master_state, sync_send_event,
}
use bbserver.Servers.Count.{Rising, missing, missing-set_first, none_missing, moved}
use bbserver.Servers.Links.{fds, fds-set_first, fds-update}
use bbserver.Msg.Master.{all_answered, process_sync_master_msg}
use bbserver.Msg.Master.Round.{
  Phase, state_of, answer_of, answer_event, answered, answered_lem, answered-IsVote, IsVote,
  Answers, no_answers, next_answer, Answers-IsRound, ok-injective,
}

-- Every answer of the round has the number.
unfoldable pub Numbered :
    {ph : Phase} {w : World} {cs : List ClientCb} {u : World} → Bytes → Answers ph w cs u → Type 0
Numbered number no_answers = Unit
Numbered number (next_answer n p l e h f rest) = (n ≡ number) × Numbered number rest

-- The parts of the world that an answer does not touch.
pub record IsPassed (w v : World) : Type 0 where
  pub clients : v.clients ≡ w.clients
  pub file : v.file ≡ w.file
  pub calls : v.calls ≡ w.calls
  pub links : fds v.servers ≡ fds w.servers

answered-IsPassed :
    (ph : Phase) (number : Bytes) (w : World) (c : ClientCb) (p : SyncServerCb)
    → IsPassed w (answered ph number w c p)
unfolding all_answered sync_server_list_set_state sync_send_event sync_set_master_state
answered-IsPassed ph number w c p = elim (Bool-cases (sync_check_server_state next s)) [
  | inl t ↦
      rw t
        (record { clients = refl; file = refl; calls = refl; links = fds-set_first s next ∙ same })
  | inr t ↦ rw t (record { clients = refl; file = refl; calls = refl; links = same })
]
  where
    s : SyncState
    s = state_of ph

    next : List SyncServerCb
    next = update_server p.addr (moved s) w.servers

    same : fds next ≡ fds w.servers
    same = fds-update (moved s) p.addr w.servers (λ q. refl)

answered-events :
    (ph : Phase) (number : Bytes) (w : World) (c : ClientCb) (p : SyncServerCb)
    → (answered ph number w c p).events
      ≡ w.events
        ++ (if missing (state_of ph) (answered ph number w c p).servers == 0
            then answer_event ph number c ∷ []
            else [])
unfolding all_answered sync_server_list_set_state sync_send_event sync_set_master_state
answered-events ph number w c p = elim (Bool-cases (sync_check_server_state next s)) [
  | inl t ↦ rw t (rw (missing-set_first s s next) (rw (none_missing s next ∙ t) refl))
  | inr t ↦ rw t (rw (none_missing s next ∙ t) (sym (append-nil w.events)))
]
  where
    s : SyncState
    s = state_of ph

    next : List SyncServerCb
    next = update_server p.addr (moved s) w.servers

-- A round of answers leaves the clients, the file, the calls and the descriptors as they were.
pub Answers-IsPassed :
    (ph : Phase) (w u : World) (cs : List ClientCb) → Answers ph w cs u → IsPassed w u
Answers-IsPassed ph w u [] no_answers = record {
  clients = refl;
  file = refl;
  calls = refl;
  links = refl;
}
Answers-IsPassed ph w u (c ∷ cs) (next_answer {v = v} number p l e h f rest) =
    let one : IsPassed w v =
      subst (IsPassed w) (ok-injective (sym (answered_lem ph number w c p l e) ∙ f))
        (answered-IsPassed ph number w c p) in
    let more = Answers-IsPassed ph v u cs rest in
    record {
      clients = more.clients ∙ one.clients;
      file = more.file ∙ one.file;
      calls = more.calls ∙ one.calls;
      links = more.links ∙ one.links;
    }

-- The client over whose connection the last answer comes.
abbrev pub last_of : ClientCb → List ClientCb → ClientCb
last_of c [] = c
last_of c (d ∷ cs) = last_of d cs

-- What one answer enqueues.
abbrev Enqueues : Phase → Bytes → ClientCb → World → World → Type 0
Enqueues ph number c w v =
    v.events
    ≡ w.events
      ++ (if missing (state_of ph) v.servers == 0 then answer_event ph number c ∷ [] else [])

vote-Enqueues :
    (ph : Phase) (w v : World) (c : ClientCb) (m : Bytes) (p : SyncServerCb)
    → Lacks b'\r' m
    → sync_server_list_find w c.fd ≡ some p
    → process_sync_master_msg w c (answer_of ph m ++ b'\n' ∷ []) ≡ ok v
    → Enqueues ph m c w v
vote-Enqueues ph w v c m p l e f =
    subst (Enqueues ph m c w) (ok-injective (sym (answered_lem ph m w c p l e) ∙ f))
      (answered-events ph m w c p)

-- A round that leaves no server missing, with one number in its answers, enqueues one event, with
-- that number and the last answer.
pub Answers-events :
    (ph : Phase) (number : Bytes) (n : ℕ) (w u : World) (c : ClientCb) (cs : List ClientCb)
    (r : Answers ph w (c ∷ cs) u)
    → Rising n w.servers
    → Numbered number r
    → missing (state_of ph) u.servers ≡ 0
    → u.events ≡ w.events ++ answer_event ph number (last_of c cs) ∷ []
unfolding Numbered
Answers-events ph number n w u c [] (next_answer {v = v} m p l e h f no_answers) b k z =
    let made : Enqueues ph m c w u = vote-Enqueues ph w u c m p l e f in
    made ∙ rw z (ap (λ i. w.events ++ answer_event ph i c ∷ []) k.0)
Answers-events ph number n w u c (d ∷ cs) (next_answer {v = v} m p l e h f rest) b k z =
    let made : Enqueues ph m c w v = vote-Enqueues ph w v c m p l e f in
    let vote : IsVote ph n w v =
      subst (IsVote ph n w) (ok-injective (sym (answered_lem ph m w c p l e) ∙ f))
        (answered-IsVote ph m n w c p b e h) in
    let more = Answers-IsRound ph n v u (d ∷ cs) vote.rising rest in
    let left : (missing (state_of ph) v.servers == 0) ≡ false = ground (arith, more.counted) in
    Answers-events ph number n v u d cs rest vote.rising k.1 z
    ∙ ap (λ es. es ++ answer_event ph number (last_of d cs) ∷ [])
        (made ∙ rw left (append-nil w.events))

pub Answers-Rising :
    (ph : Phase) (n : ℕ) (w u : World) (cs : List ClientCb)
    → Rising n w.servers
    → Answers ph w cs u
    → Rising n u.servers
Answers-Rising ph n w u [] b no_answers = b
Answers-Rising ph n w u (c ∷ cs) b (next_answer {v = v} m p l e h f rest) =
    let vote : IsVote ph n w v =
      subst (IsVote ph n w) (ok-injective (sym (answered_lem ph m w c p l e) ∙ f))
        (answered-IsVote ph m n w c p b e h) in
    Answers-Rising ph n v u cs vote.rising rest
