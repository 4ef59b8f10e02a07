-- ===== src/Event/Commit/Phase.antt =====
-- The first phase: what the master does once the servers have answered PRECOMMIT.
use bbserver.Base.{
  ℕ, zero, suc, ◌<◌, ◌≡◌, refl, sym, ap, ◌∙◌, inl, inr, false, some, List, [], ◌∷◌, arith,
  Option-cases, count_of, first_of_list, codes, ok,
}
use bbserver.Types.{ClientCb, sync_u_waiting_save, sync_idle, sync_m_commited}
use bbserver.World.{World, Os, SysCall, send_call}
use bbserver.Clients.{update, waits_commit}
use bbserver.Clients.Find.{
  Below, count-update, swept, update-Below, swept-update, swept-none, trail, trail-update,
  trail-none,
}
use bbserver.Servers.{commit_text, sync_send_abort}
use bbserver.Servers.Broadcast.{broadcast-Kept}
use bbserver.Event.Commit.{
  commit_client, proc_sync_ev_precommit_ack, refuse_client, refuse_loop, proc_sync_ev_precommit_err,
}

-- `sync_set_client_state(pClientUser, SYNC_U_WAITING_SAVE)`
abbrev pub to_waiting_save : ClientCb → ClientCb
to_waiting_save c = record c { slave_state = sync_u_waiting_save }

commit_client-clients :
    (os : Os) (w : World) (c : ClientCb)
    → (commit_client os w c).clients ≡ update c.addr to_waiting_save w.clients
unfolding commit_client
commit_client-clients os w c =
    ap (update c.addr to_waiting_save)
      (broadcast-Kept os w (commit_text c.cmd c.msg) sync_m_commited).clients

waits_commit-to_waiting_save : (c : ClientCb) → waits_commit (to_waiting_save c) ≡ false
waits_commit-to_waiting_save c = ground arith

-- What the handler returns, in `n` rounds from `w`.
pub record Committed (n : ℕ) (os : Os) (w : World) : Type 0 where
  pub last : World
  pub returns : proc_sync_ev_precommit_ack n os w ≡ ok last
  pub clients : last.clients ≡ swept waits_commit to_waiting_save w.clients
  pub file : last.file ≡ w.file

-- A round for the client `c` in front of `n` more.
Committed-step :
    (n k : ℕ) (os : Os) (w : World) (c : ClientCb)
    → first_of_list waits_commit w.clients ≡ some c
    → Below k w.clients
    → Committed n os (commit_client os w c)
    → Committed (suc n) os w
unfolding proc_sync_ev_precommit_ack commit_client
Committed-step n k os w c e b r = record {
  last = r.last;
  returns = rw (e, proc_sync_ev_precommit_ack) r.returns;
  clients =
      r.clients
      ∙ ap (swept waits_commit to_waiting_save) (commit_client-clients os w c)
      ∙ swept-update waits_commit to_waiting_save k w.clients c b e
          (waits_commit-to_waiting_save c);
  file = r.file ∙ (broadcast-Kept os w (commit_text c.cmd c.msg) sync_m_commited).file;
}

-- `proc_sync_ev_precommit_ack` comes to its end when it is given more rounds than clients wait for
-- the commit, if the addresses of the clients descend along the list: each client that waited for
-- the commit now waits for the save, every other client is as it was, and so is the file.
pub proc_sync_ev_precommit_ack-Committed :
    (n k : ℕ) (os : Os) (w : World)
    → Below k w.clients
    → count_of waits_commit w.clients < n
    → Committed n os w
unfolding proc_sync_ev_precommit_ack
proc_sync_ev_precommit_ack-Committed zero k os w b h = absurd (omega arith)
proc_sync_ev_precommit_ack-Committed (suc n) k os w b h =
    elim (Option-cases (first_of_list waits_commit w.clients)) [
      | inl e ↦ record {
        last = w;
        returns = rw (e, proc_sync_ev_precommit_ack);
        clients = sym (swept-none waits_commit to_waiting_save w.clients e);
        file = refl;
      }
      | inr (c, e) ↦ Committed-step n k os w c e b (
          proc_sync_ev_precommit_ack-Committed n k os (commit_client os w c)
            (rw (commit_client-clients os w c)
              (update-Below to_waiting_save c.addr k w.clients (λ d. refl) b))
            (rw (commit_client-clients os w c) (
              omega (
                arith,
                count-update waits_commit to_waiting_save k w.clients c b e
                    (waits_commit-to_waiting_save c),
              ))))
    ]

-- `sync_clear_client_cmd(pClientUser)`
abbrev pub cleared : ClientCb → ClientCb
cleared c = record c { msg = []; msg_number = []; slave_state = sync_idle }

abbrev pub refusal : ClientCb → SysCall
refusal c = send_call c.fd (codes "3.2 ERROR WRITE\n")

-- The calls that tell each waiting client, from the head of the list on.
abbrev pub refusals : List ClientCb → List SysCall → List SysCall
refusals = trail waits_commit (λ c log. refusal c ∷ log)

waits_commit-cleared : (c : ClientCb) → waits_commit (cleared c) ≡ false
waits_commit-cleared c = ground arith

-- What `refuse_loop` returns, in `n` rounds from `w`.
pub record Refused (n : ℕ) (w : World) : Type 0 where
  pub last : World
  pub returns : refuse_loop n w ≡ ok last
  pub clients : last.clients ≡ swept waits_commit cleared w.clients
  pub calls : last.calls ≡ refusals w.clients w.calls
  pub servers : last.servers ≡ w.servers
  pub file : last.file ≡ w.file

Refused-step :
    (n k : ℕ) (w : World) (c : ClientCb)
    → first_of_list waits_commit w.clients ≡ some c
    → Below k w.clients
    → Refused n (refuse_client w c)
    → Refused (suc n) w
unfolding refuse_loop refuse_client
Refused-step n k w c e b r = record {
  last = r.last;
  returns = rw (e, refuse_loop) r.returns;
  clients =
      r.clients ∙ swept-update waits_commit cleared k w.clients c b e (waits_commit-cleared c);
  calls =
      r.calls
      ∙ trail-update waits_commit (λ c log. refusal c ∷ log) cleared k w.clients c w.calls
          waits_commit-cleared b e;
  servers = r.servers;
  file = r.file;
}

refuse_loop-Refused :
    (n k : ℕ) (w : World) → Below k w.clients → count_of waits_commit w.clients < n → Refused n w
unfolding refuse_loop
refuse_loop-Refused zero k w b h = absurd (omega arith)
refuse_loop-Refused (suc n) k w b h = elim (Option-cases (first_of_list waits_commit w.clients)) [
  | inl e ↦ record {
    last = w;
    returns = rw (e, refuse_loop);
    clients = sym (swept-none waits_commit cleared w.clients e);
    calls = sym (trail-none waits_commit (λ c log. refusal c ∷ log) w.clients w.calls e);
    servers = refl;
    file = refl;
  }
  | inr (c, e) ↦ Refused-step n k w c e b (
      refuse_loop-Refused n k (refuse_client w c)
        (unfold refuse_client in update-Below cleared c.addr k w.clients (λ d. refl) b)
        (unfold refuse_client in
          omega
            (arith, count-update waits_commit cleared k w.clients c b e (waits_commit-cleared c))))
]

-- `proc_sync_ev_precommit_err` comes to its end when it is given more rounds than clients wait for
-- the commit, if the addresses of the clients descend along the list: after the ABORT broadcast,
-- each waiting client has been sent "3.2 ERROR WRITE" once, in the order of the list, and its
-- command is cleared; every other client and the file are as they were, and the servers are as the
-- broadcast left them.
pub proc_sync_ev_precommit_err_ends :
    (n k : ℕ) (os : Os) (w : World)
    → Below k w.clients
    → count_of waits_commit w.clients < n
    → (last : World) × (proc_sync_ev_precommit_err n os w ≡ ok last)
      × (last.clients ≡ swept waits_commit cleared w.clients)
      × (last.calls ≡ refusals w.clients (sync_send_abort os w).0.calls)
      × (last.servers ≡ (sync_send_abort os w).0.servers)
      × (last.file ≡ w.file)
unfolding proc_sync_ev_precommit_err
proc_sync_ev_precommit_err_ends n k os w b h =
    let kept = broadcast-Kept os w (codes "ABORT\n") sync_idle in
    let r =
      refuse_loop-Refused n k (sync_send_abort os w).0 (rw kept.clients b) (rw kept.clients h) in
    (
      r.last,
      r.returns,
      r.clients ∙ ap (swept waits_commit cleared) kept.clients,
      r.calls ∙ ap (λ cs. refusals cs (sync_send_abort os w).0.calls) kept.clients,
      r.servers,
      r.file ∙ kept.file,
    )
