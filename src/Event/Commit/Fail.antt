-- ===== src/Event/Commit/Fail.antt =====
-- The second phase when it fails: what the master does once a server could not carry out the
-- COMMIT.
use bbserver.Base.{
  ℕ, zero, suc, ◌<◌, ◌≡◌, refl, sym, ap, ◌∙◌, ◌⊎◌, inl, inr, true, false, not, ◌&&◌, [], ◌∷◌, ◌++◌,
  arith, ◌==◌, Option-cases, length, count_of, first_of_list, All, bytes_eq, ok,
}
use bbserver.Types.{ClientCb, ClientEventCb, sync_idle}
use bbserver.World.{World, Os, send_call}
use bbserver.Clients.{update, waits_save}
use bbserver.Clients.Find.{
  Below, count-update, swept, update-Below, swept-update, swept-none, first_of_list-passes,
}
use bbserver.Servers.{end_text}
use bbserver.Servers.Broadcast.{broadcast-Kept}
use bbserver.Event.Commit.{failed_response, fail_client, proc_sync_ev_commit_unsuccess}
use bbserver.Event.Commit.Phase.{cleared}
use bbserver.Event.Commit.Save.{waits_save-cleared, update-All, first_of_list-All}

-- A client that does not wait for the save, or an event for it: with its number, or with none.
abbrev pub IsFailed : ClientEventCb → ClientCb → Type 0
IsFailed ev c =
    (waits_save c ≡ false)
    ⊎ ((not (length ev.msg_number == 0) && not (bytes_eq ev.msg_number c.msg_number)) ≡ false)

failed_of :
    (ev : ClientEventCb) (c : ClientCb)
    → waits_save c ≡ true
    → IsFailed ev c
    → (not (length ev.msg_number == 0) && not (bytes_eq ev.msg_number c.msg_number)) ≡ false
failed_of ev c t (inl f) = absurd (ground (arith, t, f))
failed_of ev c t (inr d) = d

fail_client-clients :
    (os : Os) (w : World) (ev : ClientEventCb) (c : ClientCb)
    → ((fail_client os w ev c).clients ≡ update c.addr cleared w.clients)
      × ((fail_client os w ev c).file ≡ w.file)
unfolding fail_client
fail_client-clients os w ev c =
    let v : World = record w {
      clients = update c.addr cleared w.clients;
      calls = send_call c.fd (failed_response ev c c.cmd ++ b'\n' ∷ []) ∷ w.calls;
    } in
    let kept = broadcast-Kept os v (end_text false ev.msg_number) sync_idle in
    (kept.clients, kept.file)

-- `proc_sync_ev_commit_unsuccess` comes to its end when it is given more rounds than clients wait
-- for the save, if the addresses of the clients descend along the list and the event is for each
-- client that waits, by its number or by having none: those clients are cleared, every other client
-- is as it was, and so is the file.
pub proc_sync_ev_commit_unsuccess_ends :
    (n k : ℕ) (os : Os) (w : World) (ev : ClientEventCb)
    → Below k w.clients
    → All (IsFailed ev) w.clients
    → count_of waits_save w.clients < n
    → (last : World) × (proc_sync_ev_commit_unsuccess n os w ev ≡ ok last)
      × (last.clients ≡ swept waits_save cleared w.clients)
      × (last.file ≡ w.file)
unfolding proc_sync_ev_commit_unsuccess
proc_sync_ev_commit_unsuccess_ends zero k os w ev b d h = absurd (omega arith)
proc_sync_ev_commit_unsuccess_ends (suc n) k os w ev b d h =
    elim (Option-cases (first_of_list waits_save w.clients)) [
      | inl e ↦ (
        w,
        rw (e, proc_sync_ev_commit_unsuccess) refl,
        sym (swept-none waits_save cleared w.clients e),
        refl,
      )
      | inr (c, e) ↦
          let due =
            failed_of ev c (first_of_list-passes waits_save w.clients c e)
              (first_of_list-All (IsFailed ev) waits_save w.clients c e d) in
          let (here, same) = fail_client-clients os w ev c in
          let (last, returns, clients, file) =
            proc_sync_ev_commit_unsuccess_ends n k os (fail_client os w ev c) ev
              (rw here (update-Below cleared c.addr k w.clients (λ x. refl) b))
              (rw here (
                update-All (IsFailed ev) cleared c.addr w.clients (λ x. inl (waits_save-cleared x))
                  d))
              (rw here (
                omega (
                  arith,
                  count-update waits_save cleared k w.clients c b e (waits_save-cleared c),
                ))) in
          (
            last,
            rw (e, proc_sync_ev_commit_unsuccess) (rw (due, proc_sync_ev_commit_unsuccess) returns),
            clients
                ∙ ap (swept waits_save cleared) here
                ∙ swept-update waits_save cleared k w.clients c b e (waits_save-cleared c),
            file ∙ same,
          )
    ]
