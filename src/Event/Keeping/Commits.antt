-- ===== src/Event/Keeping/Commits.antt =====
-- The master's side of a two-phase commit: only the success of a COMMIT saves.
use bbserver.Base.{
  Each, bind-Each, if-any, ℕ, zero, suc, refl, inl, inr, false, not, ◌&&◌, [], ◌∷◌, ◌++◌, ◌==◌,
  Bool-cases, Option-cases, length, first_of_list, Bytes, codes, bytes_eq, pos, negsuc, eq_ℤ,
}
use bbserver.Types.{
  ClientCb, ClientEventCb, ClientCmdType, cmd_unset, client_cmd_write, client_cmd_replace,
  sync_idle, sync_m_commited,
}
use bbserver.World.{World, Os, called}
use bbserver.Clients.{
  update, sync_set_client_state, sync_clear_client_cmd, waits_commit, waits_save,
}
use bbserver.Servers.{sync_send_commit, sync_send_abort, sync_send_success, commit_text, end_text}
use bbserver.Event.Peers.{send_response_to_client}
use bbserver.Event.Commit.{
  commit_client, proc_sync_ev_precommit_ack, refuse_client, refuse_loop, proc_sync_ev_precommit_err,
  Saved, save_client, conclude, proc_sync_ev_commit_success, fail_client, failed_response,
  proc_sync_ev_commit_unsuccess,
}
use bbserver.World.{send_call}
use bbserver.Board.{save_msg_write, save_msg_replace}
use bbserver.Event.Commit.Phase.{to_waiting_save, cleared, refusal}
use bbserver.Event.Keeping.{Rules, AnyFile}
use bbserver.Event.Keeping.Peers.{called_keeps}

module _ (P : World → Type 0) (rules : Rules P) where
  commit_client_keeps : (os : Os) (w : World) (c : ClientCb) → P w → P (commit_client os w c)
  unfolding commit_client sync_send_commit sync_set_client_state
  commit_client_keeps os w c h =
      rules.assigns (sync_send_commit os w c.cmd c.msg).0 to_waiting_save c.addr (λ d. refl)
        (rules.sends os w (commit_text c.cmd c.msg) sync_m_commited h)

  pub proc_sync_ev_precommit_ack_keeps :
      (n : ℕ) (os : Os) (w : World) → P w → Each P (proc_sync_ev_precommit_ack n os w)
  unfolding proc_sync_ev_precommit_ack
  proc_sync_ev_precommit_ack_keeps zero os w h = tt
  proc_sync_ev_precommit_ack_keeps (suc n) os w h =
      elim (Option-cases (first_of_list waits_commit w.clients)) [
        | inl e ↦ rw (e, proc_sync_ev_precommit_ack) h
        | inr (c, e) ↦
            rw (e, proc_sync_ev_precommit_ack)
              (proc_sync_ev_precommit_ack_keeps n os (commit_client os w c)
                (commit_client_keeps os w c h))
      ]

  refuse_client_keeps : (w : World) (c : ClientCb) → P w → P (refuse_client w c)
  unfolding refuse_client send_response_to_client sync_clear_client_cmd
  refuse_client_keeps w c h =
      rules.assigns (called w (refusal c)) cleared c.addr (λ d. refl)
        (called_keeps P rules w (refusal c) h)

  refuse_loop_keeps : (n : ℕ) (w : World) → P w → Each P (refuse_loop n w)
  unfolding refuse_loop
  refuse_loop_keeps zero w h = tt
  refuse_loop_keeps (suc n) w h = elim (Option-cases (first_of_list waits_commit w.clients)) [
    | inl e ↦ rw (e, refuse_loop) h
    | inr (c, e) ↦
        rw (e, refuse_loop) (refuse_loop_keeps n (refuse_client w c) (refuse_client_keeps w c h))
  ]

  pub proc_sync_ev_precommit_err_keeps :
      (n : ℕ) (os : Os) (w : World) → P w → Each P (proc_sync_ev_precommit_err n os w)
  unfolding proc_sync_ev_precommit_err sync_send_abort
  proc_sync_ev_precommit_err_keeps n os w h =
      refuse_loop_keeps n (sync_send_abort os w).0 (rules.sends os w (codes "ABORT\n") sync_idle h)

  module _ (any : AnyFile P) where
    save_client_keeps :
        (w : World) (k : ClientCmdType) (m : Bytes)
        → P w
        → Each (λ s. P s.world) (save_client w k m)
    unfolding save_client
    save_client_keeps w client_cmd_write m h =
        let f = save_msg_write w.file m in
        if-any (λ (s : Saved). P s.world) (eq_ℤ f.1 (pos 0)) _ _ (any w f.0 h) (any w f.0 h)
    save_client_keeps w client_cmd_replace m h =
        let f = save_msg_replace w.file m in
        if-any (λ (s : Saved). P s.world) (eq_ℤ f.1 (pos 0)) _ _ (any w f.0 h)
          (if-any (λ (s : Saved). P s.world) (eq_ℤ f.1 (negsuc 0)) _ _ (any w f.0 h) (any w f.0 h))
    save_client_keeps w cmd_unset m h = tt

    conclude_keeps :
        (os : Os) (c : ClientCb) (number : Bytes) (s : Saved)
        → P s.world
        → P (conclude os c number s)
    unfolding conclude sync_send_success send_response_to_client sync_clear_client_cmd
    conclude_keeps os c number s h =
        let v = (sync_send_success os s.world s.success number).0 in
        rules.assigns (send_response_to_client v c s.response) cleared c.addr (λ d. refl)
          (called_keeps P rules v (send_call c.fd (s.response ++ b'\n' ∷ []))
            (rules.sends os s.world (end_text s.success number) sync_idle h))

    pub proc_sync_ev_commit_success_keeps :
        (n : ℕ) (os : Os) (w : World) (ev : ClientEventCb)
        → P w
        → Each P (proc_sync_ev_commit_success n os w ev)
    unfolding proc_sync_ev_commit_success
    proc_sync_ev_commit_success_keeps zero os w ev h = tt
    proc_sync_ev_commit_success_keeps (suc n) os w ev h =
        elim (Option-cases (first_of_list waits_save w.clients)) [
          | inl e ↦ rw (e, proc_sync_ev_commit_success) h
          | inr (c, e) ↦ elim (Bool-cases (bytes_eq ev.msg_number c.msg_number)) [
            | inl t ↦
                rw (e, proc_sync_ev_commit_success)
                  (rw (t, proc_sync_ev_commit_success)
                    (bind-Each (λ s. P s.world) P (save_client w c.cmd c.msg) _
                      (save_client_keeps w c.cmd c.msg h)
                      (λ s k.
                        proc_sync_ev_commit_success_keeps n os (conclude os c ev.msg_number s) ev
                          (conclude_keeps os c ev.msg_number s k))))
            | inr t ↦
                rw (e, proc_sync_ev_commit_success)
                  (rw (t, proc_sync_ev_commit_success)
                    (proc_sync_ev_commit_success_keeps n os w ev h))
          ]
        ]

  fail_client_keeps :
      (os : Os) (w : World) (ev : ClientEventCb) (c : ClientCb) → P w → P (fail_client os w ev c)
  unfolding fail_client send_response_to_client sync_clear_client_cmd sync_send_success
  fail_client_keeps os w ev c h =
      let v = send_response_to_client w c (failed_response ev c c.cmd) in
      rules.sends os (record v { clients = update c.addr cleared v.clients })
        (end_text false ev.msg_number) sync_idle
        (rules.assigns v cleared c.addr (λ d. refl)
          (called_keeps P rules w (send_call c.fd (failed_response ev c c.cmd ++ b'\n' ∷ [])) h))

  pub proc_sync_ev_commit_unsuccess_keeps :
      (n : ℕ) (os : Os) (w : World) (ev : ClientEventCb)
      → P w
      → Each P (proc_sync_ev_commit_unsuccess n os w ev)
  unfolding proc_sync_ev_commit_unsuccess
  proc_sync_ev_commit_unsuccess_keeps zero os w ev h = tt
  proc_sync_ev_commit_unsuccess_keeps (suc n) os w ev h =
      elim (Option-cases (first_of_list waits_save w.clients)) [
        | inl e ↦ rw (e, proc_sync_ev_commit_unsuccess) h
        | inr (c, e) ↦
            elim (Bool-cases
              (not (length ev.msg_number == 0) && not (bytes_eq ev.msg_number c.msg_number))) [
                | inl t ↦
                    rw (e, proc_sync_ev_commit_unsuccess)
                      (rw (t, proc_sync_ev_commit_unsuccess)
                        (proc_sync_ev_commit_unsuccess_keeps n os w ev h))
                | inr t ↦
                    rw (e, proc_sync_ev_commit_unsuccess)
                      (rw (t, proc_sync_ev_commit_unsuccess)
                        (proc_sync_ev_commit_unsuccess_keeps n os (fail_client os w ev c) ev
                          (fail_client_keeps os w ev c h)))
              ]
      ]
