-- ===== src/Event/Commit/Save.antt =====
-- The second phase: what the master does once the servers have answered COMMIT.
use bbserver.Base.{
  ℕ, zero, suc, ◌<◌, ◌≡◌, refl, sym, ap, ◌∙◌, ◌≢◌, ◌⊎◌, inl, inr, Bool, true, false, some, List, [],
  ◌∷◌, arith, ◌==◌, Bool-cases, Option-cases, count_of, first_of_list, All, Bytes, bytes_eq,
  bytes_eq→eq, spinning, ok, err,
}
use mathlib.Core.Path.{subst}
use bbserver.Types.{
  ClientCb, ClientEventCb, ClientCmdType, cmd_unset, client_cmd_write, client_cmd_replace,
  sync_idle,
}
use bbserver.World.{World, Os}
use bbserver.Board.{BbFile, save_msg_write, save_msg_replace}
use bbserver.Clients.{update, waits_save}
use bbserver.Clients.Find.{
  Below, count-update, swept, update-Below, swept-update, swept-none, first_of_list-passes, trail,
  trail-update, trail-none,
}
use bbserver.Servers.{end_text}
use bbserver.Servers.Broadcast.{broadcast-Kept}
use bbserver.Event.Commit.{Saved, save_client, conclude, proc_sync_ev_commit_success}
use bbserver.Event.Commit.Phase.{cleared}

-- When the first client that waits for the save waits for another number than the event's, the
-- handler of a successful commit never comes to its end, whatever rounds it is given.
pub proc_sync_ev_commit_success_spins :
    (n : ℕ) (os : Os) (w : World) (ev : ClientEventCb) (c : ClientCb)
    → first_of_list waits_save w.clients ≡ some c
    → ev.msg_number ≢ c.msg_number
    → proc_sync_ev_commit_success n os w ev ≡ err spinning
unfolding proc_sync_ev_commit_success
proc_sync_ev_commit_success_spins zero os w ev c e d = refl
proc_sync_ev_commit_success_spins (suc n) os w ev c e d =
    elim (Bool-cases (bytes_eq ev.msg_number c.msg_number)) [
      | inl t ↦ absurd (d (bytes_eq→eq ev.msg_number c.msg_number t))
      | inr t ↦
          rw (e, proc_sync_ev_commit_success)
            (rw (t, proc_sync_ev_commit_success)
              (proc_sync_ev_commit_success_spins n os w ev c e d))
    ]

-- The file after the master has carried out a command.
abbrev pub file_after : ClientCmdType → Bytes → BbFile → BbFile
file_after client_cmd_write m f = (save_msg_write f m).0
file_after client_cmd_replace m f = (save_msg_replace f m).0
file_after cmd_unset m f = f

pub save_client_lem :
    (w : World) (k : ClientCmdType) (m : Bytes)
    → k ≢ cmd_unset
    → (s : Saved) × (save_client w k m ≡ ok s)
      × (s.world ≡ record w { file = file_after k m w.file })
unfolding save_client
save_client_lem w client_cmd_write m h = (_, refl, ground arith)
save_client_lem w client_cmd_replace m h = (_, refl, ground arith)
save_client_lem w cmd_unset m h = absurd (h refl)

-- A client that does not wait for the save, or that waits with the number of the event and a
-- command.
abbrev pub IsDue : ClientEventCb → ClientCb → Type 0
IsDue ev c =
    (waits_save c ≡ false) ⊎ ((bytes_eq ev.msg_number c.msg_number ≡ true) × (c.cmd ≢ cmd_unset))

due_of :
    (ev : ClientEventCb) (c : ClientCb)
    → waits_save c ≡ true
    → IsDue ev c
    → (bytes_eq ev.msg_number c.msg_number ≡ true) × (c.cmd ≢ cmd_unset)
due_of ev c t (inl f) = absurd (ground (arith, t, f))
due_of ev c t (inr d) = d

pub waits_save-cleared : (c : ClientCb) → waits_save (cleared c) ≡ false
waits_save-cleared c = ground arith

pub update-All :
    (Q : ClientCb → Type 0) (f : ClientCb → ClientCb) (a : ℕ) (cs : List ClientCb)
    → ((c : ClientCb) → Q (f c))
    → All Q cs
    → All Q (update a f cs)
unfolding update
update-All Q f a [] k h = tt
update-All Q f a (c ∷ cs) k h = elim (Bool-cases (c.addr == a)) [
  | inl e ↦ rw e (k c, update-All Q f a cs k h.1)
  | inr e ↦ rw e (h.0, update-All Q f a cs k h.1)
]

pub first_of_list-All :
    (Q : ClientCb → Type 0) (p : ClientCb → Bool) (cs : List ClientCb) (c : ClientCb)
    → first_of_list p cs ≡ some c
    → All Q cs
    → Q c
first_of_list-All Q p [] c e h = cc
first_of_list-All Q p (d ∷ cs) c e h = elim (Bool-cases (p d)) [
  | inl t ↦ let same : d ≡ c = ground arith in subst Q same h.0
  | inr t ↦ first_of_list-All Q p cs c (rw t at e) h.1
]

abbrev save_step : ClientCb → BbFile → BbFile
save_step c = file_after c.cmd c.msg

-- What the handler returns, in `n` rounds from `w`.
pub record Settled (n : ℕ) (os : Os) (w : World) (ev : ClientEventCb) : Type 0 where
  pub last : World
  pub returns : proc_sync_ev_commit_success n os w ev ≡ ok last
  pub clients : last.clients ≡ swept waits_save cleared w.clients
  pub file : last.file ≡ trail waits_save (λ c. file_after c.cmd c.msg) w.clients w.file

conclude-clients :
    (os : Os) (c : ClientCb) (number : Bytes) (s : Saved)
    → ((conclude os c number s).clients ≡ update c.addr cleared s.world.clients)
      × ((conclude os c number s).file ≡ s.world.file)
unfolding conclude
conclude-clients os c number s =
    let kept = broadcast-Kept os s.world (end_text s.success number) sync_idle in
    (ap (update c.addr cleared) kept.clients, kept.file)

module _ (os : Os) (ev : ClientEventCb) where
  Settled-step :
      (n k : ℕ) (w : World) (c : ClientCb) (s : Saved)
      → first_of_list waits_save w.clients ≡ some c
      → Below k w.clients
      → bytes_eq ev.msg_number c.msg_number ≡ true
      → save_client w c.cmd c.msg ≡ ok s
      → s.world ≡ record w { file = save_step c w.file }
      → Settled n os (conclude os c ev.msg_number s) ev
      → Settled (suc n) os w ev
  unfolding proc_sync_ev_commit_success
  Settled-step n k w c s e b t f g r =
      let after = conclude-clients os c ev.msg_number s in
      record {
        last = r.last;
        returns =
            rw (e, proc_sync_ev_commit_success)
              (rw (t, proc_sync_ev_commit_success) (rw f r.returns));
        clients =
            r.clients
            ∙ ap (swept waits_save cleared)
                (after.0 ∙ ap (λ (v : World). update c.addr cleared v.clients) g)
            ∙ swept-update waits_save cleared k w.clients c b e (waits_save-cleared c);
        file =
            r.file
            ∙ ap (λ cs. trail waits_save save_step cs (conclude os c ev.msg_number s).file)
                (after.0 ∙ ap (λ (v : World). update c.addr cleared v.clients) g)
            ∙ ap (trail waits_save save_step (update c.addr cleared w.clients))
                (after.1 ∙ ap (λ (v : World). v.file) g)
            ∙ trail-update waits_save save_step cleared k w.clients c w.file waits_save-cleared b e;
      }

  -- `proc_sync_ev_commit_success` comes to its end when it is given more rounds than clients wait
  -- for the save, if the addresses of the clients descend along the list and each client that waits
  -- has the number of the event and a command: the command of each of them has been carried out on
  -- the file once, in the order of the list, and is cleared; every other client is as it was.
  pub proc_sync_ev_commit_success-Settled :
      (n k : ℕ) (w : World)
      → Below k w.clients
      → All (IsDue ev) w.clients
      → count_of waits_save w.clients < n
      → Settled n os w ev
  unfolding proc_sync_ev_commit_success
  proc_sync_ev_commit_success-Settled zero k w b d h = absurd (omega arith)
  proc_sync_ev_commit_success-Settled (suc n) k w b d h =
      elim (Option-cases (first_of_list waits_save w.clients)) [
        | inl e ↦ record {
          last = w;
          returns = rw (e, proc_sync_ev_commit_success);
          clients = sym (swept-none waits_save cleared w.clients e);
          file = sym (trail-none waits_save save_step w.clients w.file e);
        }
        | inr (c, e) ↦
            let due =
              due_of ev c (first_of_list-passes waits_save w.clients c e)
                (first_of_list-All (IsDue ev) waits_save w.clients c e d) in
            let (s, f, g) = save_client_lem w c.cmd c.msg due.1 in
            let here : (conclude os c ev.msg_number s).clients ≡ update c.addr cleared w.clients =
              (conclude-clients os c ev.msg_number s).0
              ∙ ap (λ (v : World). update c.addr cleared v.clients) g in
            Settled-step n k w c s e b due.0 f g (
              proc_sync_ev_commit_success-Settled n k (conclude os c ev.msg_number s)
                (rw here (update-Below cleared c.addr k w.clients (λ x. refl) b))
                (rw here (
                  update-All (IsDue ev) cleared c.addr w.clients (λ x. inl (waits_save-cleared x))
                    d))
                (rw here (
                  omega (
                    arith,
                    count-update waits_save cleared k w.clients c b e (waits_save-cleared c),
                  ))))
      ]
