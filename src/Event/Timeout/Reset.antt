-- ===== src/Event/Timeout/Reset.antt =====
-- The time-out of the slaves: the loop that takes every slave out of the acknowledged state ends.
use bbserver.Base.{
  ℕ, zero, suc, ◌<◌, ◌≡◌, refl, sym, ap, ◌∙◌, inl, inr, false, List, [], ◌∷◌, arith, Option-cases,
  count_of, first_of_list, ok,
}
use bbserver.Types.{ClientCb, sync_idle}
use bbserver.World.{World}
use bbserver.Clients.{update, slave_acked}
use bbserver.Clients.Find.{Below, count-update, swept, update-Below, swept-update, swept-none}
use bbserver.Event.Timeout.{mark_slaves, reset_slave, reset_loop, proc_sync_ev_slave_timeout}

-- The two assignments of a round.
abbrev pub to_idle : ClientCb → ClientCb
to_idle c = record c { slave_state = sync_idle; slave_timeout = false }

slave_acked-to_idle : (c : ClientCb) → slave_acked (to_idle c) ≡ false
slave_acked-to_idle c = ground arith

update-update :
    (f g : ClientCb → ClientCb) (a : ℕ) (cs : List ClientCb)
    → ((c : ClientCb) → (f c).addr ≡ c.addr)
    → update a g (update a f cs) ≡ update a (λ c. g (f c)) cs
unfolding update
update-update f g a [] k = refl
update-update f g a (c ∷ cs) k = ground (arith, k c, update-update f g a cs k)

reset_slave-clients :
    (w : World) (c : ClientCb)
    → ((reset_slave w c).clients ≡ update c.addr to_idle w.clients)
      × ((reset_slave w c).file ≡ w.file)
unfolding reset_slave
reset_slave-clients w c = (
  update-update (λ d. record d { slave_state = sync_idle })
      (λ d. record d { slave_timeout = false }) c.addr w.clients (λ d. refl),
  refl,
)

reset_loop_ends :
    (n k : ℕ) (w : World)
    → Below k w.clients
    → count_of slave_acked w.clients < n
    → (last : World) × (reset_loop n w ≡ ok last)
      × (last.clients ≡ swept slave_acked to_idle w.clients)
      × (last.file ≡ w.file)
unfolding reset_loop
reset_loop_ends zero k w b h = absurd (omega arith)
reset_loop_ends (suc n) k w b h = elim (Option-cases (first_of_list slave_acked w.clients)) [
  | inl e ↦ (w, rw (e, reset_loop) refl, sym (swept-none slave_acked to_idle w.clients e), refl)
  | inr (c, e) ↦
      let (here, same) = reset_slave-clients w c in
      let (last, returns, clients, file) =
        reset_loop_ends n k (reset_slave w c)
          (rw here (update-Below to_idle c.addr k w.clients (λ x. refl) b))
          (rw here (
            omega (
              arith,
              count-update slave_acked to_idle k w.clients c b e (slave_acked-to_idle c),
            ))) in
      (
        last,
        rw (e, reset_loop) returns,
        clients
            ∙ ap (swept slave_acked to_idle) here
            ∙ swept-update slave_acked to_idle k w.clients c b e (slave_acked-to_idle c),
        file ∙ same,
      )
]

-- The handler of the slaves' time-out comes to its end when it is given more rounds than slaves are
-- in the acknowledged state after its sleep, if the addresses of the clients then descend along the
-- list: each of those slaves is idle and unmarked, every other client is as it was after the sleep,
-- and so is the file. The world after the sleep is whatever the other threads make of the one where
-- the slaves are marked.
pub proc_sync_ev_slave_timeout_ends :
    (n k : ℕ) (others : World → World) (w v : World)
    → others (record w { clients = mark_slaves w.clients }) ≡ v
    → Below k v.clients
    → count_of slave_acked v.clients < n
    → (last : World) × (proc_sync_ev_slave_timeout n others w ≡ ok last)
      × (last.clients ≡ swept slave_acked to_idle v.clients)
      × (last.file ≡ v.file)
unfolding proc_sync_ev_slave_timeout
proc_sync_ev_slave_timeout_ends n k others w v e b h = rw e (reset_loop_ends n k v b h)
