-- ===== src/Msg/Master/Orders.antt =====
-- The answers of all slaves, in whatever order they come in, are taken in one round.
use bbserver.Base.{
  ℕ, ◌+◌, ◌≡◌, refl, ap, ◌∙◌, inl, inr, false, some, List, [], ◌∷◌, ◌++◌, arith, ◌==◌, Bool-cases,
  first_of_list, All, Bytes, Lacks, Result, ok, ◌>>=◌, ℤ, eq_ℤ, eq_ℤ_iff,
}
use bbserver.Types.{ClientCb, SyncServerCb, SyncState, is_state}
use bbserver.World.{World}
use bbserver.Servers.{
  update_server, set_first, sync_check_server_state, sync_server_list_find,
  sync_server_list_set_state, sync_set_master_state, sync_send_event,
}
use bbserver.Servers.Count.{Rising, moved, found-Rising, update_under}
use bbserver.Msg.Master.{all_answered, process_sync_master_msg}
use bbserver.Msg.Master.Round.{
  Phase, state_of, answer_of, answered, answered_lem, answered-IsVote, Answers, no_answers,
  next_answer,
}
use bbserver.Msg.Master.Passed.{Numbered}

-- The master reads the answers with the number, over these connections, one after the other.
unfoldable pub read_answers : Phase → Bytes → World → List ClientCb → Result World
read_answers ph number w [] = ok w
read_answers ph number w (c ∷ cs) = do
  v ← process_sync_master_msg w c (answer_of ph number ++ b'\n' ∷ [])
  read_answers ph number v cs

-- No two of the connections have one descriptor.
abbrev pub Distinct : List ClientCb → Type 0
Distinct [] = Unit {0}
Distinct (c ∷ cs) = All (λ d. eq_ℤ c.fd d.fd ≡ false) cs × Distinct cs

-- The server of the descriptor is there, and not in the state yet.
abbrev pub Pending : SyncState → List SyncServerCb → ℤ → Type 0
Pending s ps fd =
    (p : SyncServerCb) × (first_of_list (λ (q : SyncServerCb). eq_ℤ q.fd fd) ps ≡ some p)
    × (is_state p.state s ≡ false)

Pending-set_first :
    (s t : SyncState) (ps : List SyncServerCb) (fd : ℤ)
    → Pending s ps fd
    → Pending s (set_first t ps) fd
Pending-set_first s t [] fd h = h
Pending-set_first s t (r ∷ ps) fd (p, e, h) = elim (Bool-cases (eq_ℤ r.fd fd)) [
  | inl f ↦ (record r { master_state = t }, rw f refl, ground arith)
  | inr f ↦ (p, rw f (rw f at e), h)
]

Pending-update :
    (s : SyncState) (n : ℕ) (ps : List SyncServerCb) (fd fd' : ℤ) (p' : SyncServerCb)
    → Rising n ps
    → first_of_list (λ (q : SyncServerCb). eq_ℤ q.fd fd') ps ≡ some p'
    → eq_ℤ fd' fd ≡ false
    → Pending s ps fd
    → Pending s (update_server p'.addr (moved s) ps) fd
unfolding update_server
Pending-update s n [] fd fd' p' b e' d h = h
Pending-update s n (r ∷ ps) fd fd' p' b e' d (p, e, h) = elim (Bool-cases (eq_ℤ r.fd fd)) [
  | inl f ↦
      let apart : eq_ℤ r.fd fd' ≡ false =
        ground (arith, eq_ℤ_iff r.fd fd, eq_ℤ_iff r.fd fd', eq_ℤ_iff fd' fd) in
      let other : (r.addr == p'.addr) ≡ false =
        ground (arith, found-Rising (λ q. eq_ℤ q.fd fd') (r.addr + 1) ps p' b.1 (rw apart at e')) in
      let same : r ≡ p = ground arith in
      rw other (r, rw f refl, ap (λ q. is_state q.state s) same ∙ h)
  | inr f ↦ elim (Bool-cases (eq_ℤ r.fd fd')) [
    | inl t ↦
        let same : r ≡ p' = ground arith in
        let tail : update_server p'.addr (moved s) ps ≡ ps =
          update_under (moved s) (r.addr + 1) p'.addr ps b.1
            (omega (arith, ap (λ (q : SyncServerCb). q.addr) same)) in
        (p, ground (arith, tail), h)
    | inr t ↦
        let (q, g, k) =
          Pending-update s (r.addr + 1) ps fd fd' p' b.1 (rw t at e') d (p, rw f at e, h) in
        (q, ground arith, k)
  ]
]

Pending-answered :
    (ph : Phase) (number : Bytes) (n : ℕ) (w : World) (c : ClientCb) (p : SyncServerCb) (fd : ℤ)
    → Rising n w.servers
    → sync_server_list_find w c.fd ≡ some p
    → eq_ℤ c.fd fd ≡ false
    → Pending (state_of ph) w.servers fd
    → Pending (state_of ph) (answered ph number w c p).servers fd
unfolding all_answered sync_server_list_set_state sync_send_event sync_set_master_state
    sync_server_list_find
Pending-answered ph number n w c p fd b e d h =
    let s = state_of ph in
    let next = update_server p.addr (moved s) w.servers in
    let k : Pending s next fd = Pending-update s n w.servers fd c.fd p b e d h in
    elim (Bool-cases (sync_check_server_state next s)) [
      | inl t ↦ rw t (Pending-set_first s s next fd k)
      | inr t ↦ rw t k
    ]

still_Pending :
    (ph : Phase) (number : Bytes) (n : ℕ) (w : World) (c : ClientCb) (p : SyncServerCb)
    (cs : List ClientCb)
    → Rising n w.servers
    → sync_server_list_find w c.fd ≡ some p
    → All (λ d. eq_ℤ c.fd d.fd ≡ false) cs
    → All (λ d. Pending (state_of ph) w.servers d.fd) cs
    → All (λ d. Pending (state_of ph) (answered ph number w c p).servers d.fd) cs
still_Pending ph number n w c p [] b e d h = tt
still_Pending ph number n w c p (x ∷ cs) b e d h = (
  Pending-answered ph number n w c p x.fd b e d.0 h.0,
  still_Pending ph number n w c p cs b e d.1 h.1,
)

-- The answers over the connections of servers that have not answered yet, each of them once and in
-- any order, are read to the end, and they are a round with the one number.
pub read_answers-Answers :
    (ph : Phase) (number : Bytes) (n : ℕ) (w : World) (cs : List ClientCb)
    → Lacks b'\r' number
    → Rising n w.servers
    → Distinct cs
    → All (λ c. Pending (state_of ph) w.servers c.fd) cs
    → (u : World) × (r : Answers ph w cs u) × (read_answers ph number w cs ≡ ok u)
      × Numbered number r
unfolding read_answers Numbered
read_answers-Answers ph number n w [] l b d h = (w, no_answers, refl, tt)
read_answers-Answers ph number n w (c ∷ cs) l b d ((p, e, k), h) =
    let found : sync_server_list_find w c.fd ≡ some p = unfold sync_server_list_find in e in
    let v = answered ph number w c p in
    let taken = answered_lem ph number w c p l found in
    let (u, r, f, same) =
      read_answers-Answers ph number n v cs l (answered-IsVote ph number n w c p b found k).rising
        d.1 (still_Pending ph number n w c p cs b found d.0 h) in
    (u, next_answer number p l found k taken r, rw taken f, (refl, same))
