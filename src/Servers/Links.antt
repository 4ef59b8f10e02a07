-- ===== src/Servers/Links.antt =====
-- The connections to the peers: what a broadcast that all of them take leaves.
use bbserver.Base.{
  ℕ, ◌+◌, ◌≡◌, refl, ap, ◌∙◌, inl, inr, true, false, List, [], ◌∷◌, map, arith, Bool-cases, length,
  All, Bytes, ℤ,
}
use bbserver.Types.{SyncServerCb, SyncState, is_state}
use bbserver.Types.Codes.{is_state→eq}
use bbserver.World.{Os, World, SysCall, send_call}
use bbserver.Servers.{
  broadcast, set_first, settle, sync_check_server_state, sync_set_master_state, update_server,
}
use bbserver.Servers.Broadcast.{Takes, send_calls, to_state, check-to_state, broadcast_complete}
use bbserver.Servers.Count.{Rising, missing, set_first-Rising}

-- The descriptors of the servers, in the order of the list.
abbrev pub fds : List SyncServerCb → List ℤ
fds = map (λ (p : SyncServerCb). p.fd)

-- The calls that send the message to each descriptor, newest first.
abbrev pub sends_to : Bytes → List ℤ → List SysCall → List SysCall
sends_to m [] log = log
sends_to m (fd ∷ s) log = sends_to m s (send_call fd m ∷ log)

-- A peer that takes whatever it is sent.
abbrev pub Listening : Os → ℤ → Type 0
Listening os fd = (m : Bytes) (log : List SysCall) → os.sends log fd m ≡ true

send_calls-fds :
    (m : Bytes) (ps : List SyncServerCb) (log : List SysCall)
    → send_calls m ps log ≡ sends_to m (fds ps) log
send_calls-fds m [] log = refl
send_calls-fds m (p ∷ ps) log = send_calls-fds m ps (send_call p.fd m ∷ log)

Listening-Takes :
    (os : Os) (m : Bytes) (ps : List SyncServerCb)
    → All (Listening os) (fds ps)
    → All (Takes os m) ps
Listening-Takes os m [] h = tt
Listening-Takes os m (p ∷ ps) h = (h.0 m, Listening-Takes os m ps h.1)

pub fds-set_first : (s : SyncState) (ps : List SyncServerCb) → fds (set_first s ps) ≡ fds ps
fds-set_first s [] = refl
fds-set_first s (p ∷ ps) = refl

fds-to_state : (s : SyncState) (ps : List SyncServerCb) → fds (map (to_state s) ps) ≡ fds ps
fds-to_state s [] = refl
fds-to_state s (p ∷ ps) = ap (◌∷◌ p.fd) (fds-to_state s ps)

to_state-Rising :
    (s : SyncState) (n : ℕ) (ps : List SyncServerCb) → Rising n ps → Rising n (map (to_state s) ps)
to_state-Rising s n [] h = tt
to_state-Rising s n (p ∷ ps) h = (h.0, to_state-Rising s (p.addr + 1) ps h.1)

check-set_first :
    (s t : SyncState) (ps : List SyncServerCb)
    → sync_check_server_state (set_first t ps) s ≡ sync_check_server_state ps s
check-set_first s t [] = refl
check-set_first s t (p ∷ ps) = refl

-- When every server is in one state, all of them are missing from another.
pub missing_all :
    (s t : SyncState) (ps : List SyncServerCb)
    → is_state s t ≡ false
    → sync_check_server_state ps s ≡ true
    → missing t ps ≡ length ps
missing_all s t [] d h = refl
missing_all s t (p ∷ ps) d h =
    ground (arith, missing_all s t ps d, is_state→eq p.state s, ap (λ r. is_state r t))

-- What a broadcast leaves that every peer takes.
pub record IsSent (m : Bytes) (s : SyncState) (w v : World) : Type 0 where
  pub links : fds v.servers ≡ fds w.servers
  pub calls : v.calls ≡ sends_to m (fds w.servers) w.calls
  pub moved : sync_check_server_state v.servers s ≡ true
  pub rising : Rising 0 w.servers → Rising 0 v.servers

pub broadcast-IsSent :
    (os : Os) (w : World) (m : Bytes) (s : SyncState)
    → All (Listening os) (fds w.servers)
    → IsSent m s w (broadcast os w m s).0
broadcast-IsSent os w m s h =
    let e = broadcast_complete os w m s (Listening-Takes os m w.servers h) in
    rw e (record {
      links = fds-set_first s (map (to_state s) w.servers) ∙ fds-to_state s w.servers;
      calls = send_calls-fds m w.servers w.calls;
      moved = check-set_first s s (map (to_state s) w.servers) ∙ check-to_state s w.servers;
      rising =
          λ r. set_first-Rising s 0 (map (to_state s) w.servers) (to_state-Rising s 0 w.servers r);
    })

pub settle-links : (w : World) (s : SyncState) → fds (settle w s).servers ≡ fds w.servers
unfolding sync_set_master_state
settle-links w s = elim (Bool-cases (sync_check_server_state w.servers s)) [
  | inl e ↦ rw e (fds-set_first s w.servers)
  | inr e ↦ rw e refl
]

pub fds-update :
    (f : SyncServerCb → SyncServerCb) (a : ℕ) (ps : List SyncServerCb)
    → ((p : SyncServerCb) → (f p).fd ≡ p.fd)
    → fds (update_server a f ps) ≡ fds ps
unfolding update_server
fds-update f a [] k = refl
fds-update f a (p ∷ ps) k = ground (arith, k p, fds-update f a ps k)
