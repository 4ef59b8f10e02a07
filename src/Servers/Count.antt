-- ===== src/Servers/Count.antt =====
-- How many servers of the list are in a state, when every server has its own address.
use bbserver.Base.{
  ℕ, suc, ◌+◌, ◌≤◌, ◌<◌, ◌≡◌, refl, sym, ap, inl, inr, Bool, true, false, not, some, List, [], ◌∷◌,
  arith, ◌==◌, Bool-cases, all_of, count_of, first_of_list,
}
use bbserver.Types.{SyncServerCb, SyncState, is_state}
use bbserver.Types.Codes.{is_state_refl}
use bbserver.Servers.{update_server, set_first, sync_check_server_state}

-- Addresses rise along the list of servers, from the bound on: every server has its own.
abbrev pub Rising : ℕ → List SyncServerCb → Type 0
Rising n [] = Unit {0}
Rising n (p ∷ ps) = (n ≤ p.addr) × Rising (p.addr + 1) ps

all_of-count :
    {A : Type 0} (m : A → Bool) (xs : List A) → all_of m xs ≡ (count_of (λ x. not (m x)) xs == 0)
all_of-count m [] = ground arith
all_of-count m (x ∷ xs) = ground (arith, all_of-count m xs)

pub found-Rising :
    (q : SyncServerCb → Bool) (n : ℕ) (ps : List SyncServerCb) (p : SyncServerCb)
    → Rising n ps
    → first_of_list q ps ≡ some p
    → n ≤ p.addr
found-Rising q n [] p b e = cc
found-Rising q n (r ∷ ps) p b e = ground (arith, found-Rising q (r.addr + 1) ps p b.1)

module _ (f : SyncServerCb → SyncServerCb) where
  pub update_under :
      (n a : ℕ) (ps : List SyncServerCb) → Rising n ps → a < n → update_server a f ps ≡ ps
  unfolding update_server
  update_under n a [] b h = refl
  update_under n a (p ∷ ps) b h = ground (arith, update_under (p.addr + 1) a ps b.1)

  update-Rising :
      (a n : ℕ) (ps : List SyncServerCb)
      → ((p : SyncServerCb) → (f p).addr ≡ p.addr)
      → Rising n ps
      → Rising n (update_server a f ps)
  unfolding update_server
  update-Rising a n [] k b = tt
  update-Rising a n (p ∷ ps) k b = ground (arith, k p, update-Rising a (p.addr + 1) ps k b.1)

  -- The update of the one server that is found takes it out of those that pass the test.
  count-update_server :
      (q m : SyncServerCb → Bool) (n : ℕ) (ps : List SyncServerCb) (p : SyncServerCb)
      → Rising n ps
      → first_of_list q ps ≡ some p
      → m p ≡ true
      → m (f p) ≡ false
      → suc (count_of m (update_server p.addr f ps)) ≡ count_of m ps
  unfolding update_server
  count-update_server q m n [] p b e h k = cc
  count-update_server q m n (r ∷ ps) p b e h k = elim (Bool-cases (q r)) [
    | inl t ↦
        let same : r ≡ p = ground arith in
        ground (
          arith,
          update_under (r.addr + 1) p.addr ps b.1,
          ap m same,
          ap (λ r. m (f r)) same,
          ap (λ (r : SyncServerCb). r.addr) same,
        )
    | inr t ↦
        ground (
          arith,
          count-update_server q m (r.addr + 1) ps p b.1,
          found-Rising q (r.addr + 1) ps p b.1,
        )
  ]

-- How many servers are not in the state.
abbrev pub missing : SyncState → List SyncServerCb → ℕ
missing s = count_of (λ (p : SyncServerCb). not (is_state p.state s))

abbrev pub moved : SyncState → SyncServerCb → SyncServerCb
moved s p = record p { state = s }

pub missing-set_first :
    (s t : SyncState) (ps : List SyncServerCb) → missing s (set_first t ps) ≡ missing s ps
missing-set_first s t [] = refl
missing-set_first s t (p ∷ ps) = refl

pub set_first-Rising :
    (s : SyncState) (n : ℕ) (ps : List SyncServerCb) → Rising n ps → Rising n (set_first s ps)
set_first-Rising s n [] h = tt
set_first-Rising s n (p ∷ ps) h = h

pub moved-Rising :
    (s : SyncState) (a n : ℕ) (ps : List SyncServerCb)
    → Rising n ps
    → Rising n (update_server a (moved s) ps)
moved-Rising s a n ps h = update-Rising (moved s) a n ps (λ p. refl) h

pub missing-moved :
    (q : SyncServerCb → Bool) (s : SyncState) (n : ℕ) (ps : List SyncServerCb) (p : SyncServerCb)
    → Rising n ps
    → first_of_list q ps ≡ some p
    → is_state p.state s ≡ false
    → suc (missing s (update_server p.addr (moved s) ps)) ≡ missing s ps
missing-moved q s n ps p b e h =
    count-update_server (moved s) q (λ r. not (is_state r.state s)) n ps p b e (ap not h)
      (ap not (is_state_refl s))

pub none_missing :
    (s : SyncState) (ps : List SyncServerCb) → (missing s ps == 0) ≡ sync_check_server_state ps s
none_missing s ps = sym (all_of-count (λ (r : SyncServerCb). is_state r.state s) ps)
