-- ===== src/Clients/Single.antt =====
-- The one client that waits: where it is found, and when no client is left.
use bbserver.Base.{
  ℕ, ◌≡◌, refl, inl, inr, Bool, true, false, Option, none, some, List, [], ◌∷◌, arith, ◌==◌,
  Bool-cases, count_of, first_of_list,
}
use bbserver.Types.{ClientCb}
use bbserver.Clients.{update}

-- The client of an address, the first in the list.
abbrev pub client_at : ℕ → List ClientCb → Option ClientCb
client_at a = first_of_list (λ (c : ClientCb). c.addr == a)

module _ (p : ClientCb → Bool) (f : ClientCb → ClientCb) (a : ℕ) where
  pub first_of_list-update :
      (cs : List ClientCb) (c : ClientCb)
      → client_at a cs ≡ some c
      → count_of p cs ≡ 0
      → p (f c) ≡ true
      → first_of_list p (update a f cs) ≡ some (f c)
  unfolding update
  first_of_list-update [] c e z h = cc
  first_of_list-update (d ∷ cs) c e z h = elim (Bool-cases (d.addr == a)) [
    | inl t ↦ let same : d ≡ c = ground arith in rw t (rw same (rw h refl))
    | inr t ↦ ground (arith, first_of_list-update cs c)
  ]

  pub first_of_list-update-none :
      (cs : List ClientCb)
      → count_of p cs ≡ 0
      → ((d : ClientCb) → p (f d) ≡ false)
      → first_of_list p (update a f cs) ≡ none
  unfolding update
  first_of_list-update-none [] z h = refl
  first_of_list-update-none (d ∷ cs) z h = ground (arith, first_of_list-update-none cs, h d)

pub update-update :
    (f g : ClientCb → ClientCb) (a : ℕ) (cs : List ClientCb)
    → ((c : ClientCb) → (f c).addr ≡ c.addr)
    → update a g (update a f cs) ≡ update a (λ c. g (f c)) cs
unfolding update
update-update f g a [] k = refl
update-update f g a (c ∷ cs) k = ground (arith, update-update f g a cs k, k c)
