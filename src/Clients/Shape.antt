-- ===== src/Clients/Shape.antt =====
-- A client that goes leaves the addresses in their order.
use bbserver.Base.{ℕ, ◌≤◌, inl, inr, List, [], ◌∷◌, arith, ◌==◌, Bool-cases}
use bbserver.Types.{ClientCb}
use bbserver.Clients.{remove}
use bbserver.Clients.Find.{Below}

Below-le : (m n : ℕ) (cs : List ClientCb) → m ≤ n → Below m cs → Below n cs
Below-le m n [] l b = tt
Below-le m n (c ∷ cs) l b = (omega (arith, b.0), b.1)

pub remove-Below : (a n : ℕ) (cs : List ClientCb) → Below n cs → Below n (remove a cs)
unfolding remove
remove-Below a n [] b = tt
remove-Below a n (c ∷ cs) b = elim (Bool-cases (c.addr == a)) [
  | inl e ↦ rw e (Below-le c.addr n cs (omega (arith, b.0)) b.1)
  | inr e ↦ rw e (b.0, remove-Below a c.addr cs b.1)
]
