-- ===== src/Clients/Find.antt =====
-- Loops that take the first client in some state and move it out of that state: each round leaves
-- one client fewer there.
use bbserver.Base.{
  ℕ, suc, ◌≤◌, ◌<◌, ◌≡◌, refl, ap, inl, inr, Bool, true, false, none, some, List, [], ◌∷◌, arith,
  ◌==◌, if◌then◌else◌, ==_refl, Bool-cases, length, count_of, first_of_list,
}
use mathlib.Core.Path.{subst}
use bbserver.Types.{ClientCb}
use bbserver.Clients.{update}

-- Addresses fall along the list and stay under the bound: every node has its own.
abbrev pub Below : ℕ → List ClientCb → Type 0
Below n [] = Unit {0}
Below n (c ∷ cs) = (c.addr < n) × Below c.addr cs

module _ (f : ClientCb → ClientCb) where
  pub update_above : (n a : ℕ) (cs : List ClientCb) → Below n cs → n ≤ a → update a f cs ≡ cs
  unfolding update
  update_above n a [] b h = refl
  update_above n a (c ∷ cs) b h = ground (arith, update_above c.addr a cs b.1)

-- One client that passes the test is the first; the update takes it out and changes no other.
pub count-update :
    (p : ClientCb → Bool) (f : ClientCb → ClientCb) (n : ℕ) (cs : List ClientCb) (c : ClientCb)
    → Below n cs
    → first_of_list p cs ≡ some c
    → p (f c) ≡ false
    → suc (count_of p (update c.addr f cs)) ≡ count_of p cs
unfolding update
count-update p f n [] c b e h = cc
count-update p f n (d ∷ cs) c b e h =
    ground (arith, count-update p f d.addr cs c b.1, update_above f d.addr c.addr cs b.1)

pub first_of_list-none :
    (p : ClientCb → Bool) (cs : List ClientCb) → first_of_list p cs ≡ none → count_of p cs ≡ 0
first_of_list-none p [] h = refl
first_of_list-none p (c ∷ cs) h = ground (arith, first_of_list-none p cs)

-- What a loop makes of the list that moves every client which passes the test by `f`.
abbrev pub swept : (ClientCb → Bool) → (ClientCb → ClientCb) → List ClientCb → List ClientCb
swept p f [] = []
swept p f (c ∷ cs) = (if p c then f c else c) ∷ swept p f cs

pub update-Below :
    (f : ClientCb → ClientCb) (a n : ℕ) (cs : List ClientCb)
    → ((c : ClientCb) → (f c).addr ≡ c.addr)
    → Below n cs
    → Below n (update a f cs)
unfolding update
update-Below f a n [] k b = tt
update-Below f a n (c ∷ cs) k b = ground (arith, k c, update-Below f a c.addr cs k b.1)

pub found-Below :
    (p : ClientCb → Bool) (n : ℕ) (cs : List ClientCb) (c : ClientCb)
    → Below n cs
    → first_of_list p cs ≡ some c
    → c.addr < n
found-Below p n [] c b h = cc
found-Below p n (d ∷ cs) c b h = ground (arith, found-Below p d.addr cs c b.1)

-- The first such client is moved in one round; the rest of the sweep is the same.
pub swept-update :
    (p : ClientCb → Bool) (f : ClientCb → ClientCb) (n : ℕ) (cs : List ClientCb) (c : ClientCb)
    → Below n cs
    → first_of_list p cs ≡ some c
    → p (f c) ≡ false
    → swept p f (update c.addr f cs) ≡ swept p f cs
unfolding update
swept-update p f n [] c b e h = refl
swept-update p f n (d ∷ cs) c b e h = elim (Bool-cases (p d)) [
  | inl t ↦
      let same : d ≡ c = ground arith in
      ground (arith, update_above f d.addr c.addr cs b.1, ap p same, ap f same)
  | inr t ↦ ground (arith, swept-update p f d.addr cs c b.1, found-Below p d.addr cs c b.1)
]

pub swept-none :
    (p : ClientCb → Bool) (f : ClientCb → ClientCb) (cs : List ClientCb)
    → first_of_list p cs ≡ none
    → swept p f cs ≡ cs
swept-none p f [] h = refl
swept-none p f (c ∷ cs) h = ground (arith, swept-none p f cs)

pub first_of_list-passes :
    (p : ClientCb → Bool) (cs : List ClientCb) (c : ClientCb)
    → first_of_list p cs ≡ some c
    → p c ≡ true
first_of_list-passes p [] c h = cc
first_of_list-passes p (d ∷ cs) c h = ground (arith, first_of_list-passes p cs c)

pub count_of-le : (p : ClientCb → Bool) (cs : List ClientCb) → count_of p cs ≤ length cs
count_of-le p [] = omega arith
count_of-le p (c ∷ cs) = ground (arith, count_of-le p cs)

-- What a loop accumulates that treats each client which passes the test by `g`, in order.
abbrev pub trail {ℓ} : {X : Type ℓ} → (ClientCb → Bool) → (ClientCb → X → X) → List ClientCb → X → X
trail p g [] x = x
trail p g (c ∷ cs) x = trail p g cs (if p c then g c x else x)

module _ {ℓ} {X : Type ℓ} (p : ClientCb → Bool) (g : ClientCb → X → X) where
  pub trail-none : (cs : List ClientCb) (x : X) → first_of_list p cs ≡ none → trail p g cs x ≡ x
  trail-none [] x e = refl
  trail-none (c ∷ cs) x e = elim (Bool-cases (p c)) [
    | inl t ↦ absurd (ground arith)
    | inr t ↦ rw t (trail-none cs x (ground arith))
  ]

  module _ (f : ClientCb → ClientCb) where
    trail_head :
        (d : ClientCb) (cs : List ClientCb) (x : X)
        → p (f d) ≡ false
        → Below d.addr cs
        → p d ≡ true
        → trail p g (update d.addr f (d ∷ cs)) (g d x) ≡ trail p g (d ∷ cs) x
    unfolding update
    trail_head d cs x h b t =
        rw (==_refl d.addr, h, t, update_above f d.addr d.addr cs b (omega arith))

    pub trail-update :
        (k : ℕ) (cs : List ClientCb) (c : ClientCb) (x : X)
        → ((d : ClientCb) → p (f d) ≡ false)
        → Below k cs
        → first_of_list p cs ≡ some c
        → trail p g (update c.addr f cs) (g c x) ≡ trail p g cs x
    unfolding update
    trail-update k [] c x h b e = cc
    trail-update k (d ∷ cs) c x h b e = elim (Bool-cases (p d)) [
      | inl t ↦
          let same : d ≡ c = ground arith in
          subst (λ y. trail p g (update y.addr f (d ∷ cs)) (g y x) ≡ trail p g (d ∷ cs) x) same
            (trail_head d cs x (h d) b.1 t)
      | inr t ↦
          let later : first_of_list p cs ≡ some c = ground arith in
          let other : (d.addr == c.addr) ≡ false =
            ground (arith, found-Below p d.addr cs c b.1 later) in
          rw (other, t) (trail-update d.addr cs c x h b.1 later)
    ]
