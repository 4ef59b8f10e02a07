-- ===== src/Event/Timeout/Walk.antt =====
-- The first loop of the slaves' time-out, by pointers as the code has it.
use bbserver.Base.{
  ℕ, zero, suc, ◌≤◌, ◌<◌, ◌≡◌, refl, sym, ap, ◌∙◌, ◌≢◌, true, Option, none, some, List, [], ◌∷◌,
  ◌++◌, append_assoc, arith, if◌then◌else◌, ==_refl, length, All, spinning, Result, ok, err,
}
use bbserver.Types.{ClientCb}
use bbserver.Clients.{update, slave_acked, client_list_get_first, client_list_get_next}
use bbserver.Clients.Find.{Below}
use bbserver.Event.Timeout.{mark_slaves}

-- The body of the loop.
abbrev pub mark_slave : ClientCb → ClientCb
mark_slave c = if slave_acked c then record c { slave_timeout = true } else c

-- `while(pClientSlave){...; pClientSlave = client_list_get_next(pClientSlave);}`, in at most `n`
-- rounds.
pub mark_loop : ℕ → Option ℕ → List ClientCb → Result (List ClientCb)
mark_loop n none cs = ok cs
mark_loop zero (some a) cs = err spinning
mark_loop (suc n) (some a) cs =
    let marked = update a mark_slave cs in mark_loop n (client_list_get_next a marked) marked

-- None of the nodes is at the address.
abbrev Elsewhere : ℕ → List ClientCb → Type 0
Elsewhere a = All (λ (c : ClientCb). c.addr ≢ a)

module _ (a : ℕ) (f : ClientCb → ClientCb) where
  update-Elsewhere : (cs : List ClientCb) → Elsewhere a cs → update a f cs ≡ cs
  unfolding update
  update-Elsewhere [] h = refl
  update-Elsewhere (c ∷ cs) h = ground (arith, h.0, update-Elsewhere cs h.1)

  update-append :
      (xs ys : List ClientCb) → Elsewhere a xs → update a f (xs ++ ys) ≡ xs ++ update a f ys
  unfolding update
  update-append [] ys h = refl
  update-append (x ∷ xs) ys h = ground (arith, h.0, update-append xs ys h.1)

next-append :
    (a : ℕ) (xs : List ClientCb) (c : ClientCb) (ys : List ClientCb)
    → Elsewhere a xs
    → c.addr ≡ a
    → client_list_get_next a (xs ++ c ∷ ys) ≡ client_list_get_first ys
next-append a [] c ys h e = ground arith
next-append a (x ∷ xs) c ys h e = ground (arith, h.0, next-append a xs c ys h.1 e)

Below-Elsewhere : (a n : ℕ) (cs : List ClientCb) → Below n cs → n ≤ a → Elsewhere a cs
Below-Elsewhere a n [] b h = tt
Below-Elsewhere a n (c ∷ cs) b h =
    (omega (arith, b.0, h), Below-Elsewhere a c.addr cs b.1 (omega (arith, b.0, h)))

-- Every address is the bound or above it.
abbrev From : ℕ → List ClientCb → Type 0
From k = All (λ (c : ClientCb). k ≤ c.addr)

From-Elsewhere : (k a : ℕ) (xs : List ClientCb) → From k xs → a < k → Elsewhere a xs
From-Elsewhere k a [] h l = tt
From-Elsewhere k a (x ∷ xs) h l = (omega (arith, h.0, l), From-Elsewhere k a xs h.1 l)

From-append :
    (k j : ℕ) (xs : List ClientCb) (c : ClientCb)
    → From k xs
    → j ≤ k
    → c.addr ≡ j
    → From j (xs ++ c ∷ [])
From-append k j [] c h l e = (omega (arith, e), tt)
From-append k j (x ∷ xs) c h l e = (omega (arith, h.0, l), From-append k j xs c h.1 l e)

mark_slave-addr : (c : ClientCb) → (mark_slave c).addr ≡ c.addr
mark_slave-addr c = ground arith

update-here :
    (c : ClientCb) (cs : List ClientCb)
    → Elsewhere c.addr cs
    → update c.addr mark_slave (c ∷ cs) ≡ mark_slave c ∷ cs
unfolding update
update-here c cs h = ground (arith, ==_refl c.addr, update-Elsewhere c.addr mark_slave cs h)

-- The rest of the loop behind the assignment.
abbrev mark_on : ℕ → ℕ → List ClientCb → Result (List ClientCb)
mark_on n a cs = mark_loop n (client_list_get_next a cs) cs

mark_loop-suc :
    (n a : ℕ) (cs : List ClientCb)
    → mark_loop (suc n) (some a) cs ≡ mark_on n a (update a mark_slave cs)
unfolding mark_loop
mark_loop-suc n a cs = refl

-- One round: the node is marked and the pointer moves to the node behind it.
mark_loop-step :
    (n : ℕ) (xs : List ClientCb) (c : ClientCb) (cs : List ClientCb)
    → Elsewhere c.addr xs
    → Elsewhere c.addr cs
    → mark_loop (suc n) (some c.addr) (xs ++ c ∷ cs)
      ≡ mark_loop n (client_list_get_first cs) (xs ++ mark_slave c ∷ cs)
mark_loop-step n xs c cs hx hc =
    mark_loop-suc n c.addr (xs ++ c ∷ cs)
    ∙ ap (mark_on n c.addr) marked
    ∙ ap (λ a. mark_loop n a (xs ++ mark_slave c ∷ cs))
        (next-append c.addr xs (mark_slave c) cs hx (mark_slave-addr c))
  where
    marked : update c.addr mark_slave (xs ++ c ∷ cs) ≡ xs ++ mark_slave c ∷ cs
    marked =
        update-append c.addr mark_slave xs (c ∷ cs) hx ∙ ap (λ ys. xs ++ ys) (update-here c cs hc)

mark_loop-From :
    (n k : ℕ) (xs cs : List ClientCb)
    → From k xs
    → Below k cs
    → length cs ≤ n
    → mark_loop n (client_list_get_first cs) (xs ++ cs) ≡ ok (xs ++ mark_slaves cs)
unfolding mark_loop mark_slaves
mark_loop-From n k xs [] f b l = refl
mark_loop-From zero k xs (c ∷ cs) f b l = absurd (omega (arith, l))
mark_loop-From (suc n) k xs (c ∷ cs) f b l =
    mark_loop-step n xs c cs (From-Elsewhere k c.addr xs f b.0)
      (Below-Elsewhere c.addr c.addr cs b.1 (omega arith))
    ∙ ap (mark_loop n (client_list_get_first cs)) (sym (append_assoc xs (mark_slave c ∷ []) cs))
    ∙ mark_loop-From n c.addr (xs ++ mark_slave c ∷ []) cs
        (From-append k c.addr xs (mark_slave c) f (omega (arith, b.0)) (mark_slave-addr c)) b.1
        (omega (arith, l))
    ∙ ap ok (append_assoc xs (mark_slave c ∷ []) (mark_slaves cs))

-- On a client list whose addresses are all different, the loop along the pointers ends within as
-- many rounds as there are clients, and it has marked every slave that waits for the master and no
-- other client.
pub mark_loop-mark_slaves :
    (n k : ℕ) (cs : List ClientCb)
    → Below k cs
    → length cs ≤ n
    → mark_loop n (client_list_get_first cs) cs ≡ ok (mark_slaves cs)
mark_loop-mark_slaves n k cs b l = mark_loop-From n k [] cs tt b l
