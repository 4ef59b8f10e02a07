-- ===== src/Service/Close.antt =====
-- `destroy_connection`: which descriptors it closes, and how often.
use bbserver.Base.{
  ℕ, zero, suc, ◌+◌, ◌≡◌, refl, Bool, false, List, [], ◌∷◌, arith, any_of, count_of, ℤ, pos, negsuc,
  eq_ℤ,
}
use bbserver.World.{World, SysCall, close_call}
use bbserver.Conn.{conn_is_exist, conn_close_all, close_slots, fd_isset}
use bbserver.Conn.Table.{slots_of}
use bbserver.Service.{close_calls, destroy_connection}

-- A close of the descriptor.
abbrev pub closes : ℤ → SysCall → Bool
closes fd (close_call g) = eq_ℤ fd g
closes fd _ = false

close_calls-count :
    (n : ℕ) (s : List ℤ) (log : List SysCall)
    → count_of (closes (pos (suc n))) (close_calls s log)
      ≡ slots_of (pos (suc n)) s + count_of (closes (pos (suc n))) log
close_calls-count n [] log = omega arith
close_calls-count n (pos zero ∷ s) log = ground (arith, close_calls-count n s log)
close_calls-count n (pos (suc m) ∷ s) log =
    ground (arith, close_calls-count n s (close_call (pos (suc m)) ∷ log))
close_calls-count n (negsuc m ∷ s) log = ground (arith, close_calls-count n s log)

close_slots-exist : (n : ℕ) (s : List ℤ) → any_of (eq_ℤ (pos (suc n))) (close_slots s) ≡ false
close_slots-exist n [] = refl
close_slots-exist n (pos zero ∷ s) = ground (arith, close_slots-exist n s)
close_slots-exist n (pos (suc m) ∷ s) = ground (arith, close_slots-exist n s)
close_slots-exist n (negsuc m ∷ s) = ground (arith, close_slots-exist n s)

-- `destroy_connection` closes every descriptor of the table above 0, once for each slot that holds
-- it, and no other; none of them is in the table or in the set for select behind it.
pub destroy_connection-closes :
    (w : World) (n : ℕ)
    → (count_of (closes (pos (suc n))) (destroy_connection w).calls
        ≡ slots_of (pos (suc n)) w.conns.connections + count_of (closes (pos (suc n))) w.calls)
      × (conn_is_exist (destroy_connection w).conns.connections (pos (suc n)) ≡ false)
      × (fd_isset (pos (suc n)) (destroy_connection w).conns.read_fd_set ≡ false)
unfolding destroy_connection conn_close_all conn_is_exist
destroy_connection-closes w n =
    (close_calls-count n w.conns.connections w.calls, close_slots-exist n w.conns.connections, refl)
