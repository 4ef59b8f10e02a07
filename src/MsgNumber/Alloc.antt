-- ===== src/MsgNumber/Alloc.antt =====
-- The numbers that are given out.
use bbserver.Base.{
  ℕ, zero, suc, ◌+◌, ◌≤◌, ◌<◌, ◌≡◌, refl, ap, List, [], ◌∷◌, append-nil, arith, ◌==◌, if◌then◌else◌,
  Bytes, Result, ok, ◌>>=◌, ℤ, pos, int_max,
}
use bbserver.Text.{stoi, to_string}
use bbserver.Text.Decimal.{stoi-to_string}
use bbserver.World.{World}
use bbserver.MsgNumber.{alloc_new_msg_number, update_msg_number}

-- The state of the counter between calls: a number below INT_MAX, 0 before the first one.
abbrev pub IsCounter : ℤ → Type 0
IsCounter n = (k : ℕ) × (n ≡ pos k) × (k < int_max)

abbrev pub next_number : ℕ → ℕ
next_number k = if k + 1 == int_max then 1 else k + 1

-- An allocation from a counter in range gives out a number from 1 to INT_MAX - 1: the next one or,
-- at the end, 1. The text is that of the number, and the counter is in range again.
pub alloc_new_msg_number-next :
    (w : World) (k : ℕ)
    → w.msg_number ≡ pos k
    → k < int_max
    → (alloc_new_msg_number w
        ≡ ok (record w { msg_number = pos (next_number k) }, to_string (pos (next_number k))))
      × (0 < next_number k)
      × (next_number k < int_max)
unfolding alloc_new_msg_number
alloc_new_msg_number-next w k e h =
    (rw (e, alloc_new_msg_number) (ground arith), ground arith, ground arith)

alloc_step :
    (w : World) (k : ℕ)
    → w.msg_number ≡ pos k
    → k + 1 < int_max
    → alloc_new_msg_number w ≡ ok (record w { msg_number = pos (k + 1) }, to_string (pos (k + 1)))
unfolding alloc_new_msg_number
alloc_step w k e h = rw (e, alloc_new_msg_number) (ground arith)

-- The numbers of `n` allocations in a row.
pub alloc_many : ℕ → World → Result (World × List Bytes)
alloc_many zero w = ok (w, [])
alloc_many (suc n) w = do
  (w', s) ← alloc_new_msg_number w
  (w'', ss) ← alloc_many n w'
  ok (w'', s ∷ ss)

abbrev pub upward : ℕ → ℕ → List Bytes
upward k zero = []
upward k (suc n) = to_string (pos (k + 1)) ∷ upward (k + 1) n

-- While the counter, from 0 on, does not come to INT_MAX, `n` allocations in a row give out the `n`
-- numbers that follow it, one by one.
pub alloc_many-upward :
    (n k : ℕ) (w : World)
    → w.msg_number ≡ pos k
    → k + n < int_max
    → alloc_many n w ≡ ok (record w { msg_number = pos (k + n) }, upward k n)
unfolding alloc_many
alloc_many-upward zero k w e h = ground arith
alloc_many-upward (suc n) k w e h =
    rw
      (
        alloc_step w k e (omega arith),
        alloc_many-upward n (k + 1) (record w { msg_number = pos (k + 1) }) refl (omega arith),
      )
      (ap (λ m. ok (record w { msg_number = pos m }, upward k (suc n))) (omega arith))

pub stoi_whole : (n : ℕ) → n ≤ int_max → stoi (to_string (pos n)) ≡ ok (pos n)
stoi_whole n h = rw append-nil at (stoi-to_string n [] h tt)

-- A slave that is told a number from 1 to INT_MAX - 1 takes it over.
pub update_msg_number-to_string :
    (w : World) (n : ℕ)
    → 0 < n
    → n < int_max
    → update_msg_number w (to_string (pos n)) ≡ ok (record w { msg_number = pos n }, pos 0)
unfolding update_msg_number
update_msg_number-to_string w n h k = rw (stoi_whole n (omega arith)) (ground arith)
