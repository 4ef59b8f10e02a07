-- ===== src/Semaphore/Progress.antt =====
-- The threads never block each other.
use bbserver.Base.{
  ℕ, zero, suc, ◌≤◌, ◌≡◌, refl, ◌⊎◌, inl, inr, Bool, true, false, List, [], ◌∷◌, ◌++◌, arith, ◌==◌,
  Bool-cases, count_of,
}
use bbserver.Semaphore.{
  Access, Place, outside, to_lock, to_count, counted, admitted, reading, to_relock, to_uncount,
  uncounted, released, to_write, writing, Move, lock, count, wait_first, pass, unlock,
  call_read_end, relock, uncount, post_last, leave, unlock_end, wait_write, post_write, Reach,
}
use bbserver.Semaphore.Exclusion.{
  is_writing, holds_mutex, in_count, is_counted, has_wrt, bit, count-middle, relation,
  Reach-Counted, Counted,
}

abbrev pub is_busy : Place → Bool
is_busy outside = false
is_busy _ = true

-- A thread at `p` has a step.
pub data Movable (a : Access) (p : Place) : Type 0 where
  movable : {b : Access} {q : Place} → Move a p b q → Movable a p

-- A thread inside one of the four functions, or in the file, has a step.
pub data Progress (a : Access) : List Place → Type 0 where
  progress :
      (before after : List Place) {p : Place}
      → is_busy p ≡ true
      → Movable a p
      → Progress a (before ++ p ∷ after)

data At (f : Place → Bool) : List Place → Type 0 where
  at : (before after : List Place) (p : Place) → f p ≡ true → At f (before ++ p ∷ after)

cons-At : {f : Place → Bool} {x : Place} {ps : List Place} → At f ps → At f (x ∷ ps)
cons-At {x} (at before after p k) = at (x ∷ before) after p k

found-At : (f : Place → Bool) (ps : List Place) → 1 ≤ count_of f ps → At f ps
found-At f [] h = absurd (omega arith)
found-At f (x ∷ xs) h = elim (Bool-cases (f x)) [
  | inl e ↦ at [] xs x e
  | inr e ↦ cons-At (found-At f xs (rw e at h))
]

-- `readerCnt` is 1 and `wrt` is taken.
abbrev Stuck : ℕ → ℕ → Place → Type 0
Stuck r v p = (is_counted p ≡ true) × (r ≡ 1) × (v ≡ 0)

holder :
    (b : Bool) (r v : ℕ) (p : Place)
    → holds_mutex p ≡ true
    → bit (in_count p) ≤ r
    → Movable (record { locked = b; reader_cnt = r; wrt = v }) p ⊎ Stuck r v p
holder b r v to_count h l = inl (movable count)
holder b zero v counted h l = absurd (omega (arith, l))
holder b (suc zero) zero counted h l = inr (refl, refl, refl)
holder b (suc zero) (suc v) counted h l = inl (movable wait_first)
holder b (suc (suc r)) v counted h l = inl (movable (pass (omega arith)))
holder b r v admitted h l = inl (movable unlock)
holder b zero v to_uncount h l = absurd (omega (arith, l))
holder b (suc r) v to_uncount h l = inl (movable uncount)
holder b zero v uncounted h l = inl (movable post_last)
holder b (suc r) v uncounted h l = inl (movable (leave (omega arith)))
holder b r v released h l = inl (movable unlock_end)
holder b r v outside h l = cc
holder b r v to_lock h l = cc
holder b r v reading h l = cc
holder b r v to_relock h l = cc
holder b r v to_write h l = cc
holder b r v writing h l = cc

writer :
    (b : Bool) (r v : ℕ) {ps : List Place}
    → At is_writing ps
    → Progress (record { locked = b; reader_cnt = r; wrt = v }) ps
writer b r v (at xs ys outside e) = cc
writer b r v (at xs ys to_lock e) = cc
writer b r v (at xs ys to_count e) = cc
writer b r v (at xs ys counted e) = cc
writer b r v (at xs ys admitted e) = cc
writer b r v (at xs ys reading e) = cc
writer b r v (at xs ys to_relock e) = cc
writer b r v (at xs ys to_uncount e) = cc
writer b r v (at xs ys uncounted e) = cc
writer b r v (at xs ys released e) = cc
writer b r v (at xs ys to_write e) = cc
writer b r v (at xs ys writing e) = progress xs ys refl (movable post_write)

-- A reader that has passed `wrt` and stands outside the mutex.
reader :
    (r v : ℕ) {ps : List Place}
    → count_of holds_mutex ps ≡ 0
    → At has_wrt ps
    → Progress (record { locked = false; reader_cnt = r; wrt = v }) ps
reader r v h (at xs ys outside e) = cc
reader r v h (at xs ys to_lock e) = cc
reader r v h (at xs ys to_count e) = cc
reader r v h (at xs ys counted e) = cc
reader r v h (at xs ys admitted e) =
    absurd (omega (arith, h, count-middle holds_mutex xs admitted ys))
reader r v h (at xs ys reading e) = progress xs ys refl (movable call_read_end)
reader r v h (at xs ys to_relock e) = progress xs ys refl (movable relock)
reader r v h (at xs ys to_uncount e) =
    absurd (omega (arith, h, count-middle holds_mutex xs to_uncount ys))
reader r v h (at xs ys uncounted e) =
    absurd (omega (arith, h, count-middle holds_mutex xs uncounted ys))
reader r v h (at xs ys released e) = cc
reader r v h (at xs ys to_write e) = cc
reader r v h (at xs ys writing e) = cc

holds_mutex-is_busy : (p : Place) → holds_mutex p ≡ true → is_busy p ≡ true
holds_mutex-is_busy outside h = cc
holds_mutex-is_busy to_lock h = refl
holds_mutex-is_busy to_count h = refl
holds_mutex-is_busy counted h = refl
holds_mutex-is_busy admitted h = refl
holds_mutex-is_busy reading h = refl
holds_mutex-is_busy to_relock h = refl
holds_mutex-is_busy to_uncount h = refl
holds_mutex-is_busy uncounted h = refl
holds_mutex-is_busy released h = refl
holds_mutex-is_busy to_write h = refl
holds_mutex-is_busy writing h = refl

locked-Progress :
    (r v : ℕ) {ps : List Place}
    → Counted (record { locked = true; reader_cnt = r; wrt = v }) ps
    → At holds_mutex ps
    → Progress (record { locked = true; reader_cnt = r; wrt = v }) ps
locked-Progress r v k (at xs ys p e) =
    let (r1, r2, _) = relation (xs ++ p ∷ ys) in
    let c = count-middle is_counted xs p ys in
    elim (holder true r v p e (omega (arith, k.readers, count-middle in_count xs p ys))) [
      | inl m ↦ progress xs ys (holds_mutex-is_busy p e) m
      | inr (q, one, none_left) ↦ writer true r v (
          found-At is_writing (xs ++ p ∷ ys) (
            let c' = rw q at c in
            ground (arith, k.mutex, k.readers, k.taken, r1, r2, c', one, none_left)))
    ]

free-Progress :
    (r v : ℕ) {ps : List Place}
    → Counted (record { locked = false; reader_cnt = r; wrt = v }) ps
    → At is_busy ps
    → Progress (record { locked = false; reader_cnt = r; wrt = v }) ps
free-Progress r v k (at xs ys outside e) = cc
free-Progress r v k (at xs ys to_lock e) = progress xs ys refl (movable lock)
free-Progress r v k (at xs ys to_count e) =
    absurd (omega (arith, k.mutex, count-middle holds_mutex xs to_count ys))
free-Progress r v k (at xs ys counted e) =
    absurd (omega (arith, k.mutex, count-middle holds_mutex xs counted ys))
free-Progress r v k (at xs ys admitted e) =
    absurd (omega (arith, k.mutex, count-middle holds_mutex xs admitted ys))
free-Progress r v k (at xs ys reading e) = progress xs ys refl (movable call_read_end)
free-Progress r v k (at xs ys to_relock e) = progress xs ys refl (movable relock)
free-Progress r v k (at xs ys to_uncount e) =
    absurd (omega (arith, k.mutex, count-middle holds_mutex xs to_uncount ys))
free-Progress r v k (at xs ys uncounted e) =
    absurd (omega (arith, k.mutex, count-middle holds_mutex xs uncounted ys))
free-Progress r v k (at xs ys released e) =
    absurd (omega (arith, k.mutex, count-middle holds_mutex xs released ys))
free-Progress r (suc v) k (at xs ys to_write e) = progress xs ys refl (movable wait_write)
free-Progress r zero k (at xs ys to_write e) =
    elim (Bool-cases (count_of is_writing (xs ++ to_write ∷ ys) == 0)) [
      | inl none_writes ↦
          reader r zero k.mutex
            (found-At has_wrt (xs ++ to_write ∷ ys) (ground (arith, k.taken, none_writes)))
      | inr writes ↦
          writer false r zero (found-At is_writing (xs ++ to_write ∷ ys) (ground (arith, writes)))
    ]
free-Progress r v k (at xs ys writing e) = progress xs ys refl (movable post_write)

-- No deadlock: while some thread is in one of the four functions or in the file, one of those
-- threads has a step.
pub Reach-Progress :
    {n : ℕ} {a : Access} {ps : List Place} → Reach n a ps → 1 ≤ count_of is_busy ps → Progress a ps
Reach-Progress {a} {ps} r busy = by_lock a.locked a.reader_cnt a.wrt (Reach-Counted r)
  where
    by_lock :
        (b : Bool) (r v : ℕ)
        → Counted (record { locked = b; reader_cnt = r; wrt = v }) ps
        → Progress (record { locked = b; reader_cnt = r; wrt = v }) ps
    by_lock true r v k = locked-Progress r v k (found-At holds_mutex ps (omega (arith, k.mutex)))
    by_lock false r v k = free-Progress r v k (found-At is_busy ps busy)
