-- ===== src/Semaphore/Exclusion.antt =====
-- No writer is in the file with another thread.
use bbserver.Base.{
  ℕ, zero, suc, ◌+◌, ◌≤◌, ◌≡◌, refl, ◌∙◌, ◌⊎◌, inl, inr, Bool, true, false, List, [], ◌∷◌, ◌++◌,
  arith, ◌==◌, if◌then◌else◌, Bool-cases, replicate, count_of,
}
use bbserver.Semaphore.{
  Access, Place, outside, to_lock, to_count, counted, admitted, reading, to_relock, to_uncount,
  uncounted, released, to_write, writing, Move, call_read, lock, count, wait_first, pass, unlock,
  call_read_end, relock, uncount, post_last, leave, unlock_end, call_write, wait_write, post_write,
  Reach, start, move,
}

abbrev pub is_writing : Place → Bool
is_writing writing = true
is_writing _ = false

abbrev pub is_reading : Place → Bool
is_reading reading = true
is_reading _ = false

-- between locking and unlocking the mutex
abbrev pub holds_mutex : Place → Bool
holds_mutex to_count = true
holds_mutex counted = true
holds_mutex admitted = true
holds_mutex to_uncount = true
holds_mutex uncounted = true
holds_mutex released = true
holds_mutex _ = false

-- counted in `readerCnt`
abbrev pub in_count : Place → Bool
in_count counted = true
in_count admitted = true
in_count reading = true
in_count to_relock = true
in_count to_uncount = true
in_count _ = false

abbrev pub is_counted : Place → Bool
is_counted counted = true
is_counted _ = false

abbrev pub is_uncounted : Place → Bool
is_uncounted uncounted = true
is_uncounted _ = false

-- `wrt` is taken for it
abbrev pub has_wrt : Place → Bool
has_wrt admitted = true
has_wrt reading = true
has_wrt to_relock = true
has_wrt to_uncount = true
has_wrt uncounted = true
has_wrt _ = false

abbrev pub bit : Bool → ℕ
bit true = 1
bit false = 0

-- 1 unless there are none
abbrev pub some_of : ℕ → ℕ
some_of n = if n == 0 then 0 else 1

pub count-middle :
    (f : Place → Bool) (xs : List Place) (p : Place) (ys : List Place)
    → count_of f (xs ++ p ∷ ys) ≡ bit (f p) + (count_of f xs + count_of f ys)
count-middle f [] p ys = ground arith
count-middle f (x ∷ xs) p ys = ground (arith, count-middle f xs p ys)

-- How the counts of the threads at the places depend on each other.
pub relation :
    (ps : List Place)
    → (count_of in_count ps + count_of is_uncounted ps
        ≡ count_of has_wrt ps + count_of is_counted ps)
      × (count_of is_counted ps + count_of is_uncounted ps ≤ count_of holds_mutex ps)
      × (count_of is_reading ps ≤ count_of has_wrt ps)
relation [] = (refl, omega arith, omega arith)
relation (outside ∷ ps) = relation ps
relation (to_lock ∷ ps) = relation ps
relation (to_count ∷ ps) = omega (arith, relation ps)
relation (counted ∷ ps) = omega (arith, relation ps)
relation (admitted ∷ ps) = omega (arith, relation ps)
relation (reading ∷ ps) = omega (arith, relation ps)
relation (to_relock ∷ ps) = omega (arith, relation ps)
relation (to_uncount ∷ ps) = omega (arith, relation ps)
relation (uncounted ∷ ps) = omega (arith, relation ps)
relation (released ∷ ps) = omega (arith, relation ps)
relation (to_write ∷ ps) = relation ps
relation (writing ∷ ps) = relation ps

-- The mutex is held by the thread that locked it, `readerCnt` is the number of the threads counted
-- in it, and `wrt` is taken by one writer or by the readers together.
pub record Counted (a : Access) (ps : List Place) : Type 0 where
  pub mutex : count_of holds_mutex ps ≡ bit a.locked
  pub readers : count_of in_count ps ≡ a.reader_cnt
  pub taken : a.wrt + count_of is_writing ps + some_of (count_of has_wrt ps) ≡ 1

-- The same with the counts of the other threads.
abbrev Sums : (h i g w : ℕ) → Access → Place → Type 0
Sums h i g w a p =
    (bit (holds_mutex p) + h ≡ bit a.locked)
    × (bit (in_count p) + i ≡ a.reader_cnt)
    × (a.wrt + (bit (is_writing p) + g) + some_of (bit (has_wrt p) + w) ≡ 1)

Move-Sums :
    {a b : Access} {p q : Place} (h i g w c u : ℕ)
    → i + u ≡ w + c
    → c + u ≤ h
    → Move a p b q
    → Sums h i g w a p
    → Sums h i g w b q
Move-Sums h i g w c u r l call_read s = ground arith
Move-Sums h i g w c u r l lock s = ground arith
Move-Sums h i g w c u r l count s = ground arith
Move-Sums h i g w c u r l wait_first s = ground arith
Move-Sums h i g w c u r l (pass d) s = ground arith
Move-Sums h i g w c u r l unlock s = ground arith
Move-Sums h i g w c u r l call_read_end s = ground arith
Move-Sums h i g w c u r l relock s = ground arith
Move-Sums h i g w c u r l uncount s = ground arith
Move-Sums h i g w c u r l post_last s = ground arith
Move-Sums h i g w c u r l (leave d) s = ground arith
Move-Sums h i g w c u r l unlock_end s = ground arith
Move-Sums h i g w c u r l call_write s = ground arith
Move-Sums h i g w c u r l wait_write s = ground arith
Move-Sums h i g w c u r l post_write s = ground arith

Move-Counted :
    {a b : Access} {p q : Place} (xs ys : List Place)
    → Move a p b q
    → Counted a (xs ++ p ∷ ys)
    → Counted b (xs ++ q ∷ ys)
Move-Counted {a} {b} {p} {q} xs ys m k =
    let (_, l, _) = relation xs in
    let (_, l', _) = relation ys in
    let (e1, e2, e3) =
      Move-Sums (count_of holds_mutex xs + count_of holds_mutex ys)
        (count_of in_count xs + count_of in_count ys)
        (count_of is_writing xs + count_of is_writing ys)
        (count_of has_wrt xs + count_of has_wrt ys)
        (count_of is_counted xs + count_of is_counted ys)
        (count_of is_uncounted xs + count_of is_uncounted ys)
        (omega (arith, relation xs, relation ys)) (omega (arith, l, l')) m
        (
          rw (count-middle holds_mutex xs p ys) at k.mutex,
          rw (count-middle in_count xs p ys) at k.readers,
          rw (count-middle is_writing xs p ys, count-middle has_wrt xs p ys) at k.taken,
        ) in
    record {
      mutex = count-middle holds_mutex xs q ys ∙ e1;
      readers = count-middle in_count xs q ys ∙ e2;
      taken = rw (count-middle is_writing xs q ys, count-middle has_wrt xs q ys) e3;
    }

none_at : (f : Place → Bool) (n : ℕ) → f outside ≡ false → count_of f (replicate n outside) ≡ 0
none_at f zero h = refl
none_at f (suc n) h = rw h (none_at f n h)

pub Reach-Counted : {n : ℕ} {a : Access} {ps : List Place} → Reach n a ps → Counted a ps
Reach-Counted {n} start = record {
  mutex = none_at holds_mutex n refl;
  readers = none_at in_count n refl;
  taken = rw (none_at is_writing n refl, none_at has_wrt n refl) refl;
}
Reach-Counted (move before after r m) = Move-Counted before after m (Reach-Counted r)

-- Whatever the interleaving of the threads' steps, at most one thread is in the file between
-- `write_start` and `write_end`, and while one is, none is between `read_start` and `read_end`.
pub Reach-exclusive :
    {n : ℕ} {a : Access} {ps : List Place}
    → Reach n a ps
    → (count_of is_writing ps ≡ 0) ⊎ ((count_of is_writing ps ≡ 1) × (count_of is_reading ps ≡ 0))
Reach-exclusive {ps} r =
    let k = Reach-Counted r in
    let (_, _, l) = relation ps in
    elim (Bool-cases (count_of is_writing ps == 0)) [
      | inl none_writes ↦ inl (ground (arith, none_writes))
      | inr writes ↦ inr (ground (arith, k.taken, writes), ground (arith, k.taken, l, writes))
    ]
