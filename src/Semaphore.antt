-- ===== src/Semaphore.antt =====
-- semaphore.cpp: the access of the threads to the bulletin board file, as steps of any number of
-- threads.
pub mod Exclusion
pub mod Progress
use bbserver.Base.{
  ℕ, zero, suc, ◌+◌, ◌-◌, ◌*◌, ◌/◌, ◌%◌, ◌^◌, ◌≤◌, ◌<◌, ◌≡◌, refl, sym, ap, ◌∙◌, ◌≢◌, ◌↔◌, ◌⊎◌, inl,
  inr, Bool, true, false, not, ◌&&◌, ◌||◌, Option, none, some, List, [], ◌∷◌, ◌++◌, map, append-nil,
  append_assoc, arith, ltb, leb, ◌==◌, if◌then◌else◌, ltb→lt, lt→ltb, ==_iff, ==_refl, Bool-cases,
  Option-cases, length, get_elem?, take, drop, replicate, any_of, all_of, count_of, first_of_list,
  length-append, take-append, drop-append, length-replicate, All, Bytes, codes, bytes_eq,
  bytes_eq_refl, bytes_eq→eq, Lacks, Lacks-append, Fault, out_of_range, invalid_argument, undefined,
  spinning, exited, Result, ok, err, ◌>>=◌, deref, ℤ, pos, negsuc, int_max, eq_ℤ, is_neg, is_pos,
  eq_ℤ_iff, eq_ℤ_refl,
}

-- `readerMutex` (locked or not), `readerCnt` and the value of `wrt`.
pub record Access : Type 0 where
  pub locked : Bool
  pub reader_cnt : ℕ
  pub wrt : ℕ

-- Where a thread is. In `read_start` it waits for the mutex (`to_lock`), holds it (`to_count`), has
-- counted itself (`counted`) and has passed `wrt` (`admitted`); in `read_end` it waits for the
-- mutex (`to_relock`), holds it (`to_uncount`), has taken itself off (`uncounted`) and has passed
-- the test (`released`). It waits in `write_start` at `to_write`. It is in the file at `reading`
-- and `writing`.
pub data Place : Type 0 where
  outside : Place
  to_lock to_count counted admitted reading : Place
  to_relock to_uncount uncounted released : Place
  to_write writing : Place

-- `init_bbfile_access_semahpores`
abbrev pub init_access : Access
init_access = record { locked = false; reader_cnt = 0; wrt = 1 }

-- One step of a thread. A wait has no step while the mutex is locked or `wrt` is 0.
pub data Move : Access → Place → Access → Place → Type 0 where
  call_read : {a : Access} → Move a outside a to_lock
  lock :
      {r v : ℕ}
      → Move
          (record { locked = false; reader_cnt = r; wrt = v })
          to_lock
          (record { locked = true; reader_cnt = r; wrt = v })
          to_count
  count :
      {b : Bool} {r v : ℕ}
      → Move
          (record { locked = b; reader_cnt = r; wrt = v })
          to_count
          (record { locked = b; reader_cnt = r + 1; wrt = v })
          counted
  wait_first :
      {b : Bool} {v : ℕ}
      → Move
          (record { locked = b; reader_cnt = 1; wrt = suc v })
          counted
          (record { locked = b; reader_cnt = 1; wrt = v })
          admitted
  pass : {a : Access} → a.reader_cnt ≢ 1 → Move a counted a admitted
  unlock :
      {b : Bool} {r v : ℕ}
      → Move
          (record { locked = b; reader_cnt = r; wrt = v })
          admitted
          (record { locked = false; reader_cnt = r; wrt = v })
          reading
  call_read_end : {a : Access} → Move a reading a to_relock
  relock :
      {r v : ℕ}
      → Move
          (record { locked = false; reader_cnt = r; wrt = v })
          to_relock
          (record { locked = true; reader_cnt = r; wrt = v })
          to_uncount
  uncount :
      {b : Bool} {r v : ℕ}
      → Move
          (record { locked = b; reader_cnt = suc r; wrt = v })
          to_uncount
          (record { locked = b; reader_cnt = r; wrt = v })
          uncounted
  post_last :
      {b : Bool} {v : ℕ}
      → Move
          (record { locked = b; reader_cnt = 0; wrt = v })
          uncounted
          (record { locked = b; reader_cnt = 0; wrt = v + 1 })
          released
  leave : {a : Access} → a.reader_cnt ≢ 0 → Move a uncounted a released
  unlock_end :
      {b : Bool} {r v : ℕ}
      → Move
          (record { locked = b; reader_cnt = r; wrt = v })
          released
          (record { locked = false; reader_cnt = r; wrt = v })
          outside
  call_write : {a : Access} → Move a outside a to_write
  wait_write :
      {b : Bool} {r v : ℕ}
      → Move
          (record { locked = b; reader_cnt = r; wrt = suc v })
          to_write
          (record { locked = b; reader_cnt = r; wrt = v })
          writing
  post_write :
      {b : Bool} {r v : ℕ}
      → Move
          (record { locked = b; reader_cnt = r; wrt = v })
          writing
          (record { locked = b; reader_cnt = r; wrt = v + 1 })
          outside

-- The states that `n` threads reach, whichever of them moves next.
pub data Reach (n : ℕ) : Access → List Place → Type 0 where
  start : Reach n init_access (replicate n outside)
  move :
      {a b : Access} {p q : Place} (before after : List Place)
      → Reach n a (before ++ p ∷ after)
      → Move a p b q
      → Reach n b (before ++ q ∷ after)
