-- ===== src/MsgNumber.antt =====
-- config.cpp, the message numbers: allocation, update by a slave, and recovery from the file.
pub mod Alloc
pub mod Recovery
use bbserver.Base.{
  ℕ, zero, suc, ◌+◌, ◌-◌, ◌*◌, ◌/◌, ◌%◌, ◌^◌, ◌≤◌, ◌<◌, ◌≡◌, refl, sym, ap, ◌∙◌, ◌≢◌, ◌↔◌, ◌⊎◌, inl,
  inr, Bool, true, false, not, ◌&&◌, ◌||◌, Option, none, some, List, [], ◌∷◌, ◌++◌, map, append-nil,
  append_assoc, arith, ltb, leb, ◌==◌, if◌then◌else◌, ltb→lt, lt→ltb, ==_iff, ==_refl, Bool-cases,
  Option-cases, length, get_elem?, take, drop, replicate, any_of, all_of, count_of, first_of_list,
  length-append, take-append, drop-append, length-replicate, All, Bytes, codes, bytes_eq,
  bytes_eq_refl, bytes_eq→eq, Lacks, Lacks-append, Fault, out_of_range, invalid_argument, undefined,
  spinning, exited, Result, ok, err, ◌>>=◌, deref, ℤ, pos, negsuc, int_max, eq_ℤ, is_neg, is_pos,
  eq_ℤ_iff, eq_ℤ_refl,
}
use bbserver.Text.{stoi, to_string, before_slash}
use bbserver.Board.{BbFile, open_in}
use bbserver.World.{World}

-- `msgNumber++`; past INT_MAX it is undefined
abbrev pub int_suc : ℤ → Result ℤ
int_suc (pos n) = if n == int_max then err undefined else ok (pos (n + 1))
int_suc (negsuc zero) = ok (pos 0)
int_suc (negsuc (suc n)) = ok (negsuc n)

-- `if(msgNumber == INT_MAX) msgNumber = 1`
abbrev pub wrap_number : ℤ → ℤ
wrap_number n = if eq_ℤ n (pos int_max) then pos 1 else n

unfoldable pub alloc_new_msg_number : World → Result (World × Bytes)
alloc_new_msg_number w = do
  n ← int_suc w.msg_number
  ok (record w { msg_number = wrap_number n }, to_string (wrap_number n))

-- `update_msg_number`, with the value that it returns
unfoldable pub update_msg_number : World → Bytes → Result (World × ℤ)
update_msg_number w s = do
  n ← stoi s
  if is_pos n then ok (record w { msg_number = wrap_number n }, pos 0) else ok (w, negsuc 0)

-- The loop of `get_last_line`, at the byte of position `p`: where the last line begins.
abbrev pub last_start : Bytes → ℕ → ℕ
last_start s zero = 0
last_start s (suc p) =
    let back = last_start s p in
    elim (get_elem? s (suc p)) [ none ↦ back | some c ↦ if c == b'\n' then suc (suc p) else back ]

-- getline
abbrev pub first_line : Bytes → Bytes
first_line [] = []
first_line (c ∷ s) = if c == b'\n' then [] else c ∷ first_line s

-- `seekg(-2, end)` fails in a file of less than two bytes, and then nothing is read.
unfoldable pub last_line_of : Bytes → Bytes
last_line_of s = if ltb (length s) 2 then [] else first_line (drop (last_start s (length s - 2)) s)

-- `get_last_line`
unfoldable pub get_last_line : BbFile → Bytes
unfolding last_line_of
get_last_line f = elim (open_in f) [ none ↦ [] | some s ↦ last_line_of s ]

-- `load_msg_number` behind the read of the number
abbrev pub load_number : World → Bytes → Result (World × ℤ)
load_number w [] = ok (w, negsuc 0)
load_number w (c ∷ s) = do n ← stoi (c ∷ s); ok (record w { msg_number = n }, pos 0)

unfoldable pub load_msg_number : World → Result (World × ℤ)
unfolding get_last_line
load_msg_number w = load_number w (before_slash (get_last_line w.file))
