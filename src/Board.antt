-- ===== src/Board.antt =====
-- The bulletin board file, msg.cpp: `save_msg_write`, `save_msg_replace` and the loop of READ.
-- The file is its bytes; a stream opens or not by the file's existence and permissions.
-- `write_start` and `write_end` around the two are in Semaphore: each runs alone here.
pub mod Lines
pub mod Replace
pub mod Abstract
use bbserver.Base.{
  ℕ, zero, suc, ◌+◌, ◌-◌, ◌*◌, ◌/◌, ◌%◌, ◌^◌, ◌≤◌, ◌<◌, ◌≡◌, refl, sym, ap, ◌∙◌, ◌≢◌, ◌↔◌, ◌⊎◌, inl,
  inr, Bool, true, false, not, ◌&&◌, ◌||◌, Option, none, some, List, [], ◌∷◌, ◌++◌, map, append-nil,
  append_assoc, arith, ltb, leb, ◌==◌, if◌then◌else◌, ltb→lt, lt→ltb, ==_iff, ==_refl, Bool-cases,
  Option-cases, length, get_elem?, take, drop, replicate, any_of, all_of, count_of, first_of_list,
  length-append, take-append, drop-append, length-replicate, All, Bytes, codes, bytes_eq,
  bytes_eq_refl, bytes_eq→eq, Lacks, Lacks-append, Fault, out_of_range, invalid_argument, undefined,
  spinning, Result, ok, err, ◌>>=◌, deref, ℤ, pos, negsuc, int_max, eq_ℤ, is_neg, is_pos, eq_ℤ_iff,
  eq_ℤ_refl,
}
use bbserver.Text.{find, before_slash}

pub record BbFile : Type 0 where
  -- `none`: there is no such file
  pub content : Option Bytes
  pub readable : Bool
  pub writable : Bool
  -- the directory lets a file be made
  pub creatable : Bool

-- open(path, ios::in)
abbrev pub open_in : BbFile → Option Bytes
open_in f = if f.readable then f.content else none

-- open(path, ios::app): a missing file is made
abbrev pub open_app : BbFile → Option Bytes
open_app f = elim f.content [
  | none ↦ if f.creatable then some [] else none
  | some s ↦ if f.writable then some s else none
]

-- open(path, ios::in | ios::out)
abbrev pub open_in_out : BbFile → Option Bytes
open_in_out f = if f.readable && f.writable then f.content else none

abbrev pub endl : Bytes
endl = b'\n' ∷ []

-- A line that getline reads, and whether a line end closes it: at the end of the file it may not.
pub record Line : Type 0 where
  pub text : Bytes
  pub closed : Bool

abbrev pub push_front : ℕ → List Line → List Line
push_front c [] = record { text = c ∷ []; closed = false } ∷ []
push_front c (l ∷ ls) = record l { text = c ∷ l.text } ∷ ls

-- What successive calls of getline read.
unfoldable pub lines : Bytes → List Line
lines [] = []
lines (c ∷ s) =
    if c == b'\n' then record { text = []; closed = true } ∷ lines s else push_front c (lines s)

-- The line that the loop of READ stops at: the first whose number is `number`.
pub read_line : Bytes → List Line → Option Bytes
read_line number [] = none
read_line number (l ∷ ls) = elim (find b'/' l.text) [
  | none ↦ read_line number ls
  | some p ↦ if bytes_eq number (take p l.text) then some l.text else read_line number ls
]

-- What READ answers when its loop has come to an end.
abbrev pub found : Bytes → Option Bytes → Bytes
found number none = codes "2.1 UNKNOWN " ++ number
found number (some line) = codes "2.0 MESSAGE " ++ line

-- READ once the file is open, or not.
abbrev pub read_from : Bytes → Option Bytes → Bytes
read_from number none = codes "2.2 ERROR READ"
read_from number (some s) = found number (read_line number (lines s))

-- READ: opens the file and looks for the number.
unfoldable pub read_msg : BbFile → Bytes → Bytes
read_msg f number = read_from number (open_in f)

-- The message and a line end at the end of the open file.
abbrev pub appended : BbFile → Bytes → Option Bytes → BbFile × ℤ
appended f msg none = (f, negsuc 0)
appended f msg (some s) = (record f { content = some (s ++ (msg ++ endl)) }, pos 0)

-- `save_msg_write`, with the value that it returns
unfoldable pub save_msg_write : BbFile → Bytes → BbFile × ℤ
save_msg_write f msg = appended f msg (open_app f)

-- The bytes `w` written over `s` from position `p` on.
abbrev pub overwrite : ℕ → Bytes → Bytes → Bytes
overwrite p w s = take p s ++ (w ++ drop (p + length w) s)

-- The message, and blanks up to the length of the line that it replaces.
abbrev pub padded : Bytes → Bytes → Bytes
padded msg line = msg ++ replicate (length line - length msg) b' '

-- The loop of `save_msg_replace`, at the position where the next line begins. When getline has
-- come to the end of the file within the line, tellg returns -1 and the stream has failed: the
-- seek and the writes do nothing, and the result is 0 as before.
pub replace_lines : Bytes → Bytes → ℕ → List Line → Bytes → Bytes × ℤ
replace_lines number msg start [] s = (s, negsuc 0)
replace_lines number msg start (l ∷ ls) s =
    let rest = replace_lines number msg (start + length l.text + 1) ls s in
    if bytes_eq number (before_slash l.text)
    then (if l.closed then overwrite start (padded msg l.text) s else s, pos 0)
    else rest

-- The file and the result once it is open, or not.
abbrev pub replaced_in : BbFile → Bytes → Option Bytes → BbFile × ℤ
replaced_in f msg none = (f, negsuc 1)
replaced_in f msg (some s) =
    let r = replace_lines (before_slash msg) msg 0 (lines s) s in
    (record f { content = some r.0 }, r.1)

-- `save_msg_replace`: 0 success, -1 no such number, -2 the file does not open
unfoldable pub save_msg_replace : BbFile → Bytes → BbFile × ℤ
save_msg_replace f msg = replaced_in f msg (open_in_out f)
