-- ===== src/Board/Abstract.antt =====
-- The board as a list of messages, and the file that holds it: READ and WRITE.
pub mod Put
use bbserver.Base.{
  Each, bind-Each, bind_any, weaken, if-Each, branch-Each, if-any, ℕ, zero, suc, ◌+◌, ◌-◌, ◌*◌, ◌/◌,
  ◌%◌, ◌^◌, ◌≤◌, ◌<◌, ◌≡◌, refl, sym, ap, ◌∙◌, ◌≢◌, ◌↔◌, ◌⊎◌, inl, inr, Bool, true, false, not,
  ◌&&◌, ◌||◌, Option, none, some, List, [], ◌∷◌, ◌++◌, map, append-nil, append_assoc, arith, ltb,
  leb, ◌==◌, if◌then◌else◌, ltb→lt, lt→ltb, ==_iff, ==_refl, Bool-cases, Option-cases, length,
  get_elem?, take, drop, replicate, any_of, all_of, count_of, first_of_list, length-append,
  take-append, drop-append, length-replicate, All, Bytes, codes, bytes_eq, bytes_eq_refl,
  bytes_eq→eq, Lacks, Lacks-append, Fault, out_of_range, invalid_argument, undefined, spinning,
  blocked, exited, Result, ok, err, ◌>>=◌, deref, ℤ, pos, negsuc, int_max, eq_ℤ, is_neg, is_pos,
  eq_ℤ_iff, eq_ℤ_refl,
}
use mathlib.Core.Path.{subst}
use bbserver.Text.{find, before_slash}
use bbserver.Text.Search.{find-append, before_slash-append}
use bbserver.Board.{
  BbFile, Line, lines, open_in, open_app, open_in_out, endl, found, read_line, read_msg,
  save_msg_write, save_msg_replace, padded,
}
use bbserver.Board.Lines.{unlines, closed_line, lines-unlines, unlines-append}
use bbserver.Board.Replace.{Other, save_msg_replace_fits, save_msg_replace_unknown}

-- A message under its number, in a line that has room for so many bytes.
pub record Entry : Type 0 where
  pub number : Bytes
  pub text : Bytes
  pub room : ℕ

abbrev pub message : Bytes → Bytes → Bytes
message number text = number ++ b'/' ∷ text

-- The line: the message, and blanks up to its room.
abbrev pub line_of : Entry → Bytes
line_of e =
    e.number ++ b'/' ∷ (e.text ++ replicate (e.room - length (message e.number e.text)) b' ')

abbrev pub board_text : List Entry → Bytes
board_text b = unlines (map line_of b)

-- The first message of the number.
abbrev pub lookup : Bytes → List Entry → Option Entry
lookup number b = first_of_list (λ (e : Entry). bytes_eq number e.number) b

-- Another text for the first message of the number; the room stays.
abbrev pub put : Bytes → Bytes → List Entry → List Entry
put number text [] = []
put number text (e ∷ b) =
    if bytes_eq number e.number then record e { text = text } ∷ b else e ∷ put number text b

-- A message that a line can hold.
pub record IsEntry (e : Entry) : Type 0 where
  pub slash : Lacks b'/' e.number
  pub number : Lacks b'\n' e.number
  pub text : Lacks b'\n' e.text
  pub fits : length (message e.number e.text) ≤ e.room

Lacks-replicate : (c d n : ℕ) → (d == c) ≡ false → Lacks c (replicate n d)
Lacks-replicate c d zero h = tt
Lacks-replicate c d (suc n) h = ground (arith, Lacks-replicate c d n h)

pub line_of-Lacks : (e : Entry) → IsEntry e → Lacks b'\n' (line_of e)
line_of-Lacks e h =
    let blanks : Bytes = replicate (e.room - length (message e.number e.text)) b' ' in
    Lacks-append b'\n' e.number (b'/' ∷ (e.text ++ blanks)) h.number
      (omega arith, Lacks-append b'\n' e.text blanks h.text (Lacks-replicate b'\n' b' ' _ refl))

pub All-line_of : (b : List Entry) → All IsEntry b → All (Lacks b'\n') (map line_of b)
All-line_of [] h = tt
All-line_of (e ∷ b) h = (line_of-Lacks e h.0, All-line_of b h.1)

-- What READ stops at.
abbrev shown : Option Entry → Option Bytes
shown none = none
shown (some e) = some (line_of e)

read_line-lookup :
    (number : Bytes) (b : List Entry)
    → All IsEntry b
    → read_line number (map closed_line (map line_of b)) ≡ shown (lookup number b)
unfolding read_line
read_line-lookup number [] h = refl
read_line-lookup number (e ∷ b) h =
    let rest = e.text ++ replicate (e.room - length (message e.number e.text)) b' ' in
    let found = find-append b'/' e.number rest h.0.slash in
    let front = take-append e.number (b'/' ∷ rest) in
    elim (Bool-cases (bytes_eq number e.number)) [
      | inl t ↦ rw (found, read_line) (rw (front, t) refl)
      | inr t ↦ rw (found, read_line) (rw (front, t) (read_line-lookup number b h.1))
    ]

pub lines-board_text :
    (b : List Entry) → All IsEntry b → lines (board_text b) ≡ map closed_line (map line_of b)
unfolding lines
lines-board_text b h =
    ap lines (sym (append-nil (board_text b)))
    ∙ lines-unlines (map line_of b) [] (All-line_of b h)
    ∙ append-nil (map closed_line (map line_of b))

-- What READ answers for what the list has.
abbrev pub read_answer : Bytes → Option Entry → Bytes
read_answer number none = codes "2.1 UNKNOWN " ++ number
read_answer number (some e) = codes "2.0 MESSAGE " ++ line_of e

found-shown : (number : Bytes) (o : Option Entry) → found number (shown o) ≡ read_answer number o
found-shown number none = refl
found-shown number (some e) = refl

-- READ finds what the list has.
pub read_msg-lookup :
    (f : BbFile) (b : List Entry) (number : Bytes)
    → open_in f ≡ some (board_text b)
    → All IsEntry b
    → read_msg f number ≡ read_answer number (lookup number b)
unfolding read_msg
read_msg-lookup f b number e h = rw e (
    ap (λ ls. found number (read_line number ls)) (lines-board_text b h)
    ∙ ap (found number) (read_line-lookup number b h)
    ∙ found-shown number (lookup number b))

-- A message that is written stands in a line of its own size, behind the others.
abbrev pub fresh_entry : Bytes → Bytes → Entry
fresh_entry number text = record {
  number = number;
  text = text;
  room = length (message number text);
}

line_of-fresh : (number text : Bytes) → line_of (fresh_entry number text) ≡ message number text
line_of-fresh number text =
    let none_left : length (message number text) - length (message number text) ≡ 0 = omega arith in
    rw none_left (rw (append-nil text) refl)

pub board_text-append : (b c : List Entry) → board_text (b ++ c) ≡ board_text b ++ board_text c
board_text-append [] c = refl
board_text-append (e ∷ b) c = simp (board_text-append b c, append_assoc)

pub board_text-fresh :
    (b : List Entry) (number text : Bytes)
    → board_text b ++ (message number text ++ endl) ≡ board_text (b ++ fresh_entry number text ∷ [])
board_text-fresh b number text =
    ap (λ l. board_text b ++ (l ++ endl)) (sym (line_of-fresh number text))
    ∙ sym (board_text-append b (fresh_entry number text ∷ []))
