-- ===== src/Board/Lines.antt =====
-- How a file of closed lines is read back, and what the loop of READ finds in it.
use bbserver.Base.{
  ℕ, ◌≡◌, refl, ◌⊎◌, inl, inr, Bool, true, false, none, some, List, [], ◌∷◌, ◌++◌, map,
  append_assoc, arith, take, take-append, All, Bytes, codes, bytes_eq, bytes_eq_refl, Lacks,
}
use bbserver.Text.{find}
use bbserver.Text.Search.{find-append}
use bbserver.Board.{Line, lines, read_line, read_msg, BbFile, open_in}

-- The bytes of closed lines.
abbrev pub unlines : List Bytes → Bytes
unlines [] = []
unlines (l ∷ ls) = l ++ (b'\n' ∷ unlines ls)

abbrev pub closed_line : Bytes → Line
closed_line s = record { text = s; closed = true }

-- getline reads a text without line ends as one line.
pub lines-cons : (l s : Bytes) → Lacks b'\n' l → lines (l ++ b'\n' ∷ s) ≡ closed_line l ∷ lines s
unfolding lines
lines-cons [] s h = refl
lines-cons (c ∷ l) s h = ground (arith, lines-cons l s h.1)

-- At the end of the file getline reads what is left.
pub lines_open :
    (c : ℕ) (l : Bytes)
    → Lacks b'\n' (c ∷ l)
    → lines (c ∷ l) ≡ record { text = c ∷ l; closed = false } ∷ []
unfolding lines
lines_open c [] h = ground arith
lines_open c (d ∷ l) h = ground (arith, lines_open d l h.1)

pub lines-unlines :
    (ls : List Bytes) (s : Bytes)
    → All (Lacks b'\n') ls
    → lines (unlines ls ++ s) ≡ map closed_line ls ++ lines s
lines-unlines [] s h = refl
lines-unlines (l ∷ ls) s h =
    rw append_assoc (rw (lines-cons l (unlines ls ++ s) h.0, lines-unlines ls s h.1))

pub unlines-append : (ls ks : List Bytes) → unlines (ls ++ ks) ≡ unlines ls ++ unlines ks
unlines-append [] ks = refl
unlines-append (l ∷ ls) ks = simp (unlines-append ls ks, append_assoc)

-- A line that READ passes over when it looks for `number`.
abbrev pub Skipped : Bytes → Bytes → Type 0
Skipped number l =
    (find b'/' l ≡ none) ⊎ ((p : ℕ) × (find b'/' l ≡ some p) × (bytes_eq number (take p l) ≡ false))

pub read_line-skip :
    (number : Bytes) (ls : List Bytes) (more : List Line)
    → All (Skipped number) ls
    → read_line number (map closed_line ls ++ more) ≡ read_line number more
unfolding read_line
read_line-skip number [] more h = refl
read_line-skip number (l ∷ ls) more (inl e, h) = rw e (read_line-skip number ls more h)
read_line-skip number (l ∷ ls) more (inr (p, e, d), h) = rw (e, d) (read_line-skip number ls more h)

pub read_line_found :
    (number text : Bytes) (c : Bool) (more : List Line)
    → Lacks b'/' number
    → read_line number (record { text = number ++ b'/' ∷ text; closed = c } ∷ more)
      ≡ some (number ++ b'/' ∷ text)
unfolding read_line
read_line_found number text c more h = rw (
  find-append b'/' number text h,
  read_line,
  take-append number (b'/' ∷ text),
  bytes_eq_refl number,
)

-- READ on a file that can be read: the first line that bears the number is returned whole, with
-- whatever bytes behind it. The lines before it are closed and have other numbers or no slash; the
-- number has no slash, and the line no line end.
pub read_msg_first :
    (f : BbFile) (pre : List Bytes) (number text s : Bytes)
    → open_in f ≡ some (unlines pre ++ ((number ++ b'/' ∷ text) ++ b'\n' ∷ s))
    → All (Lacks b'\n') pre
    → All (Skipped number) pre
    → Lacks b'/' number
    → Lacks b'\n' (number ++ b'/' ∷ text)
    → read_msg f number ≡ codes "2.0 MESSAGE " ++ (number ++ b'/' ∷ text)
unfolding read_msg
read_msg_first f pre number text s e closed skipped slash one = rw (
  e,
  lines-unlines pre ((number ++ b'/' ∷ text) ++ b'\n' ∷ s) closed,
  lines-cons (number ++ b'/' ∷ text) s one,
  read_line-skip number pre (closed_line (number ++ b'/' ∷ text) ∷ lines s) skipped,
  read_line_found number text true (lines s) slash,
)
