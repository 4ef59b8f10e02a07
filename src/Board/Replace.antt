-- ===== src/Board/Replace.antt =====
-- What REPLACE does to the bytes of the file.
use bbserver.Base.{
  ℕ, suc, ◌+◌, ◌-◌, ◌≤◌, ◌<◌, ◌≡◌, refl, ap, ◌∙◌, inl, inr, Bool-cases, any_of, if◌then◌else◌, true,
  false, none, some, List, [], ◌∷◌, ◌++◌, map, append-nil, arith, length, drop, replicate,
  length-append, take-append, drop-append, length-replicate, All, Bytes, bytes_eq, Lacks, pos,
  negsuc,
}
use bbserver.Text.{before_slash}
use bbserver.Board.{
  BbFile, Line, lines, open_in_out, overwrite, padded, replace_lines, save_msg_replace,
}
use bbserver.Board.Lines.{unlines, closed_line, lines-cons, lines-unlines, lines_open}

-- A line with another number.
abbrev pub Other : Bytes → Bytes → Type 0
Other number l = bytes_eq number (before_slash l) ≡ false

replace_lines_hit :
    (number msg : Bytes) (start : ℕ) (pre : List Bytes) (old : Bytes) (more : List Line) (s : Bytes)
    → All (Other number) pre
    → bytes_eq number (before_slash old) ≡ true
    → replace_lines number msg start (map closed_line pre ++ closed_line old ∷ more) s
      ≡ (overwrite (start + length (unlines pre)) (padded msg old) s, pos 0)
unfolding replace_lines
replace_lines_hit number msg start [] old more s h e =
    rw e (ap (λ p. (overwrite p (padded msg old) s, pos 0)) (omega arith))
replace_lines_hit number msg start (l ∷ pre) old more s h e = rw h.0 (
    replace_lines_hit number msg (start + length l + 1) pre old more s h.1 e
    ∙ ap (λ p. (overwrite p (padded msg old) s, pos 0))
        (omega (arith, length-append l (b'\n' ∷ unlines pre))))

pub drop_plus : (a b : Bytes) (n : ℕ) → drop (length a + n) (a ++ b) ≡ drop n b
drop_plus [] b n = ap (λ k. drop k b) (let e : 0 + n ≡ n = omega arith in e)
drop_plus (x ∷ a) b n =
    ap (λ k. drop k (x ∷ (a ++ b)))
      (let e : suc (length a) + n ≡ suc (length a + n) = omega arith in e)
    ∙ drop_plus a b n

overwrite-append : (a w b : Bytes) → overwrite (length a) w (a ++ b) ≡ a ++ (w ++ drop (length w) b)
overwrite-append a w b = rw (take-append a b, drop_plus a b (length w))

abbrev pub replaced : List Bytes → Bytes → Bytes → Bytes → Bytes
replaced pre old msg rest =
    unlines pre ++ (padded msg old ++ drop (length (padded msg old)) (old ++ b'\n' ∷ rest))

-- A file of closed lines `pre`, then the line `old`, then any bytes `rest`.
module _ (f : BbFile) (pre : List Bytes) (old rest msg : Bytes) where
  save_msg_replace_hit :
      open_in_out f ≡ some (unlines pre ++ (old ++ b'\n' ∷ rest))
      → All (Lacks b'\n') pre
      → Lacks b'\n' old
      → All (Other (before_slash msg)) pre
      → bytes_eq (before_slash msg) (before_slash old) ≡ true
      → save_msg_replace f msg ≡ (record f { content = some (replaced pre old msg rest) }, pos 0)
  unfolding save_msg_replace
  save_msg_replace_hit e closed one others same =
      rw
        (
          e,
          lines-unlines pre (old ++ b'\n' ∷ rest) closed,
          lines-cons old rest one,
          replace_lines_hit (before_slash msg) msg 0 pre old (lines rest)
              (unlines pre ++ (old ++ b'\n' ∷ rest)) others same,
        )
        (ap (λ b. (record f { content = some b }, pos 0))
          (ap (λ k. overwrite k (padded msg old) (unlines pre ++ (old ++ b'\n' ∷ rest))) zero_plus
            ∙ overwrite-append (unlines pre) (padded msg old) (old ++ b'\n' ∷ rest)))
    where
      zero_plus : 0 + length (unlines pre) ≡ length (unlines pre)
      zero_plus = omega arith

length-padded : (msg old : Bytes) → length msg ≤ length old → length (padded msg old) ≡ length old
length-padded msg old h = omega (
  arith,
  length-append msg (replicate (length old - length msg) b' '),
  length-replicate {A = ℕ} (length old - length msg) b' ',
)

padded_longer : (msg old : Bytes) → length old < length msg → padded msg old ≡ msg
padded_longer msg old h =
    ap (λ k. msg ++ replicate k b' ') (let e : length old - length msg ≡ 0 = omega arith in e)
    ∙ append-nil msg

module _ (f : BbFile) (pre : List Bytes) (old rest msg : Bytes) where
  -- REPLACE by a message that is no longer than the line it replaces, in a file that can be read
  -- and written: the first line with the number of the message becomes the message, filled up with
  -- blanks, and every other byte of the file stays. The line is closed, the lines before it are
  -- closed and have other numbers, and what follows is any bytes.
  pub save_msg_replace_fits :
      open_in_out f ≡ some (unlines pre ++ (old ++ b'\n' ∷ rest))
      → All (Lacks b'\n') pre
      → Lacks b'\n' old
      → All (Other (before_slash msg)) pre
      → bytes_eq (before_slash msg) (before_slash old) ≡ true
      → length msg ≤ length old
      → save_msg_replace f msg
        ≡ (record f { content = some (unlines pre ++ (padded msg old ++ b'\n' ∷ rest)) }, pos 0)
  save_msg_replace_fits e closed one others same fits =
      save_msg_replace_hit f pre old rest msg e closed one others same
      ∙ ap (λ b. (record f { content = some (unlines pre ++ (padded msg old ++ b)) }, pos 0))
          (rw (length-padded msg old fits) (drop-append old (b'\n' ∷ rest)))

  -- REPLACE by a message that is longer than the line it replaces, in a file that can be read and
  -- written, still returns 0, but the message runs over the line end of that line and over the
  -- first bytes of what follows: those are lost, and the message has no line end behind it. The
  -- line is closed, and the lines before it are closed and have other numbers.
  pub save_msg_replace_overruns :
      open_in_out f ≡ some (unlines pre ++ (old ++ b'\n' ∷ rest))
      → All (Lacks b'\n') pre
      → Lacks b'\n' old
      → All (Other (before_slash msg)) pre
      → bytes_eq (before_slash msg) (before_slash old) ≡ true
      → length old < length msg
      → save_msg_replace f msg ≡ (
        record f {
          content = some (unlines pre ++ (msg ++ drop (length msg - (length old + 1)) rest));
        },
        pos 0,
      )
  save_msg_replace_overruns e closed one others same long =
      save_msg_replace_hit f pre old rest msg e closed one others same
      ∙ ap (λ b. (record f { content = some (unlines pre ++ b) }, pos 0))
          (ap (λ p. p ++ drop (length p) (old ++ b'\n' ∷ rest)) (padded_longer msg old long)
            ∙ ap (◌++◌ msg) (
                ap (λ k. drop k (old ++ b'\n' ∷ rest)) split
                ∙ drop_plus old (b'\n' ∷ rest) (suc (length msg - (length old + 1)))))
    where
      split : length msg ≡ length old + suc (length msg - (length old + 1))
      split = omega arith

replace_lines_miss :
    (number msg : Bytes) (start : ℕ) (ls : List Line) (s : Bytes)
    → All (λ (l : Line). Other number l.text) ls
    → replace_lines number msg start ls s ≡ (s, negsuc 0)
unfolding replace_lines
replace_lines_miss number msg start [] s h = refl
replace_lines_miss number msg start (l ∷ ls) s h =
    rw h.0 (replace_lines_miss number msg (start + length l.text + 1) ls s h.1)

-- In a file that can be read and written, REPLACE with a number that no line has returns -1 and
-- leaves the file as it is.
pub save_msg_replace_unknown :
    (f : BbFile) (s msg : Bytes)
    → open_in_out f ≡ some s
    → All (λ (l : Line). Other (before_slash msg) l.text) (lines s)
    → save_msg_replace f msg ≡ (record f { content = some s }, negsuc 0)
unfolding save_msg_replace
save_msg_replace_unknown f s msg e h =
    rw (e, replace_lines_miss (before_slash msg) msg 0 (lines s) s h)

replace_lines-any_of :
    (number msg : Bytes) (start : ℕ) (ls : List Line) (s : Bytes)
    → (replace_lines number msg start ls s).1 ≡ (
        if any_of (λ (l : Line). bytes_eq number (before_slash l.text)) ls then pos 0 else negsuc 0)
unfolding replace_lines
replace_lines-any_of number msg start [] s = refl
replace_lines-any_of number msg start (l ∷ ls) s =
    elim (Bool-cases (bytes_eq number (before_slash l.text))) [
      | inl e ↦ rw e refl
      | inr e ↦ rw e (replace_lines-any_of number msg (start + length l.text + 1) ls s)
    ]

-- What `save_msg_replace` returns for a file that opens: 0 if a line has the number, else -1.
pub save_msg_replace-any_of :
    (f : BbFile) (s msg : Bytes)
    → open_in_out f ≡ some s
    → (save_msg_replace f msg).1 ≡ (
        if any_of (λ (l : Line). bytes_eq (before_slash msg) (before_slash l.text)) (lines s)
        then pos 0
        else negsuc 0)
unfolding save_msg_replace
save_msg_replace-any_of f s msg e = rw e (replace_lines-any_of (before_slash msg) msg 0 (lines s) s)

-- It returns -2 for a file that does not open.
pub save_msg_replace_shut :
    (f : BbFile) (msg : Bytes) → open_in_out f ≡ none → (save_msg_replace f msg).1 ≡ negsuc 1
unfolding save_msg_replace
save_msg_replace_shut f msg e = rw e refl

replace_lines_open :
    (number msg : Bytes) (start : ℕ) (pre : List Bytes) (old : Bytes) (s : Bytes)
    → All (Other number) pre
    → bytes_eq number (before_slash old) ≡ true
    → replace_lines number msg start
        (map closed_line pre ++ record { text = old; closed = false } ∷ [])
        s
      ≡ (s, pos 0)
unfolding replace_lines
replace_lines_open number msg start [] old s h e = rw e
replace_lines_open number msg start (l ∷ pre) old s h e =
    rw h.0 (replace_lines_open number msg (start + length l + 1) pre old s h.1 e)

-- In a file that can be read and written, a last line that no line end closes cannot be replaced:
-- when the number of the message is there and not in the lines before, which are closed,
-- `save_msg_replace` returns 0, success, and the file is what it was.
pub save_msg_replace_open_end :
    (f : BbFile) (pre : List Bytes) (c : ℕ) (old msg : Bytes)
    → open_in_out f ≡ some (unlines pre ++ (c ∷ old))
    → All (Lacks b'\n') pre
    → Lacks b'\n' (c ∷ old)
    → All (Other (before_slash msg)) pre
    → bytes_eq (before_slash msg) (before_slash (c ∷ old)) ≡ true
    → save_msg_replace f msg ≡ (record f { content = some (unlines pre ++ (c ∷ old)) }, pos 0)
unfolding save_msg_replace
save_msg_replace_open_end f pre c old msg e closed one others same = rw (
  e,
  lines-unlines pre (c ∷ old) closed,
  lines_open c old one,
  replace_lines_open (before_slash msg) msg 0 pre (c ∷ old) (unlines pre ++ (c ∷ old)) others same,
)
