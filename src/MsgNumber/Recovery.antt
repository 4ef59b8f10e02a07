-- ===== src/MsgNumber/Recovery.antt =====
-- The counter after a restart.
use bbserver.Base.{
  ℕ, zero, suc, ◌+◌, ◌-◌, ◌≤◌, ◌<◌, ◌≡◌, refl, ap, ◌∙◌, ◌⊎◌, inl, inr, true, false, some, [], ◌∷◌,
  ◌++◌, append_assoc, arith, ltb, ◌==◌, if◌then◌else◌, length, get_elem?, drop, length-append,
  Bytes, Lacks, Lacks-append, ok, pos, int_max,
}
use bbserver.Text.{stoi, to_string}
use bbserver.Text.Search.{before_slash-append}
use bbserver.Text.Decimal.{to_string-Lacks, to_string-cons}
use bbserver.Board.{open_app, endl, save_msg_write}
use bbserver.Board.Replace.{drop_plus}
use bbserver.World.{World}
use bbserver.MsgNumber.{last_start, first_line, last_line_of, load_number, load_msg_number}
use bbserver.MsgNumber.Alloc.{stoi_whole}

le→ltb : (a b : ℕ) → b ≤ a → ltb a b ≡ false
le→ltb a b h = ground arith

get_elem?_shift : (a b : Bytes) (i p : ℕ) → p ≡ length a + i → get_elem? (a ++ b) p ≡ get_elem? b i
get_elem?_shift [] b i p e = ap (get_elem? b) (omega arith)
get_elem?_shift (x ∷ a) b i zero e = absurd (omega arith)
get_elem?_shift (x ∷ a) b i (suc p) e = get_elem?_shift a b i p (omega arith)

get_elem?-Lacks :
    (l b : Bytes) (i : ℕ)
    → Lacks b'\n' l
    → i < length l
    → (c : ℕ) × (get_elem? (l ++ b) i ≡ some c) × ((c == b'\n') ≡ false)
get_elem?-Lacks [] b i h lt = absurd (omega arith)
get_elem?-Lacks (x ∷ l) b zero h lt = (x, refl, ground arith)
get_elem?-Lacks (x ∷ l) b (suc i) h lt = get_elem?-Lacks l b i h.1 (omega arith)

first_line-append : (l s : Bytes) → Lacks b'\n' l → first_line (l ++ b'\n' ∷ s) ≡ l
first_line-append [] s h = refl
first_line-append (c ∷ l) s h = ground (arith, first_line-append l s h.1)

last_start_step :
    (s : Bytes) (p c : ℕ)
    → get_elem? s (suc p) ≡ some c
    → last_start s (suc p) ≡ (if c == b'\n' then suc (suc p) else last_start s p)
last_start_step s p c e = ground arith

-- From within a line the loop goes back to the byte behind the line end in front of it.
last_start-back :
    (a l b : Bytes) (p i : ℕ)
    → Lacks b'\n' l
    → suc p ≡ length a + i
    → i ≤ length l
    → 0 < length a
    → last_start (a ++ b'\n' ∷ (l ++ b)) (suc p) ≡ length a + 1
last_start-back a l b p zero h e lt q =
    last_start_step (a ++ b'\n' ∷ (l ++ b)) p b'\n'
      (get_elem?_shift a (b'\n' ∷ (l ++ b)) 0 (suc p) e)
    ∙ let r : suc (suc p) ≡ length a + 1 = omega arith in r
last_start-back a l b zero (suc i) h e lt q = absurd (omega arith)
last_start-back a l b (suc p) (suc i) h e lt q =
    let (c, f, d) = get_elem?-Lacks l b i h lt in
    last_start_step (a ++ b'\n' ∷ (l ++ b)) (suc p) c
      (get_elem?_shift a (b'\n' ∷ (l ++ b)) (suc i) (suc (suc p)) e ∙ f)
    ∙ rw d (last_start-back a l b p i h (omega arith) (omega arith) q)

-- In a file whose only line end is its last byte the loop goes back to the start.
last_start-first : (l b : Bytes) (p : ℕ) → Lacks b'\n' l → p < length l → last_start (l ++ b) p ≡ 0
last_start-first l b zero h lt = refl
last_start-first l b (suc p) h lt =
    let (c, f, d) = get_elem?-Lacks l b (suc p) h lt in
    last_start_step (l ++ b) p c f ∙ rw d (last_start-first l b p h (omega arith))

-- A record with its number, as the file has it.
abbrev pub record_line : ℕ → Bytes → Bytes
record_line n body = to_string (pos n) ++ b'/' ∷ body

last_line_at :
    (s : Bytes) (p : ℕ)
    → length s ≡ suc (suc p)
    → last_line_of s ≡ first_line (drop (last_start s p) s)
unfolding last_line_of
last_line_at s p e =
    rw (le→ltb (length s) 2 (omega arith))
      (ap (λ k. first_line (drop (last_start s k) s)) (let r : length s - 2 ≡ p = omega arith in r))

last_line_of-first :
    (c : ℕ) (l : Bytes) → Lacks b'\n' (c ∷ l) → last_line_of (c ∷ l ++ b'\n' ∷ []) ≡ c ∷ l
last_line_of-first c l h =
    last_line_at (c ∷ l ++ b'\n' ∷ []) (length l) (omega (arith, length-append l (b'\n' ∷ [])))
    ∙ ap (λ k. first_line (drop k (c ∷ l ++ b'\n' ∷ [])))
        (last_start-first (c ∷ l) (b'\n' ∷ []) (length l) h (omega arith))
    ∙ first_line-append (c ∷ l) [] h

last_line_of-append :
    (a l : Bytes) → Lacks b'\n' l → 0 < length a → last_line_of (a ++ b'\n' ∷ (l ++ b'\n' ∷ [])) ≡ l
last_line_of-append a l h lt =
    last_line_at s (suc p) long
    ∙ ap (λ k. first_line (drop k s))
        (last_start-back a l (b'\n' ∷ []) p (length l) h at_end (omega arith) lt)
    ∙ ap first_line (drop_plus a (b'\n' ∷ (l ++ b'\n' ∷ [])) 1)
    ∙ first_line-append l [] h
  where
    s : Bytes
    s = a ++ b'\n' ∷ (l ++ b'\n' ∷ [])

    p : ℕ
    p = length a + length l - 1

    at_end : suc p ≡ length a + length l
    at_end = omega arith

    long : length s ≡ suc (suc (suc p))
    long = omega (arith, length-append a (b'\n' ∷ (l ++ b'\n' ∷ [])), length-append l (b'\n' ∷ []))

-- The bytes in front of the last line: none, or something that ends with a line end.
abbrev pub IsHead : Bytes → Type 0
IsHead head = (head ≡ []) ⊎ ((a : Bytes) × (0 < length a) × (head ≡ a ++ b'\n' ∷ []))

last_line_of-head :
    (head : Bytes) (c : ℕ) (l : Bytes)
    → IsHead head
    → Lacks b'\n' (c ∷ l)
    → last_line_of (head ++ (c ∷ l ++ b'\n' ∷ [])) ≡ c ∷ l
last_line_of-head head c l (inl e) h = rw e (last_line_of-first c l h)
last_line_of-head head c l (inr (a, lt, e)) h =
    rw (e, append_assoc) (last_line_of-append a (c ∷ l) h lt)

load_number-to_string :
    (w : World) (n : ℕ)
    → n ≤ int_max
    → load_number w (to_string (pos n)) ≡ ok (record w { msg_number = pos n }, pos 0)
load_number-to_string w n h =
    let (c, t, e) = to_string-cons n in
    let read : stoi (c ∷ t) ≡ ok (pos n) = rw e at (stoi_whole n h) in rw e (rw read)

-- After a record with a number `n` up to INT_MAX is saved, a restart reads `n` back:
-- `load_msg_number` sets the counter to `n`. The file can be appended to and read, and before it is
-- empty or ends with a line end behind at least one byte; the record holds no line end.
pub load_msg_number-save :
    (w : World) (s body : Bytes) (n : ℕ)
    → open_app w.file ≡ some s
    → w.file.readable ≡ true
    → IsHead s
    → n ≤ int_max
    → Lacks b'\n' body
    → let w' = record w { file = (save_msg_write w.file (record_line n body)).0 } in
      load_msg_number w' ≡ ok (record w' { msg_number = pos n }, pos 0)
unfolding load_msg_number save_msg_write
load_msg_number-save w s body n e r head le one =
    let (c, t, f) = to_string-cons n in
    let whole : last_line_of (s ++ (record_line n body ++ endl)) ≡ record_line n body = rw f (
      last_line_of-head s c (t ++ b'/' ∷ body) head (
        rw f at (
          Lacks-append b'\n' (to_string (pos n)) (b'/' ∷ body)
            (to_string-Lacks b'\n' n (omega arith)) (omega arith, one)))) in
    rw
      (
        e,
        r,
        whole,
        before_slash-append (to_string (pos n)) body (to_string-Lacks b'/' n (omega arith)),
      )
      (load_number-to_string _ n le)
