-- ===== src/Board/Abstract/Put.antt =====
-- The board as a list of messages: REPLACE.
use bbserver.Base.{
  ℕ, ◌-◌, ◌≤◌, ◌≡◌, refl, sym, ap, ◌∙◌, ◌⊎◌, inl, inr, true, false, Option, none, some, List, [],
  ◌∷◌, ◌++◌, map, append_assoc, arith, Bool-cases, length, replicate, length-append,
  length-replicate, All, Bytes, bytes_eq, bytes_eq→eq, Lacks, ℤ, pos, negsuc,
}
use mathlib.Core.Path.{subst}
use bbserver.Text.{before_slash}
use bbserver.Text.Search.{before_slash-append}
use bbserver.Board.{BbFile, Line, open_in_out, save_msg_replace, padded}
use bbserver.Board.Lines.{closed_line}
use bbserver.Board.Replace.{Other, save_msg_replace_fits, save_msg_replace_unknown}
use bbserver.Board.Abstract.{
  Entry, message, line_of, board_text, lookup, put, IsEntry, line_of-Lacks, All-line_of,
  lines-board_text, board_text-append,
}

-- Where a number stands in the list.
data At (number : Bytes) : List Entry → Type 0 where
  at :
      (pre : List Entry) (e : Entry) (post : List Entry)
      → All (λ (d : Entry). bytes_eq number d.number ≡ false) pre
      → bytes_eq number e.number ≡ true
      → At number (pre ++ e ∷ post)

At-cons :
    (number : Bytes) (d : Entry) (b : List Entry)
    → bytes_eq number d.number ≡ false
    → At number b
    → At number (d ∷ b)
At-cons number d b n (at pre e post h t) = at (d ∷ pre) e post (n, h) t

place :
    (number : Bytes) (b : List Entry)
    → All (λ (d : Entry). bytes_eq number d.number ≡ false) b ⊎ At number b
place number [] = inl tt
place number (d ∷ b) = elim (Bool-cases (bytes_eq number d.number)) [
  | inl t ↦ inr (at [] d b tt t)
  | inr n ↦ elim (place number b) [ inl h ↦ inl (n, h) | inr a ↦ inr (At-cons number d b n a) ]
]

module _ (number : Bytes) where
  lookup-at :
      (pre : List Entry) (e : Entry) (post : List Entry)
      → All (λ (d : Entry). bytes_eq number d.number ≡ false) pre
      → bytes_eq number e.number ≡ true
      → lookup number (pre ++ e ∷ post) ≡ some e
  lookup-at [] e post h t = rw t refl
  lookup-at (d ∷ pre) e post h t = rw h.0 (lookup-at pre e post h.1 t)

  put-at :
      (text : Bytes) (pre : List Entry) (e : Entry) (post : List Entry)
      → All (λ (d : Entry). bytes_eq number d.number ≡ false) pre
      → bytes_eq number e.number ≡ true
      → put number text (pre ++ e ∷ post) ≡ pre ++ record e { text = text } ∷ post
  put-at text [] e post h t = rw t refl
  put-at text (d ∷ pre) e post h t = rw h.0 (ap (◌∷◌ d) (put-at text pre e post h.1 t))

  lookup-absent :
      (b : List Entry)
      → All (λ (d : Entry). bytes_eq number d.number ≡ false) b
      → lookup number b ≡ none
  lookup-absent [] h = refl
  lookup-absent (d ∷ b) h = rw h.0 (lookup-absent b h.1)

  put-absent :
      (text : Bytes) (b : List Entry)
      → All (λ (d : Entry). bytes_eq number d.number ≡ false) b
      → put number text b ≡ b
  put-absent text [] h = refl
  put-absent text (d ∷ b) h = rw h.0 (ap (◌∷◌ d) (put-absent text b h.1))

  Other-lines :
      (b : List Entry)
      → All IsEntry b
      → All (λ (d : Entry). bytes_eq number d.number ≡ false) b
      → All (Other number) (map line_of b)
  Other-lines [] k h = tt
  Other-lines (d ∷ b) k h =
      (ap (bytes_eq number) (before_slash-append d.number _ k.0.slash) ∙ h.0, Other-lines b k.1 h.1)

-- What `save_msg_replace` returns for what the list has.
abbrev pub put_result : Option Entry → ℤ
put_result none = negsuc 0
put_result (some e) = pos 0

-- The message takes no more room than the one that it takes the place of.
abbrev pub HasRoom : Bytes → Bytes → Option Entry → Type 0
HasRoom number text none = Unit
HasRoom number text (some e) = length (message number text) ≤ e.room

pub put-IsEntry :
    (number text : Bytes) (b : List Entry)
    → Lacks b'\n' text
    → HasRoom number text (lookup number b)
    → All IsEntry b
    → All IsEntry (put number text b)
put-IsEntry number text [] l r h = tt
put-IsEntry number text (e ∷ b) l r h = elim (Bool-cases (bytes_eq number e.number)) [
  | inl t ↦
      let same : number ≡ e.number = bytes_eq→eq number e.number t in
      let room : length (message number text) ≤ e.room = rw t at r in
      rw t (
        record {
          slash = h.0.slash;
          number = h.0.number;
          text = l;
          fits = subst (λ m. length (message m text) ≤ e.room) same room;
        },
        h.1,
      )
  | inr n ↦ rw n (h.0, put-IsEntry number text b l (rw n at r) h.1)
]

length-line_of : (e : Entry) → IsEntry e → length (line_of e) ≡ e.room
length-line_of e h =
    let blanks : Bytes = replicate (e.room - length (message e.number e.text)) b' ' in
    omega (
      arith,
      length-append e.number (b'/' ∷ (e.text ++ blanks)),
      length-append e.text blanks,
      length-append e.number (b'/' ∷ e.text),
      length-replicate {A = ℕ} (e.room - length (message e.number e.text)) b' ',
      h.fits,
    )

padded-line_of :
    (number text : Bytes) (e : Entry)
    → IsEntry e
    → number ≡ e.number
    → padded (message number text) (line_of e) ≡ line_of (record e { text = text })
padded-line_of number text e h s =
    append_assoc number (b'/' ∷ text)
      (replicate (length (line_of e) - length (message number text)) b' ')
    ∙ ap (λ r. number ++ b'/' ∷ (text ++ replicate (r - length (message number text)) b' '))
        (length-line_of e h)
    ∙ ap (λ m. m ++ b'/' ∷ (text ++ replicate (e.room - length (message m text)) b' ')) s

lines-Other :
    (number : Bytes) (ls : List Bytes)
    → All (Other number) ls
    → All (λ (l : Line). Other number l.text) (map closed_line ls)
lines-Other number [] h = tt
lines-Other number (l ∷ ls) h = (h.0, lines-Other number ls h.1)

All-append : (P : Entry → Type 0) (b c : List Entry) → All P (b ++ c) → All P b × All P c
All-append P [] c h = (tt, h)
All-append P (e ∷ b) c h = let (x, y) = All-append P b c h.1 in ((h.0, x), y)

module _ (f : BbFile) (number text : Bytes) where
  replace_absent :
      (b : List Entry)
      → open_in_out f ≡ some (board_text b)
      → All IsEntry b
      → Lacks b'/' number
      → All (λ (d : Entry). bytes_eq number d.number ≡ false) b
      → save_msg_replace f (message number text)
        ≡ (record f { content = some (board_text b) }, negsuc 0)
  replace_absent b e h l a = save_msg_replace_unknown f (board_text b) (message number text) e (
      subst (λ ls. All (λ (x : Line). Other (before_slash (message number text)) x.text) ls)
        (sym (lines-board_text b h))
        (subst (λ m. All (λ (x : Line). Other m x.text) (map closed_line (map line_of b)))
          (sym (before_slash-append number text l))
          (lines-Other number (map line_of b) (Other-lines number b h a))))

  replace_at :
      (pre : List Entry) (d : Entry) (post : List Entry)
      → open_in_out f ≡ some (board_text (pre ++ d ∷ post))
      → All IsEntry (pre ++ d ∷ post)
      → Lacks b'/' number
      → All (λ (x : Entry). bytes_eq number x.number ≡ false) pre
      → bytes_eq number d.number ≡ true
      → length (message number text) ≤ d.room
      → save_msg_replace f (message number text)
        ≡ (record f { content = some (board_text (pre ++ record d { text = text } ∷ post)) }, pos 0)
  replace_at pre d post e h l a t r =
      let (before, here) = All-append IsEntry pre (d ∷ post) h in
      let front = before_slash-append number text l in
      let same = bytes_eq→eq number d.number t in
      save_msg_replace_fits f (map line_of pre) (line_of d) (board_text post) (message number text)
        (e ∙ ap some (board_text-append pre (d ∷ post))) (All-line_of pre before)
        (line_of-Lacks d here.0)
        (subst (λ m. All (Other m) (map line_of pre)) (sym front) (Other-lines number pre before a))
        (ap (λ m. bytes_eq m (before_slash (line_of d))) front
          ∙ ap (bytes_eq number) (before_slash-append d.number _ here.0.slash)
          ∙ t)
        (omega (arith, r, length-line_of d here.0))
      ∙ ap (λ s. (record f { content = some s }, pos 0))
          (ap (λ s. board_text pre ++ (s ++ b'\n' ∷ board_text post))
              (padded-line_of number text d here.0 same)
            ∙ sym (board_text-append pre (record d { text = text } ∷ post)))

  -- REPLACE changes what the list has, if there is room, and nothing else.
  pub save_msg_replace-put :
      (b : List Entry)
      → open_in_out f ≡ some (board_text b)
      → All IsEntry b
      → Lacks b'/' number
      → HasRoom number text (lookup number b)
      → save_msg_replace f (message number text) ≡ (
        record f { content = some (board_text (put number text b)) },
        put_result (lookup number b),
      )
  save_msg_replace-put b e h l r = by_place b e h r (place number b)
    where
      by_place :
          (b : List Entry)
          → open_in_out f ≡ some (board_text b)
          → All IsEntry b
          → HasRoom number text (lookup number b)
          → All (λ (d : Entry). bytes_eq number d.number ≡ false) b ⊎ At number b
          → save_msg_replace f (message number text) ≡ (
            record f { content = some (board_text (put number text b)) },
            put_result (lookup number b),
          )
      by_place b e h r (inl a) =
          rw (put-absent number text b a, lookup-absent number b a) (replace_absent b e h l a)
      by_place b e h r (inr (at pre d post a t)) =
          let hit = lookup-at number pre d post a t in
          rw (put-at number text pre d post a t, hit)
            (replace_at pre d post e h l a t (rw hit at r))
