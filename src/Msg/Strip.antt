-- ===== src/Msg/Strip.antt =====
-- msg.cpp: how the handlers of the two synchronization roles take the line end off a message.
use bbserver.Base.{
  ℕ, suc, ◌-◌, ◌≡◌, refl, ap, ◌∙◌, false, Option, none, some, [], ◌∷◌, ◌++◌, append_assoc, arith,
  ltb, ◌==◌, if◌then◌else◌, length, get_elem?, take, length-append, take-append, Bytes, Lacks,
  undefined, Result, ok, err,
}

abbrev pub byte_of : Option ℕ → ℕ
byte_of none = 0
byte_of (some c) = c

-- s[i]; where the sources read there is a byte
abbrev pub byte_at : Bytes → ℕ → ℕ
byte_at s i = byte_of (get_elem? s i)

abbrev pub stripped : Bytes → Bytes
stripped buf =
    if byte_at buf (length buf - 2) == b'\r'
    then take (length buf - 2) buf
    else if byte_at buf (length buf - 1) == b'\n'
    then take (length buf - 1) buf
    else buf

-- The head of `process_sync_master_msg` and of `process_sync_slave_msg`. With one byte received,
-- `buf[length-2]` lies in front of the buffer.
unfoldable pub strip_line : Bytes → Result Bytes
strip_line buf = if ltb (length buf) 2 then err undefined else ok (stripped buf)

pub get_elem?_last : (s : Bytes) (c d : ℕ) → get_elem? (s ++ c ∷ d ∷ []) (length s) ≡ some c
get_elem?_last [] c d = refl
get_elem?_last (x ∷ s) c d = get_elem?_last s c d

-- The last byte of `c ∷ s`, and what stands in front of it.
data Ended : Bytes → Type 0 where
  ended : (s : Bytes) (c : ℕ) → Ended (s ++ c ∷ [])

Ended-cons : {s : Bytes} (b : ℕ) → Ended s → Ended (b ∷ s)
Ended-cons b (ended s c) = ended (b ∷ s) c

cons-Ended : (c : ℕ) (s : Bytes) → Ended (c ∷ s)
cons-Ended c [] = ended [] c
cons-Ended c (d ∷ s) = Ended-cons c (cons-Ended d s)

Lacks-last : (s : Bytes) (c d : ℕ) → Lacks d (s ++ c ∷ []) → (c == d) ≡ false
Lacks-last [] c d h = ground arith
Lacks-last (x ∷ s) c d h = Lacks-last s c d h.1

strip_line_at :
    (buf : Bytes) (n c : ℕ)
    → length buf ≡ suc (suc n)
    → get_elem? buf n ≡ some c
    → get_elem? buf (suc n) ≡ some b'\n'
    → (c == b'\r') ≡ false
    → strip_line buf ≡ ok (take (suc n) buf)
unfolding strip_line
strip_line_at buf n c l e f d =
    let l2 : length buf - 2 ≡ n = omega arith in
    let l1 : length buf - 1 ≡ suc n = omega arith in
    let long : ltb (length buf) 2 ≡ false = ground arith in rw (long, l2, l1, e, d, f)

pub get_elem?_end : (s : Bytes) (d : ℕ) → get_elem? (s ++ d ∷ []) (length s) ≡ some d
get_elem?_end [] d = refl
get_elem?_end (x ∷ s) d = get_elem?_end s d

strip_line-Ended : {s : Bytes} → Ended s → Lacks b'\r' s → strip_line (s ++ b'\n' ∷ []) ≡ ok s
strip_line-Ended (ended s c) h =
    strip_line_at (s ++ c ∷ [] ++ b'\n' ∷ []) (length s) c
      (omega (arith, length-append (s ++ c ∷ []) (b'\n' ∷ []), length-append s (c ∷ [])))
      (rw append_assoc (get_elem?_last s c b'\n'))
      (ap (get_elem? (s ++ c ∷ [] ++ b'\n' ∷ [])) long ∙ get_elem?_end (s ++ c ∷ []) b'\n')
      (Lacks-last s c b'\r' h)
    ∙ ap ok
        (ap (λ k. take k (s ++ c ∷ [] ++ b'\n' ∷ [])) long ∙ take-append (s ++ c ∷ []) (b'\n' ∷ []))
  where
    long : suc (length s) ≡ length (s ++ c ∷ [])
    long = omega (arith, length-append s (c ∷ []))

-- A line of at least one byte, with no carriage return, loses its line end and nothing else.
pub strip_line-append :
    (c : ℕ) (s : Bytes) → Lacks b'\r' (c ∷ s) → strip_line (c ∷ (s ++ b'\n' ∷ [])) ≡ ok (c ∷ s)
strip_line-append c s h = strip_line-Ended (cons-Ended c s) h
