-- ===== src/Text/Search.antt =====
-- What `find`, `substr` and `before_slash` return on a text that is put together from parts.
use bbserver.Base.{
  ℕ, zero, suc, ◌≤◌, ◌≡◌, refl, ap, true, [], ◌∷◌, ◌++◌, none, some, arith, Bytes, length, take,
  Lacks, bytes_eq_refl, take-append, ok, drop-append, length-append, ltb, false,
}
use bbserver.Text.{find, substr, before_slash, has_prefix}

pub find-append : (c : ℕ) (s t : Bytes) → Lacks c s → find c (s ++ c ∷ t) ≡ some (length s)
find-append c [] t h = ground arith
find-append c (x ∷ s) t h = ground (arith, find-append c s t h.1)

pub find-Lacks : (c : ℕ) (s : Bytes) → Lacks c s → find c s ≡ none
find-Lacks c [] h = refl
find-Lacks c (x ∷ s) h = ground (arith, find-Lacks c s h.1)

pub before_slash-append : (s t : Bytes) → Lacks b'/' s → before_slash (s ++ b'/' ∷ t) ≡ s
before_slash-append [] t h = refl
before_slash-append (x ∷ s) t h = ground (arith, before_slash-append s t h.1)

-- The part in front of the first slash holds no slash.
pub before_slash-Lacks : (s : Bytes) → Lacks b'/' (before_slash s)
before_slash-Lacks [] = tt
before_slash-Lacks (x ∷ s) = ground (arith, before_slash-Lacks s)

pub has_prefix-append : (p s : Bytes) → has_prefix (p ++ s) p ≡ true
has_prefix-append p s = rw (take-append p s) (bytes_eq_refl p)

take_all : (n : ℕ) (s : Bytes) → length s ≤ n → take n s ≡ s
take_all zero [] h = refl
take_all (suc n) [] h = refl
take_all zero (x ∷ s) h = absurd (omega arith)
take_all (suc n) (x ∷ s) h = ap (◌∷◌ x) (take_all n s (omega arith))

-- What `substr` returns behind a keyword, when it is asked for at least all of it.
pub substr_behind : (p s : Bytes) (n : ℕ) → length s ≤ n → substr (p ++ s) (length p) n ≡ ok s
substr_behind p s n h =
    let fits : ltb (length (p ++ s)) (length p) ≡ false = ground (arith, length-append p s) in
    rw (fits, drop-append p s, take_all n s h)
