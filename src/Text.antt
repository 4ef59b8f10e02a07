-- ===== src/Text.antt =====
-- The members of std::string that the sources call, and their decimal conversions, on byte strings.
pub mod Search
pub mod Decimal
use bbserver.Base.{
  ℕ, zero, suc, ◌+◌, ◌-◌, ◌*◌, ◌/◌, ◌%◌, ◌^◌, Bool, true, false, ◌||◌, ◌&&◌, List, [], ◌∷◌, Option,
  none, some, Bytes, length, take, drop, ltb, leb, ◌==◌, if◌then◌else◌, bytes_eq, Result, ok, err,
  out_of_range, invalid_argument, undefined, ℤ, pos, negsuc, int_max,
}

-- s.find(c), for a string of one byte; `none` is npos
abbrev pub find : ℕ → Bytes → Option ℕ
find c [] = none
find c (x ∷ s) = if x == c then some 0 else elim (find c s) [ none ↦ none | some i ↦ some (suc i) ]

-- s.substr(p, n), which throws if p lies behind the end
abbrev pub substr : Bytes → ℕ → ℕ → Result Bytes
substr s p n = if ltb (length s) p then err out_of_range else ok (take n (drop p s))

-- s.substr(0, s.find("/")): all of `s` if there is no slash
abbrev pub before_slash : Bytes → Bytes
before_slash [] = []
before_slash (x ∷ s) = if x == b'/' then [] else x ∷ before_slash s

-- 0 == msg.compare(0, str.length(), str)
abbrev pub has_prefix : Bytes → Bytes → Bool
has_prefix msg str = bytes_eq (take (length str) msg) str

abbrev is_digit : ℕ → Bool
is_digit c = leb b'0' c && leb c b'9'

-- isspace in the C locale: space, and \t \n \v \f \r
abbrev is_space : ℕ → Bool
is_space c = c == b' ' || (leb 9 c && leb c 13)

abbrev pub skip_space : Bytes → Bytes
skip_space [] = []
skip_space (c ∷ s) = if is_space c then skip_space s else c ∷ s

-- The value of the leading digits behind `n`.
abbrev pub value : ℕ → Bytes → ℕ
value n [] = n
value n (c ∷ s) = if is_digit c then value (n * 10 + (c - b'0')) s else n

-- The leading digits of a number's text; there must be one.
abbrev magnitude : Bytes → Option ℕ
magnitude [] = none
magnitude (c ∷ s) = if is_digit c then some (value 0 (c ∷ s)) else none

abbrev above : Option ℕ → Result ℤ
above none = err invalid_argument
above (some n) = if leb n int_max then ok (pos n) else err out_of_range

abbrev below : Option ℕ → Result ℤ
below none = err invalid_argument
below (some zero) = ok (pos 0)
below (some (suc n)) = if leb n int_max then ok (negsuc n) else err out_of_range

-- behind the white space: a sign, then digits
abbrev signed : Bytes → Result ℤ
signed [] = err invalid_argument
signed (c ∷ s) =
    if c == b'-'
    then below (magnitude s)
    else if c == b'+'
    then above (magnitude s)
    else above (magnitude (c ∷ s))

-- std::stoi, in base 10
unfoldable pub stoi : Bytes → Result ℤ
stoi s = signed (skip_space s)

-- The decimal digits of `n` in front of `out`; n + 1 rounds are enough.
pub digits : ℕ → ℕ → Bytes → Bytes
digits zero n out = out
digits (suc f) n out =
    let rest = digits f (n / 10) ((b'0' + n % 10) ∷ out) in
    if ltb n 10 then (b'0' + n) ∷ out else rest

-- std::to_string
unfoldable pub to_string : ℤ → Bytes
unfolding digits
to_string (pos n) = digits (n + 1) n []
to_string (negsuc n) = b'-' ∷ digits (n + 2) (n + 1) []

-- atoi: 0 for a text with no number; a number that is no int is undefined.
abbrev atoi_of : Result ℤ → Result ℤ
atoi_of (ok n) = ok n
atoi_of (err invalid_argument) = ok (pos 0)
atoi_of (err _) = err undefined

abbrev pub atoi : Bytes → Result ℤ
atoi s = atoi_of (stoi s)

-- int to unsigned int
abbrev pub to_unsigned : ℤ → ℕ
to_unsigned (pos n) = n
to_unsigned (negsuc n) = 2 ^ 32 - 1 - n
