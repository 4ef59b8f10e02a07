-- ===== src/Text/Decimal.antt =====
-- std::stoi reads back what std::to_string prints.
use bbserver.Base.{
  ℕ, zero, suc, sym, append-nil, ◌+◌, ◌*◌, ◌/◌, ◌%◌, ◌≤◌, ◌<◌, ◌≡◌, refl, ap, ◌∙◌, inl, inr, true,
  false, ◌&&◌, [], ◌∷◌, ◌++◌, arith, ltb, leb, Bool-cases, length, All, Bytes, Lacks, ok, pos,
  int_max,
}
use bbserver.Text.{atoi, value, stoi, digits, to_string}

-- `s` begins with no digit.
abbrev pub Ends : Bytes → Type 0
Ends [] = Unit
Ends (c ∷ s) = (leb b'0' c && leb c b'9') ≡ false

-- One digit of the text takes `n` to ten times `n` and the digit.
value_digit : (n d : ℕ) (s : Bytes) → d < 10 → value n ((b'0' + d) ∷ s) ≡ value (n * 10 + d) s
value_digit n d s h = ground arith

value-digits : (f n : ℕ) (out : Bytes) → n < f → value 0 (digits f n out) ≡ value n out
unfolding digits
value-digits zero n out h = absurd (omega arith)
value-digits (suc f) n out h = elim (Bool-cases (ltb n 10)) [
  | inl e ↦ rw e (ground arith)
  | inr e ↦ rw e (
      value-digits f (n / 10) _ (ground arith)
      ∙ value_digit (n / 10) (n % 10) out (omega arith)
      ∙ ap (λ m. value m out) (omega arith))
]

value-Ends : (n : ℕ) (s : Bytes) → Ends s → value n s ≡ n
value-Ends n [] h = refl
value-Ends n (c ∷ s) h = rw h

-- The text of a number begins with a digit.
data Starts : Bytes → Type 0 where
  starts : (c : ℕ) (s : Bytes) → (leb b'0' c && leb c b'9') ≡ true → Starts (c ∷ s)

digits-append : (f n : ℕ) (out t : Bytes) → digits f n out ++ t ≡ digits f n (out ++ t)
unfolding digits
digits-append zero n out t = refl
digits-append (suc f) n out t = elim (Bool-cases (ltb n 10)) [
  | inl e ↦ rw e
  | inr e ↦ rw e (digits-append f (n / 10) _ t)
]

digits-Starts : (f n : ℕ) (out : Bytes) → n < f → Starts (digits f n out)
unfolding digits
digits-Starts zero n out h = absurd (omega arith)
digits-Starts (suc f) n out h = elim (Bool-cases (ltb n 10)) [
  | inl e ↦ rw e (starts _ _ (ground arith))
  | inr e ↦ rw e (digits-Starts f (n / 10) _ (ground arith))
]

stoi-Starts : {s : Bytes} {n : ℕ} → Starts s → value 0 s ≡ n → n ≤ int_max → stoi s ≡ ok (pos n)
unfolding stoi
stoi-Starts (starts c s h) e le = ground arith

-- The text of a number in range is read back, up to the first byte that is no digit.
pub stoi-to_string :
    (n : ℕ) (rest : Bytes) → n ≤ int_max → Ends rest → stoi (to_string (pos n) ++ rest) ≡ ok (pos n)
unfolding to_string
stoi-to_string n rest le e = rw (digits-append (n + 1) n [] rest) (
    stoi-Starts (digits-Starts (n + 1) n rest (omega arith))
      (value-digits (n + 1) n rest (omega arith) ∙ value-Ends n rest e) le)

IsDigits : Bytes → Type 0
IsDigits = All (λ c. (b'0' ≤ c) × (c ≤ b'9'))

digits-IsDigits : (f n : ℕ) (out : Bytes) → IsDigits out → IsDigits (digits f n out)
unfolding digits IsDigits
digits-IsDigits zero n out h = h
digits-IsDigits (suc f) n out h = elim (Bool-cases (ltb n 10)) [
  | inl e ↦ rw e (ground arith)
  | inr e ↦ rw e (digits-IsDigits f (n / 10) _ (ground arith))
]

Lacks-IsDigits : (c : ℕ) (s : Bytes) → c < b'0' → IsDigits s → Lacks c s
unfolding IsDigits
Lacks-IsDigits c [] h d = tt
Lacks-IsDigits c (x ∷ s) h d = (omega arith, Lacks-IsDigits c s h d.1)

-- The text of a number holds only digits: no slash, line end or space.
pub to_string-Lacks : (c n : ℕ) → c < b'0' → Lacks c (to_string (pos n))
unfolding to_string IsDigits
to_string-Lacks c n h = Lacks-IsDigits c _ h (digits-IsDigits (n + 1) n [] tt)

Lacks-IsDigits_above : (c : ℕ) (s : Bytes) → b'9' < c → IsDigits s → Lacks c s
unfolding IsDigits
Lacks-IsDigits_above c [] h d = tt
Lacks-IsDigits_above c (x ∷ s) h d = (omega arith, Lacks-IsDigits_above c s h d.1)

-- Nor an equals sign.
pub to_string-Lacks_above : (c n : ℕ) → b'9' < c → Lacks c (to_string (pos n))
unfolding to_string IsDigits
to_string-Lacks_above c n h = Lacks-IsDigits_above c _ h (digits-IsDigits (n + 1) n [] tt)

Starts-cons : {s : Bytes} → Starts s → (c : ℕ) × (t : Bytes) × (s ≡ c ∷ t)
Starts-cons (starts c s h) = (c, s, refl)

-- The text of a number is not empty.
pub to_string-cons : (n : ℕ) → (c : ℕ) × (t : Bytes) × (to_string (pos n) ≡ c ∷ t)
unfolding to_string
to_string-cons n = Starts-cons (digits-Starts (n + 1) n [] (omega arith))

length-digits : (f n : ℕ) (out : Bytes) → length (digits f n out) ≤ f + length out
unfolding digits
length-digits zero n out = omega arith
length-digits (suc f) n out = elim (Bool-cases (ltb n 10)) [
  | inl e ↦ rw e (omega arith)
  | inr e ↦ rw e (omega (arith, length-digits f (n / 10) ((b'0' + n % 10) ∷ out)))
]

-- A bound on the text of a number that serves for sizes.
pub length-to_string : (n : ℕ) → length (to_string (pos n)) ≤ n + 1
unfolding to_string
length-to_string n = omega (arith, length-digits (n + 1) n [])

pub atoi-to_string : (d : ℕ) → d ≤ int_max → atoi (to_string (pos d)) ≡ ok (pos d)
atoi-to_string d le =
    let e : stoi (to_string (pos d)) ≡ ok (pos d) =
      ap stoi (sym (append-nil (to_string (pos d)))) ∙ stoi-to_string d [] le tt in
    rw e refl

-- 10 to the power `d`
abbrev pub tens : ℕ → ℕ
tens zero = 1
tens (suc d) = 10 * tens d

length-digits-tens :
    (f d n : ℕ) (out : Bytes) → n < tens (suc d) → length (digits f n out) ≤ suc d + length out
unfolding digits
length-digits-tens zero d n out h = omega arith
length-digits-tens (suc f) zero n out h = ground (arith, h)
length-digits-tens (suc f) (suc d) n out h = elim (Bool-cases (ltb n 10)) [
  | inl e ↦ rw e (omega arith)
  | inr e ↦
      rw e
        (omega (arith, length-digits-tens f d (n / 10) ((b'0' + n % 10) ∷ out) (omega (arith, h))))
]

-- A number under 10 to the power `d` has at most `d` digits, if that is at least one.
pub length-to_string-tens : (d n : ℕ) → n < tens (suc d) → length (to_string (pos n)) ≤ suc d
unfolding to_string
length-to_string-tens d n h = omega (arith, length-digits-tens (n + 1) d n [] h)
