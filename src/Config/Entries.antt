-- ===== src/Config/Entries.antt =====
-- A configuration file of lines KEY=value is read as it was written.
use bbserver.Base.{
  suc, ◌+◌, ◌-◌, ◌<◌, ◌≡◌, refl, sym, ap, ◌∙◌, inl, inr, Bool, true, false, ◌||◌, Option, none,
  some, List, [], ◌∷◌, ◌++◌, map, append_assoc, arith, ◌==◌, if◌then◌else◌, Bool-cases, length,
  drop, length-append, take-append, drop-append, All, Bytes, bytes_eq, bytes_eq→eq, Lacks,
  Lacks-append, ok,
}
use bbserver.Text.{find, has_prefix}
use bbserver.Text.Search.{find-append}
use bbserver.Board.Lines.{unlines}
use bbserver.Config.{strstr, get_para_from_buf, arg_size, copied}

-- A key and its value.
abbrev pub Entry : Type 0
Entry = Bytes × Bytes

abbrev pub entry_line : Entry → Bytes
entry_line e = e.0 ++ b'=' ∷ e.1

-- A value that fits into `arg`.
abbrev pub IsValue : Bytes → Type 0
IsValue v = Lacks b'=' v × Lacks b'\n' v × (length v < arg_size)

abbrev pub IsEntry : Entry → Type 0
IsEntry e = Lacks b'=' e.0 × IsValue e.1

abbrev pub ends_with : Bytes → Bytes → Bool
ends_with [] k = bytes_eq [] k
ends_with (x ∷ s) k = bytes_eq (x ∷ s) k || ends_with s k

-- The value of the first entry whose key ends with `k`, if it is not empty.
abbrev pub value_of : Bytes → List Entry → Option Bytes
value_of k [] = none
value_of k (e ∷ es) =
    let later = value_of k es in
    if ends_with e.0 k then (if length e.1 == 0 then none else some e.1) else later

abbrev key_mark : Bytes → Bytes
key_mark k = k ++ b'=' ∷ []

has_prefix-key :
    (s k t : Bytes)
    → Lacks b'=' s
    → Lacks b'=' k
    → has_prefix (s ++ b'=' ∷ t) (key_mark k) ≡ bytes_eq s k
has_prefix-key [] [] t h l = ground arith
has_prefix-key [] (y ∷ k) t h l = ground arith
has_prefix-key (x ∷ s) [] t h l = ground arith
has_prefix-key (x ∷ s) (y ∷ k) t h l = ground (arith, has_prefix-key s k t h.1 l.1)

has_prefix-value :
    (v k t : Bytes)
    → Lacks b'=' v
    → Lacks b'\n' k
    → has_prefix (v ++ b'\n' ∷ t) (key_mark k) ≡ false
has_prefix-value [] [] t h l = ground arith
has_prefix-value [] (y ∷ k) t h l = ground arith
has_prefix-value (x ∷ v) [] t h l = ground arith
has_prefix-value (x ∷ v) (y ∷ k) t h l = ground (arith, has_prefix-value v k t h.1 l.1)

strstr-value :
    (v k t : Bytes)
    → Lacks b'=' v
    → Lacks b'\n' k
    → strstr (key_mark k) (v ++ b'\n' ∷ t) ≡ strstr (key_mark k) t
strstr-value [] k t h l = rw (has_prefix-value [] k t h l) refl
strstr-value (x ∷ v) k t h l = rw (has_prefix-value (x ∷ v) k t h l) (strstr-value v k t h.1 l)

strstr-key :
    (s k t : Bytes)
    → Lacks b'=' s
    → Lacks b'=' k
    → strstr (key_mark k) (s ++ b'=' ∷ t)
      ≡ (if ends_with s k then some (k ++ b'=' ∷ t) else strstr (key_mark k) t)
strstr-key [] k t h l = elim (Bool-cases (bytes_eq [] k)) [
  | inl e ↦ rw (has_prefix-key [] k t h l, e) (ap (λ m. some (m ++ b'=' ∷ t)) (bytes_eq→eq [] k e))
  | inr e ↦ rw (has_prefix-key [] k t h l, e) refl
]
strstr-key (x ∷ s) k t h l = elim (Bool-cases (bytes_eq (x ∷ s) k)) [
  | inl e ↦
      rw (has_prefix-key (x ∷ s) k t h l, e)
        (ap (λ m. some (m ++ b'=' ∷ t)) (bytes_eq→eq (x ∷ s) k e))
  | inr e ↦ rw (has_prefix-key (x ∷ s) k t h l, e) (strstr-key s k t h.1 l)
]

copied-entry :
    (v : Bytes) → length v < arg_size → copied v ≡ ok (if length v == 0 then none else some v)
copied-entry v h = ground (arith, h)

drop_key :
    (k v t : Bytes) → drop (length (key_mark k)) (k ++ b'=' ∷ (v ++ b'\n' ∷ t)) ≡ v ++ b'\n' ∷ t
drop_key k v t =
    let e : (k ++ b'=' ∷ (v ++ b'\n' ∷ t)) ≡ key_mark k ++ (v ++ b'\n' ∷ t) =
      sym (append_assoc k (b'=' ∷ []) (v ++ b'\n' ∷ t)) in
    rw e (drop-append (key_mark k) (v ++ b'\n' ∷ t))

find_end :
    (k v t : Bytes)
    → Lacks b'\n' k
    → Lacks b'\n' v
    → find b'\n' (k ++ b'=' ∷ (v ++ b'\n' ∷ t)) ≡ some (length (key_mark k) + length v)
find_end k v t h l =
    let e : (k ++ b'=' ∷ (v ++ b'\n' ∷ t)) ≡ (k ++ b'=' ∷ v) ++ b'\n' ∷ t =
      sym (append_assoc k (b'=' ∷ v) (b'\n' ∷ t)) in
    let n : length (k ++ b'=' ∷ v) ≡ length (key_mark k) + length v =
      omega (arith, length-append k (b'=' ∷ v), length-append k (b'=' ∷ [])) in
    rw e (
      find-append b'\n' (k ++ b'=' ∷ v) t (Lacks-append b'\n' k (b'=' ∷ v) h (omega arith, l))
      ∙ ap some n)

-- On a text of entries the search for a key finds the value of the first entry whose key ends with
-- it.
pub get_para_from_buf-entries :
    (k : Bytes) (es : List Entry)
    → Lacks b'=' k
    → Lacks b'\n' k
    → All IsEntry es
    → get_para_from_buf (unlines (map entry_line es)) true (k ++ b'=' ∷ []) ≡ ok (value_of k es)
unfolding get_para_from_buf
get_para_from_buf-entries [] [] h l a = refl
get_para_from_buf-entries (x ∷ k) [] h l a =
    let e : (suc (length (key_mark k)) == 0) ≡ false = ground arith in
    rw (e, get_para_from_buf) refl
get_para_from_buf-entries k ((s, v) ∷ es) h l a =
    let rest = unlines (map entry_line es) in
    let line : entry_line (s, v) ++ b'\n' ∷ rest ≡ s ++ b'=' ∷ (v ++ b'\n' ∷ rest) =
      append_assoc s (b'=' ∷ v) (b'\n' ∷ rest) in
    let found = strstr-key s k (v ++ b'\n' ∷ rest) a.0.0 h in
    elim (Bool-cases (ends_with s k)) [
      | inl e ↦
          let n : (length (key_mark k) + length v) - length (key_mark k) ≡ length v = omega arith in
          rw (line, get_para_from_buf)
            (rw (found, get_para_from_buf)
              (rw (e, get_para_from_buf)
                (rw (find_end k v rest l a.0.1.1, get_para_from_buf)
                  (rw (drop_key k v rest, n, take-append v (b'\n' ∷ rest))
                    (copied-entry v a.0.1.2)))))
      | inr e ↦
          rw (line, get_para_from_buf)
            (rw (found, get_para_from_buf)
              (rw (e, get_para_from_buf)
                (rw (strstr-value v k rest a.0.1.0 l, get_para_from_buf)
                  (get_para_from_buf-entries k es h l a.1))))
    ]
