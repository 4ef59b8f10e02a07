-- ===== src/Config/Options/Precedence.antt =====
-- The peers on the command line.
use bbserver.Base.{
  ◌<◌, ◌≡◌, refl, ap, ◌∙◌, ◌≢◌, inl, inr, true, false, Option, none, some, List, [], ◌∷◌, ◌++◌,
  append-nil, append_assoc, arith, ltb, ◌==◌, Option-cases, length, All, Bytes, codes, ok,
}
use bbserver.Types.{SysCfg}
use bbserver.Config.{file_size, strstr}
use bbserver.Config.Options.{option_loop, peer_arguments, load_option}

-- Peers with a blank between two, as the arguments give them.
abbrev pub joined : Bytes → List Bytes → Bytes
joined a [] = a
joined a (b ∷ bs) = a ++ b' ' ∷ joined b bs

abbrev pub HasColon : Bytes → Type 0
HasColon a = strstr (codes ":") a ≢ none

peer_arguments-more :
    (peers a t : Bytes) (args : List Bytes)
    → strstr (codes ":") a ≡ some t
    → (length args == 0) ≡ false
    → peer_arguments peers (a ∷ args) ≡ peer_arguments (peers ++ (a ++ codes " ")) args
unfolding peer_arguments
peer_arguments-more peers a t args e more = rw (e, peer_arguments) (rw (more, peer_arguments) refl)

peer_arguments-joined :
    (peers a : Bytes) (rest : List Bytes)
    → All HasColon (a ∷ rest)
    → peer_arguments peers (a ∷ rest) ≡ peers ++ joined a rest
unfolding peer_arguments
peer_arguments-joined peers a [] h = elim (Option-cases (strstr (codes ":") a)) [
  | inl e ↦ absurd (h.0 e)
  | inr (t, e) ↦ rw (e, peer_arguments) (ap (λ s. peers ++ s) (append-nil a))
]
peer_arguments-joined peers a (b ∷ bs) h = elim (Option-cases (strstr (codes ":") a)) [
  | inl e ↦ absurd (h.0 e)
  | inr (t, e) ↦
      peer_arguments-more peers a t (b ∷ bs) e (ground arith)
      ∙ peer_arguments-joined (peers ++ (a ++ codes " ")) b bs h.1
      ∙ append_assoc peers (a ++ codes " ") (joined b bs)
      ∙ ap (λ s. peers ++ s) (append_assoc a (codes " ") (joined b bs))
]

-- Peers on the command line replace the configured ones, joined with blanks, but do not enable the
-- synchronization: that is as it was, and so is everything else. Each argument has a colon, and
-- together they fit into the field.
pub load_option-peers :
    (files : Bytes → Option Bytes) (c : SysCfg) (a : Bytes) (rest : List Bytes)
    → All HasColon (a ∷ rest)
    → length (joined a rest) < file_size
    → load_option files c [] (a ∷ rest) ≡ ok (record c { peers = joined a rest })
unfolding load_option option_loop
load_option-peers files c a rest h l =
    let fits : ltb (length (joined a rest)) file_size ≡ true = ground (arith, l) in
    let some_args : (length (a ∷ rest) == 0) ≡ false = ground arith in
    rw (peer_arguments-joined [] a rest h) (rw fits (rw some_args refl))
