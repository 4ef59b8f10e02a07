-- ===== src/Config/Options/Numbers.antt =====
-- The numbers on the command line: -t, -p and -s, as often as they are given.
use bbserver.Base.{
  Each, bind-Each, bind_any, weaken, branch-Each, ℕ, ◌≡◌, refl, sym, ap, ◌∙◌, inl, inr, Bool, true,
  false, ◌&&◌, ◌||◌, Option, List, [], ◌∷◌, arith, ◌==◌, if◌then◌else◌, ==_iff, Bool-cases, Bytes,
  Result, ok, err, ◌>>=◌, ℤ,
}
use mathlib.Core.Path.{subst}
use bbserver.Text.{atoi, to_unsigned}
use bbserver.Types.{SysCfg}
use bbserver.Config.{is_port, is_pool, file_size, arg_size}
use bbserver.Config.Options.{
  Options, no_options, str_copied, option_b, option_t, option_p, option_s, option_level, option_c,
  option_step, option_loop, peer_arguments, load_option,
}

abbrev number_in : Result ℤ → ℕ
number_in (ok n) = to_unsigned n
number_in (err f) = 0

-- The numbers given with an option, those out of range left out.
abbrev pub given : (ℕ → Bool) → (ℕ → Bool) → List (ℕ × Bytes) → List ℕ
given letter range [] = []
given letter range ((l, arg) ∷ opts) =
    let n = number_in (atoi arg) in
    let rest = given letter range opts in if letter l && range n then n ∷ rest else rest

abbrev pub is_given : (ℕ → Bool) → List (ℕ × Bytes) → Bool
is_given letter [] = false
is_given letter ((l, arg) ∷ opts) = letter l || is_given letter opts

abbrev pub last_of : ℕ → List ℕ → ℕ
last_of n [] = n
last_of n (m ∷ ms) = last_of m ms

-- What the options make of a configured number.
abbrev pub overridden : (ℕ → Bool) → (ℕ → Bool) → List (ℕ × Bytes) → ℕ → ℕ
overridden letter range opts configured =
    if is_given letter opts then last_of 0 (given letter range opts) else configured

abbrev pub is_t : ℕ → Bool
is_t l = l == b'T' || l == b't'

abbrev pub is_p : ℕ → Bool
is_p l = l == b'p'

abbrev pub is_s : ℕ → Bool
is_s l = l == b's'

abbrev pub is_c : ℕ → Bool
is_c l = l == b'c'

-- The letters that the switch does not know.
abbrev IsOther : ℕ → Type 0
IsOther l =
    ((l == b'b') ≡ false)
    × ((l == b'T') ≡ false)
    × ((l == b't') ≡ false)
    × ((l == b'p') ≡ false)
    × ((l == b's') ≡ false)
    × ((l == b'c') ≡ false)

module _ (P : ℕ → Options → Type 0) (o : Options) (arg : Bytes) where
  -- A case of the switch.
  at : (k : ℕ) (r : Result Options) (l : ℕ) → Each (P k) r → (l == k) ≡ true → Each (P l) r
  at k r l h e = subst (λ j. Each (P j) r) (sym ((==_iff l k).0 e)) h

  option_step-Each :
      (l : ℕ)
      → Each (P b'b') (option_b o arg)
      → Each (P b'T') (option_t o arg)
      → Each (P b't') (option_t o arg)
      → Each (P b'p') (option_p o arg)
      → Each (P b's') (option_s o arg)
      → Each (P b'f') (ok (record o { fflag = true }))
      → Each (P b'd') (ok (record o { dflag = true; debug_level = 1 }))
      → Each (P b'D') (option_level o arg)
      → Each (P b'c') (option_c o arg)
      → (IsOther l → P l o)
      → Each (P l) (option_step o l arg)
  unfolding option_step
  option_step-Each l b T t p s f d D c other =
      branch-Each (P l) (l == b'b') _ _ (at b'b' _ l b) (λ nb.
        branch-Each (P l) (l == b'T' || l == b't') _ _
          (λ e. elim (Bool-cases (l == b'T')) [
            | inl y ↦ at b'T' _ l T y
            | inr n ↦ at b't' _ l t (ground (arith, e, n))
          ])
          (λ nt. branch-Each (P l) (l == b'p') _ _ (at b'p' _ l p) (λ np.
            branch-Each (P l) (l == b's') _ _ (at b's' _ l s) (λ ns.
              branch-Each (P l) (l == b'f') _ _ (at b'f' (ok (record o { fflag = true })) l f)
                (λ nf.
                  branch-Each (P l) (l == b'd') _ _
                    (at b'd' (ok (record o { dflag = true; debug_level = 1 })) l d)
                    (λ nd. branch-Each (P l) (l == b'D') _ _ (at b'D' _ l D) (λ nD.
                      branch-Each (P l) (l == b'c') _ _ (at b'c' _ l c) (λ nc.
                        other (nb, ground (arith, nt), ground (arith, nt), np, ns, nc)))))))))

or_swap : (a b c : Bool) → (a || (b || c)) ≡ ((b || a) || c)
or_swap true true c = refl
or_swap true false c = refl
or_swap false true c = refl
or_swap false false c = refl

last_of-if :
    (b : Bool) (n m : ℕ) (ms : List ℕ)
    → last_of (if b then n else m) ms ≡ last_of m (if b then n ∷ ms else ms)
last_of-if true n m ms = refl
last_of-if false n m ms = refl

with_number :
    (P : Options → Type 0) (r : Result ℤ) (f : ℤ → Result Options)
    → ((n : ℤ) → r ≡ ok n → Each P (f n))
    → Each P (r >>= f)
with_number P (ok n) f h = h n refl
with_number P (err e) f h = tt

module _ (letter range : ℕ → Bool) (flag : Options → Bool) (field : Options → ℕ) where
  abbrev Stepped : Options → Bytes → ℕ → Options → Type 0
  Stepped o arg l v =
      (flag v ≡ (letter l || flag o))
      × (field v
          ≡ (if letter l && range (number_in (atoi arg)) then number_in (atoi arg) else field o))

  abbrev Ran : Options → List (ℕ × Bytes) → Options → Type 0
  Ran o opts v =
      (flag v ≡ (is_given letter opts || flag o))
      × (field v ≡ last_of (field o) (given letter range opts))

  step-run :
      (o v w : Options) (l : ℕ) (arg : Bytes) (opts : List (ℕ × Bytes))
      → Stepped o arg l v
      → Ran v opts w
      → Ran o ((l, arg) ∷ opts) w
  step-run o v w l arg opts (f, x) (g, y) = (
    g ∙ ap (λ b. is_given letter opts || b) f ∙ or_swap (is_given letter opts) (letter l) (flag o),
    y
        ∙ ap (λ n. last_of n (given letter range opts)) x
        ∙ last_of-if (letter l && range (number_in (atoi arg))) (number_in (atoi arg)) (field o)
            (given letter range opts),
  )

  option_loop-Ran :
      ((o : Options) (l : ℕ) (arg : Bytes) → Each (Stepped o arg l) (option_step o l arg))
      → (o : Options) (opts : List (ℕ × Bytes)) → Each (Ran o opts) (option_loop o opts)
  unfolding option_loop
  option_loop-Ran h o [] = (refl, refl)
  option_loop-Ran h o ((l, arg) ∷ opts) =
      bind-Each (Stepped o arg l) (Ran o ((l, arg) ∷ opts)) (option_step o l arg) _ (h o l arg)
        (λ v s.
          weaken (Ran v opts) (Ran o ((l, arg) ∷ opts)) (option_loop v opts)
            (λ w r. step-run o v w l arg opts s r) (option_loop-Ran h v opts))

option_step-is_t :
    (o : Options) (l : ℕ) (arg : Bytes)
    → Each (Stepped is_t is_pool (λ v. v.tflag) (λ v. v.th_max) o arg l) (option_step o l arg)
option_step-is_t o l arg =
    option_step-Each (Stepped is_t is_pool (λ v. v.tflag) (λ v. v.th_max) o arg) o arg l
      (bind_any _ (str_copied file_size arg) _ (λ x. (refl, refl)))
      (with_number _ (atoi arg) _ (λ n e. (refl, rw e refl)))
      (with_number _ (atoi arg) _ (λ n e. (refl, rw e refl)))
      (bind_any _ (atoi arg) _ (λ n. (refl, refl))) (bind_any _ (atoi arg) _ (λ n. (refl, refl)))
      (refl, refl) (refl, refl) (bind_any _ (atoi arg) _ (λ n. (refl, refl)))
      (bind_any _ (str_copied arg_size arg) _ (λ x. (refl, refl)))
      (λ h. (ground (arith, h), ground (arith, h)))

option_step-is_p :
    (o : Options) (l : ℕ) (arg : Bytes)
    → Each (Stepped is_p is_port (λ v. v.pflag) (λ v. v.bb_port) o arg l) (option_step o l arg)
option_step-is_p o l arg =
    option_step-Each (Stepped is_p is_port (λ v. v.pflag) (λ v. v.bb_port) o arg) o arg l
      (bind_any _ (str_copied file_size arg) _ (λ x. (refl, refl)))
      (bind_any _ (atoi arg) _ (λ n. (refl, refl))) (bind_any _ (atoi arg) _ (λ n. (refl, refl)))
      (with_number _ (atoi arg) _ (λ n e. (refl, rw e refl)))
      (bind_any _ (atoi arg) _ (λ n. (refl, refl))) (refl, refl) (refl, refl)
      (bind_any _ (atoi arg) _ (λ n. (refl, refl)))
      (bind_any _ (str_copied arg_size arg) _ (λ x. (refl, refl)))
      (λ h. (ground (arith, h), ground (arith, h)))

option_step-is_s :
    (o : Options) (l : ℕ) (arg : Bytes)
    → Each (Stepped is_s is_port (λ v. v.sflag) (λ v. v.sync_port) o arg l) (option_step o l arg)
option_step-is_s o l arg =
    option_step-Each (Stepped is_s is_port (λ v. v.sflag) (λ v. v.sync_port) o arg) o arg l
      (bind_any _ (str_copied file_size arg) _ (λ x. (refl, refl)))
      (bind_any _ (atoi arg) _ (λ n. (refl, refl))) (bind_any _ (atoi arg) _ (λ n. (refl, refl)))
      (bind_any _ (atoi arg) _ (λ n. (refl, refl)))
      (with_number _ (atoi arg) _ (λ n e. (refl, rw e refl))) (refl, refl) (refl, refl)
      (bind_any _ (atoi arg) _ (λ n. (refl, refl)))
      (bind_any _ (str_copied arg_size arg) _ (λ x. (refl, refl)))
      (λ h. (ground (arith, h), ground (arith, h)))

option_step-is_c :
    (o : Options) (l : ℕ) (arg : Bytes)
    → Each (Stepped is_c (λ n. false) (λ v. v.cflag) (λ v. 0) o arg l) (option_step o l arg)
option_step-is_c o l arg =
    option_step-Each (Stepped is_c (λ n. false) (λ v. v.cflag) (λ v. 0) o arg) o arg l
      (bind_any _ (str_copied file_size arg) _ (λ x. (refl, refl)))
      (bind_any _ (atoi arg) _ (λ n. (refl, refl))) (bind_any _ (atoi arg) _ (λ n. (refl, refl)))
      (bind_any _ (atoi arg) _ (λ n. (refl, refl))) (bind_any _ (atoi arg) _ (λ n. (refl, refl)))
      (refl, refl) (refl, refl) (bind_any _ (atoi arg) _ (λ n. (refl, refl)))
      (bind_any _ (str_copied arg_size arg) _ (λ x. (refl, refl)))
      (λ h. (ground (arith, h), ground (arith, h)))

both-Each {ℓ} :
    {A : Type ℓ} → (P Q : A → Type 0) (r : Result A) → Each P r → Each Q r → Each (λ a. P a × Q a) r
both-Each P Q (ok a) h k = (h, k)
both-Each P Q (err e) h k = tt

-- The options that have run: a flag that no option was given for is not set.
setting :
    (letter range : ℕ → Bool) (opts : List (ℕ × Bytes)) (flag : Bool) (field configured : ℕ)
    → flag ≡ (is_given letter opts || false)
    → field ≡ last_of 0 (given letter range opts)
    → (if flag then field else configured) ≡ overridden letter range opts configured
setting letter range opts flag field configured e f = elim (Bool-cases (is_given letter opts)) [
  | inl g ↦ rw (e, g, f) refl
  | inr g ↦ rw (e, g) refl
]

abbrev IsNumbered : List (ℕ × Bytes) → SysCfg → SysCfg → Type 0
IsNumbered opts c d =
    (d.th_max ≡ overridden is_t is_pool opts c.th_max)
    × (d.bb_port ≡ overridden is_p is_port opts c.bb_port)
    × (d.sync_port ≡ overridden is_s is_port opts c.sync_port)

abbrev Ended : List (ℕ × Bytes) → Options → Type 0
Ended opts o =
    (Ran is_t is_pool (λ v. v.tflag) (λ v. v.th_max) no_options opts o
      × Ran is_p is_port (λ v. v.pflag) (λ v. v.bb_port) no_options opts o)
    × (Ran is_s is_port (λ v. v.sflag) (λ v. v.sync_port) no_options opts o
        × Ran is_c (λ n. false) (λ v. v.cflag) (λ v. 0) no_options opts o)

option_loop-Ended : (opts : List (ℕ × Bytes)) → Each (Ended opts) (option_loop no_options opts)
option_loop-Ended opts =
    both-Each _ _ (option_loop no_options opts)
      (both-Each _ _ (option_loop no_options opts)
        (option_loop-Ran is_t is_pool (λ v. v.tflag) (λ v. v.th_max) option_step-is_t no_options
          opts)
        (option_loop-Ran is_p is_port (λ v. v.pflag) (λ v. v.bb_port) option_step-is_p no_options
          opts))
      (both-Each _ _ (option_loop no_options opts)
        (option_loop-Ran is_s is_port (λ v. v.sflag) (λ v. v.sync_port) option_step-is_s no_options
          opts)
        (option_loop-Ran is_c (λ n. false) (λ v. v.cflag) (λ v. 0) option_step-is_c no_options
          opts))

load_option-Each :
    (files : Bytes → Option Bytes) (c : SysCfg) (opts : List (ℕ × Bytes)) (args : List Bytes)
    → is_given is_c opts ≡ false
    → Each (IsNumbered opts c) (load_option files c opts args)
unfolding load_option
load_option-Each files c opts args h =
    bind-Each (Ended opts) (IsNumbered opts c) (option_loop no_options opts) _
      (option_loop-Ended opts)
      (λ o ((t, p), (s, f)).
        bind_any (IsNumbered opts c) (str_copied file_size (peer_arguments [] args)) _ (λ peers.
          let unset : o.cflag ≡ false = f.0 ∙ ap (λ b. b || false) h in
          rw unset (
            setting is_t is_pool opts o.tflag o.th_max c.th_max t.0 t.1,
            setting is_p is_port opts o.pflag o.bb_port c.bb_port p.0 p.1,
            setting is_s is_port opts o.sflag o.sync_port c.sync_port s.0 s.1,
          )))

-- The numbers of any command line without -c that is taken, with -t, -p and -s as often and in
-- whatever order they are given. If an option is given, the last of its numbers that is in range
-- replaces the configured number, and if none is in range, 0 does. If it is not given, the
-- configured number stays.
pub load_option-numbers :
    (files : Bytes → Option Bytes) (c d : SysCfg) (opts : List (ℕ × Bytes)) (args : List Bytes)
    → is_given is_c opts ≡ false
    → load_option files c opts args ≡ ok d
    → (d.th_max ≡ overridden is_t is_pool opts c.th_max)
      × (d.bb_port ≡ overridden is_p is_port opts c.bb_port)
      × (d.sync_port ≡ overridden is_s is_port opts c.sync_port)
load_option-numbers files c d opts args h e =
    subst (Each (IsNumbered opts c)) e (load_option-Each files c opts args h)
