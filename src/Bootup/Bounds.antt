-- ===== src/Bootup/Bounds.antt =====
-- What holds of every configuration that the server starts with.
use bbserver.Base.{
  Each, bind-Each, bind_any, if-Each, weaken, ℕ, ◌<◌, ◌≡◌, inl, inr, Bool, false, not, ◌||◌, Option,
  some, List, [], ◌∷◌, arith, ◌==◌, Bool-cases, length, Bytes, ok, ◌>>=◌, ℤ,
}
use mathlib.Core.Path.{subst}
use bbserver.Text.{atoi}
use bbserver.Types.{SysCfg}
use bbserver.Config.{file_size, arg_size, load_config}
use bbserver.Config.Bounds.{IsSound, load_config-Each}
use bbserver.Config.Options.{
  Options, no_options, option_b, option_t, option_p, option_s, option_level, option_c, option_step,
  option_loop, str_copied, peer_arguments, with_options, reloaded, load_option,
}
use bbserver.Bootup.{Files, configured, default_cfg_file, check_bb_file}

-- The number of threads fits the table of connections, and the ports fit into 16 bits.
pub record IsBounded (c : SysCfg) : Type 0 where
  pub pool : c.th_max < 1024
  pub bb : c.bb_port < 65535
  pub sync : c.sync_port < 65535

record IsBoundedOptions (o : Options) : Type 0 where
  pool : o.th_max < 1024
  bb : o.bb_port < 65535
  sync : o.sync_port < 65535

option_b-IsBounded :
    (o : Options) (arg : Bytes) → IsBoundedOptions o → Each IsBoundedOptions (option_b o arg)
option_b-IsBounded o arg h =
    bind_any IsBoundedOptions (str_copied file_size arg) _
      (λ s. record { pool = h.pool; bb = h.bb; sync = h.sync })

option_c-IsBounded :
    (o : Options) (arg : Bytes) → IsBoundedOptions o → Each IsBoundedOptions (option_c o arg)
option_c-IsBounded o arg h =
    bind_any IsBoundedOptions (str_copied arg_size arg) _
      (λ s. record { pool = h.pool; bb = h.bb; sync = h.sync })

module _ (o : Options) (arg : Bytes) (h : IsBoundedOptions o) where
  of_number :
      (f : ℤ → Options)
      → ((n : ℤ) → IsBoundedOptions (f n))
      → Each IsBoundedOptions (do n ← atoi arg; ok (f n))
  of_number f k = bind_any IsBoundedOptions (atoi arg) _ (λ n. k n)

  option_t-IsBounded : Each IsBoundedOptions (option_t o arg)
  option_t-IsBounded =
      of_number _ (λ n. record { pool = ground (arith, h.pool); bb = h.bb; sync = h.sync })

  option_p-IsBounded : Each IsBoundedOptions (option_p o arg)
  option_p-IsBounded =
      of_number _ (λ n. record { pool = h.pool; bb = ground (arith, h.bb); sync = h.sync })

  option_s-IsBounded : Each IsBoundedOptions (option_s o arg)
  option_s-IsBounded =
      of_number _ (λ n. record { pool = h.pool; bb = h.bb; sync = ground (arith, h.sync) })

  option_level-IsBounded : Each IsBoundedOptions (option_level o arg)
  option_level-IsBounded = of_number _ (λ n. record { pool = h.pool; bb = h.bb; sync = h.sync })

option_step-IsBounded :
    (o : Options) (c : ℕ) (arg : Bytes)
    → IsBoundedOptions o
    → Each IsBoundedOptions (option_step o c arg)
unfolding option_step
option_step-IsBounded o c arg h =
    if-Each IsBoundedOptions (c == b'b') _ _ (option_b-IsBounded o arg h) (
      if-Each IsBoundedOptions (c == b'T' || c == b't') _ _ (option_t-IsBounded o arg h) (
        if-Each IsBoundedOptions (c == b'p') _ _ (option_p-IsBounded o arg h) (
          if-Each IsBoundedOptions (c == b's') _ _ (option_s-IsBounded o arg h) (
            if-Each IsBoundedOptions (c == b'f') _ _
              (record { pool = h.pool; bb = h.bb; sync = h.sync })
              (if-Each IsBoundedOptions (c == b'd') _ _
                (record { pool = h.pool; bb = h.bb; sync = h.sync })
                (if-Each IsBoundedOptions (c == b'D') _ _ (option_level-IsBounded o arg h)
                  (if-Each IsBoundedOptions (c == b'c') _ _ (option_c-IsBounded o arg h) h)))))))

option_loop-IsBounded :
    (o : Options) (opts : List (ℕ × Bytes))
    → IsBoundedOptions o
    → Each IsBoundedOptions (option_loop o opts)
unfolding option_loop
option_loop-IsBounded o [] h = h
option_loop-IsBounded o ((c, arg) ∷ opts) h =
    bind-Each IsBoundedOptions IsBoundedOptions (option_step o c arg) _
      (option_step-IsBounded o c arg h) (λ o' h'. option_loop-IsBounded o' opts h')

with_options-IsBounded :
    (o : Options) (peers : Bytes) (flag : Bool) (c : SysCfg)
    → IsBoundedOptions o
    → IsBounded c
    → IsBounded (with_options o peers flag c)
with_options-IsBounded o peers flag c h k = record {
  pool = ground (arith, h.pool, k.pool);
  bb = ground (arith, h.bb, k.bb);
  sync = ground (arith, h.sync, k.sync);
}

IsSound-IsBounded : (c : SysCfg) → IsSound c → IsBounded c
IsSound-IsBounded c h = record {
  pool = ground (arith, h.pool);
  bb = ground (arith, h.bb);
  sync = ground (arith, h.sync);
}

load_config-IsBounded :
    (files : Bytes → Option Bytes) (old : SysCfg) (name : Bytes)
    → Each (λ r. IsBounded r.0) (load_config files old (some name))
load_config-IsBounded files old name =
    weaken (λ r. IsSound r.0) (λ r. IsBounded r.0) (load_config files old (some name))
      (λ r h. IsSound-IsBounded r.0 h) (load_config-Each files old name)

reloaded-IsBounded :
    (files : Bytes → Option Bytes) (o : Options) (c : SysCfg)
    → IsBounded c
    → Each IsBounded (reloaded files o c)
reloaded-IsBounded files o c h =
    if-Each IsBounded o.cflag _ (ok c)
      (bind-Each (λ r. IsBounded r.0) IsBounded (load_config files c (some o.cfg_file)) _
        (load_config-IsBounded files c o.cfg_file) (λ r k. k))
      h

load_option-IsBounded :
    (files : Bytes → Option Bytes) (c : SysCfg) (opts : List (ℕ × Bytes)) (args : List Bytes)
    → IsBounded c
    → Each IsBounded (load_option files c opts args)
unfolding load_option
load_option-IsBounded files c opts args h =
    bind-Each IsBoundedOptions IsBounded (option_loop no_options opts) _
      (option_loop-IsBounded no_options opts
        (record { pool = omega arith; bb = omega arith; sync = omega arith }))
      (λ o ho. bind_any IsBounded (str_copied file_size (peer_arguments [] args)) _ (λ peers.
        bind-Each IsBounded IsBounded (reloaded files o c) _ (reloaded-IsBounded files o c h)
          (λ d hd. with_options-IsBounded o peers (not (length args == 0)) d ho hd)))

-- What `sys_load_config` goes on with.
pub record IsStarted (c : SysCfg) : Type 0 where
  pub bounds : IsBounded c
  pub named : (length c.bb_file == 0) ≡ false

check_bb_file-IsStarted : (c : SysCfg) → IsBounded c → Each IsStarted (check_bb_file c)
check_bb_file-IsStarted c h = elim (Bool-cases (length c.bb_file == 0)) [
  | inl e ↦ rw e tt
  | inr e ↦ rw e (record { bounds = h; named = e })
]

configured-Each :
    (files : Files) (old : SysCfg) (opts : List (ℕ × Bytes)) (args : List Bytes)
    → Each IsStarted (configured files old opts args)
unfolding configured
configured-Each files old opts args =
    bind-Each (λ r. IsBounded r.0) IsStarted (load_config files.configs old (some default_cfg_file))
      _ (load_config-IsBounded files.configs old default_cfg_file)
      (λ r h.
        bind-Each IsBounded IsStarted (load_option files.configs r.0 opts args) _
          (load_option-IsBounded files.configs r.0 opts args h)
          (λ d hd. check_bb_file-IsStarted d hd))

-- Whatever the configuration files hold and whatever the command line gives, when the server
-- starts, it has a name for the board file, fewer threads than 1024 and ports under 65535.
pub configured-IsStarted :
    (files : Files) (old c : SysCfg) (opts : List (ℕ × Bytes)) (args : List Bytes)
    → configured files old opts args ≡ ok c
    → IsStarted c
configured-IsStarted files old c opts args e =
    subst (Each IsStarted) e (configured-Each files old opts args)
