-- ===== src/Config/Options.antt =====
-- config.cpp: `load_option`, the command line.
pub mod Precedence
pub mod Numbers
use bbserver.Base.{
  ℕ, zero, suc, ◌+◌, ◌-◌, ◌*◌, ◌/◌, ◌%◌, ◌^◌, ◌≤◌, ◌<◌, ◌≡◌, refl, sym, ap, ◌∙◌, ◌≢◌, ◌↔◌, ◌⊎◌, inl,
  inr, Bool, true, false, not, ◌&&◌, ◌||◌, Option, none, some, List, [], ◌∷◌, ◌++◌, map, append-nil,
  append_assoc, arith, ltb, leb, ◌==◌, if◌then◌else◌, ltb→lt, lt→ltb, ==_iff, ==_refl, Bool-cases,
  Option-cases, length, get_elem?, take, drop, replicate, any_of, all_of, count_of, first_of_list,
  length-append, take-append, drop-append, length-replicate, All, Bytes, codes, bytes_eq,
  bytes_eq_refl, bytes_eq→eq, Lacks, Lacks-append, Fault, out_of_range, invalid_argument, undefined,
  spinning, exited, Result, ok, err, ◌>>=◌, deref, ℤ, pos, negsuc, int_max, eq_ℤ, is_neg, is_pos,
  eq_ℤ_iff, eq_ℤ_refl,
}
use bbserver.Text.{atoi, to_unsigned}
use bbserver.Types.{SysCfg, debug_level_d}
use bbserver.Config.{is_port, is_pool, arg_size, file_size, strstr, load_config}

-- DEBUG_LEVEL_MAX
abbrev pub debug_level_max : ℕ
debug_level_max = 5

-- What the loop over getopt leaves: a flag for each option, and what it put into the zeroed
-- `optionCFG`.
pub record Options : Type 0 where
  pub bflag : Bool
  pub tflag : Bool
  pub pflag : Bool
  pub sflag : Bool
  pub fflag : Bool
  pub dflag : Bool
  pub cflag : Bool
  pub level_flag : Bool
  pub bb_file : Bytes
  pub th_max : ℕ
  pub bb_port : ℕ
  pub sync_port : ℕ
  pub cfg_file : Bytes
  pub debug_level : ℕ

abbrev pub no_options : Options
no_options = record {
  bflag = false;
  tflag = false;
  pflag = false;
  sflag = false;
  fflag = false;
  dflag = false;
  cflag = false;
  level_flag = false;
  bb_file = [];
  th_max = 0;
  bb_port = 0;
  sync_port = 0;
  cfg_file = [];
  debug_level = 0;
}

-- strcpy into a field of the given size
abbrev pub str_copied : ℕ → Bytes → Result Bytes
str_copied size s = if ltb (length s) size then ok s else err undefined

abbrev pub option_b : Options → Bytes → Result Options
option_b o arg = do s ← str_copied file_size arg; ok (record o { bflag = true; bb_file = s })

-- A number that is out of range leaves the field as it is, but sets the flag.
abbrev pub option_t : Options → Bytes → Result Options
option_t o arg = do
  n ← atoi arg
  let u = to_unsigned n
  ok (record o { tflag = true; th_max = if is_pool u then u else o.th_max })

abbrev pub option_p : Options → Bytes → Result Options
option_p o arg = do
  n ← atoi arg
  let u = to_unsigned n
  ok (record o { pflag = true; bb_port = if is_port u then u else o.bb_port })

abbrev pub option_s : Options → Bytes → Result Options
option_s o arg = do
  n ← atoi arg
  let u = to_unsigned n
  ok (record o { sflag = true; sync_port = if is_port u then u else o.sync_port })

abbrev pub option_level : Options → Bytes → Result Options
option_level o arg = do
  n ← atoi arg
  let u = to_unsigned n
  ok (record o {
    level_flag = true;
    debug_level = if leb u debug_level_max then u else o.debug_level;
  })

abbrev pub option_c : Options → Bytes → Result Options
option_c o arg = do s ← str_copied arg_size arg; ok (record o { cflag = true; cfg_file = s })

-- The switch; `default` only prints.
unfoldable pub option_step : Options → ℕ → Bytes → Result Options
option_step o c arg =
    if c == b'b'
    then option_b o arg
    else if c == b'T' || c == b't'
    then option_t o arg
    else if c == b'p'
    then option_p o arg
    else if c == b's'
    then option_s o arg
    else if c == b'f'
    then ok (record o { fflag = true })
    else if c == b'd'
    then ok (record o { dflag = true; debug_level = debug_level_d })
    else if c == b'D'
    then option_level o arg
    else if c == b'c'
    then option_c o arg
    else ok o

-- The loop over what getopt returns: an option's letter, and `optarg`.
unfoldable pub option_loop : Options → List (ℕ × Bytes) → Result Options
unfolding option_step
option_loop o [] = ok o
option_loop o ((c, arg) ∷ opts) = do o' ← option_step o c arg; option_loop o' opts

-- The loop over the other arguments, with `peers` so far: those with a colon, with a blank behind
-- each but the last argument.
pub peer_arguments : Bytes → List Bytes → Bytes
peer_arguments peers [] = peers
peer_arguments peers (arg ∷ args) = elim (strstr (codes ":") arg) [
  | none ↦ peer_arguments peers args
  | some t ↦ peer_arguments (peers ++ (arg ++ (if length args == 0 then [] else codes " "))) args
]

-- The options over the configuration, with the file of `-c` loaded first.
abbrev pub with_options : Options → Bytes → Bool → SysCfg → SysCfg
with_options o peers peerflag c = record {
  th_max = if o.tflag then o.th_max else c.th_max;
  bb_port = if o.pflag then o.bb_port else c.bb_port;
  sync_port = if o.sflag then o.sync_port else c.sync_port;
  bb_file = if o.bflag then o.bb_file else c.bb_file;
  peers = if peerflag then peers else c.peers;
  daemon = if o.fflag then false else c.daemon;
  debug = if o.dflag then true else c.debug;
  cfg_file = c.cfg_file;
  sync_enable = c.sync_enable;
  debug_level =
      if o.level_flag
      then o.debug_level
      else if o.dflag && ltb c.debug_level debug_level_d
      then debug_level_d
      else c.debug_level;
}

abbrev pub reloaded : (Bytes → Option Bytes) → Options → SysCfg → Result SysCfg
reloaded files o c =
    if o.cflag then (do r ← load_config files c (some o.cfg_file); ok r.0) else ok c

-- `load_option`: `opts` is what getopt returns, in turn, and `args` the arguments behind the
-- options. `peers` has 256 bytes, with the closing 0.
unfoldable pub load_option :
    (Bytes → Option Bytes) → SysCfg → List (ℕ × Bytes) → List Bytes → Result SysCfg
unfolding option_loop peer_arguments
load_option files c opts args = do
  o ← option_loop no_options opts
  peers ← str_copied file_size (peer_arguments [] args)
  d ← reloaded files o c
  ok (with_options o peers (not (length args == 0)) d)
