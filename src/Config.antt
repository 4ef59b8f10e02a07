-- ===== src/Config.antt =====
-- config.cpp: the configuration file.
pub mod Options
pub mod Entries
pub mod RoundTrip
pub mod Bounds
use bbserver.Base.{
  ℕ, zero, suc, ◌+◌, ◌-◌, ◌*◌, ◌/◌, ◌%◌, ◌^◌, ◌≤◌, ◌<◌, ◌≡◌, refl, sym, ap, ◌∙◌, ◌≢◌, ◌↔◌, ◌⊎◌, inl,
  inr, Bool, true, false, not, ◌&&◌, ◌||◌, Option, none, some, List, [], ◌∷◌, ◌++◌, map, append-nil,
  append_assoc, arith, ltb, leb, ◌==◌, if◌then◌else◌, ltb→lt, lt→ltb, ==_iff, ==_refl, Bool-cases,
  Option-cases, length, get_elem?, take, drop, replicate, any_of, all_of, count_of, first_of_list,
  length-append, take-append, drop-append, length-replicate, All, Bytes, codes, bytes_eq,
  bytes_eq_refl, bytes_eq→eq, Lacks, Lacks-append, Fault, out_of_range, invalid_argument, undefined,
  spinning, exited, Result, ok, err, ◌>>=◌, deref, ℤ, pos, negsuc, int_max, eq_ℤ, is_neg, is_pos,
  eq_ℤ_iff, eq_ℤ_refl,
}
use bbserver.Text.{find, has_prefix, atoi, to_unsigned}
use bbserver.Types.{SysCfg, debug_level_none, debug_level_d}

-- MAX_THREAD_POOL
abbrev pub max_thread_pool : ℕ
max_thread_pool = 1024

-- The sizes of `buf`, `arg`, `cfgFile`, and of `bbFile` and `peers`, with the closing 0.
abbrev pub buf_size : ℕ
buf_size = 256

abbrev pub arg_size : ℕ
arg_size = 128

abbrev pub file_size : ℕ
file_size = 256

-- strstr: the text from the first occurrence on
abbrev pub strstr : Bytes → Bytes → Option Bytes
strstr key [] = if length key == 0 then some [] else none
strstr key (x ∷ s) =
    let later = strstr key s in if has_prefix (x ∷ s) key then some (x ∷ s) else later

-- What a search through `buf` without success comes to: with no 0 in `buf` it runs over its end.
abbrev pub missed : Bool → Result (Option Bytes)
missed closed = if closed then ok none else err undefined

-- `para`, in a zeroed `arg`, and the tests behind it.
abbrev pub copied : Bytes → Result (Option Bytes)
copied para =
    if ltb (length para) arg_size
    then ok (if length para == 0 then none else some para)
    else err undefined

-- `getParaFromBuf` on a text that a 0 closes, or not. The value ends at the line end behind the
-- keyword; `none` stands for ERR.
unfoldable pub get_para_from_buf : Bytes → Bool → Bytes → Result (Option Bytes)
get_para_from_buf buf closed key = elim (strstr key buf) [
  | none ↦ missed closed
  | some p ↦ elim (find b'\n' p) [
    | none ↦ missed closed
    | some j ↦ copied (take (j - length key) (drop (length key) p))
  ]
]

-- `if(SUCCESS == getParaFromBuf(...))`
abbrev pub when_para : Option Bytes → SysCfg → (Bytes → SysCfg → Result SysCfg) → Result SysCfg
when_para none cfg f = ok cfg
when_para (some arg) cfg f = f arg cfg

abbrev pub is_port : ℕ → Bool
is_port n = ltb 0 n && ltb n 65535

abbrev pub is_pool : ℕ → Bool
is_pool n = ltb 0 n && ltb n max_thread_pool

abbrev pub set_th_max : Bytes → SysCfg → Result SysCfg
set_th_max arg cfg = do
  n ← atoi arg
  ok (if is_pool (to_unsigned n) then record cfg { th_max = to_unsigned n } else cfg)

abbrev pub set_bb_port : Bytes → SysCfg → Result SysCfg
set_bb_port arg cfg = do
  n ← atoi arg
  ok (if is_port (to_unsigned n) then record cfg { bb_port = to_unsigned n } else cfg)

abbrev pub set_sync_port : Bytes → SysCfg → Result SysCfg
set_sync_port arg cfg = do
  n ← atoi arg
  ok (if is_port (to_unsigned n) then record cfg { sync_port = to_unsigned n } else cfg)

abbrev pub set_bb_file : Bytes → SysCfg → Result SysCfg
set_bb_file arg cfg = ok (record cfg { bb_file = arg })

abbrev pub set_peers : Bytes → SysCfg → Result SysCfg
set_peers arg cfg = ok (record cfg { peers = arg; sync_enable = true })

abbrev pub is_false : Bytes → Bool
is_false arg = bytes_eq arg (codes "false") || bytes_eq arg (codes "0")

abbrev pub is_true : Bytes → Bool
is_true arg = bytes_eq arg (codes "true") || bytes_eq arg (codes "1")

abbrev pub set_daemon : Bytes → SysCfg → Result SysCfg
set_daemon arg cfg = ok (
    if is_false arg
    then record cfg { daemon = false }
    else if is_true arg
    then record cfg { daemon = true }
    else cfg)

abbrev pub set_debug : Bytes → SysCfg → Result SysCfg
set_debug arg cfg = ok (
    if is_false arg
    then record cfg { debug = false; debug_level = debug_level_none }
    else if is_true arg
    then record cfg { debug = true; debug_level = debug_level_d }
    else cfg)

-- The parameters in the order of `load_config`; `para` is a search for a keyword.
pub load_params : (Bytes → Result (Option Bytes)) → SysCfg → Result SysCfg
load_params para c0 = do
  t ← para (codes "THMAX=")
  c1 ← when_para t c0 set_th_max
  b ← para (codes "BBPORT=")
  c2 ← when_para b c1 set_bb_port
  s ← para (codes "SYNCPORT=")
  c3 ← when_para s c2 set_sync_port
  f ← para (codes "BBFILE=")
  c4 ← when_para f c3 set_bb_file
  p ← para (codes "PEERS=")
  c5 ← when_para p c4 set_peers
  d ← para (codes "DAEMON=")
  c6 ← when_para d c5 set_daemon
  g ← para (codes "DEBUG=")
  when_para g c6 set_debug

abbrev pub default_config : Bytes → SysCfg
default_config name = record {
  th_max = 20;
  bb_port = 9000;
  sync_port = 10000;
  bb_file = [];
  peers = [];
  daemon = true;
  debug = false;
  cfg_file = name;
  sync_enable = false;
  debug_level = debug_level_none;
}

-- The bytes in front of the first 0, and whether there is one.
abbrev pub c_text : Bytes → Bytes × Bool
c_text [] = ([], false)
c_text (zero ∷ s) = ([], true)
c_text (suc c ∷ s) = let (t, closed) = c_text s in (suc c ∷ t, closed)

-- What read puts into the zeroed `buf`, as a text.
abbrev pub buffered : Bytes → Bytes × Bool
buffered content =
    let (t, closed) = c_text (take buf_size content) in (t, closed || ltb (length content) buf_size)

-- `load_config` on an open file.
abbrev pub load_file : Bytes → SysCfg → Result SysCfg
load_file content cfg =
    let (buf, closed) = buffered content in load_params (get_para_from_buf buf closed) cfg

abbrev pub load_opened : SysCfg → Option Bytes → Result (SysCfg × ℤ)
load_opened cfg none = ok (cfg, negsuc 0)
load_opened cfg (some content) = do c ← load_file content cfg; ok (c, pos 0)

-- `load_config`, with the value that it returns. `files` is what open finds under a name, and
-- `none` where it fails; of a file that cannot be read nothing comes. A null pointer is `none`.
unfoldable pub load_config : (Bytes → Option Bytes) → SysCfg → Option Bytes → Result (SysCfg × ℤ)
unfolding load_params get_para_from_buf
load_config files cfg none = ok (cfg, negsuc 0)
load_config files cfg (some name) =
    if ltb (length name) arg_size
    then load_opened (default_config name) (files name)
    else err undefined
