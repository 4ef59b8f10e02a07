-- ===== src/Config/RoundTrip.antt =====
-- A configuration that is written to a file, one KEY=value a line, is loaded back.
use bbserver.Base.{
  ℕ, zero, suc, ◌≤◌, ◌<◌, ◌≡◌, refl, sym, ap, ◌∙◌, inl, inr, Bool, true, false, not, Option, none,
  some, List, [], ◌∷◌, ◌++◌, map, arith, ltb, ◌==◌, if◌then◌else◌, Bool-cases, length, take, All,
  Bytes, codes, Lacks, Result, ok, ◌>>=◌, pos,
}
use bbserver.Text.{to_string}
use bbserver.Text.Decimal.{
  atoi-to_string, to_string-cons, to_string-Lacks, to_string-Lacks_above, tens,
  length-to_string-tens,
}
use bbserver.Types.{SysCfg, debug_level_none, debug_level_d}
use bbserver.Board.Lines.{unlines}
use bbserver.Config.{
  get_para_from_buf, c_text, buffered, load_params, load_file, load_config, is_port, is_pool,
  arg_size, buf_size, default_config, max_thread_pool, when_para, set_peers, set_th_max,
  set_bb_port, set_sync_port, set_daemon, set_debug,
}
use bbserver.Config.Bounds.{IsSound}
use bbserver.Config.Entries.{
  Entry, entry_line, IsEntry, IsValue, value_of, get_para_from_buf-entries,
}

-- A configuration that a file can hold: its numbers are in range, it names a board file, has peers
-- exactly when the service is enabled, and the debug level that the switch stands for; the two
-- texts in it have neither `=` nor a line end and fit into a value's 128 bytes.
pub record IsStored (c : SysCfg) : Type 0 where
  pub sound : IsSound c
  pub file : 0 < length c.bb_file
  pub peers : (length c.peers == 0) ≡ not c.sync_enable
  pub level : c.debug_level ≡ (if c.debug then debug_level_d else debug_level_none)
  pub file_text : IsValue c.bb_file
  pub peers_text : IsValue c.peers

abbrev pub bool_text : Bool → Bytes
bool_text true = codes "true"
bool_text false = codes "false"

abbrev pub config_entries : SysCfg → List Entry
config_entries c =
    (codes "THMAX", to_string (pos c.th_max))
    ∷ (codes "BBPORT", to_string (pos c.bb_port))
    ∷ (codes "SYNCPORT", to_string (pos c.sync_port))
    ∷ (codes "BBFILE", c.bb_file)
    ∷ (codes "PEERS", c.peers)
    ∷ (codes "DAEMON", bool_text c.daemon)
    ∷ (codes "DEBUG", bool_text c.debug)
    ∷ []

abbrev pub config_text : SysCfg → Bytes
config_text c = unlines (map entry_line (config_entries c))

c_text-Lacks : (s : Bytes) → Lacks 0 s → c_text s ≡ (s, false)
c_text-Lacks [] h = refl
c_text-Lacks (zero ∷ s) h = absurd (h.0 refl)
c_text-Lacks (suc c ∷ s) h = rw (c_text-Lacks s h.1) refl

take_whole : (n : ℕ) (s : Bytes) → length s ≤ n → take n s ≡ s
take_whole zero [] h = refl
take_whole (suc n) [] h = refl
take_whole zero (x ∷ s) h = absurd (omega (arith, h))
take_whole (suc n) (x ∷ s) h = ap (◌∷◌ x) (take_whole n s (omega (arith, h)))

buffered-text : (s : Bytes) → Lacks 0 s → length s < buf_size → buffered s ≡ (s, true)
buffered-text s h l =
    let e : ltb (length s) buf_size ≡ true = ground (arith, l) in
    rw (take_whole buf_size s (omega (arith, l)), c_text-Lacks s h, e) refl

number-IsEntry : (n : ℕ) → n < tens 5 → IsValue (to_string (pos n))
number-IsEntry n h = (
  to_string-Lacks_above b'=' n (omega arith),
  to_string-Lacks b'\n' n (omega arith),
  omega (arith, length-to_string-tens 4 n h),
)

bool-IsEntry : (b : Bool) → IsValue (bool_text b)
bool-IsEntry true = (omega arith, omega arith, omega arith)
bool-IsEntry false = (omega arith, omega arith, omega arith)

port_lt : (n : ℕ) → is_port n ≡ true → n < 65535
port_lt n h = ground (arith, h)

pool_lt : (n : ℕ) → is_pool n ≡ true → n < max_thread_pool
pool_lt n h = ground (arith, h)

entries-IsEntry : (c : SysCfg) → IsStored c → All IsEntry (config_entries c)
entries-IsEntry c h = (
  (omega arith, number-IsEntry c.th_max (omega (arith, pool_lt c.th_max h.sound.pool))),
  (
    (omega arith, number-IsEntry c.bb_port (omega (arith, port_lt c.bb_port h.sound.bb))),
    (
      (omega arith, number-IsEntry c.sync_port (omega (arith, port_lt c.sync_port h.sound.sync))),
      (
        (omega arith, h.file_text),
        (
          (omega arith, h.peers_text),
          ((omega arith, bool-IsEntry c.daemon), ((omega arith, bool-IsEntry c.debug), tt)),
        ),
      ),
    ),
  ),
)

set_th_max-to_string :
    (n : ℕ) (c : SysCfg)
    → is_pool n ≡ true
    → set_th_max (to_string (pos n)) c ≡ ok (record c { th_max = n })
set_th_max-to_string n c h = rw (atoi-to_string n (omega (arith, pool_lt n h)), h) refl

set_bb_port-to_string :
    (n : ℕ) (c : SysCfg)
    → is_port n ≡ true
    → set_bb_port (to_string (pos n)) c ≡ ok (record c { bb_port = n })
set_bb_port-to_string n c h = rw (atoi-to_string n (omega (arith, port_lt n h)), h) refl

set_sync_port-to_string :
    (n : ℕ) (c : SysCfg)
    → is_port n ≡ true
    → set_sync_port (to_string (pos n)) c ≡ ok (record c { sync_port = n })
set_sync_port-to_string n c h = rw (atoi-to_string n (omega (arith, port_lt n h)), h) refl

abbrev level_of : Bool → ℕ
level_of b = if b then debug_level_d else debug_level_none

last_steps :
    (b g : Bool) (c : SysCfg)
    → (do d ← set_daemon (bool_text b) c; set_debug (bool_text g) d)
      ≡ ok (record c { daemon = b; debug = g; debug_level = level_of g })
last_steps true true c = refl
last_steps true false c = refl
last_steps false true c = refl
last_steps false false c = refl

empty_of : (s : Bytes) → (length s == 0) ≡ true → [] ≡ s
empty_of [] h = refl
empty_of (x ∷ s) h = ground (arith, h)

peers_step :
    (c d : SysCfg)
    → IsStored c
    → d.peers ≡ []
    → d.sync_enable ≡ false
    → when_para (if length c.peers == 0 then none else some c.peers) d set_peers
      ≡ ok (record d { peers = c.peers; sync_enable = c.sync_enable })
peers_step c d h e f = elim (Bool-cases c.sync_enable) [
  | inl on ↦
      let q : (length c.peers == 0) ≡ false = h.peers ∙ ap not on in
      rw q (ap (λ b. ok (record d { peers = c.peers; sync_enable = b })) (sym on))
  | inr off ↦
      let q : (length c.peers == 0) ≡ true = h.peers ∙ ap not off in
      rw q
        (λ i. ok (record d { peers = (e ∙ empty_of c.peers q) i; sync_enable = (f ∙ sym off) i }))
]

load_params-entries :
    (c : SysCfg) (name : Bytes) (para : Bytes → Result (Option Bytes))
    → IsStored c
    → para (codes "THMAX=") ≡ ok (some (to_string (pos c.th_max)))
    → para (codes "BBPORT=") ≡ ok (some (to_string (pos c.bb_port)))
    → para (codes "SYNCPORT=") ≡ ok (some (to_string (pos c.sync_port)))
    → para (codes "BBFILE=") ≡ ok (some c.bb_file)
    → para (codes "PEERS=") ≡ ok (if length c.peers == 0 then none else some c.peers)
    → para (codes "DAEMON=") ≡ ok (some (bool_text c.daemon))
    → para (codes "DEBUG=") ≡ ok (some (bool_text c.debug))
    → load_params para (default_config name) ≡ ok (record c { cfg_file = name })
unfolding load_params
load_params-entries c name para h t b s f p d g =
    let c1 : SysCfg = record (default_config name) { th_max = c.th_max } in
    let c2 : SysCfg = record c1 { bb_port = c.bb_port } in
    let c3 : SysCfg = record c2 { sync_port = c.sync_port } in
    let c4 : SysCfg = record c3 { bb_file = c.bb_file } in
    let c5 : SysCfg = record c4 { peers = c.peers; sync_enable = c.sync_enable } in
    rw (t, set_th_max-to_string c.th_max (default_config name) h.sound.pool)
      (rw (b, set_bb_port-to_string c.bb_port c1 h.sound.bb)
        (rw (s, set_sync_port-to_string c.sync_port c2 h.sound.sync)
          (rw (f, p, peers_step c c4 h refl refl)
            (rw (d, g)
              (last_steps c.daemon c.debug c5
                ∙ ap (λ l. ok (record c { cfg_file = name; debug_level = l })) (sym h.level))))))

filled_number : (n : ℕ) → (length (to_string (pos n)) == 0) ≡ false
filled_number n = let (x, t, e) = to_string-cons n in rw e (ground arith)

filled : (v : Bytes) → 0 < length v → (if length v == 0 then none else some v) ≡ some v
filled v h = ground (arith, h)

number-filled : (n : ℕ) → 0 < length (to_string (pos n))
number-filled n = let (x, t, e) = to_string-cons n in rw e (omega arith)

bool-filled : (b : Bool) → 0 < length (bool_text b)
bool-filled true = omega arith
bool-filled false = omega arith

load_file-config_text :
    (c : SysCfg) (name : Bytes)
    → IsStored c
    → Lacks 0 (config_text c)
    → length (config_text c) < buf_size
    → load_file (config_text c) (default_config name) ≡ ok (record c { cfg_file = name })
load_file-config_text c name h zeros size =
    let es : List Entry = config_entries c in
    let fine : All IsEntry es = entries-IsEntry c h in
    let found : (k : Bytes)
        → Lacks b'=' k
        → Lacks b'\n' k
        → get_para_from_buf (config_text c) true (k ++ b'=' ∷ []) ≡ ok (value_of k es) =
      λ k l m. get_para_from_buf-entries k es l m fine in
    ap (λ (p : Bytes × Bool). load_params (get_para_from_buf p.0 p.1) (default_config name))
      (buffered-text (config_text c) zeros size)
    ∙ load_params-entries c name (get_para_from_buf (config_text c) true) h
        (found (codes "THMAX") (omega arith) (omega arith)
          ∙ ap ok (filled (to_string (pos c.th_max)) (number-filled c.th_max)))
        (found (codes "BBPORT") (omega arith) (omega arith)
          ∙ ap ok (filled (to_string (pos c.bb_port)) (number-filled c.bb_port)))
        (found (codes "SYNCPORT") (omega arith) (omega arith)
          ∙ ap ok (filled (to_string (pos c.sync_port)) (number-filled c.sync_port)))
        (found (codes "BBFILE") (omega arith) (omega arith) ∙ ap ok (filled c.bb_file h.file))
        (found (codes "PEERS") (omega arith) (omega arith))
        (found (codes "DAEMON") (omega arith) (omega arith)
          ∙ ap ok (filled (bool_text c.daemon) (bool-filled c.daemon)))
        (found (codes "DEBUG") (omega arith) (omega arith)
          ∙ ap ok (filled (bool_text c.debug) (bool-filled c.debug)))

-- Loading what a configuration is written as gives it back, under the name of the file, for a
-- configuration that a file can hold: the number of threads and both ports are in range, a board
-- file is named, there are peers exactly when the synchronization is enabled, the debug level is 1
-- with the switch for debugging and 0 without, and the board file's name and the peers have no `=`
-- and no line end and fit into 128 bytes with the closing 0. The text fits into the buffer of 255
-- bytes and the closing 0, and has no 0 in it; the name of the file fits into its field.
pub load_config-config_text :
    (files : Bytes → Option Bytes) (old c : SysCfg) (name : Bytes)
    → IsStored c
    → Lacks 0 (config_text c)
    → length (config_text c) < buf_size
    → length name < arg_size
    → files name ≡ some (config_text c)
    → load_config files old (some name) ≡ ok (record c { cfg_file = name }, pos 0)
unfolding load_config
load_config-config_text files old c name h zeros size short e =
    let fits : ltb (length name) arg_size ≡ true = ground (arith, short) in
    rw (fits, e)
      (ap (λ (r : Result SysCfg). (do d ← r; ok (d, pos 0)))
        (load_file-config_text c name h zeros size))
