-- ===== src/Config/Bounds.antt =====
-- Whatever a configuration file holds, the numbers that it sets stay in range.
use bbserver.Base.{
  Each, bind-Each, bind_any, if-Each, undefined, ◌≡◌, refl, true, Option, none, some, arith, ltb,
  if◌then◌else◌, length, Bytes, codes, Result, err, ◌>>=◌, ℤ,
}
use bbserver.Text.{atoi, to_unsigned}
use bbserver.Types.{SysCfg}
use bbserver.Config.{
  is_port, is_pool, when_para, set_th_max, set_bb_port, set_sync_port, set_bb_file, set_peers,
  set_daemon, set_debug, load_params, load_file, load_opened, load_config, default_config, arg_size,
  get_para_from_buf, buffered,
}

-- The ports and the number of threads are in range.
pub record IsSound (c : SysCfg) : Type 0 where
  pub pool : is_pool c.th_max ≡ true
  pub bb : is_port c.bb_port ≡ true
  pub sync : is_port c.sync_port ≡ true

-- If there is a configuration, it is sound.
abbrev Sound : Result SysCfg → Type 0
Sound = Each IsSound

when_para-Sound :
    (p : Option Bytes) (c : SysCfg) (f : Bytes → SysCfg → Result SysCfg)
    → IsSound c
    → ((arg : Bytes) → Sound (f arg c))
    → Sound (when_para p c f)
when_para-Sound none c f h k = h
when_para-Sound (some arg) c f h k = k arg

set_th_max-Sound : (arg : Bytes) (c : SysCfg) → IsSound c → Sound (set_th_max arg c)
set_th_max-Sound arg c h = bind_any IsSound (atoi arg) _ (λ n. kept n)
  where
    kept :
        (n : ℤ)
        → IsSound (if is_pool (to_unsigned n) then record c { th_max = to_unsigned n } else c)
    kept n = ground (arith, h.pool, h.bb, h.sync)

set_bb_port-Sound : (arg : Bytes) (c : SysCfg) → IsSound c → Sound (set_bb_port arg c)
set_bb_port-Sound arg c h = bind_any IsSound (atoi arg) _ (λ n. kept n)
  where
    kept :
        (n : ℤ)
        → IsSound (if is_port (to_unsigned n) then record c { bb_port = to_unsigned n } else c)
    kept n = ground (arith, h.pool, h.bb, h.sync)

set_sync_port-Sound : (arg : Bytes) (c : SysCfg) → IsSound c → Sound (set_sync_port arg c)
set_sync_port-Sound arg c h = bind_any IsSound (atoi arg) _ (λ n. kept n)
  where
    kept :
        (n : ℤ)
        → IsSound (if is_port (to_unsigned n) then record c { sync_port = to_unsigned n } else c)
    kept n = ground (arith, h.pool, h.bb, h.sync)

set_daemon-Sound : (arg : Bytes) (c : SysCfg) → IsSound c → Sound (set_daemon arg c)
set_daemon-Sound arg c h = ground (arith, h.pool, h.bb, h.sync)

set_debug-Sound : (arg : Bytes) (c : SysCfg) → IsSound c → Sound (set_debug arg c)
set_debug-Sound arg c h = ground (arith, h.pool, h.bb, h.sync)

-- A parameter and its setting, in front of the rest.
step-Sound :
    (para : Result (Option Bytes)) (c : SysCfg) (set : Bytes → SysCfg → Result SysCfg)
    (rest : SysCfg → Result SysCfg)
    → IsSound c
    → ((arg : Bytes) → Sound (set arg c))
    → ((d : SysCfg) → IsSound d → Sound (rest d))
    → Sound (do p ← para; d ← when_para p c set; rest d)
step-Sound para c set rest h k l =
    bind_any IsSound para _
      (λ p. bind-Each IsSound IsSound (when_para p c set) rest (when_para-Sound p c set h k) l)

load_params-Sound :
    (para : Bytes → Result (Option Bytes)) (c : SysCfg) → IsSound c → Sound (load_params para c)
unfolding load_params
load_params-Sound para c h =
    step-Sound (para (codes "THMAX=")) c set_th_max _ h (λ a. set_th_max-Sound a c h)
      (λ c1 h1.
        step-Sound (para (codes "BBPORT=")) c1 set_bb_port _ h1 (λ a. set_bb_port-Sound a c1 h1)
          (λ c2 h2.
            step-Sound (para (codes "SYNCPORT=")) c2 set_sync_port _ h2
              (λ a. set_sync_port-Sound a c2 h2)
              (λ c3 h3.
                step-Sound (para (codes "BBFILE=")) c3 set_bb_file _ h3
                  (λ a. record { pool = h3.pool; bb = h3.bb; sync = h3.sync })
                  (λ c4 h4.
                    step-Sound (para (codes "PEERS=")) c4 set_peers _ h4
                      (λ a. record { pool = h4.pool; bb = h4.bb; sync = h4.sync })
                      (λ c5 h5.
                        step-Sound (para (codes "DAEMON=")) c5 set_daemon _ h5
                          (λ a. set_daemon-Sound a c5 h5)
                          (λ c6 h6. bind_any IsSound (para (codes "DEBUG=")) _ (λ g.
                            when_para-Sound g c6 set_debug h6 (λ a. set_debug-Sound a c6 h6))))))))

default_config-IsSound : (name : Bytes) → IsSound (default_config name)
default_config-IsSound name = record { pool = refl; bb = refl; sync = refl }

load_opened-Each :
    (c : SysCfg) (content : Option Bytes)
    → IsSound c
    → Each (λ r. IsSound r.0) (load_opened c content)
load_opened-Each c none h = h
load_opened-Each c (some s) h =
    bind-Each IsSound (λ r. IsSound r.0) (load_file s c) _
      (load_params-Sound (get_para_from_buf (buffered s).0 (buffered s).1) c h) (λ d k. k)

-- Whatever file `load_config` finds under the name, or none, the number of threads of the
-- configuration that it leaves is from 1 to 1023, and both ports are from 1 to 65534.
pub load_config-Each :
    (files : Bytes → Option Bytes) (old : SysCfg) (name : Bytes)
    → Each (λ r. IsSound r.0) (load_config files old (some name))
unfolding load_config
load_config-Each files old name =
    if-Each (λ r. IsSound r.0) (ltb (length name) arg_size) _ (err undefined)
      (load_opened-Each (default_config name) (files name) (default_config-IsSound name)) tt
