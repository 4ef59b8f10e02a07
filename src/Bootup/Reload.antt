-- ===== src/Bootup/Reload.antt =====
-- The reload of the configuration, `sys_reload_config_sighub`.
use bbserver.Base.{
  Each, bind-Each, ◌≡◌, refl, inl, inr, false, some, ◌==◌, if◌then◌else◌, Bool-cases, length, ok,
}
use mathlib.Core.Path.{subst}
use bbserver.Types.{SysCfg, debug_level_none, debug_level_d}
use bbserver.Config.{load_config}
use bbserver.Config.Bounds.{IsSound, load_config-Each}
use bbserver.Bootup.{Files, sys_reload_config_sighub, check_bb_file}

-- What a reload of the configuration keeps and what it guarantees.
pub record IsReloaded (c v : SysCfg) : Type 0 where
  pub debug : v.debug ≡ c.debug
  pub level : v.debug_level ≡ (if c.debug then debug_level_d else debug_level_none)
  pub sound : IsSound v
  pub named : (length v.bb_file == 0) ≡ false

check_bb_file-IsReloaded :
    (c v : SysCfg)
    → v.debug ≡ c.debug
    → v.debug_level ≡ (if c.debug then debug_level_d else debug_level_none)
    → IsSound v
    → Each (IsReloaded c) (check_bb_file v)
check_bb_file-IsReloaded c v d l h = elim (Bool-cases (length v.bb_file == 0)) [
  | inl e ↦ rw e tt
  | inr e ↦ rw e (record { debug = d; level = l; sound = h; named = e })
]

reload-Each : (files : Files) (c : SysCfg) → Each (IsReloaded c) (sys_reload_config_sighub files c)
unfolding sys_reload_config_sighub
reload-Each files c =
    bind-Each (λ r. IsSound r.0) (IsReloaded c) (load_config files.configs c (some c.cfg_file)) _
      (load_config-Each files.configs c c.cfg_file)
      (λ r h.
        check_bb_file-IsReloaded c _ refl refl (record { pool = h.pool; bb = h.bb; sync = h.sync }))

-- A reload that does not end the program leaves the switch for debugging as it was and sets the
-- debug level by it, whatever the file says; the ports and the number of threads are in range, and
-- a board file is named.
pub sys_reload_config_sighub-IsReloaded :
    (files : Files) (c v : SysCfg) → sys_reload_config_sighub files c ≡ ok v → IsReloaded c v
sys_reload_config_sighub-IsReloaded files c v e =
    subst (Each (IsReloaded c)) e (reload-Each files c)
