-- ===== src/Tests/Config.antt =====
-- The configuration at concrete files and command lines.
use bbserver.Base.{
  ℕ, List, ◌≡◌, refl, Option, none, some, [], ◌∷◌, arith, if◌then◌else◌, Bytes, codes, bytes_eq, ok,
  pos,
}
use bbserver.Types.{SysCfg}
use bbserver.Text.{atoi, to_unsigned}
use bbserver.Config.{is_pool, is_port, load_config}
use bbserver.Config.RoundTrip.{IsStored, config_text, load_config-config_text}
use bbserver.Config.Options.{load_option, option_loop, option_step}
use bbserver.Config.Options.Precedence.{load_option-peers}
use bbserver.Config.Options.Numbers.{overridden, is_t, is_p, is_s, load_option-numbers}
use bbserver.Tests.{config}

abbrev pub stored : SysCfg
stored = record config { debug_level = 0 }

pub stored-IsStored : IsStored stored
stored-IsStored = record {
  sound = record { pool = refl; bb = refl; sync = refl };
  file = omega arith;
  peers = refl;
  level = refl;
  file_text = omega arith;
  peers_text = omega arith;
}

abbrev one_file : Bytes → Option Bytes
one_file name = if bytes_eq name (codes "other.conf") then some (config_text stored) else none

load_config-config_text_example :
    load_config one_file config (some (codes "other.conf"))
    ≡ ok (record stored { cfg_file = codes "other.conf" }, pos 0)
unfolding bbserver.Text.to_string
load_config-config_text_example =
    load_config-config_text one_file config stored (codes "other.conf") stored-IsStored
      (omega arith) (omega arith) (omega arith) refl

-- an option given twice, and one out of range
abbrev options : List (ℕ × Bytes)
options = (b't', codes "5") ∷ (b'p', codes "70000") ∷ (b'T', codes "99999") ∷ []

abbrev numbered : SysCfg
numbered = record config { th_max = 5; bb_port = 0 }

load_option-numbers_example :
    (numbered.th_max ≡ overridden is_t is_pool options config.th_max)
    × (numbered.bb_port ≡ overridden is_p is_port options config.bb_port)
    × (numbered.sync_port ≡ overridden is_s is_port options config.sync_port)
unfolding bbserver.Text.stoi load_option option_loop option_step
load_option-numbers_example = load_option-numbers one_file config numbered options [] refl refl

load_option-peers_example :
    load_option one_file config [] (codes "alpha:10001" ∷ codes "beta:10002" ∷ [])
    ≡ ok (record config { peers = codes "alpha:10001 beta:10002" })
load_option-peers_example =
    load_option-peers one_file config (codes "alpha:10001") (codes "beta:10002" ∷ [])
      ((λ e. cc), ((λ e. cc), tt)) (omega arith)
