-- ===== src/Bootup/Restart.antt =====
-- A restart: the server starts from a stored configuration and goes on with the numbers of its
-- messages.
use bbserver.Base.{
  ℕ, ◌≤◌, ◌<◌, ◌≡◌, refl, true, false, Option, some, [], ◌∷◌, ◌++◌, arith, ◌==◌, length, replicate,
  Bytes, Lacks, ok, pos, int_max,
}
use bbserver.Types.{SysCfg, SyncState}
use bbserver.World.{World}
use bbserver.Board.{BbFile, open_app, save_msg_write}
use bbserver.Semaphore.{init_access}
use bbserver.Servers.Config.{init_sync_server_list}
use bbserver.MsgNumber.Recovery.{record_line, IsHead, load_msg_number-save}
use bbserver.Queue.{EventQueue}
use bbserver.Bootup.Shutdown.{sys_terminate-drains}
use bbserver.Config.{buf_size}
use bbserver.Config.RoundTrip.{IsStored, config_text, load_config-config_text}
use bbserver.Config.Options.{load_option, option_loop, option_step}
use bbserver.Bootup.{
  Files, System, default_cfg_file, configured, sys_load_config, sys_bootup, started, sighup_handler,
  event_thread, connection_thread,
}

-- The configuration of the default file.
abbrev pub by_default : SysCfg → SysCfg
by_default c = record c { cfg_file = default_cfg_file }

-- The default file has the text of the configuration.
pub record IsConfigured (files : Files) (c : SysCfg) : Type 0 where
  pub stored : IsStored c
  pub zeros : Lacks 0 (config_text c)
  pub size : length (config_text c) < buf_size
  pub text : files.configs default_cfg_file ≡ some (config_text c)

named : (c : SysCfg) → IsStored c → (length c.bb_file == 0) ≡ false
named c k = ground (arith, k.file)

configured-stored :
    (files : Files) (old c : SysCfg)
    → IsConfigured files c
    → configured files old [] [] ≡ ok (by_default c)
unfolding configured load_option option_loop
configured-stored files old c h =
    rw
      (load_config-config_text files.configs old c default_cfg_file h.stored h.zeros h.size
        (omega arith) h.text)
      (rw (named c h.stored) refl)

-- With `-f` alone it stays in the foreground.
configured-f :
    (files : Files) (old c : SysCfg)
    → IsConfigured files c
    → configured files old ((b'f', []) ∷ []) [] ≡ ok (record (by_default c) { daemon = false })
unfolding configured load_option option_loop option_step
configured-f files old c h =
    rw
      (load_config-config_text files.configs old c default_cfg_file h.stored h.zeros h.size
        (omega arith) h.text)
      (rw (named c h.stored) refl)

-- The world behind `sys_load_config`.
abbrev recovered : World → SysCfg → BbFile → ℕ → World
recovered fresh c f n = record fresh { config = by_default c; file = f; msg_number = pos n }

-- The server that `sys_bootup` makes of a world without peers.
abbrev running : World → System
running w = record {
  world = record w { clients = []; events = []; timer_master = 0; timer_slave = 0 };
  access = init_access;
  threads = replicate w.config.th_max event_thread ++ connection_thread ∷ [];
}

-- A server whose last message has the number `n` starts again from its stored configuration,
-- without peers and without options: it has that configuration and as many threads for the events
-- as it says, and its counter is at `n`. The board file had closed lines only, the number is an
-- int, and the message has no line end.
pub started-recovers :
    (resolve : Bytes → Option Bytes) (unset : SyncState) (files : Files) (fresh : World)
    (c : SysCfg) (f : BbFile) (s body : Bytes) (n : ℕ)
    → IsConfigured files c
    → c.peers ≡ []
    → open_app f ≡ some s
    → f.readable ≡ true
    → IsHead s
    → n ≤ int_max
    → Lacks b'\n' body
    → files.boards c.bb_file ≡ (save_msg_write f (record_line n body)).0
    → (t : System) × (started resolve unset files fresh [] [] ≡ ok t)
      × (t.world.msg_number ≡ pos n)
      × (t.world.config ≡ by_default c)
      × (t.threads ≡ replicate c.th_max event_thread ++ connection_thread ∷ [])
unfolding started sys_load_config sys_bootup init_sync_server_list
started-recovers resolve unset files fresh c f s body n h p o r i l b e = (
  running (recovered fresh c (save_msg_write f (record_line n body)).0 n),
  rw (configured-stored files fresh.config c h) (
      rw e (
        rw
          (load_msg_number-save (record fresh { config = by_default c; file = f }) s body n o r i l
            b)
          (rw p refl))),
  refl,
  refl,
  refl,
)

-- On SIGHUP the server ends and starts anew, with the stored configuration of the default file, in
-- the foreground, and with its counter at the number `n` of the last message in that
-- configuration's board file. The loop over the old queue gets as many rounds as there are events,
-- and each of its waits is let go: until then the other threads take at least as many events as
-- they enter. The board file can be read and written and had closed lines only, the number is an
-- int, and the message has no line end.
pub sighup_handler-recovers :
    (others : EventQueue → EventQueue)
    → ((r : EventQueue) → length (others r).items ≤ length r.items)
    → (rounds waiting awake : ℕ) (files : Files) (fresh w : World) (c : SysCfg) (f : BbFile)
      (s body : Bytes) (n : ℕ)
    → length w.events ≤ rounds
    → IsConfigured files c
    → open_app f ≡ some s
    → f.readable ≡ true
    → IsHead s
    → n ≤ int_max
    → Lacks b'\n' body
    → files.boards c.bb_file ≡ (save_msg_write f (record_line n body)).0
    → (v : World) × (sighup_handler rounds (λ r. some (others r)) waiting awake files fresh w
        ≡ ok v)
      × (v.config ≡ record (by_default c) { daemon = false })
      × (v.msg_number ≡ pos n)
unfolding sighup_handler sys_load_config
sighup_handler-recovers others keep rounds waiting awake files fresh w c f s body n k h o r i l b
      e =
    let (u, ended, _) = sys_terminate-drains others keep rounds waiting awake w k in
    let d : SysCfg = record (by_default c) { daemon = false } in
    (
      record fresh {
        config = d;
        file = (save_msg_write f (record_line n body)).0;
        msg_number = pos n;
      },
      rw ended (
          rw (configured-f files fresh.config c h) (
            rw e (
              rw (load_msg_number-save (record fresh { config = d; file = f }) s body n o r i l b)
                refl))),
      refl,
      refl,
    )
