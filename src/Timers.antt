-- ===== src/Timers.antt =====
-- sync.cpp: the timers of the two roles. A timer holds the seconds that it is set to, 0 when it is
-- stopped, and fires once.
pub mod Firing
use bbserver.Base.{ℕ, [], ok}
use bbserver.Types.{ev_sync_timeout_master, ev_sync_timeout_slave}
use bbserver.World.{World}
use bbserver.Servers.{sync_send_event_timeout}

abbrev pub start_timer_master : World → ℕ → World
start_timer_master w sec = record w { timer_master = sec }

abbrev pub start_timer_slave : World → ℕ → World
start_timer_slave w sec = record w { timer_slave = sec }

abbrev pub stop_timer_master : World → World
stop_timer_master w = record w { timer_master = 0 }

abbrev pub stop_timer_slave : World → World
stop_timer_slave w = record w { timer_slave = 0 }

-- `handle_master_timeout`, when the timer has run down.
unfoldable pub handle_master_timeout : World → World
unfolding sync_send_event_timeout
handle_master_timeout w = sync_send_event_timeout (stop_timer_master w) ev_sync_timeout_master

unfoldable pub handle_slave_timeout : World → World
unfolding sync_send_event_timeout
handle_slave_timeout w = sync_send_event_timeout (stop_timer_slave w) ev_sync_timeout_slave

-- `create_timer_master` and `create_timer_slave` leave the timers stopped, and so does
-- `destroy_timer`.
abbrev pub create_timers : World → World
create_timers w = stop_timer_slave (stop_timer_master w)

abbrev pub destroy_timer : World → World
destroy_timer w = stop_timer_slave (stop_timer_master w)
