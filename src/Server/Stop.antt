-- ===== src/Server/Stop.antt =====
-- Starting and stopping the server (src/server.rs, with the features `rcon` and the Unix signals of
-- src/os/mod.rs).
use plexsoftware.Prelude.{
  ℕ, ◌-◌, Bool, true, false, ◌&&◌, not, Option, none, some, ◌∷◌, leb, if◌then◌else◌, map_some,
  unwrap_or,
}
use plexsoftware.Config.{Config}
use plexsoftware.Server.State.{
  State, Signal, sigkill, sigterm, sigstop, sigcont, stopped, starting, started, stopping, eq_state,
}
use plexsoftware.Server.Model.{Server, update_state, update_state_from, from_secs}

-- What happens outside of the proxy while an operation runs: whether kill(2) delivers a signal to a
-- process, and whether the RCON connection and its "stop" succeed.
pub record World : Type 0 where
  pub now : ℕ
  pub kill : ℕ → Signal → Bool
  pub rcon_connects : Bool
  pub rcon_stops : Bool

unfoldable pub unix_signal : World → ℕ → Signal → Server → Server × Bool
unix_signal world pid signal s =
    (record s { signals = (pid, signal) ∷ s.signals }, world.kill pid signal)

unfoldable pub os_force_kill : World → ℕ → Server → Server × Bool
unfolding unix_signal
os_force_kill world pid s = unix_signal world pid sigkill s

unfoldable pub kill_gracefully : World → ℕ → Server → Server × Bool
unfolding unix_signal
kill_gracefully world pid s = unix_signal world pid sigterm s

unfoldable pub freeze : World → ℕ → Server → Server × Bool
unfolding unix_signal
freeze world pid s = unix_signal world pid sigstop s

unfoldable pub unfreeze : World → ℕ → Server → Server × Bool
unfolding unix_signal
unfreeze world pid s = unix_signal world pid sigcont s

-- `RCON_COOLDOWN`.
abbrev pub rcon_cooldown : ℕ
rcon_cooldown = from_secs 15

module _ (config : Config) (world : World) where
  unfoldable pub stop_server_rcon : Server → Server × Bool
  stop_server_rcon s =
      if not config.rcon.enabled
      then (s, false)
      else if not
          (unwrap_or (map_some (λ t. leb rcon_cooldown (world.now - t)) s.rcon_last_stop) true)
      then (s, false)
      else if not world.rcon_connects
      then (s, false)
      else if not world.rcon_stops
      then (s, false)
      else (
        (update_state config world.now stopping (record s { rcon_last_stop = some world.now })).0,
        true,
      )

  -- Two exchanges in a row, each from its own state.
  unfoldable pub move_from : State → State → State → Server → Server
  move_from first second new s =
      (update_state_from config world.now (some second) new
        (update_state_from config world.now (some first) new s).0).0

  unfoldable pub signal_stop : Server × Bool → Server × Bool
  signal_stop (s, false) = (s, false)
  signal_stop (s, true) = (move_from starting started stopping s, true)

  unfoldable pub stop_process : Option ℕ → Server → Server × Bool
  unfolding kill_gracefully move_from signal_stop
  stop_process none s = (s, false)
  stop_process (some pid) s = signal_stop (kill_gracefully world pid s)

  unfoldable pub stop_server_signal : Server → Server × Bool
  stop_server_signal s = stop_process s.pid s

  -- A signal that fails is only logged.
  unfoldable pub freeze_process : Option ℕ → Server → Server × Bool
  unfolding freeze move_from
  freeze_process none s = (s, false)
  freeze_process (some pid) s = (move_from starting started stopped (freeze world pid s).0, true)

  unfoldable pub freeze_server_signal : Server → Server × Bool
  freeze_server_signal s = freeze_process s.pid s

  unfoldable pub unfreeze_process : Option ℕ → Server → Server × Bool
  unfolding unfreeze move_from
  unfreeze_process none s = (s, false)
  unfreeze_process (some pid) s =
      (move_from stopping stopped starting (unfreeze world pid s).0, true)

  unfoldable pub unfreeze_server_signal : Server → Server × Bool
  unfreeze_server_signal s = unfreeze_process s.pid s

  -- A way to stop that returns `false` leaves the state to the next way.
  unfoldable pub stop : Server → Server × Bool
  stop s =
      let (frozen, by_freeze) = freeze_server_signal s in
      let (told, by_rcon) = stop_server_rcon s in
      if config.server.freeze_process && by_freeze
      then (frozen, true)
      else if eq_state s.state started && by_rcon
      then (told, true)
      else stop_server_signal s

  unfoldable pub force_kill_process : Option ℕ → Server → Server × Bool
  unfolding os_force_kill
  force_kill_process none s = (s, false)
  force_kill_process (some pid) s = os_force_kill world pid s

  unfoldable pub force_kill : Server → Server × Bool
  force_kill s = force_kill_process s.pid s

-- How `start` ends: with `false`, or with `true` after waking a frozen process or after spawning a
-- task for a new one.
pub data StartResult : Type 0 where
  refused unfrozen spawned : StartResult

abbrev pub returned : StartResult → Bool
returned refused = false
returned unfrozen = true
returned spawned = true

module _ (config : Config) (world : World) where
  unfoldable pub start : Server → Server × StartResult
  start s =
      let (claimed, won) = update_state_from config world.now (some stopped) starting s in
      let (woken, by_unfreeze) = unfreeze_server_signal config world claimed in
      if not won
      then (claimed, refused)
      else if config.server.freeze_process && by_unfreeze
      then (woken, unfrozen)
      else (claimed, spawned)
