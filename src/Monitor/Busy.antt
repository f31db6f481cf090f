-- ===== src/Monitor/Busy.antt =====
-- A round of the monitor of a server on which somebody plays (src/monitor.rs).
use plexsoftware.Prelude.{ℕ, ◌<◌, ◌≡◌, ◌≢◌, refl, Bool, true, false, none, some, arith, ltb}
use plexsoftware.Config.{Config}
use plexsoftware.Server.State.{State, stopped, starting, started, stopping}
use plexsoftware.Server.Model.{
  Server, ServerStatus, update_status, detect, update_state, update_state_from, exchanged, announce,
  should_sleep, should_kill, store_status, update_last_active,
}
use plexsoftware.Server.Stop.{World}
use plexsoftware.Server.Invariant.Updates.{WellFormed}
use plexsoftware.Server.Invariant.Operations.{apply-WellFormed}
use plexsoftware.Server.Events.{polled, apply}
use plexsoftware.Monitor.{poll_server, report, sleep_if_idle, kill_if_late, monitor_round}

-- The server runs, and its process is as it was.
record IsUp (s t : Server) : Type 0 where
  up : t.state ≡ started
  pid : t.pid ≡ s.pid
  signals : t.signals ≡ s.signals

module _ (config : Config) (world : World) (status : ServerStatus) where
  detect-IsUp :
      (s : Server) (here : State)
      → s.state ≡ here
      → here ≢ stopping
      → IsUp s (detect config world.now here (some status) s)
  unfolding detect update_state update_state_from exchanged announce
  detect-IsUp s stopped is h = rw is (record { up = refl; pid = refl; signals = refl })
  detect-IsUp s starting is h = rw is (record { up = refl; pid = refl; signals = refl })
  detect-IsUp s started is h = record { up = is; pid = refl; signals = refl }
  detect-IsUp s stopping is h = absurd (h refl)

  -- What the update with a status that tells of players leaves.
  record IsBusy (s t : Server) : Type 0 where
    up : IsUp s t
    known : t.status ≡ some status
    active : t.last_active ≡ some world.now

  update_status-IsBusy :
      (s : Server)
      → s.state ≢ stopping
      → 0 < status.online
      → IsBusy s (update_status config world.now (some status) s)
  unfolding update_status store_status update_last_active
  update_status-IsBusy s goes busy =
      let on = detect-IsUp s s.state refl goes in
      let some_on : ltb 0 status.online ≡ true = ground (arith, busy) in
      rw some_on (record {
        up = record { up = on.up; pid = on.pid; signals = on.signals };
        known = refl;
        active = refl;
      })

  should_kill-none : (now : ℕ) (t : Server) → t.kill_at ≡ none → should_kill now t ≡ false
  unfolding should_kill
  should_kill-none now t e = ground (arith, e)

  should_sleep-IsBusy :
      (s t : Server) → IsBusy s t → 0 < status.online → should_sleep config world.now t ≡ false
  unfolding should_sleep
  should_sleep-IsBusy s t b busy = ground (arith, b.known, busy)

  started_deadline : (t : Server) → WellFormed config t → t.state ≡ started → t.kill_at ≡ none
  started_deadline t wf up = ground (arith, wf.deadline, up)

  -- A round of the monitor that is told of players leaves the server running, whatever its state
  -- was but stopping, sends its process no signal, and keeps the status and the time of the round
  -- as that of the last activity, if the server was well formed.
  pub busy_round :
      (pinged : Bool) (s : Server)
      → WellFormed config s
      → s.state ≢ stopping
      → 0 < status.online
      → let t = monitor_round config world (some status) pinged s in
        (t.state ≡ started)
        × (t.signals ≡ s.signals)
        × (t.pid ≡ s.pid)
        × (t.status ≡ some status)
        × (t.last_active ≡ some world.now)
  unfolding monitor_round poll_server report sleep_if_idle kill_if_late apply
  busy_round pinged s wf goes busy =
      let t = update_status config world.now (some status) s in
      let b = update_status-IsBusy s goes busy in
      let well = apply-WellFormed config (polled world.now (some status)) s wf in
      let awake = should_sleep-IsBusy s t b busy in
      let early = should_kill-none world.now t (started_deadline t well b.up.up) in
      rw (awake, early) (b.up.up, b.up.signals, b.up.pid, b.known, b.active)
