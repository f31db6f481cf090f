-- ===== src/Monitor/Ping.antt =====
-- What a round of the monitor makes of the server (src/monitor.rs).
use plexsoftware.Prelude.{
  ◌≡◌, ◌∙◌, ap, ◌∷◌, refl, Bool, true, false, Option, none, Outcome, err, arith,
}
use plexsoftware.Config.{Config}
use plexsoftware.Server.State.{State, started, stopped}
use plexsoftware.Server.Model.{
  Server, ServerStatus, update_status, detect, update_state, update_state_from, exchanged, announce,
  kill_deadline, should_sleep, should_kill, store_status,
}
use plexsoftware.Server.Stop.{World, start, spawned}
use plexsoftware.Monitor.{poll_server, report, sleep_if_idle, kill_if_late, monitor_round}

module _ (config : Config) (world : World) where
  -- The record of a started server that was found to be down.
  abbrev down : Server → Server
  down s = record s { state = stopped; sent = stopped ∷ s.sent; kill_at = none }

  poll_silent : (pinged : Bool) (s : Server) → poll_server none pinged s ≡ err
  unfolding poll_server
  poll_silent true s = ground arith
  poll_silent false s = ground arith

  found_down : (s : Server) → s.state ≡ started → update_status config world.now none s ≡ down s
  unfolding update_status store_status detect update_state update_state_from exchanged announce
      kill_deadline
  found_down s up =
      ap (λ (here : State). detect config world.now here none s) up
      ∙ ap (λ (here : State). (exchanged config world.now here stopped s).0) up

  round_silent :
      (pinged : Bool) (s : Server)
      → s.state ≡ started
      → monitor_round config world none pinged s ≡ down s
  unfolding monitor_round report sleep_if_idle kill_if_late should_sleep should_kill
  round_silent pinged s up =
      ap
        (λ (r : Outcome (Option ServerStatus)).
          kill_if_late config world (sleep_if_idle config world (report config world r s)))
        (poll_silent pinged s)
      ∙ ap (λ (t : Server). kill_if_late config world (sleep_if_idle config world t))
          (found_down s up)

  start-down :
      (later : World) (s : Server)
      → config.server.freeze_process ≡ false
      → (start config later (down s)).1 ≡ spawned
  unfolding start update_state_from exchanged
  start-down later s thaws = simp thaws

  -- A started server that does not answer a status request is stopped by the round as far as the
  -- proxy knows, even if it answers the ping; its process is sent no signal and stays known, and
  -- without freezing the next `start` spawns another one.
  pub silent_server_spawns_again :
      (later : World) (pinged : Bool) (s : Server)
      → s.state ≡ started
      → config.server.freeze_process ≡ false
      → let t = monitor_round config world none pinged s in
        (t.state ≡ stopped)
        × (t.pid ≡ s.pid)
        × (t.signals ≡ s.signals)
        × ((start config later t).1 ≡ spawned)
  silent_server_spawns_again later pinged s up thaws =
      rw (round_silent pinged s up) (refl, refl, refl, start-down later s thaws)
