-- ===== src/Server/Events.antt =====
-- The operations on the shared server, in the order in which the tasks of the proxy happen to make
-- them: the monitor, the clients, the probe, the signal handler, the file watcher and the task
-- that waits for the process (src/server.rs and its callers).
use plexsoftware.Prelude.{ℕ, Bool, List, [], ◌∷◌, Option, some}
use plexsoftware.Config.{Config}
use plexsoftware.Mc.Ban.{BannedIps}
use plexsoftware.Mc.Whitelist.{Whitelist}
use plexsoftware.Server.Model.{
  Server, ServerStatus, JoinGameData, update_status, set_banned_ips, set_whitelist,
}
use plexsoftware.Server.Stop.{World, start, stop, force_kill}
use plexsoftware.Server.Process.{WaitResult, invoke_exit, invoke_cleanup}

pub data Event : Type 0 where
  polled : ℕ → Option ServerStatus → Event
  start_called stop_called force_killed : World → Event
  process_spawned : ℕ → Event
  process_ended : WaitResult → Event
  cleaned_up : World → Bool → Event
  bans_loaded : BannedIps → Event
  whitelist_loaded : Option Whitelist → Event
  probed : JoinGameData → Event
  payload_recorded : List (List ℕ) → Event

-- `process_spawned` is what a successful `invoke_spawn` does.
unfoldable pub apply : Config → Event → Server → Server
apply config (polled now status) s = update_status config now status s
apply config (start_called world) s = (start config world s).0
apply config (stop_called world) s = (stop config world s).0
apply config (force_killed world) s = (force_kill config world s).0
apply config (process_spawned pid) s = record s { pid = some pid }
apply config (process_ended result) s = (invoke_exit result s).0
apply config (cleaned_up world crashed) s = (invoke_cleanup config world crashed s).0
apply config (bans_loaded ips) s = set_banned_ips ips s
apply config (whitelist_loaded whitelist) s = set_whitelist whitelist s
apply config (probed game) s = record s { probed_join_game = some game }
apply config (payload_recorded payload) s = record s { forge_payload = payload }

unfoldable pub run : Config → List Event → Server → Server
unfolding apply
run config [] s = s
run config (e ∷ es) s = run config es (apply config e s)
