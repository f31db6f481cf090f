-- ===== src/Examples/Lifecycle.antt =====
-- The theorems on the server and its configuration, at concrete inputs.
use plexsoftware.Prelude.{
  ℕ, ◌<◌, ◌≡◌, ◌≢◌, ◌↔◌, ◌⊎◌, inl, refl, List, [], ◌∷◌, ◌++◌, none, some, true, false, ◌&&◌, arith,
  Text, any, length,
}
use plexsoftware.Prelude.Strings.{codes}
use plexsoftware.Config.Command.{
  Shell, command_parts, clean_args, java_bin, is_text, jar_flag, nogui_flag,
}
use plexsoftware.Config.Command.Parts.{command_parts_lem}
use plexsoftware.Config.Runtime.{runtime, runtime_ports, pow_16}
use plexsoftware.Mc.Ban.{BannedIp, BannedIps, load}
use plexsoftware.Mc.Uuid.{
  java_name_uuid_from_bytes, java_name_uuid_from_bytes_bits, byte_at, marked,
}
use plexsoftware.Monitor.{monitor_round}
use plexsoftware.Monitor.Busy.{busy_round}
use plexsoftware.Monitor.Ping.{silent_server_spawns_again}
use plexsoftware.Server.State.{starting, started, stopped, sigcont, sigstop}
use plexsoftware.Server.Model.{
  ServerStatus, default, update_state_from, should_kill, should_sleep, update_status,
}
use plexsoftware.Server.Stop.{start, stop, refused, spawned, unfrozen, returned}
use plexsoftware.Server.Process.{exited, invoke_cleanup}
use plexsoftware.Server.Events.{
  Event, start_called, process_spawned, polled, stop_called, process_ended, cleaned_up, run,
}
use plexsoftware.Server.Invariant.Updates.{WellFormed, default-WellFormed}
use plexsoftware.Server.Invariant.Operations.{run-WellFormed}
use plexsoftware.Server.Lifecycle.{start_lem, start-stop_frozen, invoke_cleanup_lem}
use plexsoftware.Server.Timers.{
  MaySleep, should_sleep_iff, update_status-not_idle, IsOverdue, should_kill-update_state_from,
}
use plexsoftware.Service.{no_header, proxy_header, not_none, route, forwarded}
use plexsoftware.Service.Routing.{MayPass, route_lem}
use plexsoftware.Proto.Client.{empty}
use plexsoftware.Status.Answer.{server_status}
use plexsoftware.Status.Shown.{server_status-update_status}
use plexsoftware.Examples.Data.{host, config, freezing, world_at, running, idle_status, dates}

-- A server that is started, comes up, is stopped and whose process then ends.
abbrev life : List Event
life =
    start_called (world_at 0)
    ∷ process_spawned 42
    ∷ polled 2000 (some idle_status)
    ∷ stop_called (world_at 9000)
    ∷ process_ended (exited none)
    ∷ cleaned_up (world_at 9500) false
    ∷ []

run-WellFormed_example : WellFormed config (run config life default)
run-WellFormed_example = run-WellFormed config life default (default-WellFormed config)

start_lem_example :
    ((default.state ≡ stopped)
      × (returned (start config (world_at 0) default).1 ≡ true)
      × ((start config (world_at 0) default).0.state ≡ starting))
    ⊎ ((default.state ≢ stopped) × (start config (world_at 0) default ≡ (default, refused)))
start_lem_example = start_lem config (world_at 0) default

start-stop_frozen_example :
    let (frozen, stopping_now) = stop freezing (world_at 5) running in
    let (woken, result) = start freezing (world_at 6) frozen in
    (stopping_now ≡ true)
    × (frozen.state ≡ stopped)
    × (result ≡ unfrozen)
    × (woken.state ≡ starting)
    × (woken.pid ≡ some 42)
    × (woken.signals ≡ (42, sigcont) ∷ (42, sigstop) ∷ [])
start-stop_frozen_example =
    start-stop_frozen freezing (world_at 5) (world_at 6) running 42 refl refl refl

invoke_cleanup_lem_example :
    ((true && config.server.wake_on_crash) ≡ true)
      × (returned (invoke_cleanup config (world_at 7) true running).1 ≡ true)
      × ((invoke_cleanup config (world_at 7) true running).0.state ≡ starting)
    ⊎ ((true && config.server.wake_on_crash) ≡ false)
      × ((invoke_cleanup config (world_at 7) true running).1 ≡ refused)
      × ((invoke_cleanup config (world_at 7) true running).0.state ≡ stopped)
invoke_cleanup_lem_example = invoke_cleanup_lem config (world_at 7) true running

should_sleep_iff_example :
    (should_sleep config 301000 running ≡ true) ↔ MaySleep config 301000 running
should_sleep_iff_example = should_sleep_iff config 301000 running

-- Two players are on the server.
abbrev busy_status : ServerStatus
busy_status = record idle_status { online = 2 }

update_status-not_idle_example :
    (should_sleep config 61000 (update_status config 1000 (some idle_status) default) ≡ false)
    × ((update_status config 1000 (some idle_status) default).state ≡ started)
update_status-not_idle_example =
    update_status-not_idle config 1000 idle_status 61000 default (inl refl) (inl (omega arith))

claimed : (update_state_from config 0 (some stopped) starting default).1 ≡ true
unfolding update_state_from
claimed = refl

should_kill-update_state_from_example :
    (should_kill 120000 (update_state_from config 0 (some stopped) starting default).0 ≡ true)
    ↔ IsOverdue config 0 120000 starting
should_kill-update_state_from_example =
    should_kill-update_state_from config 0 120000 (some stopped) starting default claimed

busy_round_example :
    let t = monitor_round config (world_at 2000) (some busy_status) false default in
    (t.state ≡ started)
    × (t.signals ≡ [])
    × (t.pid ≡ none)
    × (t.status ≡ some busy_status)
    × (t.last_active ≡ some 2000)
busy_round_example =
    busy_round config (world_at 2000) busy_status false default (default-WellFormed config)
      (λ e. ground (arith, e)) (omega arith)

silent_server_spawns_again_example :
    let t = monitor_round config (world_at 2000) none true running in
    (t.state ≡ stopped)
    × (t.pid ≡ some 42)
    × (t.signals ≡ [])
    × ((start config (world_at 3000) t).1 ≡ spawned)
silent_server_spawns_again_example =
    silent_server_spawns_again config (world_at 2000) (world_at 3000) true running refl refl

route_lem_example :
    (route config dates 0 (some 7) running ≡ forwarded no_header config.server.address) ↔ (
      MayPass config dates 0 7 running
      × (config.server.address ≡ config.server.address)
      × (no_header ≡ not_none proxy_header config.server.send_proxy_v2))
route_lem_example = route_lem config dates 0 7 running no_header config.server.address

-- Two entries for the address 7.
abbrev entry_of : Text → BannedIp
entry_of reason = record {
  ip = 7;
  created = none;
  source = none;
  expires = none;
  reason = some reason;
}

abbrev entries : List BannedIp
entries = entry_of (codes "first") ∷ entry_of (codes "second") ∷ []

abbrev loaded : BannedIps
loaded = record { ips = (7, entry_of (codes "second")) ∷ [] }

both_loaded : load (λ s. some entries) (some []) ≡ some loaded
unfolding load
both_loaded = refl

-- The variable SERVER_PORT is 25566.
abbrev shell : Shell
shell = record { var = λ key. some (codes "25566"); try_quote = λ s. some s }

runtime_ports_example :
    let made = runtime shell [] in
    (made.public.address.port ≢ made.server.address.port)
    × (made.public.address.port < pow_16)
    × (made.server.address.port < pow_16)
runtime_ports_example = runtime_ports shell []

command_parts_lem_example :
    (extra : List Text) × (command_parts shell (codes "-Xmx2G" ∷ [])
      ≡ java_bin ∷ (clean_args shell (codes "-Xmx2G" ∷ []) ++ extra))
    × (any (is_text jar_flag) (command_parts shell (codes "-Xmx2G" ∷ [])) ≡ true)
    × (any (is_text nogui_flag) (command_parts shell (codes "-Xmx2G" ∷ [])) ≡ true)
command_parts_lem_example = command_parts_lem shell (codes "-Xmx2G" ∷ [])

-- A digest of sixteen bytes.
abbrev digest : List ℕ → List ℕ
digest bytes = 255 ∷ 1 ∷ 2 ∷ 3 ∷ 4 ∷ 5 ∷ 255 ∷ 7 ∷ 255 ∷ 9 ∷ 10 ∷ 11 ∷ 12 ∷ 13 ∷ 14 ∷ 15 ∷ []

java_name_uuid_from_bytes_bits_example :
    let uuid = java_name_uuid_from_bytes digest [] in
    (length uuid ≡ 16) × (byte_at 6 uuid ≡ marked 6 255)
java_name_uuid_from_bytes_bits_example =
    java_name_uuid_from_bytes_bits digest [] 6 refl (ground arith)

server_status-update_status_example :
    server_status config host.icons host.icon empty
      (update_status config 2000 (some idle_status) default)
    ≡ idle_status
server_status-update_status_example =
    server_status-update_status config host.icons host.icon empty 2000 idle_status default
      (λ e. ground (arith, e))
