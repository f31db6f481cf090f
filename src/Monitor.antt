-- ===== src/Monitor.antt =====
-- src/monitor.rs: the task that watches the server, up to the bytes that the server answers with;
-- what it is asked is in Monitor/Asking.
pub mod Asking
pub mod Busy
pub mod Ping
pub mod Waiting
use plexsoftware.Prelude.{
  ℕ, zero, suc, ◌==◌, Bool, true, false, Option, none, some, Outcome, ok, err, panic, ◌>>◌, ◌>>=◌,
  or_err, if◌then◌else◌,
}
use plexsoftware.Types.{Wire}
use plexsoftware.Config.{Config}
use plexsoftware.Proto.Client.{Client}
use plexsoftware.Proto.Packet.{RawPacket, Inbound, ReadResult, read_packet}
use plexsoftware.Proto.Action.{Packets}
use plexsoftware.Server.State.{started, eq_state}
use plexsoftware.Server.Model.{Server, ServerStatus, update_status, should_sleep, should_kill}
use plexsoftware.Server.Stop.{World, stop, force_kill}

-- `do_ping` by its success.
abbrev pub ping : Bool → Outcome (Unit {0})
ping true = ok tt
ping false = err

-- `fetched` is the result of `fetch_status`, and `pinged` whether `do_ping` succeeds.
unfoldable pub poll_server : Option ServerStatus → Bool → Server → Outcome (Option ServerStatus)
poll_server (some status) pinged s = ok (some status)
poll_server none pinged s = if eq_state s.state started then (do ping pinged; err) else err

module _ (config : Config) (world : World) where
  unfoldable pub report : Outcome (Option ServerStatus) → Server → Server
  report (ok (some status)) s = update_status config world.now (some status) s
  report (ok none) s = s
  report err s = update_status config world.now none s
  report panic s = s

  unfoldable pub sleep_if_idle : Server → Server
  sleep_if_idle s = if should_sleep config world.now s then (stop config world s).0 else s

  unfoldable pub kill_if_late : Server → Server
  kill_if_late s = if should_kill world.now s then (force_kill config world s).0 else s

  -- One round of the loop of `monitor_server`.
  unfoldable pub monitor_round : Option ServerStatus → Bool → Server → Server
  unfolding poll_server report sleep_if_idle kill_if_late
  monitor_round fetched pinged s =
      kill_if_late (sleep_if_idle (report (poll_server fetched pinged s) s))

module _ (w : Wire) (packets : Packets) (client : Client) where
  unfoldable pub on_status_packet :
      (Inbound → Option (Outcome ServerStatus)) → ReadResult → Option (Outcome ServerStatus)
  on_status_packet rest (ok (some (p, raw)), s) =
      let more = rest s in
      if p.id == packets.client_status
      then some (or_err (packets.decode_status_response p.bytes))
      else more
  on_status_packet rest (ok none, s) = some err
  on_status_packet rest (err, s) = rest s
  on_status_packet rest (panic, s) = some panic

  -- On fuel; `none` when it runs out.
  unfoldable pub wait_for_status : ℕ → Inbound → Option (Outcome ServerStatus)
  unfolding on_status_packet
  wait_for_status zero s = none
  wait_for_status (suc fuel) s = on_status_packet (wait_for_status fuel) (read_packet w client s)

  unfoldable pub on_pong : ℕ → Option (Outcome (Unit {0})) → Option ℕ → Option (Outcome (Unit {0}))
  on_pong token more none = some err
  on_pong token more (some time) = if time == token then some (ok tt) else more

  unfoldable pub on_ping_packet :
      ℕ → (Inbound → Option (Outcome (Unit {0}))) → ReadResult → Option (Outcome (Unit {0}))
  unfolding on_pong
  on_ping_packet token rest (ok (some (p, raw)), s) =
      let more = rest s in
      if p.id == packets.client_ping
      then on_pong token more (packets.decode_ping_response p.bytes)
      else more
  on_ping_packet token rest (ok none, s) = some err
  on_ping_packet token rest (err, s) = rest s
  on_ping_packet token rest (panic, s) = some panic

  unfoldable pub wait_for_ping : ℕ → ℕ → Inbound → Option (Outcome (Unit {0}))
  unfolding on_ping_packet
  wait_for_ping token zero s = none
  wait_for_ping token (suc fuel) s =
      on_ping_packet token (wait_for_ping token fuel) (read_packet w client s)
