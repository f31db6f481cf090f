-- ===== src/Server/Model.antt =====
-- The record `Server` of src/server.rs and the operations that touch it alone.
use plexsoftware.Prelude.{
  ℕ, ◌+◌, ◌-◌, ◌*◌, Bool, true, false, not, List, [], ◌∷◌, Option, none, some, Text, ltb, leb,
  if◌then◌else◌, map_some, unwrap_or, filter_some,
}
use plexsoftware.Prelude.Int.{ℤ}
use plexsoftware.Config.{Config}
use plexsoftware.Mc.Ban.{BannedIps, BannedIp, Dates}
use plexsoftware.Mc.Ban
use plexsoftware.Mc.Whitelist.{Whitelist}
use plexsoftware.Mc.Whitelist
use plexsoftware.Server.State.{State, Signal, stopped, starting, started, stopping, eq_state}

-- minecraft_protocol's answer to a status request; a player of the sample is kept as text.
pub record ServerStatus : Type 0 where
  pub version_name : Text
  pub version_protocol : ℕ
  pub online : ℕ
  pub max : ℕ
  pub sample : List Text
  pub description : Text
  pub favicon : Option Text

-- src/proto/packets/play/join_game.rs. A `CompoundTag` is kept by its encoding.
pub record JoinGameData : Type 0 where
  pub hardcore : Option Bool
  pub game_mode : Option ℕ
  pub previous_game_mode : Option ℕ
  pub world_names : Option (List Text)
  pub dimension : Option (List ℕ)
  pub dimension_codec : Option (List ℕ)
  pub world_name : Option Text
  pub hashed_seed : Option ℤ
  pub max_players : Option ℤ
  pub view_distance : Option ℤ
  pub reduced_debug_info : Option Bool
  pub enable_respawn_screen : Option Bool
  pub is_debug : Option Bool
  pub is_flat : Option Bool

-- An `Instant` is in milliseconds. The watch channel is the values that were sent, the last one
-- first: a receiver cloned from the server's own has seen none. `signals` is no field of the
-- source: it records the signals sent to processes, the last one first.
pub record Server : Type 0 where
  pub state : State
  pub sent : List State
  pub pid : Option ℕ
  pub status : Option ServerStatus
  pub last_active : Option ℕ
  pub keep_online_until : Option ℕ
  pub kill_at : Option ℕ
  pub banned_ips : BannedIps
  pub whitelist : Option Whitelist
  pub rcon_last_stop : Option ℕ
  pub probed_join_game : Option JoinGameData
  pub forge_payload : List (List ℕ)
  pub signals : List (ℕ × Signal)

abbrev pub default : Server
default = record {
  state = stopped;
  sent = [];
  pid = none;
  status = none;
  last_active = none;
  keep_online_until = none;
  kill_at = none;
  banned_ips = record { ips = [] };
  whitelist = none;
  rcon_last_stop = none;
  probed_join_game = none;
  forge_payload = [];
  signals = [];
}

-- `Duration::from_secs`, in milliseconds.
abbrev pub from_secs : ℕ → ℕ
from_secs n = n * 1000

unfoldable pub update_last_active : ℕ → Server → Server
update_last_active now s = record s { last_active = some now }

unfoldable pub keep_online_for : ℕ → Option ℕ → Server → Server
keep_online_for now duration s = record s {
  keep_online_until = map_some (λ d. now + from_secs d) (filter_some (λ d. ltb 0 d) duration);
}

-- When the server is killed that does not get out of a state.
unfoldable pub kill_deadline : Config → ℕ → State → Option ℕ
kill_deadline config now starting =
    if ltb 0 config.server.start_timeout
    then some (now + from_secs config.server.start_timeout)
    else none
kill_deadline config now stopping =
    if ltb 0 config.server.stop_timeout
    then some (now + from_secs config.server.stop_timeout)
    else none
kill_deadline config now stopped = none
kill_deadline config now started = none

module _ (config : Config) (now : ℕ) where
  -- `update_state_from` behind the exchange of the cell, which held `old`.
  unfoldable pub announce : State → Server → Server
  unfolding kill_deadline update_last_active keep_online_for
  announce new s =
      let told = record s { sent = new ∷ s.sent; kill_at = kill_deadline config now new } in
      if eq_state new started
      then keep_online_for now (some config.time.min_online_time) (update_last_active now told)
      else told

  unfoldable pub exchanged : State → State → Server → Server × Bool
  unfolding announce
  exchanged old new s =
      let t = record s { state = new } in
      if eq_state old new then (t, false) else (announce new t, true)

  -- With `from` a compare-and-exchange, without it a swap.
  unfoldable pub update_state_from : Option State → State → Server → Server × Bool
  unfolding exchanged
  update_state_from none new s = exchanged s.state new s
  update_state_from (some from) new s =
      if eq_state s.state from then exchanged s.state new s else (s, false)

  unfoldable pub update_state : State → Server → Server × Bool
  unfolding update_state_from
  update_state new s = update_state_from none new s

  -- The first `match` of `update_status`.
  unfoldable pub detect : State → Option ServerStatus → Server → Server
  unfolding update_state
  detect stopped (some status) s = (update_state started s).0
  detect starting (some status) s = (update_state started s).0
  detect started none s = (update_state stopped s).0
  detect _ _ s = s

  unfoldable pub store_status : Option ServerStatus → Server → Server
  unfolding update_last_active
  store_status none s = s
  store_status (some status) s =
      let t = if ltb 0 status.online then update_last_active now s else s in
      record t { status = some status }

  unfoldable pub update_status : Option ServerStatus → Server → Server
  unfolding detect store_status
  update_status status s = store_status status (detect s.state status s)

  unfoldable pub idle_for_long : Option ℕ → Bool
  idle_for_long none = false
  idle_for_long (some last_idle) = leb (from_secs config.time.sleep_after) (now - last_idle)

  unfoldable pub should_sleep : Server → Bool
  unfolding idle_for_long
  should_sleep s =
      if not (eq_state s.state started)
      then false
      else if unwrap_or (map_some (λ (status : ServerStatus). ltb 0 status.online) s.status) false
      then false
      else if unwrap_or (map_some (λ i. leb now i) s.keep_online_until) false
      then false
      else idle_for_long s.last_active

unfoldable pub should_kill : ℕ → Server → Bool
should_kill now s = unwrap_or (map_some (λ t. leb t now) s.kill_at) false

unfoldable pub is_banned_ip : Dates → ℕ → ℕ → Server → Bool
is_banned_ip dates now ip s = Ban.is_banned dates now s.banned_ips ip

unfoldable pub ban_entry : ℕ → Server → Option BannedIp
ban_entry ip s = Ban.get s.banned_ips ip

unfoldable pub is_whitelisted : Text → Server → Bool
is_whitelisted username s =
    unwrap_or (map_some (λ w. Whitelist.is_whitelisted w username) s.whitelist) true

unfoldable pub set_banned_ips : BannedIps → Server → Server
set_banned_ips ips s = record s { banned_ips = ips }

unfoldable pub set_whitelist : Option Whitelist → Server → Server
set_whitelist whitelist s = record s { whitelist = whitelist }
