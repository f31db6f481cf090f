-- ===== src/Lobby/Guest.antt =====
-- src/lobby.rs: what the lobby writes to its client.
use plexsoftware.Prelude.{
  ℕ, List, [], ◌∷◌, Option, none, some, Outcome, ok, ◌>>=◌, Text, is_empty, if◌then◌else◌,
}
use plexsoftware.Prelude.Int.{ℤ}
use plexsoftware.Prelude.Strings.{trim}
use plexsoftware.Config.{Config}
use plexsoftware.Mc.Dimension.{Nbt}
use plexsoftware.Mc.Uuid.{offline_player_uuid}
use plexsoftware.Proto.Client.{Client, ClientInfo, set_compression}
use plexsoftware.Proto.Login.{compression_threshold}
use plexsoftware.Proto.Action.{Outbound, write_packet}
use plexsoftware.Proto.Play.{
  send_server_brand, send_player_pos, send_time_update, send_keep_alive, send_sound,
}
use plexsoftware.Proto.Play.Title.{send_title}
use plexsoftware.Proto.Play.World.{send_join_game}
use plexsoftware.Proxy.{HeaderCodec}
use plexsoftware.Probe.{Crates}
use plexsoftware.Server.Model.{Server}

-- The crates that the lobby calls.
pub record LobbyCrates : Type 0 where
  pub shared : Crates
  pub nbt : Nbt
  pub md5 : List ℕ → List ℕ
  pub header : HeaderCodec

module _ (crates : LobbyCrates) where
  unfoldable pub respond_set_compression : Client → ℤ → Outbound → Outcome Outbound
  respond_set_compression client threshold out =
      write_packet crates.shared.wire crates.shared.login.set_compression_id
        (crates.shared.login.encode_set_compression threshold) client out

  unfoldable pub respond_login_success : Client → Text → Outbound → Outcome Outbound
  respond_login_success client name out =
      write_packet crates.shared.wire crates.shared.login.login_success_id
        (crates.shared.login.encode_login_success (offline_player_uuid crates.md5 name) name) client
        out

  -- The client whose login succeeds.
  abbrev pub compressed : Client → Client
  compressed client = set_compression compression_threshold client

  -- Compression is turned on once the client has been told, and then the login succeeds.
  unfoldable pub log_in : Client → Text → Outbound → Outcome Outbound
  unfolding respond_set_compression respond_login_success
  log_in client name out = do
    told ← respond_set_compression client compression_threshold out
    respond_login_success (compressed client) name told

  module _ (client : Client) (info : ClientInfo) where
    -- The four writers of the play packets, for this client.
    unfoldable pub play_sound : Text → Outbound → Outcome Outbound
    play_sound sound_name out = if is_empty (trim sound_name) then ok out else do
      moved ← send_player_pos crates.shared.wire crates.shared.play client info out
      send_sound crates.shared.wire crates.shared.play client info sound_name moved

    unfoldable pub play_lobby_ready_sound : Option Text → Outbound → Outcome Outbound
    unfolding play_sound
    play_lobby_ready_sound none out = ok out
    play_lobby_ready_sound (some sound_name) out = play_sound sound_name out

    unfoldable pub send_lobby_play_packets : Server → Outbound → Outcome Outbound
    send_lobby_play_packets s out = do
      joined ← send_join_game crates.nbt crates.shared.wire crates.shared.play client info s out
      branded ← send_server_brand crates.shared.wire crates.shared.play client info joined
      moved ← send_player_pos crates.shared.wire crates.shared.play client info branded
      send_time_update crates.shared.wire crates.shared.play client info moved

    unfoldable pub keep_alive_round : Config → ℕ → Outbound → Outcome Outbound
    keep_alive_round config id out = do
      alive ← send_keep_alive crates.shared.wire crates.shared.play client info id out
      send_title crates.shared.wire crates.shared.play client info config.join.lobby.message alive

    -- One round for each id that the counter gives.
    unfoldable pub keep_alive_loop : Config → List ℕ → Outbound → Outcome Outbound
    unfolding keep_alive_round
    keep_alive_loop config [] out = ok out
    keep_alive_loop config (id ∷ ids) out = do
      next ← keep_alive_round config id out
      keep_alive_loop config ids next
