-- ===== src/Lobby/Connect.antt =====
-- src/lobby.rs: the lobby's own connection to the server.
use plexsoftware.Prelude.{
  ℕ, ◌==◌, ◌&&◌, Bool, true, false, List, [], Option, none, some, Outcome, ok, err, panic, ◌>>=◌,
  ◌>>◌, or_err, unwrap, assert, if◌then◌else◌, Run, then_run,
}
use plexsoftware.Prelude.Int.{eq_ℤ}
use plexsoftware.Config.{Config}
use plexsoftware.Forge.{respond_login_plugin_request}
use plexsoftware.Proto.Client.{
  Client, ClientInfo, login, play, state_eq, to_id, set_state, set_compression,
}
use plexsoftware.Proto.Packet.{RawPacket, Inbound}
use plexsoftware.Proto.Packet.Loop.{
  Step, go_on, leave, give, Exit, left, gave, LoopResult, packet_loop,
}
use plexsoftware.Proto.Login.{PluginRequest}
use plexsoftware.Proto.Play.Await.{join_game_loop}
use plexsoftware.Proto.Action.{Outbound, write_all, write_packet}
use plexsoftware.Proxy.{Stream, stream_proxy_header}
use plexsoftware.Server.Model.{JoinGameData}
use plexsoftware.Lobby.Guest.{LobbyCrates}

-- `tmp_client` and the writer to the server.
pub record Call : Type 0 where
  pub client : Client
  pub out : Outbound

abbrev pub call_client : Call → Client
call_client c = c.client

-- What is left of a loop over packets: its result, or an error behind its end.
abbrev pub given : {S R : Type 0} → Option (Outcome (Exit S R) × Inbound) → Run (R × Inbound)
given none = none
given (some (ok (gave r), i)) = some (ok (r, i))
given (some (ok (left s), i)) = some err
given (some (err, i)) = some err
given (some (panic, i)) = some panic

module _ (config : Config) (crates : LobbyCrates) where
  unfoldable pub compression_set : Call → RawPacket → Outcome (Step Call Call)
  compression_set c p = do
    threshold ← or_err (crates.shared.login.decode_set_compression p.bytes)
    ok (go_on (record c { client = set_compression threshold c.client }))

  unfoldable pub answer_request : Bool → Call → PluginRequest → Outcome Outbound
  answer_request true c request =
      respond_login_plugin_request crates.shared.wire crates.shared.login crates.shared.forge
        c.client request c.out
  answer_request false c request =
      write_packet crates.shared.wire crates.shared.login.plugin_response_id
        (crates.shared.login.encode_plugin_response
          (record { message_id = request.message_id; successful = false; response = [] }))
        c.client c.out

  unfoldable pub request_answered : Call → RawPacket → Outcome (Step Call Call)
  unfolding answer_request
  request_answered c p = do
    request ← or_err (crates.shared.login.decode_plugin_request p.bytes)
    out ← answer_request config.server.forge c request
    ok (go_on (record c { out = out }))

  unfoldable pub lobby_step : Call → RawPacket → List ℕ → Outcome (Step Call Call)
  unfolding compression_set request_answered
  lobby_step c p raw =
      let in_login = state_eq c.client.state login in
      if in_login && p.id == crates.shared.login.set_compression_id
      then compression_set c p
      else if in_login && p.id == crates.shared.login.encryption_request_id
      then ok (leave c)
      else if in_login && p.id == crates.shared.login.plugin_request_id
      then request_answered c p
      else if in_login && p.id == crates.shared.login.login_success_id
      then ok (give (record c { client = set_state play c.client }))
      else if in_login && p.id == crates.shared.login.disconnect_id
      then ok (leave c)
      else ok (go_on c)

  unfoldable pub lobby_loop :
      ℕ → Call → Inbound → LoopResult crates.shared.wire call_client lobby_step
  lobby_loop fuel c i = packet_loop crates.shared.wire call_client lobby_step fuel c i

  -- `send_proxy_v2`.
  unfoldable pub announced : Bool → Stream → Outbound → Outcome Outbound
  announced false inbound out = ok out
  announced true inbound out = do
    header ← stream_proxy_header crates.header inbound
    write_all (ok header) out

  -- The handshake of the client is passed on; without one, or with one for another state, the code
  -- panics.
  unfoldable pub introduced : ClientInfo → Client → Outbound → Outcome Outbound
  introduced info client out = do
    handshake ← unwrap info.handshake
    assert (eq_ℤ handshake.next_state (to_id login))
    shaken ←
        write_packet crates.shared.wire crates.shared.login.handshake_id
          (crates.shared.login.encode_handshake handshake) client out
    name ← or_err info.username
    write_packet crates.shared.wire crates.shared.login.login_start_id
        (crates.shared.login.encode_login_start name) client shaken

  -- `connected` is the stream to the server: the client for its own address, what it will read, and
  -- its writer. On fuel for the loop.
  unfoldable pub connect_to_server_no_timeout :
      ℕ → ClientInfo → Stream → Option (Client × Inbound × Outbound) → Run (Call × Inbound)
  unfolding announced introduced lobby_loop
  connect_to_server_no_timeout fuel info inbound none = some err
  connect_to_server_no_timeout fuel info inbound (some (client, i, out)) =
      let dialling = set_state login client in
      let opened =
        (announced config.server.send_proxy_v2 inbound out >>= introduced info dialling) in
      then_run (some opened)
        (λ ready. given (lobby_loop fuel (record { client = dialling; out = ready }) i))

  unfoldable pub wait_for_server_join_game :
      ℕ → ClientInfo → Client → Inbound → Run (JoinGameData × Inbound)
  unfolding join_game_loop
  wait_for_server_join_game fuel info client i =
      given (join_game_loop crates.shared.play info crates.shared.wire fuel client i)
