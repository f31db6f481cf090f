-- ===== src/Probe.antt =====
-- src/probe.rs: the probe starts the server once, logs in to it, and keeps what it answers.
pub mod Answers
pub mod Ending
pub mod LoggedIn
pub mod Payload
pub mod Stored
pub mod Told
use plexsoftware.Prelude.{
  ℕ, ◌==◌, ◌&&◌, Bool, true, false, not, List, [], ◌∷◌, ◌++◌, Option, none, some, Outcome, ok, err,
  panic, ◌>>=◌, or_err, map_some, Text, if◌then◌else◌,
}
use plexsoftware.Prelude.Int.{ℤ, as_i32}
use plexsoftware.Prelude.Strings.{codes}
use plexsoftware.Types.{Wire}
use plexsoftware.Config.{Config}
use plexsoftware.Forge.{ForgeCodec, status_magic, respond_login_plugin_request}
use plexsoftware.Proto.Client.{
  Client, ClientInfo, empty, login, play, state_eq, to_id, set_state, set_compression, Handshake,
}
use plexsoftware.Proto.Packet.{RawPacket, Inbound}
use plexsoftware.Proto.Packet.Loop.{
  Step, go_on, leave, give, Exit, left, gave, LoopResult, packet_loop,
}
use plexsoftware.Proto.Login.{LoginCodec, PluginRequest}
use plexsoftware.Proto.Play.{PlayCodec}
use plexsoftware.Proto.Play.Await.{same_client, join_game_step, join_game_loop}
use plexsoftware.Proto.Action.{Outbound, write_packet}
use plexsoftware.Server.State.{State, stopped, starting, started, stopping}
use plexsoftware.Server.Model.{Server, JoinGameData}
use plexsoftware.Server.Stop.{World, start}

-- The crates' codecs, and how an address is written.
pub record Crates : Type 0 where
  pub wire : Wire
  pub login : LoginCodec
  pub forge : ForgeCodec
  pub play : PlayCodec
  pub show_ip : ℕ → Text

abbrev pub probe_user : Text
probe_user = codes "_plexpaper_probe"

-- The states that the receiver sees before the timeout.
unfoldable pub wait_until_online : List State → Bool
wait_until_online [] = false
wait_until_online (starting ∷ later) = wait_until_online later
wait_until_online (started ∷ later) = true
wait_until_online (stopping ∷ later) = false
wait_until_online (stopped ∷ later) = false

-- `tmp_client`, the writer and `forge_payload`.
pub record Dial : Type 0 where
  pub client : Client
  pub out : Outbound
  pub payload : List (List ℕ)

abbrev pub dial_client : Dial → Client
dial_client d = d.client

module _ (config : Config) (crates : Crates) where
  abbrev pub probe_info : ClientInfo
  probe_info = record empty { protocol = some config.public.protocol }

  abbrev pub probe_handshake : Handshake
  probe_handshake = record {
    protocol_version = as_i32 config.public.protocol;
    server_addr =
        if config.server.forge
        then crates.show_ip config.server.address.ip ++ status_magic
        else crates.show_ip config.server.address.ip;
    server_port = config.server.address.port;
    next_state = to_id login;
  }

  unfoldable pub introduce : Client → Outbound → Outcome Outbound
  introduce client out = do
    shaken ←
        write_packet crates.wire crates.login.handshake_id
          (crates.login.encode_handshake probe_handshake) client out
    write_packet crates.wire crates.login.login_start_id
        (crates.login.encode_login_start probe_user) client shaken

  unfoldable pub on_set_compression : Dial → RawPacket → Outcome (Step Dial Dial)
  on_set_compression d p = do
    threshold ← or_err (crates.login.decode_set_compression p.bytes)
    ok (go_on (record d { client = set_compression threshold d.client }))

  -- With Forge the request is recorded and answered, without it the answer is that it failed.
  unfoldable pub answer_plugin_request : Bool → Dial → PluginRequest → List ℕ → Outcome Dial
  answer_plugin_request true d request raw = do
    out ← respond_login_plugin_request crates.wire crates.login crates.forge d.client request d.out
    ok (record d { out = out; payload = d.payload ++ raw ∷ [] })
  answer_plugin_request false d request raw = do
    out ←
        write_packet crates.wire crates.login.plugin_response_id
          (crates.login.encode_plugin_response
            (record { message_id = request.message_id; successful = false; response = [] }))
          d.client d.out
    ok (record d { out = out })

  unfoldable pub on_plugin_request : Dial → RawPacket → List ℕ → Outcome (Step Dial Dial)
  unfolding answer_plugin_request
  on_plugin_request d p raw = do
    request ← or_err (crates.login.decode_plugin_request p.bytes)
    answered ← answer_plugin_request config.server.forge d request raw
    ok (go_on answered)

  unfoldable pub probe_step : Dial → RawPacket → List ℕ → Outcome (Step Dial Dial)
  unfolding on_set_compression on_plugin_request
  probe_step d p raw =
      if state_eq d.client.state login && p.id == crates.login.set_compression_id
      then on_set_compression d p
      else if state_eq d.client.state login && p.id == crates.login.plugin_request_id
      then on_plugin_request d p raw
      else if state_eq d.client.state login && p.id == crates.login.login_success_id
      then ok (give (record d { client = set_state play d.client }))
      else ok (go_on d)

  unfoldable pub probe_loop : ℕ → Dial → Inbound → LoopResult crates.wire dial_client probe_step
  probe_loop fuel d i = packet_loop crates.wire dial_client probe_step fuel d i

  unfoldable pub wait_for_server_join_game :
      ℕ
      → Client
      → Inbound
      → LoopResult crates.wire same_client (join_game_step crates.play probe_info)
  unfolding join_game_loop
  wait_for_server_join_game fuel client i =
      join_game_loop crates.play probe_info crates.wire fuel client i

  -- What is known once the server has told of its world.
  unfoldable pub with_join_game :
      List (List ℕ)
      → Option (Outcome (Exit Client JoinGameData) × Inbound)
      → Option (Outcome (JoinGameData × List (List ℕ)))
  with_join_game payload none = none
  with_join_game payload (some (ok (gave game), i)) = some (ok (game, payload))
  with_join_game payload (some (ok (left client), i)) = some err
  with_join_game payload (some (err, i)) = some err
  with_join_game payload (some (panic, i)) = some panic

  unfoldable pub after_login :
      ℕ
      → Option (Outcome (Exit Dial Dial) × Inbound)
      → Option (Outcome (JoinGameData × List (List ℕ)))
  unfolding with_join_game
  after_login fuel none = none
  after_login fuel (some (ok (gave d), i)) =
      with_join_game d.payload (wait_for_server_join_game fuel d.client i)
  after_login fuel (some (ok (left d), i)) = some err
  after_login fuel (some (err, i)) = some err
  after_login fuel (some (panic, i)) = some panic

  unfoldable pub dialled :
      ℕ → Client → Inbound → Outcome Outbound → Option (Outcome (JoinGameData × List (List ℕ)))
  unfolding after_login
  dialled fuel client i (ok out) =
      after_login fuel (probe_loop fuel (record { client = client; out = out; payload = [] }) i)
  dialled fuel client i err = some err
  dialled fuel client i panic = some panic

  -- `connected` is the stream to the server: the client for its own address, what it will read, and
  -- its writer. On fuel for each loop.
  unfoldable pub connect_to_server_no_timeout :
      ℕ → Option (Client × Inbound × Outbound) → Option (Outcome (JoinGameData × List (List ℕ)))
  unfolding dialled introduce
  connect_to_server_no_timeout fuel none = some err
  connect_to_server_no_timeout fuel (some (client, i, out)) =
      dialled fuel (set_state login client) i (introduce (set_state login client) out)

  unfoldable pub store_probe : Outcome (JoinGameData × List (List ℕ)) → Server → Server × Bool
  store_probe (ok (game, payload)) s =
      (record s { probed_join_game = some game; forge_payload = payload }, true)
  store_probe err s = (s, false)
  store_probe panic s = (s, false)

  -- `connect_to_server` under its timeout, and what is kept of it.
  unfoldable pub connected_and_stored :
      ℕ → Bool → Option (Client × Inbound × Outbound) → Server → Option (Server × Bool)
  unfolding connect_to_server_no_timeout store_probe
  connected_and_stored fuel in_time connected s =
      if in_time
      then map_some (λ r. store_probe r s) (connect_to_server_no_timeout fuel connected)
      else some (s, false)

  -- `seen` are the states that the receiver sees in time, `others` is what other tasks do to the
  -- server meanwhile, and `in_time` says whether the timeouts of the connection hold.
  unfoldable pub probe :
      World
      → (Server → Server)
      → List State
      → ℕ
      → Bool
      → Option (Client × Inbound × Outbound)
      → Server
      → Option (Server × Bool)
  unfolding wait_until_online connected_and_stored
  probe world others seen fuel in_time connected s =
      let begun = others (start config world s).0 in
      if wait_until_online seen
      then connected_and_stored fuel in_time connected begun
      else some (begun, false)
