-- ===== src/Examples/Dialogue.antt =====
-- The theorems on the lobby, the probe, the proxy and the loop over packets at concrete inputs.
use plexsoftware.Prelude.{
  ℕ, ◌≡◌, ◌≢◌, ◌<◌, refl, sym, ap, ◌∙◌, List, [], ◌∷◌, ◌++◌, Option, Bool, none, some, Outcome, ok,
  err, panic, true, false, length, arith, Returns, Run,
}
use plexsoftware.Proto.Client.{Client, login, set_state}
use plexsoftware.Proto.Action.{Outbound}
use plexsoftware.Proto.Packet.{RawPacket, Inbound, chunk, encode_with_len}
use plexsoftware.Proto.Packet.Reading.Chunks.{remaining, IsClean}
use plexsoftware.Service.{proxy_header}
use plexsoftware.Proxy.{proxy_with_queue}
use plexsoftware.Proto.Play.Await.{same_client, join_game_step, join_game_goes_on}
use plexsoftware.Proto.Packet.Loop.{left, gave, packet_loop}
use plexsoftware.Proto.Packet.Loop.Meaning.{Frames, meaning, Sends, packet_loop_refines}
use plexsoftware.Proxy.Order.{sent_bytes, header_bytes, proxy_with_queue_sent}
use plexsoftware.Forge.Replay.{in_time, replay_login_payload}
use plexsoftware.Forge.Replayed.{frames, replay_login_payload_lem}
use plexsoftware.Server.State.{starting, started}
use plexsoftware.Server.Model.{Server, JoinGameData}
use plexsoftware.Server.Stop.{start}
use plexsoftware.Probe.{connect_to_server_no_timeout, wait_until_online, probe}
use plexsoftware.Probe.Ending.{probe_connection_returns}
use plexsoftware.Probe.Stored.{IsAnswered, probe_stores}
use plexsoftware.Lobby.{Served, relayed, ended, Relay, serve}
use plexsoftware.Lobby.Ending.{serve-Returns}
use plexsoftware.Lobby.Moved.{IsMoved}
use plexsoftware.Lobby.Moving.{serve_moves}
use plexsoftware.Examples.Codec.{wire, laws}
use plexsoftware.Examples.Data.{world_at, plain_client}
use plexsoftware.Examples.Crates.{
  login_codec, play_codec, crates, lobby_crates, header_codec, forge_config, fresh, forge_server,
  stopped_server, probed_server, guest, guest_info, guest_stream, guest_inbound, stay,
}

is_relayed : Run Served → Bool
is_relayed (some (ok (relayed r))) = true
is_relayed _ = false

found_relay : (o : Run Served) → is_relayed o ≡ true → (r : Relay) × (o ≡ some (ok (relayed r)))
unfolding is_relayed
found_relay (some (ok (relayed r))) e = (r, refl)
found_relay (some (ok ended)) e = ground (arith, e)
found_relay (some err) e = ground (arith, e)
found_relay (some panic) e = ground (arith, e)
found_relay none e = ground (arith, e)

serve-Returns_example : Returns (
    serve forge_config lobby_crates guest_info stay 20 guest guest_stream probed_server
      guest_inbound)
serve-Returns_example =
    serve-Returns forge_config lobby_crates guest_info stay 20 (omega arith) guest guest_stream
      probed_server guest_inbound (omega arith)

moved :
    (r : Relay) × (serve forge_config lobby_crates guest_info stay 20 guest guest_stream
        probed_server guest_inbound
      ≡ some (ok (relayed r)))
unfolding is_relayed serve plexsoftware.Proto.Packet.Loop.packet_loop
    plexsoftware.Proto.Packet.read_packet plexsoftware.Proto.Packet.fill
    plexsoftware.Types.read_var_int plexsoftware.Examples.Codec.decode
    plexsoftware.Examples.Codec.groups plexsoftware.Proto.Packet.decode_with_len
    plexsoftware.Proto.Packet.slice_from plexsoftware.Proto.Packet.slice_to
    plexsoftware.Proto.Packet.decode_without_len plexsoftware.Proto.Packet.read_packet_id_data
    plexsoftware.Lobby.serve_step replay_login_payload plexsoftware.Proto.Action.write_all
    plexsoftware.Proto.Action.write_packet plexsoftware.Proto.Packet.encode_with_len
    plexsoftware.Proto.Packet.encode_without_len plexsoftware.Proto.Packet.encode_compressed
    plexsoftware.Proto.Packet.encode_uncompressed plexsoftware.Types.encode_var_int
    plexsoftware.Lobby.Guest.log_in plexsoftware.Lobby.Guest.send_lobby_play_packets
    plexsoftware.Lobby.Guest.keep_alive_loop plexsoftware.Lobby.Guest.play_lobby_ready_sound
    plexsoftware.Proto.Play.World.send_join_game plexsoftware.Proto.Play.World.send_respawn
    plexsoftware.Mc.Dimension.lobby_dimension plexsoftware.Proto.Play.send_server_brand
    plexsoftware.Proto.Play.send_player_pos plexsoftware.Proto.Play.send_time_update
    plexsoftware.Proto.Play.send_keep_alive plexsoftware.Proto.Play.send_sound
    plexsoftware.Proto.Play.write_play plexsoftware.Proto.Play.version_of
    plexsoftware.Proto.Play.is_packet plexsoftware.Proto.Play.from_packet
    plexsoftware.Proto.Play.Title.send_title plexsoftware.Proto.Client.protocol
    plexsoftware.Proto.Client.set_state plexsoftware.Proto.Client.set_compression
    plexsoftware.Proto.Client.to_id plexsoftware.Lobby.Connect.connect_to_server_no_timeout
    plexsoftware.Lobby.Connect.wait_for_server_join_game plexsoftware.Lobby.Connect.lobby_step
    plexsoftware.Forge.respond_login_plugin_request
    plexsoftware.Proxy.proxy_inbound_outbound_with_queue plexsoftware.Prelude.Strings.lines
    plexsoftware.Prelude.Strings.trim plexsoftware.Mc.Uuid.offline_player_uuid
moved =
    found_relay
      (serve forge_config lobby_crates guest_info stay 20 guest guest_stream probed_server
        guest_inbound)
      refl

serve_moves_example : IsMoved forge_config lobby_crates guest_info stay guest moved.0
serve_moves_example =
    serve_moves forge_config lobby_crates guest_info stay 20 guest guest_stream probed_server
      guest_inbound moved.0 moved.1

-- The client is still to be sent two bytes, one of which is queued.
queue_left : (moved.0.rest.buf ≡ 5 ∷ []) × (remaining moved.0.rest ≡ 5 ∷ 6 ∷ [])
unfolding moved found_relay
queue_left = (refl, refl)

is_probed : Option (Server × Bool) → Bool
is_probed (some (t, true)) = true
is_probed _ = false

found_server :
    (o : Option (Server × Bool)) → is_probed o ≡ true → (t : Server) × (o ≡ some (t, true))
unfolding is_probed
found_server (some (t, true)) e = (t, refl)
found_server (some (t, false)) e = ground (arith, e)
found_server none e = ground (arith, e)

probed :
    (t : Server) × (probe forge_config crates
        (world_at 9)
        (λ s. s)
        (starting ∷ started ∷ [])
        20
        true
        (some (plain_client, forge_server, fresh))
        stopped_server
      ≡ some (t, true))
unfolding is_probed probe plexsoftware.Probe.probe_loop plexsoftware.Probe.probe_step
    plexsoftware.Probe.wait_for_server_join_game plexsoftware.Server.Stop.start
    plexsoftware.Proto.Packet.Loop.packet_loop plexsoftware.Proto.Packet.read_packet
    plexsoftware.Proto.Packet.fill plexsoftware.Types.read_var_int
    plexsoftware.Examples.Codec.decode plexsoftware.Examples.Codec.groups
    plexsoftware.Proto.Packet.decode_with_len plexsoftware.Proto.Packet.slice_from
    plexsoftware.Proto.Packet.slice_to plexsoftware.Proto.Packet.decode_without_len
    plexsoftware.Proto.Packet.read_packet_id_data replay_login_payload
    plexsoftware.Proto.Action.write_all plexsoftware.Proto.Action.write_packet
    plexsoftware.Proto.Packet.encode_with_len plexsoftware.Proto.Packet.encode_without_len
    plexsoftware.Proto.Packet.encode_compressed plexsoftware.Proto.Packet.encode_uncompressed
    plexsoftware.Types.encode_var_int plexsoftware.Lobby.Guest.log_in
    plexsoftware.Lobby.Guest.send_lobby_play_packets plexsoftware.Lobby.Guest.keep_alive_loop
    plexsoftware.Lobby.Guest.play_lobby_ready_sound plexsoftware.Proto.Play.World.send_join_game
    plexsoftware.Proto.Play.World.send_respawn plexsoftware.Mc.Dimension.lobby_dimension
    plexsoftware.Proto.Play.send_server_brand plexsoftware.Proto.Play.send_player_pos
    plexsoftware.Proto.Play.send_time_update plexsoftware.Proto.Play.send_keep_alive
    plexsoftware.Proto.Play.send_sound plexsoftware.Proto.Play.write_play
    plexsoftware.Proto.Play.version_of plexsoftware.Proto.Play.is_packet
    plexsoftware.Proto.Play.from_packet plexsoftware.Proto.Play.Title.send_title
    plexsoftware.Proto.Client.protocol plexsoftware.Proto.Client.set_state
    plexsoftware.Proto.Client.set_compression plexsoftware.Proto.Client.to_id
    plexsoftware.Lobby.Connect.connect_to_server_no_timeout
    plexsoftware.Lobby.Connect.wait_for_server_join_game plexsoftware.Lobby.Connect.lobby_step
    plexsoftware.Forge.respond_login_plugin_request
    plexsoftware.Proxy.proxy_inbound_outbound_with_queue plexsoftware.Prelude.Strings.lines
    plexsoftware.Prelude.Strings.trim plexsoftware.Mc.Uuid.offline_player_uuid
probed =
    found_server
      (probe forge_config crates (world_at 9) (λ s. s) (starting ∷ started ∷ []) 20 true
        (some (plain_client, forge_server, fresh)) stopped_server)
      refl

probe_stores_example :
    (wait_until_online (starting ∷ started ∷ []) ≡ true)
    × (game : JoinGameData) × IsAnswered forge_config crates
        (set_state login plain_client)
        forge_server
        probed.0.forge_payload
        game
    × (probed.0 ≡ record (start forge_config (world_at 9) stopped_server).0 {
      probed_join_game = some game;
      forge_payload = probed.0.forge_payload;
    })
probe_stores_example =
    probe_stores forge_config crates refl (λ e. omega (arith, e)) (world_at 9) (λ s. s)
      (starting ∷ started ∷ []) 20 plain_client forge_server fresh stopped_server probed.0 probed.1

-- The payload is the two requests.
payload_kept : probed.0.forge_payload ≡ (2 ∷ 4 ∷ 1 ∷ []) ∷ (3 ∷ 4 ∷ 7 ∷ 9 ∷ []) ∷ []
unfolding probed found_server
payload_kept = refl

probe_connection_returns_example :
    (a : Outcome (JoinGameData × List (List ℕ))) × (connect_to_server_no_timeout forge_config crates
        20
        (some (plain_client, forge_server, fresh))
      ≡ some a)
probe_connection_returns_example =
    probe_connection_returns forge_config crates 20 plain_client forge_server fresh (omega arith)

replay_login_payload_lem_example :
    (r : Outcome (Outbound × Inbound)) × (replay_login_payload wire login_codec guest 9
        (λ n. in_time)
        probed_server.forge_payload
        fresh
        guest_inbound
      ≡ some r)
    × ((out' : Outbound) (i' : Inbound)
        → r ≡ ok (out', i')
        → sent_bytes out'.written ≡ sent_bytes fresh.written ++ frames probed_server.forge_payload)
replay_login_payload_lem_example =
    replay_login_payload_lem wire login_codec guest 9 (λ n. in_time) probed_server.forge_payload
      fresh guest_inbound (omega arith)

abbrev proxied : Outbound
proxied = record { written = (1 ∷ 2 ∷ []) ∷ (13 ∷ 10 ∷ []) ∷ []; takes = λ n. true }

proxies :
    proxy_with_queue header_codec guest_stream proxy_header (some fresh) (1 ∷ 2 ∷ [])
    ≡ ok (fresh, proxied)
unfolding proxy_with_queue plexsoftware.Proto.Action.write_all
proxies = refl

proxy_with_queue_sent_example :
    (header : List ℕ) × (header_bytes header_codec proxy_header guest_stream ≡ ok header)
    × (sent_bytes proxied.written ≡ header ++ 1 ∷ 2 ∷ [])
    × (sent_bytes fresh.written ≡ sent_bytes guest_stream.out.written)
proxy_with_queue_sent_example =
    proxy_with_queue_sent header_codec guest_stream proxy_header fresh fresh proxied (1 ∷ 2 ∷ [])
      refl proxies

abbrev answers : List (RawPacket × List ℕ)
answers =
    (record { id = 5; bytes = [] }, 1 ∷ 5 ∷ []) ∷ (record { id = 38; bytes = [] }, 1 ∷ 38 ∷ []) ∷ []

framed :
    (client : Client) (id : ℕ)
    → client ≡ plain_client
    → id < 128
    → Frames wire client (record { id = id; bytes = [] }) (1 ∷ id ∷ [])
unfolding encode_with_len plexsoftware.Proto.Packet.encode_without_len
    plexsoftware.Proto.Packet.encode_uncompressed plexsoftware.Types.encode_var_int
    plexsoftware.Examples.Codec.groups plexsoftware.Types.Frame.end_of
framed client id same small = rw same (record {
  header = 1;
  id_fits = omega arith;
  data_fits = omega arith;
  frame_fits = omega arith;
  encoded = ground arith;
  header_ends = refl;
  header_short = omega arith;
})

abbrev two_answers : Inbound
two_answers = record { buf = 1 ∷ []; stream = chunk (5 ∷ 1 ∷ []) ∷ chunk (38 ∷ []) ∷ [] }

answers_sent : Sends wire same_client (join_game_step play_codec guest_info) plain_client answers
answers_sent = (
  framed plain_client 5 refl (omega arith),
  λ t on.
      let same = (join_game_goes_on play_codec guest_info plain_client t _ _ on).1 in
      (framed t 38 same (omega arith), λ t2 on2. tt),
)

answers-IsClean : IsClean two_answers.stream
answers-IsClean = (λ e. ground (arith, e), (λ e. ground (arith, e), tt))

packet_loop_refines_example :
    (i' : Inbound) × (packet_loop wire same_client
        (join_game_step play_codec guest_info)
        3
        plain_client
        two_answers
      ≡ some (
        meaning wire same_client (join_game_step play_codec guest_info) plain_client answers,
        i',
      ))
packet_loop_refines_example =
    packet_loop_refines wire same_client (join_game_step play_codec guest_info) laws answers
      plain_client two_answers answers_sent answers-IsClean refl
