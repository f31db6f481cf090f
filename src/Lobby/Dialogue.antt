-- ===== src/Lobby/Dialogue.antt =====
-- The lobby's connection to the server: its login, and the world that it tells of (src/lobby.rs).
use plexsoftware.Prelude.{
  ℕ, ◌==◌, ◌&&◌, ◌≡◌, refl, ap, ◌∙◌, true, inl, inr, Bool-cases, List, [], ◌++◌, Option, none, some,
  ok, ◌>>=◌, >>=-eq-ok, or_err, arith, then_run-ok, append_assoc,
}
use plexsoftware.Config.{Config}
use plexsoftware.Proto.Client.{
  Client, ClientInfo, login, play, state_eq, set_state, set_compression,
}
use plexsoftware.Proto.Packet.{RawPacket, Inbound, decode_with_len}
use plexsoftware.Proto.Packet.Reading.Chunks.{remaining}
use plexsoftware.Proto.Packet.Loop.{give, go_on, packet_loop-Gives, go_on-not-give}
use plexsoftware.Proto.Play.{is_packet, from_packet}
use plexsoftware.Proto.Play.Await.{
  same_client, join_game_step, join_game_loop, join_game_given, join_game_goes_on,
}
use plexsoftware.Proto.Action.{Outbound}
use plexsoftware.Proxy.{Stream}
use plexsoftware.Server.Model.{JoinGameData}
use plexsoftware.Lobby.Guest.{LobbyCrates}
use plexsoftware.Lobby.Connect.{
  Call, call_client, given, announced, introduced, compression_set, answer_request,
  request_answered, lobby_step, lobby_loop, connect_to_server_no_timeout, wait_for_server_join_game,
}
use plexsoftware.Lobby.Ending.{given-ok}

module _ (config : Config) (crates : LobbyCrates) (info : ClientInfo) where
  -- The world `game` was read from the frame `frame` of the server, behind the bytes `before`.
  pub record IsTold (client : Client) (game : JoinGameData) (before rest sent : List ℕ)
      : Type 0 where
    pub frame : List ℕ
    pub packet : RawPacket
    pub decoded : decode_with_len crates.shared.wire client frame ≡ ok packet
    pub joins : is_packet crates.shared.play info packet.id ≡ true
    pub world : from_packet crates.shared.play info packet ≡ some game
    pub whole : (before ++ frame) ++ rest ≡ sent

  pub wait_for_server_join_game-IsTold :
      (fuel : ℕ) (client : Client) (i i' : Inbound) (game : JoinGameData) (before sent : List ℕ)
      → before ++ remaining i ≡ sent
      → wait_for_server_join_game config crates fuel info client i ≡ some (ok (game, i'))
      → (skipped : List ℕ) × IsTold client game (before ++ skipped) (remaining i') sent
  unfolding wait_for_server_join_game join_game_loop
  wait_for_server_join_game-IsTold fuel client i i' game before sent whole e =
      let step = join_game_step crates.shared.play info in
      let gives =
        packet_loop-Gives crates.shared.wire same_client step
          (λ (c : Client) (bs : List ℕ). c ≡ client)
          (λ c t p old raw same decoded on.
            (join_game_goes_on crates.shared.play info c t p raw on).1 ∙ same)
          fuel client i i' game [] refl (given-ok _ game i' e) in
      let (is, world) =
        join_game_given crates.shared.play info gives.state gives.packet gives.raw game
          gives.given in
      (
        gives.before,
        record {
          frame = gives.raw;
          packet = gives.packet;
          decoded = rw (ap same_client gives.holds) at gives.decoded;
          joins = is;
          world = world;
          whole = cc (
            append_assoc before gives.before gives.raw,
            append_assoc before (gives.before ++ gives.raw) (remaining i'),
            gives.conserved,
            whole,
          );
        },
      )

  lobby_given :
      (c d : Call) (p : RawPacket) (raw : List ℕ)
      → lobby_step config crates c p raw ≡ ok (give d)
      → d.client.state ≡ play
  unfolding lobby_step compression_set request_answered set_state
  lobby_given c d p raw e =
      let ids = crates.shared.login in
      let here = state_eq c.client.state login in
      elim (Bool-cases (here && p.id == ids.set_compression_id)) [
        | inl is ↦ absurd (
            go_on-not-give (or_err (ids.decode_set_compression p.bytes))
              (λ threshold. record c { client = set_compression threshold c.client }) d
              (simp is at e))
        | inr no1 ↦ elim (Bool-cases (here && p.id == ids.encryption_request_id)) [
          | inl is ↦ ground (arith, simp (no1, is) at e)
          | inr no2 ↦ elim (Bool-cases (here && p.id == ids.plugin_request_id)) [
            | inl is ↦
                let (request, decoded, rest) =
                  >>=-eq-ok (or_err (ids.decode_plugin_request p.bytes))
                    (λ request.
                      answer_request config crates config.server.forge c request >>= λ out.
                      ok (go_on (record c { out = out })))
                    (simp (no1, no2, is) at e) in
                absurd (
                  go_on-not-give (answer_request config crates config.server.forge c request)
                    (λ out. record c { out = out }) d rest)
            | inr no3 ↦ elim (Bool-cases (here && p.id == ids.login_success_id)) [
              | inl is ↦ ground (arith, simp (no1, no2, no3, is) at e)
              | inr no4 ↦ elim (Bool-cases (here && p.id == ids.disconnect_id)) [
                | inl is ↦ ground (arith, simp (no1, no2, no3, no4, is) at e)
                | inr no5 ↦ ground (arith, simp (no1, no2, no3, no4, no5) at e)
              ]
            ]
          ]
        ]
      ]

  -- The connection of `stay` got through its login, behind the bytes `read`.
  pub record IsLoggedIn (connected : Option (Client × Inbound × Outbound)) (call : Call)
      (rest : List ℕ) : Type 0 where
    pub account : Client
    pub from_server : Inbound
    pub to_server : Outbound
    pub stream : connected ≡ some (account, from_server, to_server)
    pub read : List ℕ
    pub whole : read ++ rest ≡ remaining from_server
    pub plays : call.client.state ≡ play

  pub connect-IsLoggedIn :
      (fuel : ℕ) (inbound : Stream) (connected : Option (Client × Inbound × Outbound)) (call : Call)
      (i' : Inbound)
      → connect_to_server_no_timeout config crates fuel info inbound connected
        ≡ some (ok (call, i'))
      → IsLoggedIn connected call (remaining i')
  unfolding connect_to_server_no_timeout lobby_loop
  connect-IsLoggedIn fuel inbound none call i' e = ground (arith, e)
  connect-IsLoggedIn fuel inbound (some (client, i, out)) call i' e =
      let dialling = set_state login client in
      let (ready, written, loop) =
        then_run-ok
          (some (
            announced config crates config.server.send_proxy_v2 inbound out
            >>= introduced config crates info dialling))
          (λ ready.
            given (lobby_loop config crates fuel (record { client = dialling; out = ready }) i))
          e in
      let gives =
        packet_loop-Gives crates.shared.wire call_client (lobby_step config crates)
          (λ (c : Call) (bs : List ℕ). Unit {0}) (λ c t p old raw done decoded on. tt) fuel
          (record { client = dialling; out = ready }) i i' call [] tt (given-ok _ call i' loop) in
      record {
        account = client;
        from_server = i;
        to_server = out;
        stream = refl;
        read = gives.before ++ gives.raw;
        whole = gives.conserved;
        plays = lobby_given gives.state call gives.packet gives.raw gives.given;
      }
