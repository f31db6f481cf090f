-- ===== src/Lobby/Ending.antt =====
-- The lobby comes to an end (src/lobby.rs).
use plexsoftware.Prelude.{
  ℕ, ◌<◌, ◌≡◌, refl, Bool, true, false, inl, inr, Bool-cases, Option, none, some, Outcome, ok, err,
  panic, ◌>>=◌, ◌>>◌, is_some, Text, length, arith, Run, Returns, then_run-Returns, then_run-ok,
}
use plexsoftware.Config.{Config}
use plexsoftware.Proto.Client.{Client, ClientInfo, login, play, state_eq, set_state}
use plexsoftware.Proto.Packet.{Inbound}
use plexsoftware.Proto.Packet.Reading.Chunks.{remaining}
use plexsoftware.Proto.Packet.Loop.{Exit, left, gave, packet_loop_returns, packet_loop-gave_shrinks}
use plexsoftware.Proto.Play.Await.{same_client, join_game_step, join_game_loop}
use plexsoftware.Proto.Action.{Outbound}
use plexsoftware.Proxy.{Stream, close_tcp_stream}
use plexsoftware.Server.Model.{Server}
use plexsoftware.Forge.Replayed.{replay_login_payload_lem}
use plexsoftware.Lobby.Guest.{LobbyCrates, compressed}
use plexsoftware.Lobby.Connect.{
  Call, call_client, given, announced, introduced, lobby_step, lobby_loop,
  connect_to_server_no_timeout, wait_for_server_join_game,
}
use plexsoftware.Lobby.{
  Stay, ended, within_timeout, serve_step, replayed_to, wait_in_lobby, leave_lobby, move_over,
  host_client, after_loop, serve,
}

given-Returns :
    {S R : Type 0} (o : Option (Outcome (Exit S R) × Inbound))
    → (r : Outcome (Exit S R) × Inbound) × (o ≡ some r)
    → Returns (given o)
given-Returns none (r, e) = ground (arith, e)
given-Returns (some (ok (gave r), i)) found = (ok (r, i), refl)
given-Returns (some (ok (left s), i)) found = (err, refl)
given-Returns (some (err, i)) found = (err, refl)
given-Returns (some (panic, i)) found = (panic, refl)

pub given-ok :
    {S R : Type 0} (o : Option (Outcome (Exit S R) × Inbound)) (r : R) (i : Inbound)
    → given o ≡ some (ok (r, i))
    → o ≡ some (ok (gave r), i)
given-ok none r i e = ground (arith, e)
given-ok (some (ok (gave q), j)) r i e = ground (arith, e)
given-ok (some (ok (left s), j)) r i e = ground (arith, e)
given-ok (some (err, j)) r i e = ground (arith, e)
given-ok (some (panic, j)) r i e = ground (arith, e)

within_timeout-Returns :
    {A : Type 0} (holds : Bool) (run : Run A) → Returns run → Returns (within_timeout holds run)
unfolding within_timeout
within_timeout-Returns true run returns = returns
within_timeout-Returns false run returns = (err, refl)

pub within_timeout-ok :
    {A : Type 0} (holds : Bool) (run : Run A) (a : A)
    → within_timeout holds run ≡ some (ok a)
    → run ≡ some (ok a)
unfolding within_timeout
within_timeout-ok true run a e = e
within_timeout-ok false run a e = ground (arith, e)

module _ (config : Config) (crates : LobbyCrates) (info : ClientInfo) where
  -- The bytes that the server will send are fewer than the fuel.
  abbrev pub SendsLess : ℕ → Option (Client × Inbound × Outbound) → Type 0
  SendsLess fuel none = Unit
  SendsLess fuel (some (client, i, out)) = length (remaining i) < fuel

  connect-Returns :
      (fuel : ℕ) (inbound : Stream) (connected : Option (Client × Inbound × Outbound))
      → SendsLess fuel connected
      → Returns (connect_to_server_no_timeout config crates fuel info inbound connected)
        × ((call : Call) (i : Inbound)
            → connect_to_server_no_timeout config crates fuel info inbound connected
              ≡ some (ok (call, i))
            → length (remaining i) < fuel)
  unfolding connect_to_server_no_timeout lobby_loop
  connect-Returns fuel inbound none less = ((err, refl), λ call i e. ground (arith, e))
  connect-Returns fuel inbound (some (client, i, out)) less =
      let dialling = set_state login client in
      let opened =
        (announced config crates config.server.send_proxy_v2 inbound out
          >>= introduced config crates info dialling) in
      let looped = λ (ready : Outbound).
        given (lobby_loop config crates fuel (record { client = dialling; out = ready }) i) in
      (
        then_run-Returns (some opened) looped (opened, refl)
            (λ ready found. given-Returns _ (
              packet_loop_returns crates.shared.wire call_client (lobby_step config crates) fuel
                (record { client = dialling; out = ready }) i less)),
        λ call i' e.
            let (ready, written, loop) = then_run-ok (some opened) looped e in
            omega (
              arith,
              less,
              packet_loop-gave_shrinks crates.shared.wire call_client (lobby_step config crates)
                  fuel (record { client = dialling; out = ready }) i i' call
                  (given-ok _ call i' loop),
            ),
      )

  leave_lobby-Returns :
      (stay : Stay) (fuel : ℕ) (client : Client) (inbound : Stream) (out : Outbound)
      → SendsLess fuel stay.connected
      → Returns (leave_lobby config crates info stay fuel client inbound out)
  unfolding leave_lobby wait_for_server_join_game join_game_loop
  leave_lobby-Returns stay fuel client inbound out less =
      let (returns, shrinks) =
        connect-Returns fuel (record inbound { out = out }) stay.connected less in
      then_run-Returns _ _ (within_timeout-Returns stay.connects_in_time _ returns) (λ call found.
        then_run-Returns _ _
          (within_timeout-Returns stay.joins_in_time _ (
            given-Returns _ (
              packet_loop_returns crates.shared.wire same_client
                (join_game_step crates.shared.play info) fuel call.0.client call.1
                (shrinks call.0 call.1 (within_timeout-ok stay.connects_in_time _ call found)))))
          (λ told found2.
            (move_over config crates info stay client call.0 told.0 told.1 out, refl)))

  module _ (stay : Stay) (fuel : ℕ) (less : SendsLess fuel stay.connected) where
    replayed_to-Returns :
        (client : Client) (s : Server) (out : Outbound) (i : Inbound)
        → length (remaining i) < fuel
        → Returns (replayed_to config crates info stay fuel client s out i)
    unfolding replayed_to
    replayed_to-Returns client s out i enough = elim (Bool-cases config.server.forge) [
      | inl forge ↦
          let (r, ends, sent) =
            replay_login_payload_lem crates.shared.wire crates.shared.login client fuel
              stay.forge_reads s.forge_payload out i enough in
          simp forge (then_run-Returns _ _ (r, ends) (λ q found. (ok q.0, refl)))
      | inr plain ↦ simp plain (ok out, refl)
    ]

    host_client-Returns :
        (client : Client) (inbound : Stream) (s : Server) (name : Text) (i : Inbound)
        → length (remaining i) < fuel
        → Returns (host_client config crates info stay fuel client inbound s name i)
    unfolding host_client
    host_client-Returns client inbound s name i enough =
        then_run-Returns _ _ (replayed_to-Returns client s inbound.out i enough) (λ replayed found.
          then_run-Returns _ _ (wait_in_lobby config crates info stay client s name replayed, refl)
            (λ waited found2.
              leave_lobby-Returns stay fuel (set_state play (compressed crates client)) inbound
                waited less))

    after_loop-Returns :
        (client : Client) (inbound : Stream) (s : Server)
        (o : Option (Outcome (Exit Client Text) × Inbound))
        → (r : Outcome (Exit Client Text) × Inbound) × (o ≡ some r)
        → ((name : Text) (i : Inbound) → o ≡ some (ok (gave name), i) → length (remaining i) < fuel)
        → Returns (after_loop config crates info stay fuel client inbound s o)
    unfolding after_loop
    after_loop-Returns client inbound s none (r, e) less_left = ground (arith, e)
    after_loop-Returns client inbound s (some (ok (gave name), i)) r less_left =
        host_client-Returns client inbound s name i (less_left name i refl)
    after_loop-Returns client inbound s (some (ok (left c), i)) r less_left =
        (close_tcp_stream stay.closes >> ok ended, refl)
    after_loop-Returns client inbound s (some (err, i)) r less_left = (err, refl)
    after_loop-Returns client inbound s (some (panic, i)) r less_left = (panic, refl)

    -- The lobby is done with every client, with one round more for each of its loops than the
    -- client, and than the server, sends bytes.
    pub serve-Returns :
        (client : Client) (inbound : Stream) (s : Server) (i : Inbound)
        → length (remaining i) < fuel
        → Returns (serve config crates info stay fuel client inbound s i)
    unfolding serve
    serve-Returns client inbound s i enough = elim (Bool-cases (state_eq client.state login)) [
      | inl in_login ↦ elim (Bool-cases (is_some info.username)) [
        | inl named ↦
            simp (in_login, named)
              (after_loop-Returns client inbound s _
                (packet_loop_returns crates.shared.wire same_client
                  (serve_step config crates info stay) fuel client i enough)
                (λ name i' gives. omega (
                  arith,
                  enough,
                  packet_loop-gave_shrinks crates.shared.wire same_client
                      (serve_step config crates info stay) fuel client i i' name gives,
                )))
        | inr nameless ↦ simp (in_login, nameless) (err, refl)
      ]
      | inr elsewhere ↦ simp elsewhere (err, refl)
    ]
