-- ===== src/Lobby/Moving.antt =====
-- A client of the lobby is moved into the world of the server and loses no byte (src/lobby.rs).
use plexsoftware.Prelude.{
  ℕ, ◌≡◌, inl, inr, Bool-cases, Option, none, some, Outcome, ok, err, panic, >>=-eq-ok, ◌>>◌,
  is_some, Text, arith, then_run, then_run-ok,
}
use plexsoftware.Config.{Config}
use plexsoftware.Proto.Client.{Client, ClientInfo, login, play, state_eq, set_state}
use plexsoftware.Proto.Packet.{Inbound}
use plexsoftware.Proto.Packet.Reading.Chunks.{remaining}
use plexsoftware.Proto.Packet.Loop.{Exit, left, gave}
use plexsoftware.Proto.Action.{Outbound}
use plexsoftware.Proxy.{Stream, close_tcp_stream}
use plexsoftware.Server.Model.{Server}
use plexsoftware.Lobby.Guest.{LobbyCrates, compressed}
use plexsoftware.Lobby.Connect.{Call, connect_to_server_no_timeout, wait_for_server_join_game}
use plexsoftware.Lobby.Ending.{within_timeout-ok}
use plexsoftware.Lobby.Moved.{IsMoved, moved}
use plexsoftware.Lobby.Dialogue.{wait_for_server_join_game-IsTold, connect-IsLoggedIn}
use plexsoftware.Lobby.{
  Stay, ended, relayed, Relay, within_timeout, replayed_to, wait_in_lobby, leave_lobby, move_over,
  host_client, after_loop, serve,
}

module _ (config : Config) (crates : LobbyCrates) (info : ClientInfo) where
  module _ (stay : Stay) where
    leave_lobby-IsMoved :
        (fuel : ℕ) (client : Client) (inbound : Stream) (out : Outbound) (r : Relay)
        → leave_lobby config crates info stay fuel
            (set_state play (compressed crates client))
            inbound
            out
          ≡ some (ok (relayed r))
        → IsMoved config crates info stay client r
    unfolding leave_lobby
    leave_lobby-IsMoved fuel client inbound out r e =
        let playing = set_state play (compressed crates client) in
        let connecting =
          connect_to_server_no_timeout config crates fuel info (record inbound { out = out })
            stay.connected in
        let waiting = λ (call : Call × Inbound).
          within_timeout stay.joins_in_time
            (wait_for_server_join_game config crates fuel info call.0.client call.1) in
        let ((call, i), connected, rest) =
          then_run-ok (within_timeout stay.connects_in_time connecting)
            (λ call.
              then_run (waiting call)
                (λ told. some (move_over config crates info stay playing call.0 told.0 told.1 out)))
            e in
        let ((game, i2), joined, last) =
          then_run-ok (waiting (call, i))
            (λ told. some (move_over config crates info stay playing call told.0 told.1 out))
            rest in
        let entry =
          connect-IsLoggedIn config crates info fuel (record inbound { out = out }) stay.connected
            call i (within_timeout-ok stay.connects_in_time connecting (call, i) connected) in
        moved config crates info stay client call game i i2 out r entry
          (wait_for_server_join_game-IsTold config crates info fuel call.client i i2 game entry.read
            (remaining entry.from_server) entry.whole
            (within_timeout-ok stay.joins_in_time _ (game, i2) joined))
          (ground (arith, last))

    after_loop-IsMoved :
        (fuel : ℕ) (client : Client) (inbound : Stream) (s : Server) (r : Relay)
        (o : Option (Outcome (Exit Client Text) × Inbound))
        → after_loop config crates info stay fuel client inbound s o ≡ some (ok (relayed r))
        → IsMoved config crates info stay client r
    unfolding after_loop host_client
    after_loop-IsMoved fuel client inbound s r none e = ground (arith, e)
    after_loop-IsMoved fuel client inbound s r (some (ok (gave name), i)) e =
        let (replayed, done, rest) =
          then_run-ok (replayed_to config crates info stay fuel client s inbound.out i)
            (λ replayed.
              then_run (some (wait_in_lobby config crates info stay client s name replayed))
                (λ waited.
                  leave_lobby config crates info stay fuel
                    (set_state play (compressed crates client)) inbound waited))
            e in
        let (waited, done2, last) =
          then_run-ok (some (wait_in_lobby config crates info stay client s name replayed))
            (λ waited.
              leave_lobby config crates info stay fuel (set_state play (compressed crates client))
                inbound waited)
            rest in
        leave_lobby-IsMoved fuel client inbound waited r last
    after_loop-IsMoved fuel client inbound s r (some (ok (left c), i)) e =
        let plain : (close_tcp_stream stay.closes >> ok ended) ≡ ok (relayed r) =
          ground (arith, e) in
        let (closed, done, last) =
          >>=-eq-ok (close_tcp_stream stay.closes) (λ done. ok ended) plain in
        ground (arith, last)
    after_loop-IsMoved fuel client inbound s r (some (err, i)) e = ground (arith, e)
    after_loop-IsMoved fuel client inbound s r (some (panic, i)) e = ground (arith, e)

    -- A client that the lobby has moved to the server is sent into the world of the server's own
    -- packet, as one who plays over a compressed connection, and the queue that follows is exactly
    -- what was read of the server behind that packet: what the server sent is what came before the
    -- packet, its frame, that queue and what is not read yet. Nothing is queued for the server.
    pub serve_moves :
        (fuel : ℕ) (client : Client) (inbound : Stream) (s : Server) (i : Inbound) (r : Relay)
        → serve config crates info stay fuel client inbound s i ≡ some (ok (relayed r))
        → IsMoved config crates info stay client r
    unfolding serve
    serve_moves fuel client inbound s i r e = elim (Bool-cases (state_eq client.state login)) [
      | inl in_login ↦ elim (Bool-cases (is_some info.username)) [
        | inl named ↦ after_loop-IsMoved fuel client inbound s r _ (simp (in_login, named) at e)
        | inr nameless ↦ ground (arith, simp (in_login, nameless) at e)
      ]
      | inr elsewhere ↦ ground (arith, simp elsewhere at e)
    ]
