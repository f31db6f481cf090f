-- ===== src/Lobby.antt =====
-- src/lobby.rs: a client waits in a world of the proxy until the server is up, and is then moved to
-- the server.
pub mod Guest
pub mod Connect
pub mod Dialogue
pub mod Ending
pub mod Moved
pub mod Moving
use plexsoftware.Prelude.{
  ℕ, ◌==◌, ◌&&◌, Bool, true, false, not, List, [], ◌∷◌, Option, none, some, Outcome, ok, err, panic,
  ◌>>=◌, ◌>>◌, or_err, Text, is_some, if◌then◌else◌, Run, then_run,
}
use plexsoftware.Config.{Config}
use plexsoftware.Forge.Replay.{TimedRead, replay_login_payload}
use plexsoftware.Proto.Client.{Client, ClientInfo, login, play, state_eq, set_state}
use plexsoftware.Proto.Packet.{RawPacket, Inbound}
use plexsoftware.Proto.Packet.Loop.{Step, go_on, give, Exit, left, gave, LoopResult, packet_loop}
use plexsoftware.Proto.Play.Await.{same_client}
use plexsoftware.Proto.Play.Title.{send_title}
use plexsoftware.Proto.Play.World.{send_respawn}
use plexsoftware.Proto.Action.{Outbound}
use plexsoftware.Proxy.{Stream, Shutdown, close_tcp_stream, proxy_inbound_outbound_with_queue}
use plexsoftware.Server.State.{State, stopped, starting, started, stopping}
use plexsoftware.Server.Model.{Server, JoinGameData}
use plexsoftware.Lobby.Guest.{
  LobbyCrates, compressed, log_in, send_lobby_play_packets, keep_alive_loop, play_lobby_ready_sound,
}
use plexsoftware.Lobby.Connect.{Call, connect_to_server_no_timeout, wait_for_server_join_game}

-- What `try_read` of the client's stream returns.
pub data TryRead : Type 0 where
  drained_bytes at_end would_block try_failed : TryRead

-- The reads that are left for what comes behind the drain.
unfoldable pub drain_stream : List TryRead → List TryRead
drain_stream [] = []
drain_stream (drained_bytes ∷ reads) = drain_stream reads
drain_stream (at_end ∷ reads) = reads
drain_stream (would_block ∷ reads) = reads
drain_stream (try_failed ∷ reads) = reads

-- The states that the receiver sees before the timeout.
unfoldable pub wait_for_server : List State → Outcome (Unit {0})
wait_for_server [] = err
wait_for_server (starting ∷ later) = wait_for_server later
wait_for_server (started ∷ later) = ok tt
wait_for_server (stopping ∷ later) = err
wait_for_server (stopped ∷ later) = err

-- What happens around one client of the lobby. `keep_alives` are the ids of the rounds before the
-- wait ends, which ends between two rounds. `connected` is the stream to the server: the client for
-- its own address, what it will read, and its writer. `connects_in_time` and `joins_in_time` say
-- whether the timeouts hold.
pub record Stay : Type 0 where
  pub forge_reads : ℕ → TimedRead
  pub keep_alives : List ℕ
  pub seen : List State
  pub connected : Option (Client × Inbound × Outbound)
  pub connects_in_time : Bool
  pub joins_in_time : Bool
  pub try_reads : List TryRead
  pub closes : Shutdown

-- A client that was moved: its world, what was written to it before the copying, the connection to
-- the server with the bytes that it still holds, and what comes of the queue of the proxy.
pub record Relay : Type 0 where
  pub game : JoinGameData
  pub guest_out : Outbound
  pub server : Call
  pub rest : Inbound
  pub unread : List TryRead
  pub piped : Outcome (Outbound × Outbound)

pub data Served : Type 0 where
  ended : Served
  relayed : Relay → Served

unfoldable pub within_timeout : {A : Type 0} → Bool → Run A → Run A
within_timeout true run = run
within_timeout false run = some err

module _ (config : Config) (crates : LobbyCrates) (info : ClientInfo) (stay : Stay) where
  -- The loop of `serve` up to the login packet, which gives the name.
  unfoldable pub serve_step : Client → RawPacket → List ℕ → Outcome (Step Client Text)
  serve_step client p raw =
      if state_eq client.state login && p.id == crates.shared.login.login_start_id
      then (or_err (crates.shared.login.decode_login_start p.bytes) >>= λ name. ok (give name))
      else ok (go_on client)

  unfoldable pub replayed_to : ℕ → Client → Server → Outbound → Inbound → Run Outbound
  replayed_to fuel client s out i =
      if config.server.forge
      then then_run
          (replay_login_payload crates.shared.wire crates.shared.login client fuel stay.forge_reads
            s.forge_payload out i)
          (λ r. some (ok r.0))
      else some (ok out)

  unfoldable pub stage_wait : Client → Outbound → Outcome Outbound
  unfolding wait_for_server
  stage_wait client out = do
    waited ← keep_alive_loop crates client info config stay.keep_alives out
    wait_for_server stay.seen
    ok waited

  -- Behind the login packet: the client is logged in and waits in the lobby.
  unfoldable pub wait_in_lobby : Client → Server → Text → Outbound → Outcome Outbound
  unfolding stage_wait
  wait_in_lobby client s name out = do
    welcome ← log_in crates client name out
    shown ←
        send_lobby_play_packets crates (set_state play (compressed crates client)) info s welcome
    stage_wait (set_state play (compressed crates client)) shown

  unfoldable pub route_proxy : Outbound → Outbound → List ℕ → Outcome (Outbound × Outbound)
  route_proxy guest server queue =
      proxy_inbound_outbound_with_queue crates.header guest server queue []

  -- The title goes, the sound plays, and the client is sent to the world of the server.
  unfoldable pub sent_over : Client → JoinGameData → Outbound → Outcome Outbound
  sent_over client game out = do
    cleared ← send_title crates.shared.wire crates.shared.play client info [] out
    heard ← play_lobby_ready_sound crates client info config.join.lobby.ready_sound cleared
    send_respawn crates.nbt crates.shared.wire crates.shared.play client info game heard

  unfoldable pub move_over : Client → Call → JoinGameData → Inbound → Outbound → Outcome Served
  unfolding sent_over drain_stream route_proxy
  move_over client server game rest out = do
    guest ← sent_over client game out
    ok (
        relayed (record {
          game = game;
          guest_out = guest;
          server = server;
          rest = rest;
          unread = drain_stream stay.try_reads;
          piped = route_proxy guest server.out rest.buf;
        }))

  -- Behind the wait: the server is dialled, and tells of its world.
  unfoldable pub leave_lobby : ℕ → Client → Stream → Outbound → Run Served
  unfolding within_timeout move_over
  leave_lobby fuel client inbound out =
      then_run
        (within_timeout stay.connects_in_time (
          connect_to_server_no_timeout config crates fuel info (record inbound { out = out })
            stay.connected))
        (λ call.
          then_run
            (within_timeout stay.joins_in_time
              (wait_for_server_join_game config crates fuel info call.0.client call.1))
            (λ told. some (move_over client call.0 told.0 told.1 out)))

  unfoldable pub host_client : ℕ → Client → Stream → Server → Text → Inbound → Run Served
  unfolding replayed_to wait_in_lobby leave_lobby
  host_client fuel client inbound s name i =
      then_run (replayed_to fuel client s inbound.out i) (λ replayed.
        then_run (some (wait_in_lobby client s name replayed))
          (λ waited. leave_lobby fuel (set_state play (compressed crates client)) inbound waited))

  -- Behind the loop, which has ended or has found the login packet.
  unfoldable pub after_loop :
      ℕ → Client → Stream → Server → Option (Outcome (Exit Client Text) × Inbound) → Run Served
  unfolding host_client
  after_loop fuel client inbound s none = none
  after_loop fuel client inbound s (some (ok (gave name), i)) =
      host_client fuel client inbound s name i
  after_loop fuel client inbound s (some (ok (left c), i)) =
      some (close_tcp_stream stay.closes >> ok ended)
  after_loop fuel client inbound s (some (err, i)) = some err
  after_loop fuel client inbound s (some (panic, i)) = some panic

  -- The client comes with the bytes that were read of it. On fuel for each loop.
  unfoldable pub serve : ℕ → Client → Stream → Server → Inbound → Run Served
  unfolding after_loop
  serve fuel client inbound s i =
      if not (state_eq client.state login)
      then some err
      else if not (is_some info.username)
      then some err
      else after_loop fuel client inbound s
          (packet_loop crates.shared.wire same_client serve_step fuel client i)
