-- ===== src/Lobby/Moved.antt =====
-- What a client that the lobby has moved to the server is sent (src/lobby.rs).
use plexsoftware.Prelude.{
  ℕ, ◌≡◌, sym, ap, ◌∙◌, List, [], ◌++◌, some, Outcome, ok, err, panic, ◌>>=◌, >>=-eq-ok, append-nil,
}
use plexsoftware.Config.{Config}
use plexsoftware.Proto.Client.{Client, ClientInfo, play, set_state}
use plexsoftware.Proto.Packet.{Inbound}
use plexsoftware.Proto.Packet.Reading.Chunks.{remaining}
use plexsoftware.Proto.Play.{Respawn, respawn, write_play}
use plexsoftware.Proto.Play.World.{server_respawn, send_respawn}
use plexsoftware.Proto.Play.Title.{send_title}
use plexsoftware.Proto.Action.{Outbound}
use plexsoftware.Proxy.Order.{sent_bytes, relay_sent}
use plexsoftware.Server.Model.{JoinGameData}
use plexsoftware.Lobby.Guest.{LobbyCrates, compressed, play_lobby_ready_sound}
use plexsoftware.Lobby.Connect.{Call}
use plexsoftware.Lobby.Dialogue.{IsTold, IsLoggedIn}
use plexsoftware.Lobby.{Stay, Served, ended, relayed, Relay, sent_over, move_over, route_proxy}

relay_in : Relay → Outcome Served → Relay
relay_in default (ok (relayed r)) = r
relay_in default (ok ended) = default
relay_in default err = default
relay_in default panic = default

module _ (config : Config) (crates : LobbyCrates) (info : ClientInfo) where
  -- A client that was moved, and what it was sent.
  pub record IsMoved (stay : Stay) (client : Client) (r : Relay) : Type 0 where
    pub account : Client
    pub from_server : Inbound
    pub to_server : Outbound
    pub stream : stay.connected ≡ some (account, from_server, to_server)
    pub plays : r.server.client.state ≡ play
    pub before : List ℕ
    pub told :
        IsTold config crates info r.server.client r.game before
          (remaining r.rest)
          (remaining from_server)
    pub heard : Outbound
    pub world : Respawn
    pub of_game : server_respawn crates.nbt r.game ≡ ok world
    pub sent :
        write_play crates.shared.wire crates.shared.play
          (set_state play (compressed crates client))
          info
          (λ v. respawn world)
          heard
        ≡ ok r.guest_out
    pub queued :
        (guest server : Outbound)
        → r.piped ≡ ok (guest, server)
        → (sent_bytes guest.written ≡ sent_bytes r.guest_out.written ++ r.rest.buf)
          × (sent_bytes server.written ≡ sent_bytes r.server.out.written)

  sent_over-respawn :
      (client : Client) (stay : Stay) (game : JoinGameData) (out out' : Outbound)
      → sent_over config crates info stay client game out ≡ ok out'
      → (heard : Outbound) × (world : Respawn) × (server_respawn crates.nbt game ≡ ok world)
        × (write_play crates.shared.wire crates.shared.play client info (λ v. respawn world) heard
            ≡ ok out')
  unfolding sent_over send_respawn
  sent_over-respawn client stay game out out' e =
      let (cleared, title, rest) =
        >>=-eq-ok (send_title crates.shared.wire crates.shared.play client info [] out)
          (λ cleared.
            play_lobby_ready_sound crates client info config.join.lobby.ready_sound cleared
            >>= λ heard.
                send_respawn crates.nbt crates.shared.wire crates.shared.play client info game
                  heard)
          e in
      let (heard, sound, last) =
        >>=-eq-ok (play_lobby_ready_sound crates client info config.join.lobby.ready_sound cleared)
          (λ heard.
            send_respawn crates.nbt crates.shared.wire crates.shared.play client info game heard)
          rest in
      let (world, made, wrote) =
        >>=-eq-ok (server_respawn crates.nbt game)
          (λ world.
            write_play crates.shared.wire crates.shared.play client info (λ v. respawn world) heard)
          last in
      (heard, world, made, wrote)

  module _ (stay : Stay) where
    move_over-relayed :
        (client : Client) (call : Call) (game : JoinGameData) (rest : Inbound) (out : Outbound)
        (r : Relay)
        → move_over config crates info stay client call game rest out ≡ ok (relayed r)
        → (sent_over config crates info stay client game out ≡ ok r.guest_out)
          × (r.game ≡ game)
          × (r.server ≡ call)
          × (r.rest ≡ rest)
          × (r.piped ≡ route_proxy config crates info stay r.guest_out call.out rest.buf)
    unfolding move_over relay_in
    move_over-relayed client call game rest out r e =
        let (guest, sent, same) =
          >>=-eq-ok (sent_over config crates info stay client game out) _ e in
        (
          cc (sent, ap (λ (q : Outcome Served). (relay_in r q).guest_out) same),
          sym (ap (λ q. (relay_in r q).game) same),
          sym (ap (λ q. (relay_in r q).server) same),
          sym (ap (λ q. (relay_in r q).rest) same),
          sym (cc (ap (λ q. (relay_in r q).piped) same, ap (λ q. (relay_in r q).guest_out) same)),
        )

    -- The pieces of the way out of the lobby, put together.
    pub moved :
        (client : Client) (call : Call) (game : JoinGameData) (i i2 : Inbound) (out : Outbound)
        (r : Relay)
        → (entry : IsLoggedIn config crates info stay.connected call (remaining i))
        → (skipped : List ℕ) × IsTold config crates info call.client game
            (entry.read ++ skipped)
            (remaining i2)
            (remaining entry.from_server)
        → move_over config crates info stay
            (set_state play (compressed crates client))
            call
            game
            i2
            out
          ≡ ok (relayed r)
        → IsMoved stay client r
    unfolding route_proxy
    moved client call game i i2 out r entry (skipped, told) e =
        let playing = set_state play (compressed crates client) in
        let (sent, same_game, same_server, same_rest, piped) =
          move_over-relayed playing call game i2 out r e in
        let (heard, world, made, wrote) =
          sent_over-respawn playing stay game out r.guest_out sent in
        record {
          account = entry.account;
          from_server = entry.from_server;
          to_server = entry.to_server;
          stream = entry.stream;
          plays = ap (λ (c : Call). c.client.state) same_server ∙ entry.plays;
          before = entry.read ++ skipped;
          told = simp (same_game, same_server, same_rest) told;
          heard = heard;
          world = world;
          of_game = ap (server_respawn crates.nbt) same_game ∙ made;
          sent = wrote;
          queued = λ guest server e2.
              let (to_guest, to_server) =
                relay_sent crates.header r.guest_out call.out guest server i2.buf []
                  (sym piped ∙ e2) in
              (
                to_guest
                    ∙ ap (λ (i3 : Inbound). sent_bytes r.guest_out.written ++ i3.buf)
                        (sym same_rest),
                to_server
                    ∙ append-nil (sent_bytes call.out.written)
                    ∙ ap (λ (c : Call). sent_bytes c.out.written) (sym same_server),
              );
        }
