-- ===== src/Probe/Stored.antt =====
-- What a probe that succeeds leaves in the server (src/probe.rs).
use plexsoftware.Prelude.{
  ℕ, ◌≡◌, ◌≢◌, refl, true, inl, inr, List, [], Option, none, some, Outcome, ok, err, panic, arith,
  Bool-cases, map_some,
}
use plexsoftware.Config.{Config}
use plexsoftware.Proto.Client.{Client, login, set_state}
use plexsoftware.Proto.Packet.{Inbound}
use plexsoftware.Proto.Packet.Loop.{Exit, left, gave}
use plexsoftware.Proto.Action.{Outbound}
use plexsoftware.Server.State.{State}
use plexsoftware.Server.Model.{Server, JoinGameData}
use plexsoftware.Server.Stop.{World, start}
use plexsoftware.Probe.{
  Crates, Dial, introduce, probe_loop, wait_for_server_join_game, with_join_game, after_login,
  dialled, connect_to_server_no_timeout, store_probe, wait_until_online, connected_and_stored,
  probe,
}
use plexsoftware.Probe.LoggedIn.{LoggedIn}
use plexsoftware.Probe.Payload.{probe_loop_records}
use plexsoftware.Probe.Told.{IsTold, wait_for_server_join_game-IsTold}

module _ (config : Config) (crates : Crates) where
  with_join_game-ok :
      (payload kept : List (List ℕ)) (game : JoinGameData)
      (o : Option (Outcome (Exit Client JoinGameData) × Inbound))
      → with_join_game config crates payload o ≡ some (ok (game, kept))
      → (kept ≡ payload) × (i : Inbound) × (o ≡ some (ok (gave game), i))
  unfolding with_join_game
  with_join_game-ok payload kept game none e = ground (arith, e)
  with_join_game-ok payload kept game (some (ok (gave g), i)) e =
      (ground (arith, e), i, ground (arith, e))
  with_join_game-ok payload kept game (some (ok (left c), i)) e = ground (arith, e)
  with_join_game-ok payload kept game (some (err, i)) e = ground (arith, e)
  with_join_game-ok payload kept game (some (panic, i)) e = ground (arith, e)

  after_login-ok :
      (fuel : ℕ) (kept : List (List ℕ)) (game : JoinGameData)
      (o : Option (Outcome (Exit Dial Dial) × Inbound))
      → after_login config crates fuel o ≡ some (ok (game, kept))
      → (d : Dial) × (i : Inbound) × (o ≡ some (ok (gave d), i))
        × (kept ≡ d.payload)
        × IsTold config crates d.client i game
  unfolding after_login
  after_login-ok fuel kept game none e = ground (arith, e)
  after_login-ok fuel kept game (some (ok (gave d), i)) e =
      let (same, i2, told) =
        with_join_game-ok d.payload kept game
          (wait_for_server_join_game config crates fuel d.client i) e in
      (
        d,
        i,
        refl,
        same,
        wait_for_server_join_game-IsTold config crates fuel d.client i i2 game told,
      )
  after_login-ok fuel kept game (some (ok (left d), i)) e = ground (arith, e)
  after_login-ok fuel kept game (some (err, i)) e = ground (arith, e)
  after_login-ok fuel kept game (some (panic, i)) e = ground (arith, e)

  -- The packets of the connection are those of a login with the plugin requests `payload`, and then
  -- a join packet with the world `game` is the first one.
  pub record IsAnswered (client : Client) (i : Inbound) (payload : List (List ℕ))
      (game : JoinGameData) : Type 0 where
    pub account : Client
    pub behind : Inbound
    pub logged_in : LoggedIn config crates client i payload account behind
    pub told : IsTold config crates account behind game

  module _ (forge : config.server.forge ≡ true)
      (ids : crates.login.set_compression_id ≢ crates.login.plugin_request_id) where
    dialled-ok :
        (fuel : ℕ) (client : Client) (i : Inbound) (wrote : Outcome Outbound) (kept : List (List ℕ))
        (game : JoinGameData)
        → client.state ≡ login
        → dialled config crates fuel client i wrote ≡ some (ok (game, kept))
        → IsAnswered client i kept game
    unfolding dialled
    dialled-ok fuel client i (ok out) kept game logging_in e =
        let (d, i2, ended, same, told) =
          after_login-ok fuel kept game
            (probe_loop config crates fuel (record { client = client; out = out; payload = [] }) i)
            e in
        let logged_in =
          probe_loop_records config crates forge ids fuel client out i i2 d logging_in ended in
        record { account = d.client; behind = i2; logged_in = rw same logged_in; told = told }
    dialled-ok fuel client i err kept game logging_in e = ground (arith, e)
    dialled-ok fuel client i panic kept game logging_in e = ground (arith, e)

    stored-ok :
        (r : Option (Outcome (JoinGameData × List (List ℕ)))) (s t : Server)
        → map_some (λ q. store_probe config crates q s) r ≡ some (t, true)
        → (game : JoinGameData) × (r ≡ some (ok (game, t.forge_payload)))
          × (t ≡ record s { probed_join_game = some game; forge_payload = t.forge_payload })
    unfolding store_probe
    stored-ok none s t e = ground (arith, e)
    stored-ok (some (ok (game, kept))) s t e = (game, ground (arith, e), ground (arith, e))
    stored-ok (some err) s t e = ground (arith, e)
    stored-ok (some panic) s t e = ground (arith, e)

    -- A probe of a Forge server that succeeds has seen the server come online, and has changed
    -- nothing of the server, as the start and other tasks left it, but two things: it has left in it
    -- the frames of all plugin requests that the connection read before the login's success, in
    -- their order, and the world of the first join packet that it read behind that success, if
    -- set-compression packets and plugin requests have different ids.
    pub probe_stores :
        (world : World) (others : Server → Server) (seen : List State) (fuel : ℕ) (client : Client)
        (i : Inbound) (out : Outbound) (s t : Server)
        → probe config crates world others seen fuel true (some (client, i, out)) s ≡ some (t, true)
        → (wait_until_online seen ≡ true)
          × (game : JoinGameData) × IsAnswered (set_state login client) i t.forge_payload game
          × (t ≡ record (others (start config world s).0) {
            probed_join_game = some game;
            forge_payload = t.forge_payload;
          })
    unfolding probe connected_and_stored connect_to_server_no_timeout set_state
    probe_stores world others seen fuel client i out s t e =
        elim (Bool-cases (wait_until_online seen)) [
          | inl online ↦
              let (game, answered, stored) =
                stored-ok
                  (dialled config crates fuel (set_state login client) i
                    (introduce config crates (set_state login client) out))
                  _ t (simp online at e) in
              (
                online,
                game,
                dialled-ok fuel (set_state login client) i _ t.forge_payload game refl answered,
                stored,
              )
          | inr offline ↦ ground (arith, simp offline at e)
        ]
