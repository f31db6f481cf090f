-- ===== src/Probe/Ending.antt =====
-- The probe's connection ends, and what it keeps of it (src/probe.rs).
use plexsoftware.Prelude.{
  ℕ, ◌<◌, ◌≡◌, refl, List, [], Option, none, some, Outcome, ok, err, panic, length, arith,
}
use plexsoftware.Config.{Config}
use plexsoftware.Proto.Client.{Client, login, set_state}
use plexsoftware.Proto.Packet.{Inbound}
use plexsoftware.Proto.Packet.Reading.Chunks.{remaining}
use plexsoftware.Proto.Packet.Loop.{Exit, left, gave, packet_loop_returns, packet_loop-gave_shrinks}
use plexsoftware.Proto.Play.Await.{same_client, join_game_step, join_game_loop}
use plexsoftware.Proto.Action.{Outbound}
use plexsoftware.Server.Model.{JoinGameData}
use plexsoftware.Probe.{
  Crates, Dial, dial_client, probe_info, introduce, probe_step, probe_loop,
  wait_for_server_join_game, with_join_game, after_login, dialled, connect_to_server_no_timeout,
}

module _ (config : Config) (crates : Crates) where
  abbrev Answer : Type 0
  Answer = Outcome (JoinGameData × List (List ℕ))

  with_join_game_returns :
      (payload : List (List ℕ)) (o : Option (Outcome (Exit Client JoinGameData) × Inbound))
      → (r : Outcome (Exit Client JoinGameData) × Inbound) × (o ≡ some r)
      → (a : Answer) × (with_join_game config crates payload o ≡ some a)
  unfolding with_join_game
  with_join_game_returns payload none (r, e) = ground (arith, e)
  with_join_game_returns payload (some (ok (gave game), i)) r = (ok (game, payload), refl)
  with_join_game_returns payload (some (ok (left c), i)) r = (err, refl)
  with_join_game_returns payload (some (err, i)) r = (err, refl)
  with_join_game_returns payload (some (panic, i)) r = (panic, refl)

  after_login_returns :
      (fuel : ℕ) (o : Option (Outcome (Exit Dial Dial) × Inbound))
      → (r : Outcome (Exit Dial Dial) × Inbound) × (o ≡ some r)
      → ((d : Dial) (i : Inbound) → o ≡ some (ok (gave d), i) → length (remaining i) < fuel)
      → (a : Answer) × (after_login config crates fuel o ≡ some a)
  unfolding after_login wait_for_server_join_game join_game_loop
  after_login_returns fuel none (r, e) enough = ground (arith, e)
  after_login_returns fuel (some (ok (gave d), i)) r enough = with_join_game_returns d.payload _ (
      packet_loop_returns crates.wire same_client
        (join_game_step crates.play (probe_info config crates)) fuel d.client i (enough d i refl))
  after_login_returns fuel (some (ok (left d), i)) r enough = (err, refl)
  after_login_returns fuel (some (err, i)) r enough = (err, refl)
  after_login_returns fuel (some (panic, i)) r enough = (panic, refl)

  dialled_returns :
      (fuel : ℕ) (client : Client) (i : Inbound) (wrote : Outcome Outbound)
      → length (remaining i) < fuel
      → (a : Answer) × (dialled config crates fuel client i wrote ≡ some a)
  unfolding dialled probe_loop
  dialled_returns fuel client i (ok out) enough =
      let d : Dial = record { client = client; out = out; payload = [] } in
      after_login_returns fuel (probe_loop config crates fuel d i)
        (packet_loop_returns crates.wire dial_client (probe_step config crates) fuel d i enough)
        (λ t i' gives. omega (
          arith,
          enough,
          packet_loop-gave_shrinks crates.wire dial_client (probe_step config crates) fuel d i i' t
              gives,
        ))
  dialled_returns fuel client i err enough = (err, refl)
  dialled_returns fuel client i panic enough = (panic, refl)

  -- The probe's connection comes to an end, with one round more for each of its two loops than
  -- there are bytes that the server sends.
  pub probe_connection_returns :
      (fuel : ℕ) (client : Client) (i : Inbound) (out : Outbound)
      → length (remaining i) < fuel
      → (a : Answer) × (connect_to_server_no_timeout config crates fuel (some (client, i, out))
          ≡ some a)
  unfolding connect_to_server_no_timeout
  probe_connection_returns fuel client i out enough =
      dialled_returns fuel (set_state login client) i
        (introduce config crates (set_state login client) out) enough
