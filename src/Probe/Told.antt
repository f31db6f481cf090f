-- ===== src/Probe/Told.antt =====
-- The world that the probe's connection is told of behind its login (src/probe.rs).
use plexsoftware.Prelude.{ℕ, zero, suc, ◌≡◌, true, false, inl, inr, List, some, ok, arith}
use plexsoftware.Config.{Config}
use plexsoftware.Proto.Client.{Client}
use plexsoftware.Proto.Packet.{RawPacket, Inbound, read_packet}
use plexsoftware.Proto.Packet.Loop.{gave, packet_loop, after_read-gave, after_body-gave}
use plexsoftware.Proto.Play.{is_packet, from_packet}
use plexsoftware.Proto.Play.Await.{
  same_client, join_game_step, join_game_loop, join_game_given, join_game_goes_on,
}
use plexsoftware.Server.Model.{JoinGameData}
use plexsoftware.Probe.{Crates, probe_info, wait_for_server_join_game}

module _ (config : Config) (crates : Crates) where
  -- The first packet with the id of a join packet, of those that the connection reads one after the
  -- other, holds the world `game`.
  pub data IsTold (client : Client) : Inbound → JoinGameData → Type 0 where
    joined :
        (i i' : Inbound) (game : JoinGameData) (p : RawPacket) (raw : List ℕ)
        → read_packet crates.wire client i ≡ (ok (some (p, raw)), i')
        → is_packet crates.play (probe_info config crates) p.id ≡ true
        → from_packet crates.play (probe_info config crates) p ≡ some game
        → IsTold client i game
    skipped :
        (i i' : Inbound) (game : JoinGameData) (p : RawPacket) (raw : List ℕ)
        → read_packet crates.wire client i ≡ (ok (some (p, raw)), i')
        → is_packet crates.play (probe_info config crates) p.id ≡ false
        → IsTold client i' game
        → IsTold client i game

  join_game_loop-IsTold :
      (fuel : ℕ) (client : Client) (i i' : Inbound) (game : JoinGameData)
      → packet_loop crates.wire same_client
          (join_game_step crates.play (probe_info config crates))
          fuel
          client
          i
        ≡ some (ok (gave game), i')
      → IsTold client i game
  unfolding packet_loop
  join_game_loop-IsTold zero client i i' game e = ground (arith, e)
  join_game_loop-IsTold (suc fuel) client i i' game e =
      let info = probe_info config crates in
      let step = join_game_step crates.play info in
      let rest = packet_loop crates.wire same_client step fuel in
      let (p, raw, i2, read, next) =
        after_read-gave crates.wire same_client step rest client i' game
          (read_packet crates.wire client i) e in
      elim (after_body-gave crates.wire same_client step rest i2 i' game (step client p raw) next) [
        | inl (given, same) ↦
            let (is, world) = join_game_given crates.play info client p raw game given in
            joined i i2 game p raw read is world
        | inr (u, on, later) ↦
            let (other, stays) = join_game_goes_on crates.play info client u p raw on in
            skipped i i2 game p raw read other
              (join_game_loop-IsTold fuel client i2 i' game (rw stays at later))
      ]

  pub wait_for_server_join_game-IsTold :
      (fuel : ℕ) (client : Client) (i i' : Inbound) (game : JoinGameData)
      → wait_for_server_join_game config crates fuel client i ≡ some (ok (gave game), i')
      → IsTold client i game
  unfolding wait_for_server_join_game join_game_loop
  wait_for_server_join_game-IsTold fuel client i i' game e =
      join_game_loop-IsTold fuel client i i' game e
