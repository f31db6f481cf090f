-- ===== src/Proto/Play/Await.antt =====
-- Waiting for the packet that tells a joining client of its world (src/lobby.rs, src/probe.rs).
use plexsoftware.Prelude.{
  ℕ, ◌≡◌, true, false, inl, inr, Bool-cases, List, Outcome, ok, some, ◌>>=◌, >>=-eq-ok, or_err,
  or_err-ok, arith, if◌then◌else◌,
}
use plexsoftware.Types.{Wire}
use plexsoftware.Proto.Client.{Client, ClientInfo}
use plexsoftware.Proto.Packet.{RawPacket, Inbound}
use plexsoftware.Proto.Packet.Loop.{Step, go_on, give, give-not-go_on, LoopResult, packet_loop}
use plexsoftware.Proto.Play.{PlayCodec, is_packet, from_packet}
use plexsoftware.Server.Model.{JoinGameData}

abbrev pub same_client : Client → Client
same_client client = client

module _ (codec : PlayCodec) (info : ClientInfo) where
  unfoldable pub join_game_step : Client → RawPacket → List ℕ → Outcome (Step Client JoinGameData)
  join_game_step client p raw =
      if is_packet codec info p.id
      then (or_err (from_packet codec info p) >>= λ game. ok (give game))
      else ok (go_on client)

  unfoldable pub join_game_loop :
      (w : Wire) → ℕ → Client → Inbound → LoopResult w same_client join_game_step
  unfolding join_game_step
  join_game_loop w fuel client i = packet_loop w same_client join_game_step fuel client i

  pub join_game_given :
      (client : Client) (p : RawPacket) (raw : List ℕ) (game : JoinGameData)
      → join_game_step client p raw ≡ ok (give game)
      → (is_packet codec info p.id ≡ true) × (from_packet codec info p ≡ some game)
  unfolding join_game_step
  join_game_given client p raw game e = elim (Bool-cases (is_packet codec info p.id)) [
    | inl is ↦
        let (g, parsed, same) =
          >>=-eq-ok (or_err (from_packet codec info p)) (λ q. ok (give q)) (simp is at e) in
        (is, or_err-ok (from_packet codec info p) game (ground (arith, parsed, same)))
    | inr other ↦ ground (arith, simp other at e)
  ]

  pub join_game_goes_on :
      (client t : Client) (p : RawPacket) (raw : List ℕ)
      → join_game_step client p raw ≡ ok (go_on t)
      → (is_packet codec info p.id ≡ false) × (t ≡ client)
  unfolding join_game_step
  join_game_goes_on client t p raw e = elim (Bool-cases (is_packet codec info p.id)) [
    | inl is ↦ absurd (give-not-go_on (or_err (from_packet codec info p)) t (simp is at e))
    | inr other ↦ (other, ground (arith, simp other at e))
  ]
