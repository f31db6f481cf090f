-- ===== src/Proto/Play/World.antt =====
-- src/proto/packets/play/join_game.rs and respawn.rs: the world of the lobby and the way out of it.
use plexsoftware.Prelude.{
  ℕ, true, false, List, [], ◌∷◌, Option, none, some, Outcome, ok, ◌>>=◌, Text, map_some, and_then,
  or_else, unwrap_or,
}
use plexsoftware.Prelude.Int.{pos, as_i32}
use plexsoftware.Prelude.Strings.{codes}
use plexsoftware.Types.{Wire}
use plexsoftware.Mc.Dimension.{Nbt, Tag, lobby_dimension}
use plexsoftware.Proto.Client.{Client, ClientInfo}
use plexsoftware.Proto.Action.{Outbound}
use plexsoftware.Proto.Play.{JoinGame, Respawn, join_game, respawn, PlayCodec, write_play}
use plexsoftware.Server.Model.{Server, ServerStatus, JoinGameData}

abbrev pub default_world_names : List Text
default_world_names =
    codes "minecraft:overworld" ∷ codes "minecraft:the_nether" ∷ codes "minecraft:the_end" ∷ []

-- `-1i8 as u8`.
abbrev pub no_game_mode : ℕ
no_game_mode = 255

module _ (nbt : Nbt) where
  -- The packet for a server with that status and that probed data.
  unfoldable pub lobby_join_game : Option ServerStatus → Option JoinGameData → Outcome JoinGame
  lobby_join_game status probed = do
    let codec =
        unwrap_or (and_then probed (λ (p : JoinGameData). p.dimension_codec))
          nbt.default_dimension_codec
    dimension ← lobby_dimension nbt codec
    ok (record {
      entity_id = pos 0;
      hardcore = unwrap_or (and_then probed (λ (p : JoinGameData). p.hardcore)) false;
      game_mode = 3;
      previous_game_mode = no_game_mode;
      world_names =
          unwrap_or (and_then probed (λ (p : JoinGameData). p.world_names)) default_world_names;
      dimension_codec = codec;
      dimension = dimension;
      world_name = codes "plexpaper:lobby";
      hashed_seed = pos 0;
      max_players =
          unwrap_or
            (or_else (map_some (λ (s : ServerStatus). as_i32 s.max) status)
              (and_then probed (λ (p : JoinGameData). p.max_players)))
            (pos 20);
      view_distance = unwrap_or (and_then probed (λ (p : JoinGameData). p.view_distance)) (pos 10);
      reduced_debug_info =
          unwrap_or (and_then probed (λ (p : JoinGameData). p.reduced_debug_info)) false;
      enable_respawn_screen =
          unwrap_or (and_then probed (λ (p : JoinGameData). p.enable_respawn_screen)) true;
      is_debug = unwrap_or (and_then probed (λ (p : JoinGameData). p.is_debug)) false;
      is_flat = unwrap_or (and_then probed (λ (p : JoinGameData). p.is_flat)) false;
    })

  -- `unwrap_or_else` makes the lobby's dimension only where there is none.
  unfoldable pub respawn_dimension : Option Tag → Option Tag → Outcome Tag
  respawn_dimension (some dimension) codec = ok dimension
  respawn_dimension none codec = lobby_dimension nbt (unwrap_or codec nbt.default_dimension_codec)

  unfoldable pub server_respawn : JoinGameData → Outcome Respawn
  unfolding respawn_dimension
  server_respawn game = do
    dimension ← respawn_dimension game.dimension game.dimension_codec
    ok (record {
      dimension = dimension;
      world_name = unwrap_or game.world_name (codes "minecraft:overworld");
      hashed_seed = unwrap_or game.hashed_seed (pos 0);
      game_mode = unwrap_or game.game_mode 0;
      previous_game_mode = unwrap_or game.previous_game_mode no_game_mode;
      is_debug = unwrap_or game.is_debug false;
      is_flat = unwrap_or game.is_flat false;
      copy_metadata = false;
    })

  module _ (w : Wire) (codec : PlayCodec) (client : Client) (info : ClientInfo) where
    unfoldable pub send_join_game : Server → Outbound → Outcome Outbound
    unfolding lobby_join_game
    send_join_game s out = do
      packet ← lobby_join_game s.status s.probed_join_game
      write_play w codec client info (λ v. join_game packet) out

    unfoldable pub send_respawn : JoinGameData → Outbound → Outcome Outbound
    unfolding server_respawn
    send_respawn game out = do
      packet ← server_respawn game
      write_play w codec client info (λ v. respawn packet) out
