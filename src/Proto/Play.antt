-- ===== src/Proto/Play.antt =====
-- src/proto/packets/play: the packets that the lobby sends to a playing client. Their ids and their
-- encodings are `minecraft_protocol`'s, so they are parameters, in `PlayCodec`; a float is one of
-- the whole numbers that the code writes.
pub mod Await
pub mod Title
pub mod World
use plexsoftware.Prelude.{
  ℕ, ◌+◌, ◌%◌, ◌==◌, Bool, true, false, List, [], Option, none, some, Outcome, Text, ltb, map_some,
  if◌then◌else◌, unwrap_or,
}
use plexsoftware.Prelude.Int.{ℤ, pow_64}
use plexsoftware.Prelude.Strings.{codes}
use plexsoftware.Types.{Wire}
use plexsoftware.Mc.Dimension.{Tag}
use plexsoftware.Proto.Client.{Client, ClientInfo, protocol}
use plexsoftware.Proto.Packet.{RawPacket}
use plexsoftware.Proto.Action.{Outbound, write_packet}
use plexsoftware.Server.Model.{JoinGameData}

-- The two versions of the protocol that the crate has packets for.
pub data Version : Type 0 where
  v1_16_3 v1_17 : Version

pub record JoinGame : Type 0 where
  pub entity_id : ℤ
  pub hardcore : Bool
  pub game_mode : ℕ
  pub previous_game_mode : ℕ
  pub world_names : List Text
  pub dimension_codec : Tag
  pub dimension : Tag
  pub world_name : Text
  pub hashed_seed : ℤ
  pub max_players : ℤ
  pub view_distance : ℤ
  pub reduced_debug_info : Bool
  pub enable_respawn_screen : Bool
  pub is_debug : Bool
  pub is_flat : Bool

pub record Respawn : Type 0 where
  pub dimension : Tag
  pub world_name : Text
  pub hashed_seed : ℤ
  pub game_mode : ℕ
  pub previous_game_mode : ℕ
  pub is_debug : Bool
  pub is_flat : Bool
  pub copy_metadata : Bool

-- `dismount_vehicle` is there in the later version only.
pub record PlayerPosition : Type 0 where
  pub x : ℕ
  pub y : ℕ
  pub z : ℕ
  pub yaw : ℕ
  pub pitch : ℕ
  pub flags : ℕ
  pub teleport_id : ℕ
  pub dismount_vehicle : Option Bool

pub record NamedSound : Type 0 where
  pub sound_name : Text
  pub sound_category : ℕ
  pub effect_pos_x : ℕ
  pub effect_pos_y : ℕ
  pub effect_pos_z : ℕ
  pub volume : ℕ
  pub pitch : ℕ

pub record Times : Type 0 where
  pub fade_in : ℕ
  pub stay : ℕ
  pub fade_out : ℕ

pub data TitleAction : Type 0 where
  set_title set_subtitle : Text → TitleAction
  set_times_and_display : Times → TitleAction

-- `title` is a packet of the earlier version, `set_title_text` and the like are of the later one.
pub data PlayPacket : Type 0 where
  join_game : JoinGame → PlayPacket
  respawn : Respawn → PlayPacket
  plugin_message : Text → List ℕ → PlayPacket
  player_position : PlayerPosition → PlayPacket
  time_update : ℕ → ℕ → PlayPacket
  keep_alive : ℕ → PlayPacket
  named_sound : NamedSound → PlayPacket
  title : TitleAction → PlayPacket
  set_title_text set_title_subtitle : Text → PlayPacket
  set_title_times : Times → PlayPacket

pub record PlayCodec : Type 0 where
  pub v1_17_protocol : ℕ
  pub packet_id : Version → PlayPacket → ℕ
  pub encode : Version → PlayPacket → Option (List ℕ)
  pub join_game_id : Version → ℕ
  pub decode_join_game : Version → List ℕ → Option JoinGame

module _ (codec : PlayCodec) (info : ClientInfo) where
  -- `match client_info.protocol() { Some(p) if p < v1_17::PROTOCOL => ..., _ => ... }`.
  unfoldable pub version_of : Version
  version_of =
      if unwrap_or (map_some (λ p. ltb p codec.v1_17_protocol) (protocol info)) false
      then v1_16_3
      else v1_17

  -- `is_packet` of join_game.rs.
  unfoldable pub is_packet : ℕ → Bool
  is_packet id = id == codec.join_game_id version_of

  -- The fields of the packet, all known.
  abbrev pub join_game_data : JoinGame → JoinGameData
  join_game_data j = record {
    hardcore = some j.hardcore;
    game_mode = some j.game_mode;
    previous_game_mode = some j.previous_game_mode;
    world_names = some j.world_names;
    dimension = some j.dimension;
    dimension_codec = some j.dimension_codec;
    world_name = some j.world_name;
    hashed_seed = some j.hashed_seed;
    max_players = some j.max_players;
    view_distance = some j.view_distance;
    reduced_debug_info = some j.reduced_debug_info;
    enable_respawn_screen = some j.enable_respawn_screen;
    is_debug = some j.is_debug;
    is_flat = some j.is_flat;
  }

  unfoldable pub from_packet : RawPacket → Option JoinGameData
  from_packet p = map_some join_game_data (codec.decode_join_game version_of p.bytes)

abbrev pub brand_channel : Text
brand_channel = codes "minecraft:brand"

abbrev pub server_brand : List ℕ
server_brand = codes "plexpaper"

-- The counter for the ids of keep-alive packets is shared by all clients, and wraps.
unfoldable pub next_keep_alive : ℕ → ℕ
next_keep_alive id = (id + 1) % pow_64

abbrev pub position_of : Version → PlayerPosition
position_of version = record {
  x = 0;
  y = 0;
  z = 0;
  yaw = 0;
  pitch = 90;
  flags = 0;
  teleport_id = 0;
  dismount_vehicle = dismount version;
}
  where
    dismount : Version → Option Bool
    dismount v1_16_3 = none
    dismount v1_17 = some true

module _ (w : Wire) (codec : PlayCodec) (client : Client) (info : ClientInfo) where
  unfoldable pub write_play : (Version → PlayPacket) → Outbound → Outcome Outbound
  write_play packet out =
      let version = version_of codec info in
      write_packet w (codec.packet_id version (packet version))
        (codec.encode version (packet version)) client out

  unfoldable pub send_server_brand : Outbound → Outcome Outbound
  send_server_brand out = write_play (λ v. plugin_message brand_channel server_brand) out

  unfoldable pub send_player_pos : Outbound → Outcome Outbound
  send_player_pos out = write_play (λ v. player_position (position_of v)) out

  unfoldable pub send_time_update : Outbound → Outcome Outbound
  send_time_update out = write_play (λ v. time_update 0 0) out

  unfoldable pub send_keep_alive : ℕ → Outbound → Outcome Outbound
  send_keep_alive id out = write_play (λ v. keep_alive id) out

  unfoldable pub send_sound : Text → Outbound → Outcome Outbound
  send_sound name out =
      write_play
        (λ v. named_sound (record {
          sound_name = name;
          sound_category = 0;
          effect_pos_x = 0;
          effect_pos_y = 0;
          effect_pos_z = 0;
          volume = 1;
          pitch = 1;
        }))
        out
