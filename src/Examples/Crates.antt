-- ===== src/Examples/Crates.antt =====
-- Concrete crates for the examples of the lobby and of the probe, a Forge server and what it sends.
use plexsoftware.Prelude.{[], ◌∷◌, ◌++◌, none, some, true, false}
use plexsoftware.Prelude.Int.{pos}
use plexsoftware.Prelude.Strings.{codes}
use plexsoftware.Config.{Config}
use plexsoftware.Forge.{ForgeCodec, channel_login_wrapper, channel_handshake}
use plexsoftware.Forge.Replay.{in_time}
use plexsoftware.Mc.Dimension.{Nbt}
use plexsoftware.Proto.Client.{Client, ClientInfo, login}
use plexsoftware.Proto.Login.{LoginCodec}
use plexsoftware.Proto.Packet.{Inbound, chunk}
use plexsoftware.Proto.Play.{PlayCodec, JoinGame}
use plexsoftware.Proto.Action.{Outbound}
use plexsoftware.Proxy.{HeaderCodec, Stream, Endpoint, v4, shut}
use plexsoftware.Server.State.{starting, started}
use plexsoftware.Server.Model.{Server, default}
use plexsoftware.Probe.{Crates}
use plexsoftware.Lobby.Guest.{LobbyCrates}
use plexsoftware.Lobby.{Stay, drained_bytes, would_block}
use plexsoftware.Examples.Codec.{wire}
use plexsoftware.Examples.Data.{config, plain_client, handshake_of}

abbrev pub login_codec : LoginCodec
login_codec = record {
  handshake_id = 0;
  login_start_id = 0;
  set_compression_id = 3;
  encryption_request_id = 1;
  plugin_request_id = 4;
  plugin_response_id = 2;
  login_success_id = 2;
  disconnect_id = 0;
  encode_handshake = λ h. some h.server_addr;
  encode_login_start = λ name. some name;
  decode_login_start = λ bs. some bs;
  encode_set_compression = λ threshold. some (128 ∷ 2 ∷ []);
  decode_set_compression = λ bs. some (pos 256);
  encode_login_success = λ uuid name. some (uuid ++ name);
  encode_plugin_response = λ r. some r.response;
  decode_plugin_request =
      λ bs. some (record { message_id = pos 1; channel = channel_login_wrapper; request = bs });
}

-- A wrapper holds one packet of the channel of the handshake; mod lists have the id 1.
abbrev pub forge_codec : ForgeCodec
forge_codec = record {
  encode_wrapper = λ wrapper. some wrapper.packet;
  decode_wrapper = λ bs. some (record { channel = channel_handshake; packet = bs });
  acknowledgement_id = 99;
  acknowledgement = some [];
  mod_list_id = 1;
  mod_list_reply_id = 2;
  mod_list_reply = λ bs. some (some bs);
}

abbrev pub overworld : JoinGame
overworld = record {
  entity_id = pos 5;
  hardcore = false;
  game_mode = 0;
  previous_game_mode = 255;
  world_names = [];
  dimension_codec = [];
  dimension = 1 ∷ [];
  world_name = codes "minecraft:overworld";
  hashed_seed = pos 77;
  max_players = pos 20;
  view_distance = pos 10;
  reduced_debug_info = false;
  enable_respawn_screen = true;
  is_debug = false;
  is_flat = false;
}

abbrev pub play_codec : PlayCodec
play_codec = record {
  v1_17_protocol = 755;
  packet_id = λ version packet. 60;
  encode = λ version packet. some (8 ∷ []);
  join_game_id = λ version. 38;
  decode_join_game = λ version bs. some overworld;
}

abbrev pub crates : Crates
crates = record {
  wire = wire;
  login = login_codec;
  forge = forge_codec;
  play = play_codec;
  show_ip = λ ip. [];
}

abbrev pub nbt : Nbt
nbt = record {
  get_compound_tag = λ tag name. none;
  get_compound_tag_vec = λ tag name. none;
  get_str = λ tag name. none;
  insert_i8 = λ name value tag. tag;
  insert_i32 = λ name value tag. tag;
  insert_i64 = λ name value tag. tag;
  insert_f32 = λ name value tag. tag;
  insert_f64 = λ name value tag. tag;
  insert_str = λ name value tag. tag;
  default_dimension_codec = [];
  lobby_default_dimension = 3 ∷ [];
}

abbrev pub header_codec : HeaderCodec
header_codec = record { encode = λ command addresses. some (13 ∷ 10 ∷ []) }

abbrev pub lobby_crates : LobbyCrates
lobby_crates = record { shared = crates; nbt = nbt; md5 = λ bs. 0 ∷ 1 ∷ []; header = header_codec }

abbrev pub forge_config : Config
forge_config = record config { server = record config.server { forge = true } }

abbrev pub fresh : Outbound
fresh = record { written = []; takes = λ n. true }

-- Two plugin requests, the login's success, the packet of the world and two bytes more.
abbrev pub forge_server : Inbound
forge_server = record {
  buf = [];
  stream =
      chunk (2 ∷ 4 ∷ 1 ∷ 3 ∷ 4 ∷ [])
      ∷ chunk (7 ∷ 9 ∷ 1 ∷ 2 ∷ 1 ∷ 38 ∷ 5 ∷ [])
      ∷ chunk (6 ∷ [])
      ∷ [];
}

abbrev pub stopped_server : Server
stopped_server = default

-- A Forge server whose login was recorded.
abbrev pub probed_server : Server
probed_server = record default { forge_payload = (2 ∷ 4 ∷ 1 ∷ []) ∷ (3 ∷ 4 ∷ 7 ∷ 9 ∷ []) ∷ [] }

abbrev pub guest : Client
guest = record plain_client { state = login }

abbrev pub guest_info : ClientInfo
guest_info = record {
  protocol = some 769;
  handshake = handshake_of (2 ∷ []);
  username = some (codes "A");
}

abbrev pub endpoint : Endpoint
endpoint = v4 (record { ip = 7; port = 5000 })

abbrev pub guest_stream : Stream
guest_stream = record { peer = some endpoint; local = some endpoint; out = fresh }

-- The login packet and the client's two responses.
abbrev pub guest_inbound : Inbound
guest_inbound = record {
  buf = 2 ∷ 0 ∷ 65 ∷ [];
  stream = chunk (1 ∷ 2 ∷ 1 ∷ []) ∷ chunk (2 ∷ []) ∷ [];
}

abbrev pub stay : Stay
stay = record {
  forge_reads = λ n. in_time;
  keep_alives = 0 ∷ 1 ∷ [];
  seen = starting ∷ started ∷ [];
  connected = some (plain_client, forge_server, fresh);
  connects_in_time = true;
  joins_in_time = true;
  try_reads = drained_bytes ∷ would_block ∷ [];
  closes = shut;
}
