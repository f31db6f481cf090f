-- ===== src/Examples/Data.antt =====
-- The configuration, the server, the packets and the connection of the examples.
use plexsoftware.Prelude.{ℕ, List, [], ◌∷◌, Option, none, some, Bool, true, false}
use plexsoftware.Prelude.Int.{pos, negsuc}
use plexsoftware.Prelude.Strings.{codes}
use plexsoftware.Config.{
  Config, localhost_ip, default_time, default_motd, default_join, default_lockout, default_rcon,
}
use plexsoftware.Mc.Ban.{Dates}
use plexsoftware.Proto.Client.{Client, Handshake, handshake, login, empty}
use plexsoftware.Proto.Packet.{RawPacket, chunk}
use plexsoftware.Proto.Action.{Packets}
use plexsoftware.Server.State.{started, starting}
use plexsoftware.Server.Model.{Server, ServerStatus, default}
use plexsoftware.Server.Stop.{World}
use plexsoftware.Status.{Connection, Host}
use plexsoftware.Examples.Codec.{wire}

-- Without and with freezing.
abbrev pub config_with : Bool → Config
config_with freezes = record {
  public = record {
    address = record { ip = 0; port = 25565 };
    version = codes "1.21.4";
    protocol = 769;
  };
  server = record {
    directory = none;
    command = codes "java -jar server.jar --nogui";
    address = record { ip = localhost_ip; port = 25566 };
    freeze_process = freezes;
    wake_on_start = false;
    wake_on_crash = true;
    probe_on_start = false;
    forge = false;
    start_timeout = 120;
    stop_timeout = 60;
    wake_whitelist = true;
    block_banned_ips = true;
    drop_banned_ips = false;
    send_proxy_v2 = false;
  };
  time = default_time;
  motd = default_motd;
  join = default_join;
  lockout = default_lockout;
  rcon = default_rcon;
  rewrite_server_properties = true;
}

abbrev pub config : Config
config = config_with false

abbrev pub freezing : Config
freezing = config_with true

abbrev pub world_at : ℕ → World
world_at now = record {
  now = now;
  kill = λ pid signal. true;
  rcon_connects = false;
  rcon_stops = false;
}

abbrev pub idle_status : ServerStatus
idle_status = record {
  version_name = codes "1.21.4";
  version_protocol = 769;
  online = 0;
  max = 20;
  sample = [];
  description = codes "A server";
  favicon = none;
}

-- A started server with the process 42, last active at the time 1000.
abbrev pub running : Server
running = record default {
  state = started;
  sent = started ∷ starting ∷ [];
  pid = some 42;
  status = some idle_status;
  last_active = some 1000;
}

abbrev pub dates : Dates
dates = record { to_lowercase = λ s. s; parse_date = λ s. none }

abbrev pub handshake_of : List ℕ → Option Handshake
handshake_of [] = none
handshake_of (b ∷ bs) = some (record {
  protocol_version = pos 769;
  server_addr = [];
  server_port = 25565;
  next_state = pos b;
})

abbrev pub packets : Packets
packets = record {
  server_handshake = 0;
  server_status = 0;
  server_ping = 1;
  server_login_start = 0;
  client_status = 0;
  client_ping = 1;
  login_disconnect = 0;
  game_disconnect = 26;
  decode_handshake = handshake_of;
  decode_login_start = λ bs. some bs;
  encode_status_response = λ status. some status.description;
  decode_status_response = λ bs. some idle_status;
  decode_ping_response = λ bs. none;
  encode_disconnect = λ state msg. some msg;
}

abbrev pub host : Host
host = record {
  wire = wire;
  packets = packets;
  dates = dates;
  icons = record { base64 = λ bs. bs; unknown_server = [] };
  icon = record { is_file = λ dir. false; read = λ dir. none };
}

abbrev pub plain_client : Client
plain_client = record { peer_ip = 7; state = handshake; compression = negsuc 0 }

-- A client that sends a handshake that asks for a login, a login packet and one more byte, which
-- the network cuts inside the second packet.
abbrev pub connection : Connection
connection = record {
  client = plain_client;
  inbound = record {
    buf = [];
    stream = chunk (2 ∷ 0 ∷ 2 ∷ 3 ∷ []) ∷ chunk (0 ∷ 65 ∷ 66 ∷ 9 ∷ []) ∷ [];
  };
  history = [];
  info = empty;
  out = record { written = []; takes = λ n. true };
}

-- The same connection behind the handshake.
abbrev pub logging_in : Connection
logging_in = record {
  client = record plain_client { state = login };
  inbound = record { buf = 3 ∷ []; stream = chunk (0 ∷ 65 ∷ 66 ∷ 9 ∷ []) ∷ [] };
  history = 2 ∷ 0 ∷ 2 ∷ [];
  info = record { protocol = some 769; handshake = handshake_of (2 ∷ []); username = none };
  out = record { written = []; takes = λ n. true };
}

abbrev pub handed_on : Connection
handed_on = record {
  client = record plain_client { state = login };
  inbound = record { buf = []; stream = [] };
  history = 2 ∷ 0 ∷ 2 ∷ 3 ∷ 0 ∷ 65 ∷ 66 ∷ 9 ∷ [];
  info = record {
    protocol = some 769;
    handshake = handshake_of (2 ∷ []);
    username = some (65 ∷ 66 ∷ []);
  };
  out = record { written = []; takes = λ n. true };
}

abbrev pub login_packet : RawPacket
login_packet = record { id = 0; bytes = 65 ∷ 66 ∷ [] }

abbrev pub login_frame : List ℕ
login_frame = 3 ∷ 0 ∷ 65 ∷ 66 ∷ []
