-- ===== src/Config.antt =====
-- src/config.rs: the configuration. It is built from the command line and the environment; the
-- environment's variables and `shlex::try_quote` are parameters.
pub mod Command
pub mod Runtime
use plexsoftware.Prelude.{ℕ, Bool, true, false, List, [], ◌∷◌, Option, none, some, Text, ◌≡◌}
use plexsoftware.Prelude.Strings.{codes}

-- An IP address is a number here, a port one below 2 ^ 16.
pub record SocketAddr : Type 0 where
  pub ip : ℕ
  pub port : ℕ

abbrev pub unspecified_ip : ℕ
unspecified_ip = 0

-- 127.0.0.1
abbrev pub localhost_ip : ℕ
localhost_ip = 0x7f00_0001

abbrev pub public_port_default : ℕ
public_port_default = 25565

abbrev pub internal_port_primary : ℕ
internal_port_primary = 25566

abbrev pub internal_port_fallback : ℕ
internal_port_fallback = 25567

pub record Public : Type 0 where
  pub address : SocketAddr
  pub version : Text
  pub protocol : ℕ

pub record ServerConfig : Type 0 where
  pub directory : Option Text
  pub command : Text
  pub address : SocketAddr
  pub freeze_process : Bool
  pub wake_on_start : Bool
  pub wake_on_crash : Bool
  pub probe_on_start : Bool
  pub forge : Bool
  pub start_timeout : ℕ
  pub stop_timeout : ℕ
  pub wake_whitelist : Bool
  pub block_banned_ips : Bool
  pub drop_banned_ips : Bool
  pub send_proxy_v2 : Bool

pub record Time : Type 0 where
  pub sleep_after : ℕ
  pub min_online_time : ℕ

pub record Motd : Type 0 where
  pub sleeping : Text
  pub starting : Text
  pub stopping : Text
  pub from_server : Bool

pub data Method : Type 0 where
  kick hold forward lobby : Method

abbrev pub method_eq : Method → Method → Bool
method_eq kick kick = true
method_eq hold hold = true
method_eq forward forward = true
method_eq lobby lobby = true
method_eq _ _ = false

pub record JoinKick : Type 0 where
  pub starting : Text
  pub stopping : Text

pub record JoinHold : Type 0 where
  pub timeout : ℕ

pub record JoinForward : Type 0 where
  pub address : SocketAddr
  pub send_proxy_v2 : Bool

pub record JoinLobby : Type 0 where
  pub timeout : ℕ
  pub message : Text
  pub ready_sound : Option Text

pub record Join : Type 0 where
  pub methods : List Method
  pub kick : JoinKick
  pub hold : JoinHold
  pub forward : JoinForward
  pub lobby : JoinLobby

pub record Lockout : Type 0 where
  pub enabled : Bool
  pub message : Text

pub record Rcon : Type 0 where
  pub enabled : Bool
  pub port : ℕ
  pub password : Text
  pub randomize_password : Bool
  pub send_proxy_v2 : Bool

pub record Config : Type 0 where
  pub public : Public
  pub server : ServerConfig
  pub time : Time
  pub motd : Motd
  pub join : Join
  pub lockout : Lockout
  pub rcon : Rcon
  pub rewrite_server_properties : Bool

abbrev pub server_directory : Config → Option Text
server_directory config = config.server.directory

abbrev pub default_time : Time
default_time = record { sleep_after = 300; min_online_time = 60 }

abbrev pub default_motd : Motd
default_motd = record {
  sleeping =
      codes
        "§bPlexScale§f - Server is sleeping, join to wake it up\n§fThis server is powered by PlexScale.com";
  starting =
      codes
        "§bPlexScale§f - Server is starting, please wait...\n§fThis server is powered by PlexScale.com";
  stopping =
      codes
        "§bPlexScale§f - Server is going to sleep...\n§fThis server is powered by PlexScale.com";
  from_server = false;
}

abbrev pub default_kick : JoinKick
default_kick = record {
  starting = codes "§bPlexScale§f\n\nThe server is starting up.\n\nPlease reconnect in a moment.";
  stopping =
      codes "§bPlexScale§f\n\nThe server is going to sleep.\n\nReconnect to wake it up again.";
}

abbrev pub default_hold : JoinHold
default_hold = record { timeout = 25 }

abbrev pub default_forward : JoinForward
default_forward = record {
  address = record { ip = localhost_ip; port = public_port_default };
  send_proxy_v2 = false;
}

abbrev pub default_lobby : JoinLobby
default_lobby = record {
  timeout = 600;
  message = codes "§bPlexScale§f\n§fServer is starting, please wait...";
  ready_sound = some (codes "block.note_block.chime");
}

abbrev pub default_join : Join
default_join = record {
  methods = hold ∷ kick ∷ [];
  kick = default_kick;
  hold = default_hold;
  forward = default_forward;
  lobby = default_lobby;
}

abbrev pub default_lockout : Lockout
default_lockout = record {
  enabled = false;
  message = codes "§bPlexScale§f\n\nThis server is currently closed.";
}

-- On Unix, where `cfg!(windows)` is false.
abbrev pub default_rcon : Rcon
default_rcon = record {
  enabled = false;
  port = 25575;
  password = [];
  randomize_password = true;
  send_proxy_v2 = false;
}
