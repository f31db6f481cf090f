-- ===== src/Config/Runtime.antt =====
-- `Config::runtime` of src/config.rs.
use plexsoftware.Prelude.{
  ℕ, ◌≡◌, ◌≢◌, true, false, List, Option, some, Text, ◌==◌, if◌then◌else◌, and_then, unwrap_or,
  arith, ◌<◌, [], Option-cases, inl, inr,
}
use plexsoftware.Prelude.Int.{pow_32}
use plexsoftware.Prelude.Strings.{codes, parse_uint, parse_uint-lt}
use plexsoftware.Config.{
  Config, ServerConfig, unspecified_ip, localhost_ip, public_port_default, internal_port_primary,
  internal_port_fallback, default_time, default_motd, default_join, default_lockout, default_rcon,
}
use plexsoftware.Config.Command.{Shell, env_string, build_command}

abbrev pub pow_16 : ℕ
pow_16 = 65536

abbrev pub proto_default_version : Text
proto_default_version = codes "1.21.4"

abbrev pub proto_default_protocol : ℕ
proto_default_protocol = 769

module _ (shell : Shell) where
  unfoldable pub env_u16 : Text → Option ℕ
  env_u16 key = and_then (env_string shell key) (parse_uint pow_16)

  unfoldable pub env_u32 : Text → Option ℕ
  env_u32 key = and_then (env_string shell key) (parse_uint pow_32)

  unfoldable pub default_server : ServerConfig
  default_server = record {
    directory = some (codes ".");
    command = build_command shell [];
    address = record { ip = localhost_ip; port = internal_port_primary };
    freeze_process = false;
    wake_on_start = false;
    wake_on_crash = false;
    probe_on_start = false;
    forge = false;
    start_timeout = 120;
    stop_timeout = 60;
    wake_whitelist = true;
    block_banned_ips = true;
    drop_banned_ips = false;
    send_proxy_v2 = false;
  }

  abbrev pub public_port : ℕ
  unfolding env_u16
  public_port = unwrap_or (env_u16 (codes "SERVER_PORT")) public_port_default

  abbrev pub internal_port : ℕ
  unfolding public_port
  internal_port =
      if public_port == internal_port_primary then internal_port_fallback else internal_port_primary

  unfoldable pub runtime : List Text → Config
  unfolding env_u32 default_server internal_port public_port
  runtime java_args = record {
    public = record {
      address = record { ip = unspecified_ip; port = public_port };
      version = unwrap_or (env_string shell (codes "MC_VERSION")) proto_default_version;
      protocol = unwrap_or (env_u32 (codes "PROTOCOL_NUMBER")) proto_default_protocol;
    };
    server = record default_server {
      directory = some (codes ".");
      command = build_command shell java_args;
      address = record { ip = localhost_ip; port = internal_port };
    };
    time = default_time;
    motd = default_motd;
    join = default_join;
    lockout = default_lockout;
    rcon = default_rcon;
    rewrite_server_properties = true;
  }

  env_u16-lt : (key : Text) (n : ℕ) → env_u16 key ≡ some n → n < pow_16
  unfolding env_u16
  env_u16-lt key n e = elim (Option-cases (env_string shell key)) [
    | inl missing ↦ ground (arith, missing)
    | inr (text, found) ↦ ground (arith, found, parse_uint-lt pow_16 text n)
  ]

  -- The public and the internal port of every configuration are ports, and never the same one.
  pub runtime_ports :
      (java_args : List Text)
      → let config = runtime java_args in
        (config.public.address.port ≢ config.server.address.port)
        × (config.public.address.port < pow_16)
        × (config.server.address.port < pow_16)
  unfolding runtime
  runtime_ports java_args = elim (Option-cases (env_u16 (codes "SERVER_PORT"))) [
    | inl missing ↦ ground (arith, missing)
    | inr (port, found) ↦ ground (arith, found, env_u16-lt (codes "SERVER_PORT") port found)
  ]
