-- ===== src/Mc/Rcon.antt =====
-- src/mc/rcon.rs: connecting to the remote console of the server. The protocol behind the
-- connection is `rust_rcon`'s.
use plexsoftware.Prelude.{
  Bool, true, false, Option, none, some, Outcome, ok, err, ◌>>=◌, or_err, Text,
}
use plexsoftware.Config.{Config, SocketAddr}
use plexsoftware.Proto.Action.{Outbound, write_all}
use plexsoftware.Proxy.{HeaderCodec, local_proxy_header}

-- A connection: its writer, and whether the console takes a password.
pub record Console : Type 0 where
  pub out : Outbound
  pub takes_password : Text → Bool

module _ (config : Config) (codec : HeaderCodec) where
  unfoldable pub rcon_header : Bool → Outbound → Outcome Outbound
  rcon_header false out = ok out
  rcon_header true out = do header ← or_err (local_proxy_header codec); write_all (ok header) out

  unfoldable pub rcon_login : Bool → Outbound → Outcome Outbound
  rcon_login true out = ok out
  rcon_login false out = err

  -- `Rcon::connect`: the header, and then the login.
  unfoldable pub rcon_connect : Option Console → Text → Outcome Outbound
  unfolding rcon_header rcon_login
  rcon_connect none password = err
  rcon_connect (some console) password =
      rcon_header config.rcon.send_proxy_v2 console.out
      >>= rcon_login (console.takes_password password)

  -- `Rcon::connect_config`: the server's address with the port of the console.
  unfoldable pub rcon_connect_config : (SocketAddr → Option Console) → Outcome Outbound
  unfolding rcon_connect
  rcon_connect_config dial =
      rcon_connect (dial (record config.server.address { port = config.rcon.port }))
        config.rcon.password
