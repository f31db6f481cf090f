-- ===== src/Service.antt =====
-- src/service: the tasks of the proxy, by what each does at one connection, signal or file event.
pub mod Files
pub mod Routing
pub mod Current
pub mod Looks
pub mod Reread
pub mod Updated
pub mod Watching
use plexsoftware.Prelude.{
  ℕ, Bool, true, false, ◌&&◌, ◌||◌, not, List, Option, none, some, any, if◌then◌else◌, Text, ◌++◌,
  [], is_some,
}
use plexsoftware.Config.{Config, SocketAddr, Method, lobby, method_eq}
use plexsoftware.Mc.Ban.{Dates}
use plexsoftware.Proto.Client.{Client}
use plexsoftware.Proto.Client
use plexsoftware.Server.State.{started, stopped, eq_state}
use plexsoftware.Server.Model.{Server, is_banned_ip}
use plexsoftware.Server.Stop.{World, stop}

-- src/proxy.rs
pub data ProxyHeader : Type 0 where
  no_header local_header proxy_header : ProxyHeader

unfoldable pub not_none : ProxyHeader → Bool → ProxyHeader
not_none h true = h
not_none h false = no_header

-- What `route` does with a connection: nothing, or it spawns a task that forwards the connection or
-- answers it.
pub data Route : Type 0 where
  closed : Route
  forwarded : ProxyHeader → SocketAddr → Route
  answered : Client → Route

module _ (config : Config) (dates : Dates) (now : ℕ) where
  unfoldable pub route_peer : ℕ → Server → Route
  unfolding not_none
  route_peer peer s =
      let banned = is_banned_ip dates now peer s in
      if banned && config.server.drop_banned_ips
      then closed
      else if (not banned && eq_state s.state started) && not config.lockout.enabled
      then forwarded (not_none proxy_header config.server.send_proxy_v2) config.server.address
      else answered (Client.new peer)

  -- Without a peer address the connection is dropped.
  unfoldable pub route : Option ℕ → Server → Route
  unfolding route_peer
  route none s = closed
  route (some peer) s = route_peer peer s

-- What a Ctrl-C does, and whether the proxy quits.
unfoldable pub interrupt : Config → World → Server → Server × Bool
interrupt config world s =
    let (t, stopping) = stop config world s in
    if eq_state s.state stopped then (s, true) else (t, not stopping)

-- `must_probe` of src/service/probe.rs, and whether `service` there goes on to probe.
unfoldable pub must_probe : Config → Bool
must_probe config = config.server.forge && any (λ m. method_eq m lobby) config.join.methods

unfoldable pub probes : Config → Bool
unfolding must_probe
probes config = not (not config.server.probe_on_start && not (must_probe config))
