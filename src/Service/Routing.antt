-- ===== src/Service/Routing.antt =====
-- Which connections reach the server (src/service/server.rs).
use plexsoftware.Prelude.{ℕ, ◌≡◌, false, some, arith, ◌↔◌}
use plexsoftware.Config.{Config, SocketAddr}
use plexsoftware.Mc.Ban.{Dates}
use plexsoftware.Server.State.{started}
use plexsoftware.Server.Model.{Server, is_banned_ip}
use plexsoftware.Service.{ProxyHeader, not_none, proxy_header, forwarded, route_peer, route}

-- When a connection may be forwarded.
pub record MayPass (config : Config) (dates : Dates) (now : ℕ) (peer : ℕ) (s : Server)
    : Type 0 where
  pub running : s.state ≡ started
  pub unbanned : is_banned_ip dates now peer s ≡ false
  pub open_to_all : config.lockout.enabled ≡ false

module _ (config : Config) (dates : Dates) (now : ℕ) (peer : ℕ) (s : Server) where
  route-MayPass :
      (h : ProxyHeader) (target : SocketAddr)
      → route config dates now (some peer) s ≡ forwarded h target
      → MayPass config dates now peer s
        × (target ≡ config.server.address)
        × (h ≡ not_none proxy_header config.server.send_proxy_v2)
  unfolding route route_peer
  route-MayPass h target e = (
    record {
      running = ground (arith, e);
      unbanned = ground (arith, e);
      open_to_all = ground (arith, e);
    },
    ground (arith, e),
    ground (arith, e),
  )

  MayPass-route :
      MayPass config dates now peer s
      → route config dates now (some peer) s
        ≡ forwarded (not_none proxy_header config.server.send_proxy_v2) config.server.address
  unfolding route route_peer
  MayPass-route m = simp (m.running, m.unbanned, m.open_to_all)

  -- A connection of a known peer is forwarded to an address, with a proxy header or without, exactly
  -- if the server runs, the peer is not banned, the lockout is off, the address is the configured
  -- one, and the header is the proxy header when send_proxy_v2 is on and none when it is off.
  pub route_lem :
      (h : ProxyHeader) (target : SocketAddr)
      → (route config dates now (some peer) s ≡ forwarded h target) ↔ (
          MayPass config dates now peer s
          × (target ≡ config.server.address)
          × (h ≡ not_none proxy_header config.server.send_proxy_v2))
  route_lem h target = (route-MayPass h target, λ (m, to, with). cc (MayPass-route m, to, with))
