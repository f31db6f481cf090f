-- ===== src/Proxy.antt =====
-- src/proxy.rs and src/net.rs: what is written before a proxied connection is copied both ways.
pub mod Order
use plexsoftware.Prelude.{
  ℕ, Bool, true, false, not, List, [], ◌∷◌, Option, none, some, Outcome, ok, err, panic, ◌>>=◌,
  or_err, is_empty, if◌then◌else◌,
}
use plexsoftware.Config.{SocketAddr}
use plexsoftware.Proto.Action.{Outbound, write_all}
use plexsoftware.Service.{ProxyHeader, no_header, local_header, proxy_header}

-- The `proxy_protocol` crate's version 2 headers: addresses of two families, or none.
pub data ProxyAddresses : Type 0 where
  unspec : ProxyAddresses
  ipv4 ipv6 : SocketAddr → SocketAddr → ProxyAddresses

pub data ProxyCommand : Type 0 where
  local_command proxy_command : ProxyCommand

pub record HeaderCodec : Type 0 where
  pub encode : ProxyCommand → ProxyAddresses → Option (List ℕ)

-- An address with its family.
pub data Endpoint : Type 0 where
  v4 v6 : SocketAddr → Endpoint

-- A stream to a peer: both addresses, and what is written to it.
pub record Stream : Type 0 where
  pub peer : Option Endpoint
  pub local : Option Endpoint
  pub out : Outbound

module _ (codec : HeaderCodec) where
  unfoldable pub local_proxy_header : Option (List ℕ)
  local_proxy_header = codec.encode local_command unspec

  -- The two addresses have one family, or the code panics; so it does when one is not known.
  unfoldable pub addresses : Option Endpoint → Option Endpoint → Outcome ProxyAddresses
  addresses (some (v4 source)) (some (v4 destination)) = ok (ipv4 source destination)
  addresses (some (v6 source)) (some (v6 destination)) = ok (ipv6 source destination)
  addresses _ _ = panic

  unfoldable pub stream_proxy_header : Stream → Outcome (List ℕ)
  unfolding addresses
  stream_proxy_header inbound = do
    pair ← addresses inbound.peer inbound.local
    or_err (codec.encode proxy_command pair)

  unfoldable pub write_header : ProxyHeader → Stream → Outbound → Outcome Outbound
  unfolding local_proxy_header stream_proxy_header
  write_header no_header inbound out = ok out
  write_header local_header inbound out = do
    header ← or_err local_proxy_header
    write_all (ok header) out
  write_header proxy_header inbound out = do
    header ← stream_proxy_header inbound
    write_all (ok header) out

  -- Nothing is written for an empty queue.
  unfoldable pub write_queue : List ℕ → Outbound → Outcome Outbound
  write_queue [] out = ok out
  write_queue (b ∷ queue) out = write_all (ok (b ∷ queue)) out

  -- What is written to the client and to the server before the bytes of either side are copied to
  -- the other.
  unfoldable pub proxy_inbound_outbound_with_queue :
      Outbound → Outbound → List ℕ → List ℕ → Outcome (Outbound × Outbound)
  unfolding write_queue
  proxy_inbound_outbound_with_queue inbound outbound inbound_queue outbound_queue = do
    to_client ← write_queue inbound_queue inbound
    to_server ← write_queue outbound_queue outbound
    ok (to_client, to_server)

  -- `outbound` is the connection to the target, where there is one.
  unfoldable pub proxy_with_queue :
      Stream → ProxyHeader → Option Outbound → List ℕ → Outcome (Outbound × Outbound)
  unfolding write_header proxy_inbound_outbound_with_queue
  proxy_with_queue inbound h outbound queue = do
    connected ← or_err outbound
    introduced ← write_header h inbound connected
    proxy_inbound_outbound_with_queue inbound.out introduced [] queue

  unfoldable pub proxy : Stream → ProxyHeader → Option Outbound → Outcome (Outbound × Outbound)
  unfolding proxy_with_queue
  proxy inbound h outbound = proxy_with_queue inbound h outbound []

-- How `shutdown` of a stream ends.
pub data Shutdown : Type 0 where
  shut not_connected shutdown_failed : Shutdown

unfoldable pub close_tcp_stream_ref : Shutdown → Outcome (Unit {0})
close_tcp_stream_ref shut = ok tt
close_tcp_stream_ref not_connected = ok tt
close_tcp_stream_ref shutdown_failed = err

unfoldable pub close_tcp_stream : Shutdown → Outcome (Unit {0})
unfolding close_tcp_stream_ref
close_tcp_stream end = close_tcp_stream_ref end
