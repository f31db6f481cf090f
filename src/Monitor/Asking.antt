-- ===== src/Monitor/Asking.antt =====
-- src/monitor.rs: the requests that the monitor sends to the server, and the waits for their
-- answers.
use plexsoftware.Prelude.{
  ℕ, Bool, true, false, List, Option, none, some, Outcome, ok, err, ◌>>=◌, or_err, Text, Run,
  then_run,
}
use plexsoftware.Prelude.Int.{as_i32}
use plexsoftware.Types.{Wire}
use plexsoftware.Config.{Config, SocketAddr}
use plexsoftware.Proto.Client.{Client, Handshake, dummy, status, to_id}
use plexsoftware.Proto.Packet.{Inbound}
use plexsoftware.Proto.Action.{Packets, Outbound, write_all, write_packet}
use plexsoftware.Proxy.{HeaderCodec, local_proxy_header}
use plexsoftware.Server.Model.{ServerStatus}
use plexsoftware.Monitor.{wait_for_status, wait_for_ping}

-- The crates' encodings of what the monitor sends.
pub record Requests : Type 0 where
  pub encode_handshake : Handshake → Option (List ℕ)
  pub encode_status_request : Option (List ℕ)
  pub encode_ping_request : ℕ → Option (List ℕ)
  pub show_ip : ℕ → Text
  pub header : HeaderCodec

-- A connection to the server: what it will answer, its writer, and whether the answer is in time.
pub record Asked : Type 0 where
  pub answers : Inbound
  pub out : Outbound
  pub in_time : Bool

module _ (config : Config) (w : Wire) (packets : Packets) (requests : Requests) where
  abbrev pub status_handshake : SocketAddr → Handshake
  status_handshake addr = record {
    protocol_version = as_i32 config.public.protocol;
    server_addr = requests.show_ip addr.ip;
    server_port = addr.port;
    next_state = to_id status;
  }

  unfoldable pub send_handshake : Client → SocketAddr → Outbound → Outcome Outbound
  send_handshake client addr out =
      write_packet w packets.server_handshake (requests.encode_handshake (status_handshake addr))
        client out

  unfoldable pub request_status : Client → Outbound → Outcome Outbound
  request_status client out =
      write_packet w packets.server_status requests.encode_status_request client out

  -- The token is random.
  unfoldable pub send_ping : Client → ℕ → Outbound → Outcome Outbound
  send_ping client token out =
      write_packet w packets.server_ping (requests.encode_ping_request token) client out

  unfoldable pub send_header : Bool → Outbound → Outcome Outbound
  send_header false out = ok out
  send_header true out = do
    header ← or_err (local_proxy_header requests.header)
    write_all (ok header) out

  unfoldable pub greet : SocketAddr → Outbound → Outcome Outbound
  unfolding send_header send_handshake
  greet addr out = do
    introduced ← send_header config.server.send_proxy_v2 out
    send_handshake dummy addr introduced

  -- `wait_for_status_timeout` and `wait_for_ping_timeout`.
  unfoldable pub answered_in_time : {A : Type 0} → Bool → Run A → Run A
  answered_in_time true run = run
  answered_in_time false run = some err

  -- On fuel for the wait.
  unfoldable pub fetch_status : ℕ → SocketAddr → Option Asked → Run ServerStatus
  unfolding greet request_status answered_in_time
  fetch_status fuel addr none = some err
  fetch_status fuel addr (some asked) =
      then_run (some (greet addr asked.out >>= request_status dummy))
        (λ out. answered_in_time asked.in_time (wait_for_status w packets dummy fuel asked.answers))

  unfoldable pub do_ping : ℕ → SocketAddr → ℕ → Option Asked → Run (Unit {0})
  unfolding greet send_ping answered_in_time
  do_ping fuel addr token none = some err
  do_ping fuel addr token (some asked) =
      then_run (some (greet addr asked.out >>= send_ping dummy token)) (λ out.
        answered_in_time asked.in_time (wait_for_ping w packets dummy token fuel asked.answers))
