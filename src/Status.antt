-- ===== src/Status.antt =====
-- src/status.rs: the task that serves one connection while the server does not run.
pub mod Answer
pub mod Serving
pub mod Shown
pub mod Admission
pub mod History
use plexsoftware.Prelude.{
  ℕ, zero, suc, ◌+◌, ◌==◌, ◌&&◌, not, Bool, true, false, List, [], ◌∷◌, ◌++◌, Option, none, some,
  Outcome, ok, err, panic, or_err, ◌>>=◌, length, if◌then◌else◌, map_some, unwrap_or, Text,
}
use plexsoftware.Prelude.Strings.{codes}
use plexsoftware.Prelude.Int.{ℤ}
use plexsoftware.Types.{Wire}
use plexsoftware.Config.{Config}
use plexsoftware.Mc.Ban.{BannedIp, Dates, entry_is_banned}
use plexsoftware.Mc.Favicon.{Icons}
use plexsoftware.Proto.Client.{
  Client, ClientInfo, ClientState, handshake, status, login, state_eq, from_id, set_state, as_u32,
  Handshake,
}
use plexsoftware.Proto.Packet.{RawPacket, encode_with_len, Inbound, ReadResult, read_packet}
use plexsoftware.Proto.Action.{Packets, Outbound, write_all, kick}
use plexsoftware.Server.Model.{Server, ban_entry, is_whitelisted}
use plexsoftware.Server.Stop.{World, start}
use Answer.{IconFile, server_status}

-- `client`, `buf` and the reader, `inbound_history`, `client_info` and the writer.
pub record Connection : Type 0 where
  pub client : Client
  pub inbound : Inbound
  pub history : List ℕ
  pub info : ClientInfo
  pub out : Outbound

-- What happens to a connection next: the loop goes on or breaks, the function returns an error or
-- panics, or the client is handed to `join::occupy`, with the login queue.
pub data Next : Type 0 where
  continuing ended : Connection → Next
  failed panicked : Next
  joining : Connection → List ℕ → Next

abbrev pub ban_message_prefix : Text
ban_message_prefix = codes "Your IP address is banned from this server.\nReason: "

abbrev pub default_ban_reason : Text
default_ban_reason = codes "Banned by an operator."

abbrev pub whitelist_message : Text
whitelist_message = codes "You are not white-listed on this server!"

-- What the loop uses of other crates and of the file system.
pub record Host : Type 0 where
  pub wire : Wire
  pub packets : Packets
  pub dates : Dates
  pub icons : Icons
  pub icon : IconFile

-- A write, and then `?`.
unfoldable pub after_write : (Connection → Next) → Connection → Outcome Outbound → Next
after_write next c (ok out) = next (record c { out = out })
after_write next c err = failed
after_write next c panic = panicked

module _ (config : Config) (host : Host) where
  unfoldable pub enter_state : Handshake → List ℕ → Connection → Option ClientState → Next
  enter_state h raw c none = ended c
  enter_state h raw c (some state) = continuing (record c {
    client = set_state state c.client;
    info = record c.info { protocol = some (as_u32 h.protocol_version); handshake = some h };
    history = if state_eq state login then c.history ++ raw else c.history;
  })

  unfoldable pub on_handshake : Option Handshake → List ℕ → Connection → Next
  unfolding enter_state
  on_handshake none raw c = ended c
  on_handshake (some h) raw c = enter_state h raw c (from_id h.next_state)

  unfoldable pub on_status : Server → Connection → Next
  unfolding after_write
  on_status s c = after_write continuing c (
      write_all
        (do
          data_bytes ← or_err (
              host.packets.encode_status_response
                (server_status config host.icons host.icon c.info s))
          encode_with_len host.wire (record { id = 0; bytes = data_bytes }) c.client)
        c.out)

  unfoldable pub on_ping : List ℕ → Connection → Next
  unfolding after_write
  on_ping raw c = after_write continuing c (write_all (ok raw) c.out)

  unfoldable pub kick_and_end : Text → Connection → Next
  unfolding after_write
  kick_and_end msg c = after_write ended c (kick host.wire host.packets c.client msg c.out)

  -- The reason for which a player with that address is refused.
  unfoldable pub ban_reason : ℕ → Option BannedIp → Option Text
  ban_reason now none = none
  ban_reason now (some entry) =
      if entry_is_banned host.dates now entry
      then some (unwrap_or entry.reason default_ban_reason)
      else none

  unfoldable pub ban_or_whitelist : Option Text → Option Text → Server → Option Text
  ban_or_whitelist (some msg) username s = some (ban_message_prefix ++ msg)
  ban_or_whitelist none none s = none
  ban_or_whitelist none (some name) s =
      if is_whitelisted name s then none else some whitelist_message

  -- The message of the first of the three checks that refuses the player.
  unfoldable pub refusal : ℕ → Option Text → Server → Connection → Option Text
  unfolding ban_reason ban_or_whitelist
  refusal now username s c =
      if config.lockout.enabled
      then some config.lockout.message
      else ban_or_whitelist (ban_reason now (ban_entry c.client.peer_ip s)) username s

  -- The raw packet and what is buffered go to the history and to the login queue.
  unfoldable pub hand_over : List ℕ → Connection → Next
  hand_over raw c =
      joining
        (record c {
          history = (c.history ++ raw) ++ c.inbound.buf;
          inbound = record c.inbound { buf = [] };
        })
        (raw ++ c.inbound.buf)

  unfoldable pub admit : World → Option Text → List ℕ → Server → Connection → Server × Next
  unfolding kick_and_end hand_over
  admit world (some msg) raw s c = (s, kick_and_end msg c)
  admit world none raw s c = ((start config world s).0, hand_over raw c)

  unfoldable pub on_login_start : World → RawPacket → List ℕ → Server → Connection → Server × Next
  unfolding admit refusal
  on_login_start world p raw s c =
      let username = host.packets.decode_login_start p.bytes in
      let named = record c { info = record c.info { username = username } } in
      admit world (refusal world.now username s named) raw s named

  -- One round of the loop behind `read_packet`.
  unfoldable pub handle : World → RawPacket → List ℕ → Server → Connection → Server × Next
  unfolding on_handshake on_status on_ping on_login_start
  handle world p raw s c =
      if state_eq c.client.state handshake && p.id == host.packets.server_handshake
      then (s, on_handshake (host.packets.decode_handshake p.bytes) raw c)
      else if state_eq c.client.state status && p.id == host.packets.server_status
      then (s, on_status s c)
      else if state_eq c.client.state status && p.id == host.packets.server_ping
      then (s, on_ping raw c)
      else if state_eq c.client.state login && p.id == host.packets.server_login_start
      then on_login_start world p raw s c
      else (s, continuing c)

  unfoldable pub receive : World → Server → Connection → ReadResult → Server × Next
  unfolding handle
  receive world s c (ok (some (p, raw)), inbound) =
      handle world p raw s (record c { inbound = inbound })
  receive world s c (ok none, inbound) = (s, ended (record c { inbound = inbound }))
  receive world s c (err, inbound) = (s, ended (record c { inbound = inbound }))
  receive world s c (panic, inbound) = (s, panicked)

  unfoldable pub round : World → Server → Connection → Server × Next
  unfolding receive
  round world s c = receive world s c (read_packet host.wire c.client c.inbound)

-- What goes on while a connection waits for its next packet: the world at that time, and what the
-- other tasks have made of the server.
pub record Moment : Type 0 where
  pub world : World
  pub others : Server → Server

-- The loop goes on with `rest`, or what it returns is known.
unfoldable pub follow :
    (Server → Connection → Option (Server × Next)) → Server × Next → Option (Server × Next)
follow rest (t, continuing d) = rest t d
follow rest (t, ended d) = some (t, ended d)
follow rest (t, failed) = some (t, failed)
follow rest (t, panicked) = some (t, panicked)
follow rest (t, joining d queue) = some (t, joining d queue)

-- The loop, on fuel; `none` when the fuel runs out.
module _ (config : Config) (host : Host) where
  unfoldable pub serve : ℕ → (ℕ → Moment) → Server → Connection → Option (Server × Next)
  unfolding round follow
  serve zero moments s c = none
  serve (suc fuel) moments s c =
      follow (serve fuel (λ n. moments (suc n)))
        (round config host (moments 0).world ((moments 0).others s) c)
