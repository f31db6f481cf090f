-- ===== src/Proto/Action.antt =====
-- Writing packets (src/proto/packet.rs) and refusing a player (src/proto/action.rs). The packets'
-- ids, decoders and encoders are `minecraft_protocol`'s, so they are parameters, in `Packets`.
use plexsoftware.Prelude.{
  ℕ, List, ◌∷◌, Option, Bool, Outcome, ok, err, panic, ◌>>=◌, or_err, length, if◌then◌else◌, Text,
}
use plexsoftware.Types.{Wire}
use plexsoftware.Proto.Client.{Client, ClientState, handshake, status, login, play, Handshake}
use plexsoftware.Proto.Packet.{encode_with_len}
use plexsoftware.Server.Model.{ServerStatus}

pub record Packets : Type 0 where
  pub server_handshake : ℕ
  pub server_status : ℕ
  pub server_ping : ℕ
  pub server_login_start : ℕ
  pub client_status : ℕ
  pub client_ping : ℕ
  pub login_disconnect : ℕ
  pub game_disconnect : ℕ
  pub decode_handshake : List ℕ → Option Handshake
  pub decode_login_start : List ℕ → Option Text
  pub encode_status_response : ServerStatus → Option (List ℕ)
  pub decode_status_response : List ℕ → Option ServerStatus
  pub decode_ping_response : List ℕ → Option ℕ
  pub encode_disconnect : ClientState → Text → Option (List ℕ)

-- What was written to a stream, the last packet first, and whether the stream takes the next one.
-- A write that fails may have written a part of the packet; that part is not recorded.
pub record Outbound : Type 0 where
  pub written : List (List ℕ)
  pub takes : ℕ → Bool

-- `write_all`.
unfoldable pub write_all : Outcome (List ℕ) → Outbound → Outcome Outbound
write_all (ok bytes) out =
    if out.takes (length out.written)
    then ok (record out { written = bytes ∷ out.written })
    else err
write_all err out = err
write_all panic out = panic

-- The packet is given by its id and its encoding.
unfoldable pub write_packet : Wire → ℕ → Option (List ℕ) → Client → Outbound → Outcome Outbound
unfolding write_all
write_packet w id encoded client out =
    write_all
      (do
        data_bytes ← or_err encoded
        encode_with_len w (record { id = id; bytes = data_bytes }) client)
      out

module _ (w : Wire) (packets : Packets) where
  unfoldable pub kick_in : ClientState → Client → Text → Outbound → Outcome Outbound
  unfolding write_packet
  kick_in login client msg out =
      write_packet w packets.login_disconnect (packets.encode_disconnect login msg) client out
  kick_in play client msg out =
      write_packet w packets.game_disconnect (packets.encode_disconnect play msg) client out
  kick_in handshake client msg out = err
  kick_in status client msg out = err

  unfoldable pub kick : Client → Text → Outbound → Outcome Outbound
  unfolding kick_in
  kick client msg out = kick_in client.state client msg out
