-- ===== src/Forge.antt =====
-- src/forge.rs: the replies to a Forge server's login requests, and their replay to a client.
pub mod Replay
pub mod Replayed
use plexsoftware.Prelude.{
  ℕ, ◌==◌, ◌&&◌, Bool, true, false, List, [], ◌∷◌, ◌++◌, Option, none, some, Outcome, ok, err,
  panic, ◌>>=◌, ◌>>◌, or_err, assert, Text, eq_text, if◌then◌else◌,
}
use plexsoftware.Prelude.Int.{ℤ}
use plexsoftware.Prelude.Strings.{codes}
use plexsoftware.Types.{Wire}
use plexsoftware.Proto.Client.{Client}
use plexsoftware.Proto.Packet.{RawPacket, decode_without_len, encode_without_len}
use plexsoftware.Proto.Login.{LoginCodec, PluginRequest}
use plexsoftware.Proto.Action.{Outbound, write_packet}

pub record LoginWrapper : Type 0 where
  pub channel : Text
  pub packet : List ℕ

-- The packets of Forge, which are the crate's too. A reply to a mod list is kept by its encoding.
pub record ForgeCodec : Type 0 where
  pub encode_wrapper : LoginWrapper → Option (List ℕ)
  pub decode_wrapper : List ℕ → Option LoginWrapper
  pub acknowledgement_id : ℕ
  pub acknowledgement : Option (List ℕ)
  pub mod_list_id : ℕ
  pub mod_list_reply_id : ℕ
  pub mod_list_reply : List ℕ → Option (Option (List ℕ))

-- It holds the character U+0000 on both sides.
abbrev pub status_magic : Text
status_magic = 0 ∷ codes "FML2" ++ 0 ∷ []

abbrev pub channel_login_wrapper : Text
channel_login_wrapper = codes "fml:loginwrapper"

abbrev pub channel_handshake : Text
channel_handshake = codes "fml:handshake"

module _ (w : Wire) (login : LoginCodec) (forge : ForgeCodec) (client : Client) where
  -- The packet is given by its id and its encoding.
  unfoldable pub respond_forge_login_packet :
      ℤ → Text → ℕ → Option (List ℕ) → Outbound → Outcome Outbound
  respond_forge_login_packet message_id channel id encoded out = do
    forge_data ← or_err encoded
    forge_payload ← encode_without_len w (record { id = id; bytes = forge_data }) client
    payload ← or_err (forge.encode_wrapper (record { channel = channel; packet = forge_payload }))
    write_packet w login.plugin_response_id
        (login.encode_plugin_response
          (record { message_id = message_id; successful = true; response = payload }))
        client out

  unfoldable pub decode_forge_login_packet : PluginRequest → Outcome (ℤ × LoginWrapper × RawPacket)
  decode_forge_login_packet request = do
    assert (eq_text request.channel channel_login_wrapper)
    wrapper ← or_err (forge.decode_wrapper request.request)
    packet ← decode_without_len w client wrapper.packet
    ok (request.message_id, wrapper, packet)

  -- A mod list is answered by its own contents, anything else is acknowledged.
  unfoldable pub reply_to : Bool → ℤ → LoginWrapper → RawPacket → Outbound → Outcome Outbound
  unfolding respond_forge_login_packet
  reply_to false message_id wrapper packet out =
      respond_forge_login_packet message_id wrapper.channel forge.acknowledgement_id
        forge.acknowledgement out
  reply_to true message_id wrapper packet out = do
    reply ← or_err (forge.mod_list_reply packet.bytes)
    respond_forge_login_packet message_id wrapper.channel forge.mod_list_reply_id reply out

  unfoldable pub respond_login_plugin_request : PluginRequest → Outbound → Outcome Outbound
  unfolding reply_to decode_forge_login_packet
  respond_login_plugin_request request out = do
    (message_id, wrapper, packet) ← decode_forge_login_packet request
    let is_mod_list = eq_text wrapper.channel channel_handshake && packet.id == forge.mod_list_id
    reply_to is_mod_list message_id wrapper packet out
