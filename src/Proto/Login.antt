-- ===== src/Proto/Login.antt =====
-- The packets of the login procedure (src/proto/packets/mod.rs). Their ids and codecs are
-- `minecraft_protocol`'s, so they are parameters, in `LoginCodec`.
use plexsoftware.Prelude.{ℕ, Bool, List, Option, Text}
use plexsoftware.Prelude.Int.{ℤ, pos}
use plexsoftware.Proto.Client.{Handshake}

pub record PluginRequest : Type 0 where
  pub message_id : ℤ
  pub channel : Text
  pub request : List ℕ

pub record PluginResponse : Type 0 where
  pub message_id : ℤ
  pub successful : Bool
  pub response : List ℕ

pub record LoginCodec : Type 0 where
  pub handshake_id : ℕ
  pub login_start_id : ℕ
  pub set_compression_id : ℕ
  pub encryption_request_id : ℕ
  pub plugin_request_id : ℕ
  pub plugin_response_id : ℕ
  pub login_success_id : ℕ
  pub disconnect_id : ℕ
  pub encode_handshake : Handshake → Option (List ℕ)
  pub encode_login_start : Text → Option (List ℕ)
  pub decode_login_start : List ℕ → Option Text
  pub encode_set_compression : ℤ → Option (List ℕ)
  pub decode_set_compression : List ℕ → Option ℤ
  pub encode_login_success : List ℕ → Text → Option (List ℕ)
  pub encode_plugin_response : PluginResponse → Option (List ℕ)
  pub decode_plugin_request : List ℕ → Option PluginRequest

-- `COMPRESSION_THRESHOLD`, which is not negative.
abbrev pub compression_threshold : ℤ
compression_threshold = pos 256
