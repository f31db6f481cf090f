-- ===== src/Mc/Favicon.antt =====
-- src/mc/favicon.rs: server icons. Base64 is a crate's, so its encoder is a parameter; so is the
-- picture that the build embeds.
use plexsoftware.Prelude.{ℕ, List, ◌++◌, Bool, true, Text, leb, map_some, unwrap_or}
use plexsoftware.Prelude.Strings.{codes}
use plexsoftware.Proto.Client.{ClientInfo}

pub record Icons : Type 0 where
  pub base64 : List ℕ → Text
  pub unknown_server : List ℕ

module _ (icons : Icons) where
  unfoldable pub encode_favicon : List ℕ → Text
  encode_favicon bytes = codes "data:image/png;base64," ++ icons.base64 bytes

  unfoldable pub default_favicon : Text
  unfolding encode_favicon
  default_favicon = encode_favicon icons.unknown_server

abbrev pub favicon_protocol_version : ℕ
favicon_protocol_version = 4

-- It reads the field, not the method that falls back on the handshake.
unfoldable pub supports_favicon : ClientInfo → Bool
supports_favicon info =
    unwrap_or (map_some (λ p. leb favicon_protocol_version p) info.protocol) true
