-- ===== src/Proto/Client.antt =====
-- src/proto/client.rs: what the proxy keeps of one connection. The peer's address is its IP, as a
-- number; the port is read nowhere.
use plexsoftware.Prelude.{ℕ, zero, suc, Option, none, some, Bool, Text, or_else, map_some, ◌%◌}
use plexsoftware.Prelude.Int.{ℤ, pos, negsuc, is_nonneg, pow_32, as_usize}

pub data ClientState : Type 0 where
  handshake status login play : ClientState

-- `ClientState::from_id`: the ids 0, 1 and 2; play has no id.
unfoldable pub from_id : ℤ → Option ClientState
from_id (pos zero) = some handshake
from_id (pos (suc zero)) = some status
from_id (pos (suc (suc zero))) = some login
from_id (pos (suc (suc (suc n)))) = none
from_id (negsuc n) = none

unfoldable pub to_id : ClientState → ℤ
to_id handshake = pos 0
to_id status = pos 1
to_id login = pos 2
to_id play = negsuc 0

abbrev pub state_eq : ClientState → ClientState → Bool
state_eq handshake handshake = Bool.true
state_eq status status = Bool.true
state_eq login login = Bool.true
state_eq play play = Bool.true
state_eq _ _ = Bool.false

pub record Client : Type 0 where
  pub peer_ip : ℕ
  pub state : ClientState
  pub compression : ℤ

unfoldable pub new : ℕ → Client
new peer = record { peer_ip = peer; state = handshake; compression = negsuc 0 }

unfoldable pub dummy : Client
unfolding new
dummy = new 0

unfoldable pub set_state : ClientState → Client → Client
set_state s c = record c { state = s }

unfoldable pub set_compression : ℤ → Client → Client
set_compression threshold c = record c { compression = threshold }

abbrev pub is_compressed : Client → Bool
is_compressed c = is_nonneg c.compression

-- minecraft_protocol's handshake packet.
pub record Handshake : Type 0 where
  pub protocol_version : ℤ
  pub server_addr : Text
  pub server_port : ℕ
  pub next_state : ℤ

pub record ClientInfo : Type 0 where
  pub protocol : Option ℕ
  pub handshake : Option Handshake
  pub username : Option Text

abbrev pub empty : ClientInfo
empty = record { protocol = none; handshake = none; username = none }

-- `as u32`: the low 32 bits.
abbrev pub as_u32 : ℤ → ℕ
as_u32 i = as_usize i % pow_32

unfoldable pub protocol : ClientInfo → Option ℕ
protocol info = or_else info.protocol (map_some (λ h. as_u32 h.protocol_version) info.handshake)
