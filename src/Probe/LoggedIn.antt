-- ===== src/Probe/LoggedIn.antt =====
-- A login at the server, by the packets that are read of it (src/probe.rs).
use plexsoftware.Prelude.{ℕ, ◌≡◌, ◌≢◌, List, [], ◌∷◌, ok, some}
use plexsoftware.Prelude.Int.{ℤ}
use plexsoftware.Config.{Config}
use plexsoftware.Proto.Client.{Client, play, set_state, set_compression}
use plexsoftware.Proto.Packet.{RawPacket, Inbound, read_packet}
use plexsoftware.Probe.{Crates}

module _ (config : Config) (crates : Crates) where
  -- A connection that logs in to the server, from the packets that it reads one after the other: it
  -- goes on behind a packet that sets the compression, a plugin request or a packet of no concern,
  -- and ends at the login's success. The list holds the frames of its plugin requests.
  pub data LoggedIn : Client → Inbound → List (List ℕ) → Client → Inbound → Type 0 where
    entered :
        (client : Client) (i i' : Inbound) (p : RawPacket) (raw : List ℕ)
        → read_packet crates.wire client i ≡ (ok (some (p, raw)), i')
        → p.id ≡ crates.login.login_success_id
        → p.id ≢ crates.login.plugin_request_id
        → LoggedIn client i [] (set_state play client) i'
    asked :
        (client account : Client) (i i2 i' : Inbound) (payload : List (List ℕ)) (p : RawPacket)
        (raw : List ℕ)
        → read_packet crates.wire client i ≡ (ok (some (p, raw)), i2)
        → p.id ≡ crates.login.plugin_request_id
        → LoggedIn client i2 payload account i'
        → LoggedIn client i (raw ∷ payload) account i'
    compression_changed :
        (client account : Client) (i i2 i' : Inbound) (payload : List (List ℕ)) (p : RawPacket)
        (raw : List ℕ) (threshold : ℤ)
        → read_packet crates.wire client i ≡ (ok (some (p, raw)), i2)
        → p.id ≡ crates.login.set_compression_id
        → crates.login.decode_set_compression p.bytes ≡ some threshold
        → LoggedIn (set_compression threshold client) i2 payload account i'
        → LoggedIn client i payload account i'
    passed :
        (client account : Client) (i i2 i' : Inbound) (payload : List (List ℕ)) (p : RawPacket)
        (raw : List ℕ)
        → read_packet crates.wire client i ≡ (ok (some (p, raw)), i2)
        → p.id ≢ crates.login.set_compression_id
        → p.id ≢ crates.login.plugin_request_id
        → p.id ≢ crates.login.login_success_id
        → LoggedIn client i2 payload account i'
        → LoggedIn client i payload account i'
