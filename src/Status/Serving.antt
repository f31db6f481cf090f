-- ===== src/Status/Serving.antt =====
-- Serving a connection ends (src/status.rs).
use plexsoftware.Prelude.{
  ℕ, zero, suc, ◌<◌, ◌≡◌, ◌≢◌, refl, ap, List, Option, none, some, Outcome, ok, err, panic, length,
  arith, Text,
}
use plexsoftware.Config.{Config}
use plexsoftware.Proto.Client.{ClientState, from_id, Handshake}
use plexsoftware.Proto.Packet.{RawPacket, ReadResult, read_packet}
use plexsoftware.Proto.Packet.Reading.Chunks.{remaining}
use plexsoftware.Proto.Packet.Reading.Conservation.{read_packet_shrinks}
use plexsoftware.Proto.Action.{Outbound}
use plexsoftware.Server.Model.{Server}
use plexsoftware.Server.Stop.{World}
use plexsoftware.Status.{
  Connection, Next, continuing, ended, failed, panicked, joining, Host, Moment, after_write,
  enter_state, on_handshake, on_status, on_ping, kick_and_end, hand_over, admit, on_login_start,
  handle, receive, round, follow, serve,
}

module _ (config : Config) (host : Host) where
  after_write_inbound :
      (c d : Connection) (r : Outcome Outbound)
      → after_write continuing c r ≡ continuing d
      → d.inbound ≡ c.inbound
  unfolding after_write
  after_write_inbound c d (ok out) e = ground (arith, e)
  after_write_inbound c d err e = ground (arith, e)
  after_write_inbound c d panic e = ground (arith, e)

  no_way_on : (c d : Connection) (r : Outcome Outbound) → after_write ended c r ≢ continuing d
  unfolding after_write
  no_way_on c d (ok out) e = ground (arith, e)
  no_way_on c d err e = ground (arith, e)
  no_way_on c d panic e = ground (arith, e)

  enter_state_inbound :
      (h : Handshake) (raw : List ℕ) (c d : Connection) (o : Option ClientState)
      → enter_state config host h raw c o ≡ continuing d
      → d.inbound ≡ c.inbound
  unfolding enter_state
  enter_state_inbound h raw c d none e = ground (arith, e)
  enter_state_inbound h raw c d (some state) e = ground (arith, e)

  on_handshake_inbound :
      (o : Option Handshake) (raw : List ℕ) (c d : Connection)
      → on_handshake config host o raw c ≡ continuing d
      → d.inbound ≡ c.inbound
  unfolding on_handshake
  on_handshake_inbound none raw c d e = ground (arith, e)
  on_handshake_inbound (some h) raw c d e = enter_state_inbound h raw c d (from_id h.next_state) e

  admit-not_continuing :
      (world : World) (o : Option Text) (raw : List ℕ) (s t : Server) (c d : Connection)
      → admit config host world o raw s c ≢ (t, continuing d)
  unfolding admit kick_and_end hand_over
  admit-not_continuing world (some msg) raw s t c d e =
      no_way_on c d _ (ap (λ (r : Server × Next). r.1) e)
  admit-not_continuing world none raw s t c d e = ground (arith, e)

  handle_inbound :
      (world : World) (p : RawPacket) (raw : List ℕ) (s t : Server) (c d : Connection)
      → handle config host world p raw s c ≡ (t, continuing d)
      → d.inbound ≡ c.inbound
  unfolding handle on_status on_ping on_login_start
  handle_inbound world p raw s t c d e = ground (
    arith,
    on_handshake_inbound (host.packets.decode_handshake p.bytes) raw c d,
    after_write_inbound c d,
    admit-not_continuing world,
  )

  pub receive_inbound :
      (world : World) (s t : Server) (c d : Connection) (r : ReadResult)
      → receive config host world s c r ≡ (t, continuing d)
      → (p : RawPacket) × (raw : List ℕ) × (r ≡ (ok (some (p, raw)), d.inbound))
  unfolding receive
  receive_inbound world s t c d (ok (some (p, raw)), inbound) e =
      let same = handle_inbound world p raw s t (record c { inbound = inbound }) d e in
      (p, raw, rw same refl)
  receive_inbound world s t c d (ok none, inbound) e = ground (arith, e)
  receive_inbound world s t c d (err, inbound) e = ground (arith, e)
  receive_inbound world s t c d (panic, inbound) e = ground (arith, e)

  round_shrinks :
      (world : World) (s t : Server) (c d : Connection)
      → round config host world s c ≡ (t, continuing d)
      → length (remaining d.inbound) < length (remaining c.inbound)
  unfolding round
  round_shrinks world s t c d e =
      let (p, raw, found) =
        receive_inbound world s t c d (read_packet host.wire c.client c.inbound) e in
      read_packet_shrinks host.wire c.client p raw d.inbound c.inbound found

  follow_returns :
      (c : Connection) (rest : Server → Connection → Option (Server × Next)) (r : Server × Next)
      → ((t : Server) (d : Connection)
          → r ≡ (t, continuing d)
          → (q : Server × Next) × (rest t d ≡ some q))
      → (q : Server × Next) × (follow rest r ≡ some q)
  unfolding follow
  follow_returns c rest (t, continuing d) more = more t d refl
  follow_returns c rest (t, ended d) more = ((t, ended d), refl)
  follow_returns c rest (t, failed) more = ((t, failed), refl)
  follow_returns c rest (t, panicked) more = ((t, panicked), refl)
  follow_returns c rest (t, joining d queue) more = ((t, joining d queue), refl)

  -- The loop over the packets of a connection ends: one round more than there are bytes to read is
  -- enough, whatever the other tasks do to the server meanwhile.
  pub serve_returns :
      (fuel : ℕ) (moments : ℕ → Moment) (s : Server) (c : Connection)
      → length (remaining c.inbound) < fuel
      → (r : Server × Next) × (serve config host fuel moments s c ≡ some r)
  unfolding serve
  serve_returns zero moments s c h = absurd (omega arith)
  serve_returns (suc fuel) moments s c h =
      let now = (moments 0).world in
      let met = (moments 0).others s in
      follow_returns c (serve config host fuel (λ n. moments (suc n))) (round config host now met c)
        (λ t d e.
          serve_returns fuel (λ n. moments (suc n)) t d
            (omega (arith, round_shrinks now met t c d e)))
