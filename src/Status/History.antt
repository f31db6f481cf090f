-- ===== src/Status/History.antt =====
-- What a client that is handed on takes with it (src/status.rs).
use plexsoftware.Prelude.{
  ℕ, ◌≡◌, ◌≢◌, refl, ap, ◌∙◌, ◌==◌, List, ◌++◌, Option, none, some, Outcome, ok, err, panic, arith,
  Bool-cases, inl, inr, append_assoc, Text,
}
use plexsoftware.Config.{Config}
use plexsoftware.Proto.Client.{
  ClientState, handshake, status, login, play, from_id, Handshake, set_state,
}
use plexsoftware.Proto.Packet.{RawPacket, Inbound, ReadResult, read_packet}
use plexsoftware.Proto.Packet.Reading.Chunks.{pending, remaining}
use plexsoftware.Proto.Packet.Reading.Conservation.{read_packet-Delivers}
use plexsoftware.Proto.Action.{Outbound}
use plexsoftware.Server.Model.{Server}
use plexsoftware.Server.Stop.{World}
use plexsoftware.Status.{
  Connection, Next, continuing, ended, joining, Host, after_write, enter_state, on_handshake,
  kick_and_end, hand_over, admit, refusal, on_login_start, handle, receive, round,
}
use plexsoftware.Status.Serving.{receive_inbound}

module _ (config : Config) (host : Host) where
  enter_state_history :
      (h : Handshake) (raw : List ℕ) (c d : Connection) (o : Option ClientState)
      → enter_state config host h raw c o ≡ continuing d
      → d.client.state ≡ login
      → d.history ≡ c.history ++ raw
  unfolding enter_state set_state
  enter_state_history h raw c d none e l = ground (arith, e)
  enter_state_history h raw c d (some login) e l = ground (arith, e)
  enter_state_history h raw c d (some handshake) e l = ground (arith, e, l)
  enter_state_history h raw c d (some status) e l = ground (arith, e, l)
  enter_state_history h raw c d (some play) e l = ground (arith, e, l)

  on_handshake_history :
      (o : Option Handshake) (raw : List ℕ) (c d : Connection)
      → on_handshake config host o raw c ≡ continuing d
      → d.client.state ≡ login
      → d.history ≡ c.history ++ raw
  unfolding on_handshake
  on_handshake_history none raw c d e l = ground (arith, e)
  on_handshake_history (some h) raw c d e l =
      enter_state_history h raw c d (from_id h.next_state) e l

  handle_history :
      (world : World) (p : RawPacket) (raw : List ℕ) (s t : Server) (c d : Connection)
      → c.client.state ≡ handshake
      → handle config host world p raw s c ≡ (t, continuing d)
      → d.client.state ≡ login
      → d.history ≡ c.history ++ raw
  unfolding handle
  handle_history world p raw s t c d shaking e l =
      ground
        (arith, shaking, l, on_handshake_history (host.packets.decode_handshake p.bytes) raw c d)

  -- What the rounds before keep of the bytes of a client that went from the handshake to the login.
  handshake_conserves :
      (world : World) (s t : Server) (c d : Connection)
      → c.client.state ≡ handshake
      → round config host world s c ≡ (t, continuing d)
      → d.client.state ≡ login
      → d.history ++ remaining d.inbound ≡ c.history ++ remaining c.inbound
  unfolding round receive
  handshake_conserves world s t c d shaking e l =
      let (p, raw, found) =
        receive_inbound config host world s t c d (read_packet host.wire c.client c.inbound) e in
      let kept =
        (read_packet-Delivers host.wire c.client p raw d.inbound c.inbound found).conserved in
      let handled : handle config host world p raw s (record c { inbound = d.inbound })
          ≡ (t, continuing d) =
        rw found at e in
      rw
        (
          handle_history world p raw s t (record c { inbound = d.inbound }) d shaking handled l,
          ← kept,
        )
        (append_assoc c.history raw (remaining d.inbound))

  after_write-not_joining :
      (next : Connection → Next) (c e : Connection) (queue : List ℕ) (r : Outcome Outbound)
      → ((d : Connection) → next d ≢ joining e queue)
      → after_write next c r ≢ joining e queue
  unfolding after_write
  after_write-not_joining next c e queue (ok out) never = never (record c { out = out })
  after_write-not_joining next c e queue err never = λ h. ground (arith, h)
  after_write-not_joining next c e queue panic never = λ h. ground (arith, h)

  -- What a client that is handed on takes with it.
  record IsHandedOn (c : Connection) (raw : List ℕ) (e : Connection) (queue : List ℕ) : Type 0 where
    all : e.history ≡ (c.history ++ raw) ++ c.inbound.buf
    queued : queue ≡ raw ++ c.inbound.buf
    left : remaining e.inbound ≡ pending c.inbound.stream

  admit-IsHandedOn :
      (world : World) (o : Option Text) (raw : List ℕ) (s t : Server) (c e : Connection)
      (queue : List ℕ)
      → admit config host world o raw s c ≡ (t, joining e queue)
      → IsHandedOn c raw e queue
  unfolding admit hand_over kick_and_end
  admit-IsHandedOn world (some msg) raw s t c e queue h = absurd (
      after_write-not_joining ended c e queue _ (λ d k. ground (arith, k))
        (ap (λ (r : Server × Next). r.1) h))
  admit-IsHandedOn world none raw s t c e queue h = record {
    all = ground (arith, h);
    queued = ground (arith, h);
    left = ground (arith, h);
  }

  handle-IsHandedOn :
      (world : World) (p : RawPacket) (raw : List ℕ) (s t : Server) (c e : Connection)
      (queue : List ℕ)
      → c.client.state ≡ login
      → handle config host world p raw s c ≡ (t, joining e queue)
      → IsHandedOn c raw e queue
  unfolding handle on_login_start
  handle-IsHandedOn world p raw s t c e queue logging h =
      elim (Bool-cases (p.id == host.packets.server_login_start)) [
        | inl starts ↦
            let username = host.packets.decode_login_start p.bytes in
            let named = record c { info = record c.info { username = username } } in
            let made =
              admit-IsHandedOn world (refusal config host world.now username s named) raw s t named
                e queue (simp (logging, starts) at h) in
            record { all = made.all; queued = made.queued; left = made.left }
        | inr other ↦ ground (arith, logging, other, h)
      ]

  receive_joining :
      (world : World) (s t : Server) (c e : Connection) (queue : List ℕ) (r : ReadResult)
      → c.client.state ≡ login
      → receive config host world s c r ≡ (t, joining e queue)
      → (p : RawPacket) × (raw : List ℕ) × (inbound : Inbound) × (r ≡ (ok (some (p, raw)), inbound))
        × IsHandedOn (record c { inbound = inbound }) raw e queue
  unfolding receive
  receive_joining world s t c e queue (ok (some (p, raw)), inbound) logging h = (
    p,
    raw,
    inbound,
    refl,
    handle-IsHandedOn world p raw s t (record c { inbound = inbound }) e queue logging h,
  )
  receive_joining world s t c e queue (ok none, inbound) logging h = ground (arith, h)
  receive_joining world s t c e queue (err, inbound) logging h = ground (arith, h)
  receive_joining world s t c e queue (panic, inbound) logging h = ground (arith, h)

  login_conserves :
      (world : World) (s t : Server) (c e : Connection) (queue : List ℕ)
      → c.client.state ≡ login
      → round config host world s c ≡ (t, joining e queue)
      → (e.history ++ remaining e.inbound ≡ c.history ++ remaining c.inbound)
        × (queue ++ remaining e.inbound ≡ remaining c.inbound)
  unfolding round
  login_conserves world s t c e queue logging h =
      let (p, raw, inbound, found, made) =
        receive_joining world s t c e queue (read_packet host.wire c.client c.inbound) logging h in
      let kept =
        (read_packet-Delivers host.wire c.client p raw inbound c.inbound found).conserved in
      let rest = pending inbound.stream in
      (
        rw (made.all, made.left, ← kept)
            (append_assoc (c.history ++ raw) inbound.buf rest
              ∙ append_assoc c.history raw (inbound.buf ++ rest)),
        rw (made.queued, made.left, ← kept) (append_assoc raw inbound.buf rest),
      )

  -- A client that goes from the handshake to the login and is handed on has a history that is, with
  -- what is not read yet, all that it sent; no byte that it sent is lost or doubled.
  pub history_complete :
      (before after : World) (s s' t t' : Server) (c d e : Connection) (queue : List ℕ)
      → c.client.state ≡ handshake
      → round config host before s c ≡ (s', continuing d)
      → d.client.state ≡ login
      → round config host after t d ≡ (t', joining e queue)
      → (e.history ++ remaining e.inbound ≡ c.history ++ remaining c.inbound)
        × (queue ++ remaining e.inbound ≡ remaining d.inbound)
  history_complete before after s s' t t' c d e queue shaking first logging second =
      let (whole, queued) = login_conserves after t t' d e queue logging second in
      (whole ∙ handshake_conserves before s s' c d shaking first logging, queued)
