-- ===== src/Forge/Replayed.antt =====
-- The replay of a recorded login writes all of it and comes to an end (src/forge.rs).
use plexsoftware.Prelude.{
  ℕ, zero, suc, ◌<◌, ◌≡◌, refl, List, [], ◌∷◌, ◌++◌, ◌==◌, ◌&&◌, Bool-cases, inl, inr, Option, none,
  some, Outcome, ok, err, panic, >>=-eq-ok, length, Returns, arith, append_assoc, append-nil,
}
use plexsoftware.Types.{Wire}
use plexsoftware.Proto.Client.{Client, login, state_eq}
use plexsoftware.Proto.Packet.{RawPacket, Inbound, ReadResult, read_packet}
use plexsoftware.Proto.Packet.Reading.Chunks.{remaining}
use plexsoftware.Proto.Packet.Reading.Conservation.{read_packet_shrinks}
use plexsoftware.Proto.Login.{LoginCodec}
use plexsoftware.Proto.Action.{Outbound, write_all}
use plexsoftware.Proxy.Order.{sent_bytes}
use plexsoftware.Forge.Replay.{
  TimedRead, in_time, too_late, replay_packets, drained, timed, drain_forge_responses, replayed,
  replay_login_payload,
}

abbrev pub frames : List (List ℕ) → List ℕ
frames [] = []
frames (packet ∷ packets) = packet ++ frames packets

write_all_sent :
    (bytes : List ℕ) (out out' : Outbound)
    → write_all (ok bytes) out ≡ ok out'
    → sent_bytes out'.written ≡ sent_bytes out.written ++ bytes
unfolding write_all
write_all_sent bytes out out' e = ground (arith, e)

replay_packets_sent :
    (payload : List (List ℕ)) (out out' : Outbound)
    → replay_packets payload out ≡ ok out'
    → sent_bytes out'.written ≡ sent_bytes out.written ++ frames payload
unfolding replay_packets
replay_packets_sent [] out out' e = ground (arith, e, append-nil (sent_bytes out.written))
replay_packets_sent (packet ∷ packets) out out' e =
    let (sent, wrote, rest) = >>=-eq-ok (write_all (ok packet) out) (replay_packets packets) e in
    cc (
      replay_packets_sent packets sent out' rest,
      write_all_sent packet out sent wrote,
      append_assoc (sent_bytes out.written) packet (frames packets),
    )

module _ (w : Wire) (codec : LoginCodec) (client : Client) where
  drained-Returns :
      (fewer same : Inbound → Option (Outcome Inbound)) (r : ReadResult)
      → ((p : RawPacket) (raw : List ℕ) (i : Inbound)
          → r ≡ (ok (some (p, raw)), i)
          → Returns (fewer i) × Returns (same i))
      → Returns (drained w codec client fewer same r)
  unfolding drained
  drained-Returns fewer same (ok (some (p, raw)), i) more =
      let (less, again) = more p raw i refl in
      elim (Bool-cases (state_eq client.state login && p.id == codec.plugin_response_id)) [
        | inl answers ↦ simp (answers) less
        | inr other ↦ simp (other) again
      ]
  drained-Returns fewer same (ok none, i) more = (err, refl)
  drained-Returns fewer same (err, i) more = (err, refl)
  drained-Returns fewer same (panic, i) more = (panic, refl)

  timed-Returns :
      (fewer same : Inbound → Option (Outcome Inbound)) (i : Inbound) (read : TimedRead)
      → ((p : RawPacket) (raw : List ℕ) (i' : Inbound)
          → read_packet w client i ≡ (ok (some (p, raw)), i')
          → Returns (fewer i') × Returns (same i'))
      → Returns (timed w codec client fewer same i read)
  unfolding timed
  timed-Returns fewer same i in_time more = drained-Returns fewer same (read_packet w client i) more
  timed-Returns fewer same i (too_late i') more = (ok i', refl)

  drain_forge_responses-Returns :
      (fuel : ℕ) (reads : ℕ → TimedRead) (count : ℕ) (i : Inbound)
      → length (remaining i) < fuel
      → Returns (drain_forge_responses w codec client fuel reads count i)
  unfolding drain_forge_responses
  drain_forge_responses-Returns zero reads count i h = absurd (omega arith)
  drain_forge_responses-Returns (suc fuel) reads zero i h = (ok i, refl)
  drain_forge_responses-Returns (suc fuel) reads (suc count) i h =
      let later = λ (n : ℕ). reads (suc n) in
      timed-Returns (drain_forge_responses w codec client fuel later count)
        (drain_forge_responses w codec client fuel later (suc count)) i (reads 0)
        (λ p raw i' read.
          let smaller : length (remaining i') < fuel =
            omega (arith, read_packet_shrinks w client p raw i' i read) in
          (
            drain_forge_responses-Returns fuel later count i' smaller,
            drain_forge_responses-Returns fuel later (suc count) i' smaller,
          ))

  replayed_lem :
      {P : Outbound → Type 0} (written : Outcome Outbound) (drain : Outcome Inbound)
      → ((out' : Outbound) → written ≡ ok out' → P out')
      → (r : Outcome (Outbound × Inbound)) × (replayed w codec client (some drain) written ≡ some r)
        × ((out' : Outbound) (i' : Inbound) → r ≡ ok (out', i') → P out')
  unfolding replayed
  replayed_lem (ok out) (ok i) sent =
      (ok (out, i), refl, λ out' i' e. sent out' (ground (arith, e)))
  replayed_lem (ok out) err sent = (err, refl, λ out' i' e. ground (arith, e))
  replayed_lem (ok out) panic sent = (panic, refl, λ out' i' e. ground (arith, e))
  replayed_lem err drain sent = (err, refl, λ out' i' e. ground (arith, e))
  replayed_lem panic drain sent = (panic, refl, λ out' i' e. ground (arith, e))

  -- The replay of a login that was recorded comes to an end, with one round more for the responses
  -- of the client than there are bytes to read from it; when it ends well the client has been sent
  -- all the frames, in their order and behind what it was sent before, and nothing else.
  pub replay_login_payload_lem :
      (fuel : ℕ) (reads : ℕ → TimedRead) (payload : List (List ℕ)) (out : Outbound) (i : Inbound)
      → length (remaining i) < fuel
      → (r : Outcome (Outbound × Inbound)) × (replay_login_payload w codec client fuel reads payload
            out i
          ≡ some r)
        × ((out' : Outbound) (i' : Inbound)
            → r ≡ ok (out', i')
            → sent_bytes out'.written ≡ sent_bytes out.written ++ frames payload)
  unfolding replay_login_payload
  replay_login_payload_lem fuel reads payload out i enough =
      let (drain, ends) = drain_forge_responses-Returns fuel reads (length payload) i enough in
      rw ends (replayed_lem (replay_packets payload out) drain (replay_packets_sent payload out))
