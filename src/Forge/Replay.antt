-- ===== src/Forge/Replay.antt =====
-- `replay_login_payload` and `drain_forge_responses` of src/forge.rs.
use plexsoftware.Prelude.{
  ℕ, zero, suc, ◌==◌, ◌&&◌, List, [], ◌∷◌, Option, none, some, Outcome, ok, err, panic, ◌>>=◌,
  length, if◌then◌else◌,
}
use plexsoftware.Types.{Wire}
use plexsoftware.Proto.Client.{Client, login, state_eq}
use plexsoftware.Proto.Packet.{Inbound, ReadResult, read_packet}
use plexsoftware.Proto.Login.{LoginCodec}
use plexsoftware.Proto.Action.{Outbound, write_all}

-- Every recorded packet is written as it was read.
unfoldable pub replay_packets : List (List ℕ) → Outbound → Outcome Outbound
replay_packets [] out = ok out
replay_packets (packet ∷ packets) out = do
  sent ← write_all (ok packet) out
  replay_packets packets sent

-- What a read under the timeout comes to: a result, or the timeout, which leaves the bytes that
-- were read in the buffer.
pub data TimedRead : Type 0 where
  in_time : TimedRead
  too_late : Inbound → TimedRead

module _ (w : Wire) (codec : LoginCodec) (client : Client) where
  unfoldable pub drained :
      (Inbound → Option (Outcome Inbound))
      → (Inbound → Option (Outcome Inbound))
      → ReadResult
      → Option (Outcome Inbound)
  drained fewer same (ok (some (p, raw)), i) =
      let less = fewer i in
      let again = same i in
      if state_eq client.state login && p.id == codec.plugin_response_id then less else again
  drained fewer same (ok none, i) = some err
  drained fewer same (err, i) = some err
  drained fewer same (panic, i) = some panic

  unfoldable pub timed :
      (Inbound → Option (Outcome Inbound))
      → (Inbound → Option (Outcome Inbound))
      → Inbound
      → TimedRead
      → Option (Outcome Inbound)
  unfolding drained
  timed fewer same i in_time = drained fewer same (read_packet w client i)
  timed fewer same i (too_late i') = some (ok i')

  -- `reads` says of each round whether the read is in time. On fuel.
  unfoldable pub drain_forge_responses :
      ℕ → (ℕ → TimedRead) → ℕ → Inbound → Option (Outcome Inbound)
  unfolding timed
  drain_forge_responses fuel reads zero i = some (ok i)
  drain_forge_responses zero reads (suc count) i = none
  drain_forge_responses (suc fuel) reads (suc count) i =
      let later = λ (n : ℕ). reads (suc n) in
      timed (drain_forge_responses fuel later count) (drain_forge_responses fuel later (suc count))
        i (reads 0)

  -- The responses are drained once all is written.
  unfoldable pub replayed :
      Option (Outcome Inbound) → Outcome Outbound → Option (Outcome (Outbound × Inbound))
  replayed (some (ok i)) (ok out) = some (ok (out, i))
  replayed (some err) (ok out) = some err
  replayed (some panic) (ok out) = some panic
  replayed none (ok out) = none
  replayed rest err = some err
  replayed rest panic = some panic

  unfoldable pub replay_login_payload :
      ℕ
      → (ℕ → TimedRead)
      → List (List ℕ)
      → Outbound
      → Inbound
      → Option (Outcome (Outbound × Inbound))
  unfolding replay_packets drain_forge_responses replayed
  replay_login_payload fuel reads payload out i =
      replayed (drain_forge_responses fuel reads (length payload) i) (replay_packets payload out)
