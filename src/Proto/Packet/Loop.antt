-- ===== src/Proto/Packet/Loop.antt =====
-- The loop that the tasks run over the packets of a connection: read one, end at the end of the
-- stream or at an error, and else handle it (src/lobby.rs, src/probe.rs, src/forge.rs).
pub mod Meaning
use plexsoftware.Prelude.{
  ℕ, zero, suc, ◌<◌, ◌≡◌, refl, sym, ap, ◌∙◌, List, [], ◌++◌, Option, none, some, Outcome, ok, err,
  panic, ◌>>=◌, length, arith, append_assoc, length-append, ◌≤◌, ◌⊎◌, inl, inr,
}
use plexsoftware.Types.{Wire}
use plexsoftware.Proto.Client.{Client}
use plexsoftware.Proto.Packet.{RawPacket, decode_with_len, Inbound, ReadResult, read_packet}
use plexsoftware.Proto.Packet.Reading.Chunks.{remaining}
use plexsoftware.Proto.Packet.Reading.Conservation.{read_packet-Delivers, read_packet_shrinks}

-- What the body does with a packet: `continue`, `break`, or `return` with a result.
pub data Step {ℓ} (S R : Type ℓ) : Type ℓ where
  go_on : S → Step S R
  leave : S → Step S R
  give : R → Step S R

-- How the loop ends: behind its end, or by a `return` in its body.
pub data Exit {ℓ} (S R : Type ℓ) : Type ℓ where
  left : S → Exit S R
  gave : R → Exit S R

-- A body that ends in `continue` returns nothing.
pub go_on-not-give :
    {A S R : Type 0} (o : Outcome A) (next : A → S) (r : R)
    → (o >>= λ a. ok (go_on (next a))) ≡ ok (give r)
    → ⊥
go_on-not-give (ok a) next r e = ground (arith, e)
go_on-not-give err next r e = ground (arith, e)
go_on-not-give panic next r e = ground (arith, e)

pub give-not-go_on :
    {R S : Type 0} (o : Outcome R) (s : S) → (o >>= λ r. ok (give r)) ≡ ok (go_on s) → ⊥
give-not-go_on (ok r) s e = ground (arith, e)
give-not-go_on err s e = ground (arith, e)
give-not-go_on panic s e = ground (arith, e)

module _ {S R : Type 0} (w : Wire) (client_of : S → Client)
    (body : S → RawPacket → List ℕ → Outcome (Step S R)) where
  abbrev pub LoopResult : Type 0
  LoopResult = Option (Outcome (Exit S R) × Inbound)

  unfoldable pub after_body : (S → Inbound → LoopResult) → Inbound → Outcome (Step S R) → LoopResult
  after_body rest i (ok (go_on s)) = rest s i
  after_body rest i (ok (leave s)) = some (ok (left s), i)
  after_body rest i (ok (give r)) = some (ok (gave r), i)
  after_body rest i err = some (err, i)
  after_body rest i panic = some (panic, i)

  unfoldable pub after_read : (S → Inbound → LoopResult) → S → ReadResult → LoopResult
  unfolding after_body
  after_read rest s (ok (some (p, raw)), i) = after_body rest i (body s p raw)
  after_read rest s (ok none, i) = some (ok (left s), i)
  after_read rest s (err, i) = some (ok (left s), i)
  after_read rest s (panic, i) = some (panic, i)

  -- On fuel; `none` when it runs out.
  unfoldable pub packet_loop : ℕ → S → Inbound → LoopResult
  unfolding after_read
  packet_loop zero s i = none
  packet_loop (suc fuel) s i = after_read (packet_loop fuel) s (read_packet w (client_of s) i)

  after_body_returns :
      (rest : S → Inbound → LoopResult) (i : Inbound)
      → ((s : S) → (r : Outcome (Exit S R) × Inbound) × (rest s i ≡ some r))
      → (o : Outcome (Step S R))
      → (r : Outcome (Exit S R) × Inbound) × (after_body rest i o ≡ some r)
  unfolding after_body
  after_body_returns rest i more (ok (go_on s)) = more s
  after_body_returns rest i more (ok (leave s)) = ((ok (left s), i), refl)
  after_body_returns rest i more (ok (give r)) = ((ok (gave r), i), refl)
  after_body_returns rest i more err = ((err, i), refl)
  after_body_returns rest i more panic = ((panic, i), refl)

  after_read_returns :
      (rest : S → Inbound → LoopResult) (s : S) (r : ReadResult)
      → ((p : RawPacket) (raw : List ℕ) (i : Inbound)
          → r ≡ (ok (some (p, raw)), i)
          → (t : S) → (q : Outcome (Exit S R) × Inbound) × (rest t i ≡ some q))
      → (q : Outcome (Exit S R) × Inbound) × (after_read rest s r ≡ some q)
  unfolding after_read
  after_read_returns rest s (ok (some (p, raw)), i) more =
      after_body_returns rest i (more p raw i refl) (body s p raw)
  after_read_returns rest s (ok none, i) more = ((ok (left s), i), refl)
  after_read_returns rest s (err, i) more = ((ok (left s), i), refl)
  after_read_returns rest s (panic, i) more = ((panic, i), refl)

  -- One round more than there are bytes to read is enough.
  pub packet_loop_returns :
      (fuel : ℕ) (s : S) (i : Inbound)
      → length (remaining i) < fuel
      → (r : Outcome (Exit S R) × Inbound) × (packet_loop fuel s i ≡ some r)
  unfolding packet_loop
  packet_loop_returns zero s i h = absurd (omega arith)
  packet_loop_returns (suc fuel) s i h =
      after_read_returns (packet_loop fuel) s (read_packet w (client_of s) i) (λ p raw i' found t.
        packet_loop_returns fuel t i'
          (omega (arith, read_packet_shrinks w (client_of s) p raw i' i found)))

  pub after_body-gave :
      (rest : S → Inbound → LoopResult) (i i' : Inbound) (r : R) (o : Outcome (Step S R))
      → after_body rest i o ≡ some (ok (gave r), i')
      → ((o ≡ ok (give r)) × (i ≡ i'))
        ⊎ ((t : S) × (o ≡ ok (go_on t)) × (rest t i ≡ some (ok (gave r), i')))
  unfolding after_body
  after_body-gave rest i i' r (ok (go_on t)) e = inr (t, refl, e)
  after_body-gave rest i i' r (ok (give q)) e = inl (ground (arith, e), ground (arith, e))
  after_body-gave rest i i' r (ok (leave t)) e = ground (arith, e)
  after_body-gave rest i i' r err e = ground (arith, e)
  after_body-gave rest i i' r panic e = ground (arith, e)

  pub after_read-gave :
      (rest : S → Inbound → LoopResult) (s : S) (i' : Inbound) (r : R) (read : ReadResult)
      → after_read rest s read ≡ some (ok (gave r), i')
      → (p : RawPacket) × (raw : List ℕ) × (i : Inbound) × (read ≡ (ok (some (p, raw)), i))
        × (after_body rest i (body s p raw) ≡ some (ok (gave r), i'))
  unfolding after_read
  after_read-gave rest s i' r (ok (some (p, raw)), i) e = (p, raw, i, refl, e)
  after_read-gave rest s i' r (ok none, i) e = ground (arith, e)
  after_read-gave rest s i' r (err, i) e = ground (arith, e)
  after_read-gave rest s i' r (panic, i) e = ground (arith, e)

  -- Where the loop gave its result: after the bytes `before` in a state with the invariant, on a
  -- packet that was read from the bytes `raw`.
  pub record Gives (P : S → List ℕ → Type 0) (whole : List ℕ) (r : R) (after : List ℕ)
      : Type 0 where
    pub state : S
    pub packet : RawPacket
    pub before : List ℕ
    pub raw : List ℕ
    pub holds : P state before
    pub decoded : decode_with_len w (client_of state) raw ≡ ok packet
    pub given : body state packet raw ≡ ok (give r)
    pub conserved : (before ++ raw) ++ after ≡ whole

  module _ (P : S → List ℕ → Type 0)
      (keep : (s t : S) (p : RawPacket) (before raw : List ℕ)
        → P s before
        → decode_with_len w (client_of s) raw ≡ ok p
        → body s p raw ≡ ok (go_on t)
        → P t (before ++ raw)) where
    -- An invariant of the state and of the bytes read so far holds wherever the loop gives its
    -- result.
    pub packet_loop-Gives :
        (fuel : ℕ) (s : S) (i i' : Inbound) (r : R) (before : List ℕ)
        → P s before
        → packet_loop fuel s i ≡ some (ok (gave r), i')
        → Gives P (before ++ remaining i) r (remaining i')
    unfolding packet_loop
    packet_loop-Gives zero s i i' r before holds e = ground (arith, e)
    packet_loop-Gives (suc fuel) s i i' r before holds e =
        let (p, raw, i2, read, next) =
          after_read-gave (packet_loop fuel) s i' r (read_packet w (client_of s) i) e in
        let d = read_packet-Delivers w (client_of s) p raw i2 i read in
        let whole : (before ++ raw) ++ remaining i2 ≡ before ++ remaining i =
          append_assoc before raw (remaining i2) ∙ ap (λ (bs : List ℕ). before ++ bs) d.conserved in
        elim (after_body-gave (packet_loop fuel) i2 i' r (body s p raw) next) [
          | inl (given, same) ↦ record {
            state = s;
            packet = p;
            before = before;
            raw = raw;
            holds = holds;
            decoded = d.decoded;
            given = given;
            conserved = rw (← same) whole;
          }
          | inr (t, on, later) ↦ rw (← whole) (
              packet_loop-Gives fuel t i2 i' r (before ++ raw)
                (keep s t p before raw holds d.decoded on) later)
        ]

  -- A loop that gives its result leaves no more to be read than there was.
  pub packet_loop-gave_shrinks :
      (fuel : ℕ) (s : S) (i i' : Inbound) (r : R)
      → packet_loop fuel s i ≡ some (ok (gave r), i')
      → length (remaining i') ≤ length (remaining i)
  packet_loop-gave_shrinks fuel s i i' r e =
      let gives =
        packet_loop-Gives (λ (t : S) (bs : List ℕ). Unit {0})
          (λ t u p before raw done decoded on. tt) fuel s i i' r [] tt e in
      omega
        (arith, ap length gives.conserved, length-append (gives.before ++ gives.raw) (remaining i'))
