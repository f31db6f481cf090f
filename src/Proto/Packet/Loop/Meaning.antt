-- ===== src/Proto/Packet/Loop/Meaning.antt =====
-- The loop over the packets of a connection against its specification, which knows of packets only.
use plexsoftware.Prelude.{
  ℕ, zero, suc, ◌+◌, ◌<◌, ◌≤◌, ◌≡◌, refl, ◌∙◌, ap, List, [], ◌∷◌, ◌++◌, none, some, Outcome, ok,
  err, panic, length, arith,
}
use plexsoftware.Prelude.Int.{pow_31}
use plexsoftware.Types.{Wire, IsWire}
use plexsoftware.Types.Frame.{end_of}
use plexsoftware.Proto.Client.{Client}
use plexsoftware.Proto.Packet.{
  RawPacket, encode_with_len, Inbound, ReadEvent, chunk, reset, failed, read_packet, read_header,
  fill,
}
use plexsoftware.Proto.Packet.Reading.Chunks.{pending, remaining, IsClean}
use plexsoftware.Proto.Packet.Reading.Framing.{read_packet-encode_with_len}
use plexsoftware.Proto.Packet.Loop.{
  Step, go_on, leave, give, Exit, left, gave, LoopResult, after_body, after_read, packet_loop,
}

-- The frame of a packet, with a length header of at most two bytes.
pub record Frames (w : Wire) (client : Client) (p : RawPacket) (frame : List ℕ) : Type 0 where
  pub header : ℕ
  pub id_fits : p.id < 256
  pub data_fits : length p.bytes + 5 < pow_31
  pub frame_fits : length frame < pow_31
  pub encoded : encode_with_len w p client ≡ ok frame
  pub header_ends : end_of 5 frame ≡ some header
  pub header_short : header ≤ 2

abbrev pub bytes_of : List (RawPacket × List ℕ) → List ℕ
bytes_of [] = []
bytes_of ((p, frame) ∷ later) = frame ++ bytes_of later

nothing_left :
    (buf : List ℕ) (es : List ReadEvent)
    → IsClean es
    → buf ++ pending es ≡ []
    → (buf ≡ []) × (es ≡ [])
nothing_left [] [] clean empty = (refl, refl)
nothing_left [] (chunk [] ∷ es) clean empty = absurd (clean.0 refl)
nothing_left [] (chunk (b ∷ bs) ∷ es) clean empty = ground (arith, empty)
nothing_left [] (reset ∷ es) clean empty = absurd clean
nothing_left [] (failed ∷ es) clean empty = absurd clean
nothing_left (b ∷ buf) es clean empty = ground (arith, empty)

closed_at_end :
    (w : Wire) (client : Client) (i : Inbound)
    → IsClean i.stream
    → remaining i ≡ []
    → read_packet w client i ≡ (ok none, i)
unfolding read_packet read_header fill
closed_at_end w client i clean empty =
    let (no_buffer, no_stream) = nothing_left i.buf i.stream clean empty in
    ground (arith, no_buffer, no_stream)

module _ {S R : Type 0} (w : Wire) (client_of : S → Client)
    (body : S → RawPacket → List ℕ → Outcome (Step S R)) where
  abbrev pub after_packet : (S → Outcome (Exit S R)) → Outcome (Step S R) → Outcome (Exit S R)
  after_packet rest (ok (go_on s)) = rest s
  after_packet rest (ok (leave s)) = ok (left s)
  after_packet rest (ok (give r)) = ok (gave r)
  after_packet rest err = err
  after_packet rest panic = panic

  -- What the loop is to make of a list of packets: it handles one after the other, until its body
  -- does not go on or the peer has sent its last one.
  abbrev pub meaning : S → List (RawPacket × List ℕ) → Outcome (Exit S R)
  meaning s [] = ok (left s)
  meaning s ((p, frame) ∷ later) = after_packet (λ t. meaning t later) (body s p frame)

  -- Every packet is framed for the connection as it is when the packet comes: the body may have
  -- turned compression on.
  abbrev pub Sends : S → List (RawPacket × List ℕ) → Type 0
  Sends s [] = Unit
  Sends s ((p, frame) ∷ later) =
      Frames w (client_of s) p frame × ((t : S) → body s p frame ≡ ok (go_on t) → Sends t later)

  after_body-meaning :
      (rest : S → Inbound → LoopResult w client_of body) (later : List (RawPacket × List ℕ))
      (i : Inbound) (o : Outcome (Step S R))
      → ((t : S) → o ≡ ok (go_on t) → (i' : Inbound) × (rest t i ≡ some (meaning t later, i')))
      → (i' : Inbound) × (after_body w client_of body rest i o
          ≡ some (after_packet (λ t. meaning t later) o, i'))
  unfolding after_body
  after_body-meaning rest later i (ok (go_on t)) more = more t refl
  after_body-meaning rest later i (ok (leave t)) more = (i, refl)
  after_body-meaning rest later i (ok (give r)) more = (i, refl)
  after_body-meaning rest later i err more = (i, refl)
  after_body-meaning rest later i panic more = (i, refl)

  module _ (laws : IsWire w) where
    -- The loop over the bytes refines its specification over packets: on the frames of a list of
    -- packets, whatever pieces the network cuts them into, it ends as the specification says, with
    -- one round more than there are packets, if the peer sends without a fault and no length header
    -- has more than two bytes.
    pub packet_loop_refines :
        (packets : List (RawPacket × List ℕ)) (s : S) (i : Inbound)
        → Sends s packets
        → IsClean i.stream
        → remaining i ≡ bytes_of packets
        → (i' : Inbound) × (packet_loop w client_of body (suc (length packets)) s i
            ≡ some (meaning s packets, i'))
    unfolding packet_loop after_read
    packet_loop_refines [] s i sent clean whole = (
      i,
      ap (after_read w client_of body (packet_loop w client_of body zero) s)
          (closed_at_end w (client_of s) i clean whole),
    )
    packet_loop_refines ((p, frame) ∷ later) s i (framed, sent) clean whole =
        let (i2, read, left_over, clean2) =
          read_packet-encode_with_len w laws (client_of s) p frame i (bytes_of later) framed.header
            framed.id_fits framed.data_fits framed.frame_fits framed.encoded framed.header_ends
            framed.header_short clean whole in
        let (i3, ended) =
          after_body-meaning (packet_loop w client_of body (suc (length later))) later i2
            (body s p frame)
            (λ t on. packet_loop_refines later t i2 (sent t on) clean2 left_over) in
        (
          i3,
          ap (after_read w client_of body (packet_loop w client_of body (suc (length later))) s)
                read
              ∙ ended,
        )
