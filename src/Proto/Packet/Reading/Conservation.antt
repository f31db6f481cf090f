-- ===== src/Proto/Packet/Reading/Conservation.antt =====
-- `read_packet` loses, repeats and reorders no byte (src/proto/packet.rs).
use plexsoftware.Prelude.{
  ℕ, ◌+◌, ◌%◌, ◌<◌, ◌≤◌, ◌≡◌, ap, List, [], ◌∷◌, ◌++◌, some, Outcome, ok, err, panic, length, take,
  drop, arith, append_assoc, length-append, take-append-drop,
}
use plexsoftware.Prelude.Int.{ℤ, as_usize, pow_64}
use plexsoftware.Types.{Wire, read_var_int}
use plexsoftware.Types.Frame.{read_var_int_nil}
use plexsoftware.Proto.Client.{Client}
use plexsoftware.Proto.Packet.{
  RawPacket, decode_with_len, Inbound, Fill, full, closed, broken, fill, take_packet, read_body,
  read_header, read_packet,
}
use plexsoftware.Proto.Packet.Reading.Chunks.{pending, remaining, inbound_of, fill-remaining}

module _ (w : Wire) (client : Client) where
  decode_nonempty :
      (raw : List ℕ) (p : RawPacket) → decode_with_len w client raw ≡ ok p → 1 ≤ length raw
  unfolding decode_with_len
  decode_nonempty [] p e = ground (arith, read_var_int_nil w)
  decode_nonempty (b ∷ bs) p e = omega arith

  -- A packet with the bytes that it was read from, out of those that were there.
  pub record Delivers (before : List ℕ) (p : RawPacket) (raw : List ℕ) (after : List ℕ)
      : Type 0 where
    pub conserved : raw ++ after ≡ before
    pub decoded : decode_with_len w client raw ≡ ok p

  module _ (p : RawPacket) (raw : List ℕ) (s' : Inbound) where
    take_packet-Delivers :
        (total : ℕ) (f : Fill)
        → take_packet w client total f ≡ (ok (some (p, raw)), s')
        → Delivers (remaining (inbound_of f)) p raw (remaining s')
    unfolding take_packet
    take_packet-Delivers total (full s) e = ground (
      arith,
      take-append-drop total s.buf,
      append_assoc (take total s.buf) (drop total s.buf) (pending s.stream),
    )
    take_packet-Delivers total (closed s) e = ground arith
    take_packet-Delivers total (broken s) e = ground arith

    read_body-Delivers :
        (header : Outcome (ℕ × ℤ)) (s : Inbound)
        → read_body w client header s ≡ (ok (some (p, raw)), s')
        → Delivers (remaining s) p raw (remaining s')
    unfolding read_body
    read_body-Delivers (ok (consumed, len)) s e =
        let total = (consumed + as_usize len) % pow_64 in
        rw (← fill-remaining total s.buf s.stream)
          (take_packet-Delivers total (fill total s.buf s.stream) e)
    read_body-Delivers err s e = ground arith
    read_body-Delivers panic s e = ground arith

    read_header-Delivers :
        (f : Fill)
        → read_header w client f ≡ (ok (some (p, raw)), s')
        → Delivers (remaining (inbound_of f)) p raw (remaining s')
    unfolding read_header
    read_header-Delivers (full s) e = read_body-Delivers (read_var_int w s.buf) s e
    read_header-Delivers (closed s) e = ground arith
    read_header-Delivers (broken s) e = ground arith

    -- A packet that is delivered is the decoding of the bytes that were taken, and these and what
    -- is left are what was there before, in order.
    pub read_packet-Delivers :
        (s : Inbound)
        → read_packet w client s ≡ (ok (some (p, raw)), s')
        → Delivers (remaining s) p raw (remaining s')
    unfolding read_packet
    read_packet-Delivers s e =
        rw (← fill-remaining 2 s.buf s.stream) (read_header-Delivers (fill 2 s.buf s.stream) e)

    -- A read that delivers a packet leaves fewer bytes to read than there were.
    pub read_packet_shrinks :
        (s : Inbound)
        → read_packet w client s ≡ (ok (some (p, raw)), s')
        → length (remaining s') < length (remaining s)
    read_packet_shrinks s e =
        let d = read_packet-Delivers s e in
        omega (
          arith,
          decode_nonempty raw p d.decoded,
          ap length d.conserved,
          length-append raw (remaining s'),
        )
