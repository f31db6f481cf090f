-- ===== src/Proto/Packet/Reading/Framing.antt =====
-- `read_packet` against the frame of one packet, however the network cuts the bytes
-- (src/proto/packet.rs).
use plexsoftware.Prelude.{
  ℕ, ◌+◌, ◌%◌, ◌<◌, ◌≤◌, ◌≡◌, sym, ap, ◌∙◌, List, [], ◌∷◌, ◌++◌, some, ok, err, length, take, drop,
  arith, append_assoc, length-append, >>=-eq-ok, front_of_append, take-append_length,
}
use plexsoftware.Prelude.Int.{pos, as_i32, as_i32-pos, pow_31, pow_64}
use plexsoftware.Types.{Wire, IsWire, IsFrame, read_var_int, encode_var_int}
use plexsoftware.Types.Frame.{
  end_of_bounds, read_var_int_nil, read_var_int_cut, end_of, end_of-IsFrame, end_of-append,
}
use plexsoftware.Types.RoundTrip.{IsNumber, encode_var_int-IsNumber, read_var_int-encode}
use plexsoftware.Proto.Client.{Client}
use plexsoftware.Proto.Packet.{
  RawPacket, decode_with_len, decode_without_len, decode_compressed, read_packet_id_data,
  encode_with_len, encode_without_len, ReadEvent, chunk, Inbound, fill, take_packet, read_body,
  read_header, read_packet,
}
use plexsoftware.Proto.Packet.RoundTrip.{decode-encode_without_len, decode_with_len-encode_with_len}
use plexsoftware.Proto.Packet.Reading.Chunks.{
  pending, remaining, IsClean, fill-remaining, fill_enough, fill_ready, fill-full_length,
}

-- The parts of the frame of a packet: a length header and a payload.
record Parts (w : Wire) (client : Client) (frame : List ℕ) : Type 0 where
  header : List ℕ
  payload : List ℕ
  joined : frame ≡ header ++ payload
  number : IsNumber w (pos (length payload)) header
  written : encode_var_int w (pos (length payload)) ≡ ok header
  inhabited : 1 ≤ length payload

decode_without_len_nonempty :
    (w : Wire) (client : Client) (bs : List ℕ) (p : RawPacket)
    → decode_without_len w client bs ≡ ok p
    → 1 ≤ length bs
unfolding decode_without_len decode_compressed read_packet_id_data
decode_without_len_nonempty w client [] p e = ground (arith, read_var_int_nil w)
decode_without_len_nonempty w client (b ∷ bs) p e = omega arith

module _ (w : Wire) (laws : IsWire w) (client : Client) (p : RawPacket) (frame : List ℕ) where
  encode_with_len-Parts :
      p.id < 256
      → length p.bytes + 5 < pow_31
      → length frame < pow_31
      → encode_with_len w p client ≡ ok frame
      → Parts w client frame
  unfolding encode_with_len
  encode_with_len-Parts id_byte size short e =
      let (payload, inner, rest) = >>=-eq-ok (encode_without_len w p client) _ e in
      let (header, written, whole) =
        >>=-eq-ok (encode_var_int w (as_i32 (length payload))) _ rest in
      let joined : header ++ payload ≡ frame = ground (arith, whole) in
      let small : length payload < pow_31 =
        omega (arith, ap length joined, length-append header payload) in
      let sent : encode_var_int w (pos (length payload)) ≡ ok header =
        rw (as_i32-pos (length payload) small) at written in
      record {
        header = header;
        payload = payload;
        joined = sym joined;
        number = encode_var_int-IsNumber w laws (pos (length payload)) header small sent;
        written = sent;
        inhabited =
            decode_without_len_nonempty w client payload p
              (decode-encode_without_len w laws p id_byte client payload size inner);
      }

  module _ (parts : Parts w client frame) (decoded : decode_with_len w client frame ≡ ok p)
      (short : length frame < pow_31) where
    open parts use {header, payload, joined, number, written, inhabited}

    frame_length : length frame ≡ length header + length payload
    frame_length = rw joined (length-append header payload)

    header_pos : 1 ≤ length header
    header_pos = pos_of header number.0
      where
        pos_of : (bs : List ℕ) → IsFrame bs → 1 ≤ length bs
        pos_of [] f = absurd f
        pos_of (b ∷ bs) f = omega arith

    -- With the header in the buffer, the body is awaited and taken.
    read_body_frame :
        (s : Inbound) (rest : List ℕ)
        → IsClean s.stream
        → remaining s ≡ frame ++ rest
        → (s' : Inbound) × (read_body w client (ok (length header, pos (length payload))) s
            ≡ (ok (some (p, frame)), s'))
          × (remaining s' ≡ rest)
          × IsClean s'.stream
    unfolding read_body take_packet
    read_body_frame s rest clean whole =
        let total = (length header + length payload) % pow_64 in
        let exact : total ≡ length frame = omega (arith, frame_length) in
        let (s2, filled, clean2) =
          fill_enough total s.buf s.stream clean
            (rw whole (omega (arith, length-append frame rest))) in
        let same : remaining s2 ≡ frame ++ rest =
          ground (arith, fill-remaining total s.buf s.stream, filled, whole) in
        let (front, back) =
          front_of_append s2.buf (pending s2.stream) frame rest same
            (omega (arith, fill-full_length total s.buf s.stream s2 filled)) in
        let taken : take (length frame) s2.buf ≡ frame =
          rw front (take-append_length frame (drop (length frame) s2.buf)) in
        (
          record { buf = drop (length frame) s2.buf; stream = s2.stream },
          ground (arith, filled, exact, taken, decoded),
          back,
          clean2,
        )

    header_read :
        (buf after rest : List ℕ)
        → 2 ≤ length buf
        → length header ≤ 2
        → buf ++ after ≡ frame ++ rest
        → read_var_int w buf ≡ ok (length header, pos (length payload))
    header_read buf after rest two fits e =
        let split : buf ++ after ≡ header ++ (payload ++ rest) =
          e ∙ ap (λ (xs : List ℕ). xs ++ rest) joined ∙ append_assoc header payload rest in
        let (front, _) = front_of_append buf after header (payload ++ rest) split (omega arith) in
        rw front (
          read_var_int-encode w laws (pos (length payload)) header (drop (length header) buf)
            (omega (arith, frame_length)) written)

    read_packet_frame :
        (s : Inbound) (rest : List ℕ)
        → IsClean s.stream
        → length header ≤ 2
        → remaining s ≡ frame ++ rest
        → (s' : Inbound) × (read_packet w client s ≡ (ok (some (p, frame)), s'))
          × (remaining s' ≡ rest)
          × IsClean s'.stream
    unfolding read_packet read_header
    read_packet_frame s rest clean fits whole =
        let (s1, filled, clean1) = fill_enough 2 s.buf s.stream clean (
          rw whole
            (omega (arith, length-append frame rest, frame_length, header_pos, inhabited))) in
        let same : remaining s1 ≡ frame ++ rest =
          ground (arith, fill-remaining 2 s.buf s.stream, filled, whole) in
        let header =
          header_read s1.buf (pending s1.stream) rest (fill-full_length 2 s.buf s.stream s1 filled)
            fits same in
        let (s', taken, left, clean') = read_body_frame s1 rest clean1 same in
        (s', ground (arith, filled, header, taken), left, clean')

  -- A frame with a length header of at most two bytes is read as the packet that was encoded, with
  -- the frame as its raw bytes and all that follows left to read, into whatever pieces the network
  -- cuts the stream, if the peer sends without a fault.
  pub read_packet-encode_with_len :
      (s : Inbound) (rest : List ℕ) (n : ℕ)
      → p.id < 256
      → length p.bytes + 5 < pow_31
      → length frame < pow_31
      → encode_with_len w p client ≡ ok frame
      → end_of 5 frame ≡ some n
      → n ≤ 2
      → IsClean s.stream
      → remaining s ≡ frame ++ rest
      → (s' : Inbound) × (read_packet w client s ≡ (ok (some (p, frame)), s'))
        × (remaining s' ≡ rest)
        × IsClean s'.stream
  read_packet-encode_with_len s rest n id_byte size short e ends two clean whole =
      let parts = encode_with_len-Parts id_byte size short e in
      let decoded = decode_with_len-encode_with_len w laws p id_byte client frame size short e in
      let (shape, brief, _) = parts.number in
      let found : end_of 5 frame ≡ some (length parts.header) = rw parts.joined (
        end_of-append 5 (length parts.header) parts.header parts.payload
          (end_of-IsFrame 5 parts.header shape brief)) in
      read_packet_frame parts decoded short s rest clean (ground (arith, ends, found, two)) whole

-- A frame whose length header takes three bytes or more is refused if the first read ends inside
-- the header, two bytes in, whatever comes next.
pub read_packet_split_header :
    (w : Wire) (client : Client) (frame : List ℕ) (n : ℕ) (es : List ReadEvent)
    → end_of 5 frame ≡ some n
    → 3 ≤ n
    → (read_packet w client (record { buf = []; stream = chunk (take 2 frame) ∷ es })).0 ≡ err
unfolding read_packet read_header fill
read_packet_split_header w client [] n es ends large = unfold end_of in cc
read_packet_split_header w client (a ∷ []) n es ends large =
    absurd (omega (arith, end_of_bounds 5 n (a ∷ []) ends))
read_packet_split_header w client (a ∷ b ∷ frame) n es ends large =
    ground (arith, fill_ready 2 (a ∷ b ∷ []) es, read_var_int_cut w (a ∷ b ∷ frame) n 2 ends)
