-- ===== src/Proto/Packet/Reading/Faults.antt =====
-- Malformed lengths and panics (src/proto/packet.rs).
use plexsoftware.Prelude.{
  ℕ, suc, ◌+◌, ◌-◌, ◌%◌, ◌<◌, ◌≤◌, ◌≡◌, refl, ap, List, [], ◌++◌, none, Outcome, ok, err, panic,
  length, take, drop, arith, length-append, ◌≢◌, true, false, length-take, length-drop,
}
use plexsoftware.Prelude.Int.{ℤ, pos, negsuc, as_usize, pow_31, pow_63, pow_64, IsI32}
use plexsoftware.Types.{Wire, IsWire, read_var_int}
use plexsoftware.Types.Frame.{
  end_of_bounds, read_var_int_range, read_var_int_bounds, read_var_int_cut, read_var_int-take,
  read_var_int-append, read_var_int-ne-panic,
}
use plexsoftware.Proto.Client.{Client, is_compressed}
use plexsoftware.Proto.Packet.{
  slice_from, slice_to, with_capacity, decompress, decode_compressed, decode_with_len,
  decode_without_len, read_packet_id_data, Inbound, Fill, full, closed, broken, fill, take_packet,
  read_body, read_header, read_packet,
}
use plexsoftware.Proto.Packet.Reading.Chunks.{
  pending, remaining, IsClean, inbound_of, fill-remaining, fill-full_length, fill_short, fill_ready,
  fill-extends,
}

module _ (w : Wire) where
  pub read_packet_id_data-ne-panic : (buf : List ℕ) → read_packet_id_data w buf ≢ panic
  unfolding read_packet_id_data slice_from
  read_packet_id_data-ne-panic buf = go (read_var_int w buf) refl
    where
      go : (r : Outcome (ℕ × ℤ)) → read_var_int w buf ≡ r → read_packet_id_data w buf ≢ panic
      go (ok (n, i)) e = ground (arith, e, read_var_int_bounds w buf n i e)
      go err e = ground (arith, e)
      go panic e = absurd (read_var_int-ne-panic w buf e)

  -- A compressed packet whose data length is negative panics, as no vector has that capacity.
  pub negative_data_len_panics :
      (client : Client) (buf : List ℕ) (n k : ℕ)
      → is_compressed client ≡ true
      → k < pow_31
      → read_var_int w buf ≡ ok (n, negsuc k)
      → decode_without_len w client buf ≡ panic
  unfolding decode_without_len decode_compressed decompress with_capacity slice_from
  negative_data_len_panics client buf n k compressed range e =
      ground (arith, e, read_var_int_bounds w buf n (negsuc k) e)

  -- A frame that `read_packet` cut off by a length header that is not negative decodes with no
  -- panic.
  decode_cut-ne-panic :
      (client : Client) (buf : List ℕ) (n k : ℕ)
      → is_compressed client ≡ false
      → read_var_int w buf ≡ ok (n, pos k)
      → n + k ≤ length buf
      → decode_with_len w client (take (n + k) buf) ≢ panic
  unfolding decode_with_len decode_without_len slice_from slice_to
  decode_cut-ne-panic client buf n k plain e long = ground (
    arith,
    read_var_int-take w buf n (n + k) (pos k) e,
    length-take (n + k) buf,
    length-drop n (take (n + k) buf),
    read_packet_id_data-ne-panic (take k (drop n (take (n + k) buf))),
  )

module _ (w : Wire) (client : Client) (plain : is_compressed client ≡ false) where
  cut_header_refused :
      (buf : List ℕ) (n m : ℕ) (i : ℤ)
      → read_var_int w buf ≡ ok (n, i)
      → m < n
      → decode_with_len w client (take m buf) ≡ err
  unfolding decode_with_len
  cut_header_refused buf n m i e h =
      ground (arith, read_var_int_cut w buf n m (read_var_int_bounds w buf n i e).0 h)

  take_packet-ne-panic :
      (s s2 : Inbound) (more : List ℕ) (n : ℕ) (i : ℤ)
      → IsI32 i
      → read_var_int w s.buf ≡ ok (n, i)
      → n ≤ 5
      → s2.buf ≡ s.buf ++ more
      → (n + as_usize i) % pow_64 ≤ length s2.buf
      → length s2.buf < pow_63
      → decode_with_len w client (take ((n + as_usize i) % pow_64) s2.buf) ≢ panic
  take_packet-ne-panic s s2 more n (pos k) range e short same enough bound =
      let known : read_var_int w s2.buf ≡ ok (n, pos k) =
        rw same (read_var_int-append w s.buf more n (pos k) e) in
      let exact : (n + k) % pow_64 ≡ n + k = omega arith in
      rw exact (decode_cut-ne-panic w client s2.buf n k plain known (omega arith))
  take_packet-ne-panic s s2 more n (negsuc k) range e short same enough bound =
      let known : read_var_int w s2.buf ≡ ok (n, negsuc k) =
        rw same (read_var_int-append w s.buf more n (negsuc k) e) in
      ground (
        arith,
        cut_header_refused s2.buf n ((n + (pow_64 - suc k)) % pow_64) (negsuc k) known
            (omega arith),
      )

  module _ (laws : IsWire w) where
    var_int_facts :
        (buf : List ℕ) (n : ℕ) (i : ℤ) → read_var_int w buf ≡ ok (n, i) → IsI32 i × (n ≤ 5)
    var_int_facts buf n i e =
        let (found, _, _) = read_var_int_bounds w buf n i e in
        (read_var_int_range w laws.var_int_range buf n i e, (end_of_bounds 5 n buf found).1)

    read_body-ne-panic :
        (s : Inbound) (header : Outcome (ℕ × ℤ))
        → read_var_int w s.buf ≡ header
        → length (remaining s) < pow_63
        → (read_body w client header s).0 ≢ panic
    unfolding read_body take_packet
    read_body-ne-panic s panic e bound = absurd (read_var_int-ne-panic w s.buf e)
    read_body-ne-panic s err e bound = ground arith
    read_body-ne-panic s (ok (n, i)) e bound = go (fill total s.buf s.stream) refl
      where
        total : ℕ
        total = (n + as_usize i) % pow_64

        go : (f : Fill) → fill total s.buf s.stream ≡ f → (take_packet w client total f).0 ≢ panic
        go (closed s2) filled = ground arith
        go (broken s2) filled = ground arith
        go (full s2) filled =
            let (more, grown) = fill-extends total s.buf s.stream in
            let (range, short) = var_int_facts s.buf n i e in
            ground (
              arith,
              filled,
              take_packet-ne-panic s s2 more n i range e short (ground (arith, filled, grown))
                  (fill-full_length total s.buf s.stream s2 filled)
                  (omega (
                    arith,
                    length-append s2.buf (pending s2.stream),
                    ap length (fill-remaining total s.buf s.stream),
                    ap (λ (f : Fill). length (remaining (inbound_of f))) filled,
                  )),
            )

    -- On a connection without compression `read_packet` never panics, whatever the peer sends, as
    -- long as it is less than 2 ^ 63 bytes.
    pub read_packet-ne-panic :
        (s : Inbound) → length (remaining s) < pow_63 → (read_packet w client s).0 ≢ panic
    unfolding read_packet read_header
    read_packet-ne-panic s bound = go (fill 2 s.buf s.stream) refl
      where
        go : (f : Fill) → fill 2 s.buf s.stream ≡ f → (read_header w client f).0 ≢ panic
        go (closed s2) filled = ground arith
        go (broken s2) filled = ground arith
        go (full s2) filled = read_body-ne-panic s2 (read_var_int w s2.buf) refl (
            omega (
              arith,
              ap length (fill-remaining 2 s.buf s.stream),
              ap (λ (f : Fill). length (remaining (inbound_of f))) filled,
            ))

-- A negative length of 32 bits that is at most -(n + 1), n being the bytes of its header, is taken
-- for a huge one: if at least two bytes are buffered, the stream is without a fault and less than 2^63 bytes
-- are to be read, everything that the peer sends is buffered, until it closes the connection, and
-- no packet is read.
pub negative_length_buffers_all :
    (w : Wire) (client : Client) (s : Inbound) (n k : ℕ)
    → IsClean s.stream
    → 2 ≤ length s.buf
    → read_var_int w s.buf ≡ ok (n, negsuc k)
    → n ≤ k
    → k < pow_31
    → length (remaining s) < pow_63
    → read_packet w client s ≡ (ok none, record { buf = remaining s; stream = [] })
unfolding read_packet read_header read_body take_packet
negative_length_buffers_all w client s n k clean two e large range bound = ground (
  arith,
  fill_ready 2 s.buf s.stream two,
  e,
  fill_short ((n + (pow_64 - suc k)) % pow_64) s.buf s.stream clean (omega arith),
)
