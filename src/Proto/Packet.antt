-- ===== src/Proto/Packet.antt =====
-- src/proto/packet.rs: packets on the wire. A connection is what is buffered and what the peer
-- sends from here on, in the pieces in which the reads return it.
pub mod Loop
pub mod Reading
pub mod RoundTrip
use plexsoftware.Prelude.{
  ℕ, ◌+◌, ◌%◌, List, [], ◌∷◌, ◌++◌, Option, none, some, Bool, false, Outcome, ok, err, panic, ◌>>=◌,
  ◌>>◌, or_err, unwrap, length, take, drop, leb, ltb, ◌==◌, if◌then◌else◌,
}
use plexsoftware.Prelude.Int.{ℤ, pos, negsuc, as_i32, as_usize, as_u8, ltb_ℤ, pow_63, pow_64}
use plexsoftware.Types.{Wire, read_var_int, encode_var_int}
use plexsoftware.Proto.Client.{Client, is_compressed}

pub record RawPacket : Type 0 where
  pub id : ℕ
  pub bytes : List ℕ

-- `&buf[n..]` and `&buf[..n]` panic out of range.
unfoldable pub slice_from : ℕ → List ℕ → Outcome (List ℕ)
slice_from n buf = if leb n (length buf) then ok (drop n buf) else panic

unfoldable pub slice_to : ℕ → List ℕ → Outcome (List ℕ)
slice_to n buf = if leb n (length buf) then ok (take n buf) else panic

-- `Vec::with_capacity` panics above isize::MAX.
unfoldable pub with_capacity : ℕ → Outcome (Unit {0})
with_capacity n = if ltb n pow_63 then ok tt else panic

module _ (w : Wire) where
  unfoldable pub read_packet_id_data : List ℕ → Outcome RawPacket
  read_packet_id_data buf = do
    (read, packet_id) ← read_var_int w buf
    rest ← slice_from read buf
    ok (record { id = as_u8 packet_id; bytes = rest })

  -- The rest of `decode_without_len` on a compressed connection, behind the length header.
  unfoldable pub decompress : ℤ → List ℕ → Outcome RawPacket
  decompress data_len buf = do
    with_capacity (as_usize data_len)
    decompressed ← or_err (w.inflate buf)
    if length decompressed == as_usize data_len then read_packet_id_data decompressed else err

  abbrev is_zero : ℤ → Bool
  is_zero (pos n) = n == 0
  is_zero (negsuc n) = false

  unfoldable pub decode_compressed : List ℕ → Outcome RawPacket
  decode_compressed buf = do
    (read, data_len) ← read_var_int w buf
    rest ← slice_from read buf
    if is_zero data_len then read_packet_id_data rest else decompress data_len rest

  unfoldable pub decode_without_len : Client → List ℕ → Outcome RawPacket
  decode_without_len client buf =
      if is_compressed client then decode_compressed buf else read_packet_id_data buf

  unfoldable pub decode_with_len : Client → List ℕ → Outcome RawPacket
  decode_with_len client buf = do
    (read, len) ← read_var_int w buf
    rest ← slice_from read buf
    body ← slice_to (as_usize len) rest
    decode_without_len client body

  unfoldable pub encode_uncompressed : RawPacket → Outcome (List ℕ)
  encode_uncompressed p = do id ← encode_var_int w (pos p.id); ok (id ++ p.bytes)

  unfoldable pub encode_compressed : RawPacket → ℤ → Outcome (List ℕ)
  unfolding encode_uncompressed
  encode_compressed p threshold = do
    payload ← encode_uncompressed p
    let data_len = as_i32 (length payload)
    let compress = ltb_ℤ threshold data_len
    body ← if compress then or_err (w.deflate payload) else ok payload
    header ← unwrap (w.var_int_encode (if compress then data_len else pos 0))
    ok (header ++ body)

  unfoldable pub encode_without_len : RawPacket → Client → Outcome (List ℕ)
  encode_without_len p client =
      if is_compressed client then encode_compressed p client.compression else encode_uncompressed p

  unfoldable pub encode_with_len : RawPacket → Client → Outcome (List ℕ)
  encode_with_len p client = do
    payload ← encode_without_len p client
    header ← encode_var_int w (as_i32 (length payload))
    ok (header ++ payload)

-- What one read of the stream returns: bytes, `ErrorKind::ConnectionReset`, or another error. A
-- read of no bytes, and every read behind the last event, is the end of the stream.
pub data ReadEvent : Type 0 where
  chunk : List ℕ → ReadEvent
  reset failed : ReadEvent

pub record Inbound : Type 0 where
  pub buf : List ℕ
  pub stream : List ReadEvent

-- How `while buf.len() < need { ... }` ends.
pub data Fill : Type 0 where
  full closed broken : Inbound → Fill

unfoldable pub fill : ℕ → List ℕ → List ReadEvent → Fill
fill need buf [] =
    if ltb (length buf) need
    then closed (record { buf = buf; stream = [] })
    else full (record { buf = buf; stream = [] })
fill need buf (chunk [] ∷ es) =
    if ltb (length buf) need
    then closed (record { buf = buf; stream = es })
    else full (record { buf = buf; stream = chunk [] ∷ es })
fill need buf (chunk (b ∷ bs) ∷ es) =
    let more = fill need (buf ++ b ∷ bs) es in
    if ltb (length buf) need
    then more
    else full (record { buf = buf; stream = chunk (b ∷ bs) ∷ es })
fill need buf (reset ∷ es) =
    if ltb (length buf) need
    then closed (record { buf = buf; stream = es })
    else full (record { buf = buf; stream = reset ∷ es })
fill need buf (failed ∷ es) =
    if ltb (length buf) need
    then broken (record { buf = buf; stream = es })
    else full (record { buf = buf; stream = failed ∷ es })

-- The packet with its raw bytes; `none` when the peer closed the connection.
abbrev pub ReadResult : Type 0
ReadResult = Outcome (Option (RawPacket × List ℕ)) × Inbound

abbrev pub attach_raw : List ℕ → Outcome RawPacket → Outcome (Option (RawPacket × List ℕ))
attach_raw raw decoded = decoded >>= λ p. ok (some (p, raw))

module _ (w : Wire) (client : Client) where
  -- `buf.split_to(total)` and the decoding.
  unfoldable pub take_packet : ℕ → Fill → ReadResult
  take_packet total (closed s) = (ok none, s)
  take_packet total (broken s) = (err, s)
  take_packet total (full s) = (
    attach_raw (take total s.buf) (decode_with_len w client (take total s.buf)),
    record s { buf = drop total s.buf },
  )

  -- The sum wraps, as in the release profile.
  unfoldable pub read_body : Outcome (ℕ × ℤ) → Inbound → ReadResult
  unfolding take_packet
  read_body (ok (consumed, len)) s =
      let total = (consumed + as_usize len) % pow_64 in
      take_packet total (fill total s.buf s.stream)
  read_body err s = (err, s)
  read_body panic s = (panic, s)

  unfoldable pub read_header : Fill → ReadResult
  unfolding read_body
  read_header (closed s) = (ok none, s)
  read_header (broken s) = (err, s)
  read_header (full s) = read_body (read_var_int w s.buf) s

  unfoldable pub read_packet : Inbound → ReadResult
  unfolding read_header
  read_packet s = read_header (fill 2 s.buf s.stream)
