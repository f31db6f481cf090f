-- ===== src/Proto/Packet/RoundTrip.antt =====
-- Decoding a packet that was encoded (src/proto/packet.rs).
use plexsoftware.Prelude.{
  ℕ, ◌+◌, ◌<◌, ◌≤◌, ◌≡◌, refl, List, ◌++◌, Outcome, ok, Option, or_err, length, arith, ap,
  length-append, drop-append_length, take-length, Bool, true, false, ◌>>=◌, >>=-eq-ok, ltb,
  if◌then◌else◌, unwrap,
}
use mathlib.Core.Path.{subst}
use plexsoftware.Prelude.Int.{ℤ, pos, negsuc, as_i32, as_i32-pos, pow_31, ltb_ℤ}
use plexsoftware.Types.{Wire, IsWire, encode_var_int}
use plexsoftware.Types.RoundTrip.{read_var_int-encode, encode_var_int-IsNumber}
use plexsoftware.Proto.Client.{Client}
use plexsoftware.Proto.Packet.{
  RawPacket, slice_from, slice_to, read_packet_id_data, decompress, decode_compressed,
  decode_without_len, decode_with_len, encode_uncompressed, encode_compressed, encode_without_len,
  encode_with_len, with_capacity,
}

pub slice_from-append : (xs ys : List ℕ) → slice_from (length xs) (xs ++ ys) ≡ ok ys
unfolding slice_from
slice_from-append xs ys = ground (arith, length-append xs ys, drop-append_length xs ys)

pub slice_to_all : (xs : List ℕ) → slice_to (length xs) xs ≡ ok xs
unfolding slice_to
slice_to_all xs = ground (arith, take-length xs)

-- The end of `encode_compressed`: the body, deflated or not, behind its length header.
module _ (w : Wire) (payload : List ℕ) (compress : Bool) (data_len : ℤ) where
  abbrev sealed_body : Outcome (List ℕ)
  sealed_body = if compress then or_err (w.deflate payload) else ok payload

  abbrev sealed_header : ℤ
  sealed_header = if compress then data_len else pos 0

  abbrev seal_with : Outcome (List ℕ)
  seal_with = sealed_body >>= λ body.
      unwrap (w.var_int_encode sealed_header) >>= λ header. ok (header ++ body)

  unwrap_ok : (o : Option (List ℕ)) (bs : List ℕ) → unwrap o ≡ ok bs → or_err o ≡ ok bs
  unwrap_ok o bs e = ground arith

  split_sealed :
      (bytes : List ℕ)
      → seal_with ≡ ok bytes
      → (body : List ℕ) × (header : List ℕ) × (sealed_body ≡ ok body)
        × (encode_var_int w sealed_header ≡ ok header)
        × (bytes ≡ header ++ body)
  unfolding encode_var_int
  split_sealed bytes e =
      let (body, deflated, rest) = >>=-eq-ok sealed_body _ e in
      let (header, written, whole) = >>=-eq-ok (unwrap (w.var_int_encode sealed_header)) _ rest in
      (body, header, deflated, unwrap_ok _ header written, ground (arith, whole))

module _ (w : Wire) (laws : IsWire w) (p : RawPacket) (id_byte : p.id < 256) where
  pub decode-encode_uncompressed :
      (payload : List ℕ)
      → encode_uncompressed w p ≡ ok payload
      → read_packet_id_data w payload ≡ ok p
  unfolding encode_uncompressed read_packet_id_data
  decode-encode_uncompressed payload e =
      let (bs, written, rest) = >>=-eq-ok (encode_var_int w (pos p.id)) _ e in
      ground (
        arith,
        written,
        rest,
        read_var_int-encode w laws (pos p.id) bs p.bytes (omega arith) written,
        slice_from-append bs p.bytes,
      )

  length-encode_uncompressed :
      (payload : List ℕ)
      → encode_uncompressed w p ≡ ok payload
      → length payload ≤ length p.bytes + 5
  unfolding encode_uncompressed
  length-encode_uncompressed payload e =
      let (bs, written, rest) = >>=-eq-ok (encode_var_int w (pos p.id)) _ e in
      let (_, short, _) = encode_var_int-IsNumber w laws (pos p.id) bs (omega arith) written in
      ground (arith, rest, short, length-append bs p.bytes)

  -- A payload that was deflated, or left alone, behind the header that says which.
  decode-compressed_body :
      (payload body header : List ℕ) (threshold : ℕ) (compress : Bool)
      → encode_uncompressed w p ≡ ok payload
      → length payload < pow_31
      → ltb threshold (length payload) ≡ compress
      → (if compress then or_err (w.deflate payload) else ok payload) ≡ ok body
      → encode_var_int w (if compress then pos (length payload) else pos 0) ≡ ok header
      → decode_compressed w (header ++ body) ≡ ok p
  unfolding decode_compressed decompress with_capacity
  decode-compressed_body payload body header threshold true plain size large deflated written =
      ground (
        arith,
        decode-encode_uncompressed payload plain,
        read_var_int-encode w laws (pos (length payload)) header body size written,
        slice_from-append header body,
        laws.zlib_lem payload body (ground arith),
      )
  decode-compressed_body payload body header threshold false plain size large same written =
      ground (
        arith,
        decode-encode_uncompressed payload plain,
        read_var_int-encode w laws (pos 0) header body (omega arith) written,
        slice_from-append header body,
      )

  decode-encode_compressed :
      (bytes : List ℕ) (threshold : ℕ)
      → length p.bytes + 5 < pow_31
      → encode_compressed w p (pos threshold) ≡ ok bytes
      → decode_compressed w bytes ≡ ok p
  unfolding encode_compressed
  decode-encode_compressed bytes threshold size e =
      let (payload, plain, rest) = >>=-eq-ok (encode_uncompressed w p) _ e in
      let small = length-encode_uncompressed payload plain in
      let fits = as_i32-pos (length payload) (omega arith) in
      let sealed =
        subst (λ (i : ℤ). seal_with w payload (ltb_ℤ (pos threshold) i) i ≡ ok bytes) fits rest in
      let (body, header, deflated, written, whole) =
        split_sealed w payload (ltb threshold (length payload)) (pos (length payload)) bytes
          sealed in
      rw whole (
        decode-compressed_body payload body header threshold _ plain (omega arith) refl deflated
          written)

  pub decode-encode_without_len :
      (client : Client) (bytes : List ℕ)
      → length p.bytes + 5 < pow_31
      → encode_without_len w p client ≡ ok bytes
      → decode_without_len w client bytes ≡ ok p
  unfolding encode_without_len decode_without_len
  decode-encode_without_len client bytes size e = choose client.compression refl
    where
      choose :
          (threshold : ℤ)
          → client.compression ≡ threshold
          → decode_without_len w client bytes ≡ ok p
      choose (pos n) known = ground (arith, decode-encode_compressed bytes n size)
      choose (negsuc n) known = ground (arith, decode-encode_uncompressed bytes)

  -- A packet that is encoded for a connection, compressed or not, decodes to itself there, if its
  -- sizes fit the 32 bits of the length fields.
  pub decode_with_len-encode_with_len :
      (client : Client) (bytes : List ℕ)
      → length p.bytes + 5 < pow_31
      → length bytes < pow_31
      → encode_with_len w p client ≡ ok bytes
      → decode_with_len w client bytes ≡ ok p
  unfolding encode_with_len decode_with_len
  decode_with_len-encode_with_len client bytes size short e =
      let (payload, inner, rest) = >>=-eq-ok (encode_without_len w p client) _ e in
      let (header, written, whole) =
        >>=-eq-ok (encode_var_int w (as_i32 (length payload))) _ rest in
      let joined : header ++ payload ≡ bytes = ground (arith, whole) in
      let fits =
        as_i32-pos (length payload)
          (omega (arith, ap length joined, length-append header payload)) in
      let sent : encode_var_int w (pos (length payload)) ≡ ok header = rw fits at written in
      rw (← joined) (
        ground (
          arith,
          read_var_int-encode w laws (pos (length payload)) header payload
              (omega (arith, ap length joined, length-append header payload)) sent,
          slice_from-append header payload,
          slice_to_all payload,
          decode-encode_without_len client payload size inner,
        ))
