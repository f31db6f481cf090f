-- ===== src/Types.antt =====
-- src/types.rs: variable-length integers at the front of a byte buffer. The codec itself is the
-- `minecraft_protocol` crate's and `flate2` compresses, so both are parameters, in `Wire`.
pub mod Frame
pub mod RoundTrip
use plexsoftware.Prelude.{
  ℕ, zero, suc, ◌+◌, ◌<◌, ◌≤◌, ◌≡◌, List, [], ◌∷◌, Option, none, some, Outcome, err, or_err, length,
  take, ltb, if◌then◌else◌, map_some,
}
use Prim.Native.Nat.{bit_and}
use plexsoftware.Prelude.Int.{ℤ, IsI32}

-- The codecs of the crates that the wire format rests on. `none` is their `Err`.
pub record Wire : Type 0 where
  -- minecraft_protocol::decoder::var_int::decode, on a slice that holds the number only
  pub var_int_decode : List ℕ → Option ℤ
  -- minecraft_protocol::encoder::var_int::encode
  pub var_int_encode : ℤ → Option (List ℕ)
  -- flate2::read::ZlibDecoder::read_to_end
  pub inflate : List ℕ → Option (List ℕ)
  -- flate2::write::ZlibEncoder, write_all and finish
  pub deflate : List ℕ → Option (List ℕ)

-- The bytes of one number: the top bit is set on every byte but the last.
abbrev pub IsFrame : List ℕ → Type 0
IsFrame [] = ⊥
IsFrame (b ∷ []) = b < 128
IsFrame (b ∷ c ∷ bs) = (128 ≤ b) × (b < 256) × IsFrame (c ∷ bs)

-- What the protocol documents of the codecs: a 32-bit number is written in one to five bytes of
-- that shape and read back, what is read is a 32-bit number, and what was deflated inflates to
-- itself.
pub record IsWire (w : Wire) : Type 0 where
  pub var_int_lem :
      (i : ℤ)
      → IsI32 i
      → (bs : List ℕ) × (w.var_int_encode i ≡ some bs)
        × IsFrame bs
        × (length bs ≤ 5)
        × (w.var_int_decode bs ≡ some i)
  pub var_int_range : (bs : List ℕ) (i : ℤ) → w.var_int_decode bs ≡ some i → IsI32 i
  pub zlib_lem : (bs zs : List ℕ) → w.deflate bs ≡ some zs → w.inflate zs ≡ some bs

module _ (w : Wire) where
  -- The rounds left of `1..=5.min(buf.len())`, what `buf[len - 1..]` holds, and `len`.
  unfoldable pub read_var_int_loop : List ℕ → ℕ → List ℕ → ℕ → Outcome (ℕ × ℤ)
  read_var_int_loop buf zero rest len = err
  read_var_int_loop buf (suc rounds) [] len = err
  read_var_int_loop buf (suc rounds) (b ∷ rest) len =
      let more = read_var_int_loop buf rounds rest (len + 1) in
      if ltb 0 (bit_and b 128)
      then more
      else or_err (map_some (λ val. (len, val)) (w.var_int_decode (take len buf)))

  unfoldable pub read_var_int : List ℕ → Outcome (ℕ × ℤ)
  unfolding read_var_int_loop
  read_var_int buf = read_var_int_loop buf 5 buf 1

  unfoldable pub encode_var_int : ℤ → Outcome (List ℕ)
  encode_var_int i = or_err (w.var_int_encode i)
