-- ===== src/Examples/Codec.antt =====
-- A concrete codec for the examples: the variable-length integers of the protocol, and a
-- compression that leaves the bytes as they are.
use plexsoftware.Prelude.{
  ℕ, ◌+◌, ◌*◌, ◌-◌, ◌<◌, ◌≤◌, ◌≡◌, ◌∙◌, refl, List, [], ◌∷◌, Option, none, some, length, arith, ltb,
  if◌then◌else◌, ◌%◌,
}
use Prim.Native.Nat.{◌/◌}
use plexsoftware.Prelude.Int.{ℤ, pos, negsuc, IsI32, pow_32}
use plexsoftware.Types.{Wire, IsWire, IsFrame}

abbrev pub unsigned : ℤ → ℕ
unsigned (pos n) = n
unsigned (negsuc k) = 4294967295 - k

abbrev pub signed : ℕ → Option ℤ
signed v =
    if ltb v 2147483648
    then some (pos v)
    else if ltb v 4294967296
    then some (negsuc (4294967295 - v))
    else none

unfoldable pub groups : ℕ → List ℕ
groups u =
    if ltb u 128
    then u ∷ []
    else if ltb u 16384
    then (128 + u % 128) ∷ (u / 128) ∷ []
    else if ltb u 2097152
    then (128 + u % 128) ∷ (128 + (u / 128) % 128) ∷ (u / 16384) ∷ []
    else if ltb u 268435456
    then (128 + u % 128) ∷ (128 + (u / 128) % 128) ∷ (128 + (u / 16384) % 128) ∷ (u / 2097152) ∷ []
    else (128 + u % 128)
      ∷ (128 + (u / 128) % 128)
      ∷ (128 + (u / 16384) % 128)
      ∷ (128 + (u / 2097152) % 128)
      ∷ (u / 268435456)
      ∷ []

unfoldable pub total : List ℕ → ℕ
total [] = 0
total (b ∷ bs) = let rest = total bs in b % 128 + 128 * rest

unfoldable pub decode : List ℕ → Option ℤ
unfolding total
decode [] = none
decode (b ∷ bs) = signed (total (b ∷ bs))

abbrev pub wire : Wire
wire = record {
  var_int_decode = decode;
  var_int_encode = λ i. some (groups (unsigned i));
  inflate = λ bs. some bs;
  deflate = λ bs. some bs;
}

groups_lem :
    (u : ℕ)
    → u < pow_32
    → IsFrame (groups u) × (length (groups u) ≤ 5) × (decode (groups u) ≡ signed u)
unfolding groups decode total
groups_lem u h = ground arith

signed-unsigned : (i : ℤ) → IsI32 i → signed (unsigned i) ≡ some i
signed-unsigned (pos n) h = ground arith
signed-unsigned (negsuc k) h = ground arith

signed_range : (v : ℕ) (i : ℤ) → signed v ≡ some i → IsI32 i
signed_range v (pos n) e = ground arith
signed_range v (negsuc k) e = ground arith

unsigned-lt : (i : ℤ) → IsI32 i → unsigned i < pow_32
unsigned-lt (pos n) h = omega arith
unsigned-lt (negsuc k) h = omega arith

decode_range : (bs : List ℕ) (i : ℤ) → decode bs ≡ some i → IsI32 i
unfolding decode
decode_range [] i e = ground arith
decode_range (b ∷ bs) i e = signed_range (total (b ∷ bs)) i e

pub laws : IsWire wire
laws = record {
  var_int_lem = λ i h.
      let (frame, short, decoded) = groups_lem (unsigned i) (unsigned-lt i h) in
      (groups (unsigned i), refl, frame, short, decoded ∙ signed-unsigned i h);
  var_int_range = decode_range;
  zlib_lem = λ bs zs e. ground arith;
}
