-- ===== src/Prelude/Bits.antt =====
-- Masks over one byte, checked at all 256 values.
use Prim.Native.Nat.{ℕ, zero, suc, ◌+◌, ◌%◌, ◌<◌, bit_and, bit_or}
use mathlib.Core.Path.{◌≡◌, refl}
use mathlib.Core.Bool.{Bool, true, false, ◌&&◌}
use native.Mathlib.Omega.{arith}
use plexsoftware.Prelude.Tests.{ltb, leb, ◌==◌, ==_iff, if◌then◌else◌}

all_below : ℕ → (ℕ → Bool) → Bool
all_below (suc limit) test = all_below limit test && test limit
all_below zero test = true

all_below_lem :
    (limit : ℕ) (test : ℕ → Bool) (b : ℕ) → all_below limit test ≡ true → b < limit → test b ≡ true
unfolding all_below
all_below_lem zero test b e less = absurd (omega arith)
all_below_lem (suc limit) test b e less = ground (arith, all_below_lem limit test b)

agree : Bool → Bool → Bool
agree true b = b
agree false b = if b then false else true

agree_eq : (a b : Bool) → agree a b ≡ true → a ≡ b
unfolding agree
agree_eq a b h = ground arith

top_bit_table : all_below 256 (λ b. agree (ltb 0 (bit_and b 128)) (leb 128 b)) ≡ true
unfolding all_below agree
top_bit_table = refl

-- `b & (1 << 7) > 0` on a byte.
pub top_bit : (b : ℕ) → b < 256 → ltb 0 (bit_and b 128) ≡ leb 128 b
top_bit b h = agree_eq _ _ (all_below_lem 256 _ b top_bit_table h)

version_table : all_below 256 (λ b. bit_or (bit_and b 0x0f) 0x30 == 48 + b % 16) ≡ true
unfolding all_below
version_table = refl

pub version_bits : (b : ℕ) → b < 256 → bit_or (bit_and b 0x0f) 0x30 ≡ 48 + b % 16
version_bits b h = (==_iff _ _).0 (all_below_lem 256 _ b version_table h)

variant_table : all_below 256 (λ b. bit_or (bit_and b 0x3f) 0x80 == 128 + b % 64) ≡ true
unfolding all_below
variant_table = refl

pub variant_bits : (b : ℕ) → b < 256 → bit_or (bit_and b 0x3f) 0x80 ≡ 128 + b % 64
variant_bits b h = (==_iff _ _).0 (all_below_lem 256 _ b variant_table h)
