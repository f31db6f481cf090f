-- ===== src/Prelude/Int.antt =====
-- Signed 32-bit integers, and the casts between the machine's integer types (`as` in Rust).
-- An i32 is a `ℤ`; an `as` cast keeps the low bits, so it is written out by its modulus.
use Prim.Native.Nat.{ℕ, suc, ◌-◌, ◌%◌, ◌<◌}
use mathlib.Core.Path.{◌≡◌}
use mathlib.Core.Bool.{Bool, true, false}
use native.Mathlib.Omega.{arith}
use plexsoftware.Prelude.Tests.{ltb, ◌==◌, if◌then◌else◌}

-- `negsuc n` is -(n + 1).
pub data ℤ : Type 0 where
  pos : ℕ → ℤ
  negsuc : ℕ → ℤ

abbrev pub pow_31 : ℕ
pow_31 = 2147483648

abbrev pub pow_32 : ℕ
pow_32 = 4294967296

abbrev pub pow_63 : ℕ
pow_63 = 9223372036854775808

abbrev pub pow_64 : ℕ
pow_64 = 18446744073709551616

abbrev pub IsI32 : ℤ → Type 0
IsI32 (pos n) = n < pow_31
IsI32 (negsuc n) = n < pow_31

-- `n as i32` for an unsigned n.
abbrev pub as_i32 : ℕ → ℤ
as_i32 n = let low = n % pow_32 in if ltb low pow_31 then pos low else negsuc (pow_32 - low - 1)

-- `i as usize` on a 64-bit target: the sign is extended.
abbrev pub as_usize : ℤ → ℕ
as_usize (pos n) = n
as_usize (negsuc n) = pow_64 - suc n

-- `i as u8`. A multiple of 256 is added first, since `-` on ℕ stops at 0.
abbrev pub as_u8 : ℤ → ℕ
as_u8 (pos n) = n % 256
as_u8 (negsuc n) = (pow_32 - suc n) % 256

abbrev pub is_nonneg : ℤ → Bool
is_nonneg (pos n) = true
is_nonneg (negsuc n) = false

abbrev pub ltb_ℤ : ℤ → ℤ → Bool
ltb_ℤ (pos m) (pos n) = ltb m n
ltb_ℤ (pos m) (negsuc n) = false
ltb_ℤ (negsuc m) (pos n) = true
ltb_ℤ (negsuc m) (negsuc n) = ltb n m

abbrev pub eq_ℤ : ℤ → ℤ → Bool
eq_ℤ (pos m) (pos n) = m == n
eq_ℤ (pos m) (negsuc n) = false
eq_ℤ (negsuc m) (pos n) = false
eq_ℤ (negsuc m) (negsuc n) = m == n

pub as_i32-pos : (n : ℕ) → n < pow_31 → as_i32 n ≡ pos n
as_i32-pos n h = ground arith
