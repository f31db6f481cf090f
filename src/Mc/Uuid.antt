-- ===== src/Mc/Uuid.antt =====
-- src/mc/uuid.rs: the UUIDs of players in offline mode. MD5 is a crate's, so it is a parameter.
use Prim.Native.Nat.{bit_and, bit_or}
use plexsoftware.Prelude.{
  ℕ, zero, suc, ◌+◌, ◌%◌, ◌<◌, ◌≡◌, refl, ap, ◌∙◌, ◌≢◌, List, [], ◌∷◌, ◌++◌, length, All, ◌==◌,
  if◌then◌else◌, Bool-cases, inl, inr, ==_iff, arith,
}
use plexsoftware.Prelude.Bits.{version_bits, variant_bits}
use plexsoftware.Prelude.Strings.{codes}

-- `xs[i] = f(xs[i])`; all indexes below are in range of the sixteen bytes.
unfoldable pub modify : ℕ → (ℕ → ℕ) → List ℕ → List ℕ
modify i f [] = []
modify zero f (x ∷ xs) = f x ∷ xs
modify (suc i) f (x ∷ xs) = x ∷ modify i f xs

module _ (md5 : List ℕ → List ℕ) where
  unfoldable pub java_name_uuid_from_bytes : List ℕ → List ℕ
  unfolding modify
  java_name_uuid_from_bytes bytes =
      modify 8 (λ b. bit_or (bit_and b 0x3f) 0x80)
        (modify 6 (λ b. bit_or (bit_and b 0x0f) 0x30) (md5 bytes))

  -- A name is given by its UTF-8 bytes.
  unfoldable pub player_uuid : List ℕ → List ℕ
  unfolding java_name_uuid_from_bytes
  player_uuid username = java_name_uuid_from_bytes username

  unfoldable pub offline_player_uuid : List ℕ → List ℕ
  unfolding player_uuid
  offline_player_uuid username = player_uuid (codes "OfflinePlayer:" ++ username)

abbrev pub byte_at : ℕ → List ℕ → ℕ
byte_at i [] = 0
byte_at zero (x ∷ xs) = x
byte_at (suc i) (x ∷ xs) = byte_at i xs

byte_at-modify :
    (i : ℕ) (f : ℕ → ℕ) (xs : List ℕ) → i < length xs → byte_at i (modify i f xs) ≡ f (byte_at i xs)
unfolding modify
byte_at-modify i f [] h = absurd (omega arith)
byte_at-modify zero f (x ∷ xs) h = refl
byte_at-modify (suc i) f (x ∷ xs) h = byte_at-modify i f xs (omega arith)

byte_at-modify_ne :
    (i j : ℕ) (f : ℕ → ℕ) (xs : List ℕ) → i ≢ j → byte_at j (modify i f xs) ≡ byte_at j xs
unfolding modify
byte_at-modify_ne i j f [] h = refl
byte_at-modify_ne zero zero f (x ∷ xs) h = absurd (h refl)
byte_at-modify_ne zero (suc j) f (x ∷ xs) h = refl
byte_at-modify_ne (suc i) zero f (x ∷ xs) h = refl
byte_at-modify_ne (suc i) (suc j) f (x ∷ xs) h = byte_at-modify_ne i j f xs (λ e. h (ap suc e))

length-modify : (i : ℕ) (f : ℕ → ℕ) (xs : List ℕ) → length (modify i f xs) ≡ length xs
unfolding modify
length-modify i f [] = refl
length-modify zero f (x ∷ xs) = refl
length-modify (suc i) f (x ∷ xs) = ap suc (length-modify i f xs)

byte_at-lt : (i : ℕ) (xs : List ℕ) → All (λ b. b < 256) xs → byte_at i xs < 256
byte_at-lt i [] h = omega arith
byte_at-lt zero (x ∷ xs) h = h.0
byte_at-lt (suc i) (x ∷ xs) h = byte_at-lt i xs h.1

-- A byte of the digest, with the version 3 in the sixth place and the variant in the eighth.
abbrev pub marked : ℕ → ℕ → ℕ
marked i b = if i == 6 then 48 + b % 16 else if i == 8 then 128 + b % 64 else b

-- Of an MD5 digest of sixteen bytes the UUID keeps every bit but six: the version reads 3 and the
-- variant reads binary 10.
pub java_name_uuid_from_bytes_bits :
    (md5 : List ℕ → List ℕ) (bytes : List ℕ) (i : ℕ)
    → length (md5 bytes) ≡ 16
    → All (λ b. b < 256) (md5 bytes)
    → let uuid = java_name_uuid_from_bytes md5 bytes in
      (length uuid ≡ 16) × (byte_at i uuid ≡ marked i (byte_at i (md5 bytes)))
unfolding java_name_uuid_from_bytes
java_name_uuid_from_bytes_bits md5 bytes i size range = (
  length-modify 8 variant patched ∙ length-modify 6 version digest ∙ size,
  elim (Bool-cases (i == 6)) [
    | inl six ↦ rw six (rw ((==_iff i 6).0 six) at_six)
    | inr other ↦ elim (Bool-cases (i == 8)) [
      | inl eight ↦ rw (other, eight) (rw ((==_iff i 8).0 eight) at_eight)
      | inr elsewhere ↦
          rw (other, elsewhere)
            (byte_at-modify_ne 8 i variant patched (λ e. ground (arith, elsewhere, e))
              ∙ byte_at-modify_ne 6 i version digest (λ e. ground (arith, other, e)))
    ]
  ],
)
  where
    digest : List ℕ
    digest = md5 bytes

    version : ℕ → ℕ
    version b = bit_or (bit_and b 0x0f) 0x30

    variant : ℕ → ℕ
    variant b = bit_or (bit_and b 0x3f) 0x80

    patched : List ℕ
    patched = modify 6 version digest

    at_six : byte_at 6 (modify 8 variant patched) ≡ 48 + byte_at 6 digest % 16
    at_six =
        byte_at-modify_ne 8 6 variant patched (omega arith)
        ∙ byte_at-modify 6 version digest (omega arith)
        ∙ version_bits (byte_at 6 digest) (byte_at-lt 6 digest range)

    at_eight : byte_at 8 (modify 8 variant patched) ≡ 128 + byte_at 8 digest % 64
    at_eight =
        byte_at-modify 8 variant patched (omega (arith, length-modify 6 version digest))
        ∙ ap variant (byte_at-modify_ne 6 8 version digest (omega arith))
        ∙ variant_bits (byte_at 8 digest) (byte_at-lt 8 digest range)
