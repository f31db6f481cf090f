-- ===== src/Types/Frame.antt =====
-- Where a number ends in a buffer (src/types.rs), with the codec left aside.
use plexsoftware.Prelude.{
  ℕ, zero, suc, ◌+◌, ◌<◌, ◌≤◌, ◌≡◌, refl, List, [], ◌∷◌, ◌++◌, Option, none, some, Outcome, err,
  panic, ◌≢◌, or_err, length, take, take-append_le, take-take, ok, inl, inr, Option-cases, ltb,
  if◌then◌else◌, map_some, arith,
}
use Prim.Native.Nat.{bit_and}
use plexsoftware.Prelude.Bits.{top_bit}
use plexsoftware.Prelude.Int.{ℤ, IsI32}
use plexsoftware.Types.{Wire, IsFrame, read_var_int_loop, read_var_int}

-- The number of bytes up to the first whose top bit is clear, if that is among the first `k`.
unfoldable pub end_of : ℕ → List ℕ → Option ℕ
end_of zero bs = none
end_of (suc k) [] = none
end_of (suc k) (b ∷ bs) = if ltb 0 (bit_and b 128) then map_some suc (end_of k bs) else some 1

pub end_of_bounds :
    (k n : ℕ) (bs : List ℕ) → end_of k bs ≡ some n → (1 ≤ n) × (n ≤ k) × (n ≤ length bs)
unfolding end_of
end_of_bounds zero n bs e = cc
end_of_bounds (suc k) n [] e = cc
end_of_bounds (suc k) n (b ∷ bs) e = elim (Option-cases (end_of k bs)) [
  | inl stop ↦ ground (arith, stop)
  | inr (m, more) ↦ ground (arith, more, end_of_bounds k m bs more)
]

pub end_of-append :
    (k n : ℕ) (bs more : List ℕ) → end_of k bs ≡ some n → end_of k (bs ++ more) ≡ some n
unfolding end_of
end_of-append zero n bs more e = cc
end_of-append (suc k) n [] more e = cc
end_of-append (suc k) n (b ∷ bs) more e = elim (Option-cases (end_of k bs)) [
  | inl stop ↦ ground (arith, stop)
  | inr (m, found) ↦ ground (arith, found, end_of-append k m bs more found)
]

-- A buffer that is cut before the end of the number holds no number.
pub end_of-take_lt :
    (k n m : ℕ) (bs : List ℕ) → end_of k bs ≡ some n → m < n → end_of k (take m bs) ≡ none
unfolding end_of
end_of-take_lt zero n m bs e h = cc
end_of-take_lt (suc k) n m [] e h = cc
end_of-take_lt (suc k) n zero (b ∷ bs) e h = refl
end_of-take_lt (suc k) n (suc m) (b ∷ bs) e h = elim (Option-cases (end_of k bs)) [
  | inl stop ↦ ground (arith, stop)
  | inr (j, found) ↦ ground (arith, found, end_of-take_lt k j m bs found)
]

pub end_of-take :
    (k n m : ℕ) (bs : List ℕ) → end_of k bs ≡ some n → n ≤ m → end_of k (take m bs) ≡ some n
unfolding end_of
end_of-take zero n m bs e h = cc
end_of-take (suc k) n m [] e h = cc
end_of-take (suc k) n zero (b ∷ bs) e h = absurd (omega (arith, end_of_bounds (suc k) n (b ∷ bs) e))
end_of-take (suc k) n (suc m) (b ∷ bs) e h = elim (Option-cases (end_of k bs)) [
  | inl stop ↦ ground (arith, stop)
  | inr (j, found) ↦ ground (arith, found, end_of-take k j m bs found)
]

pub end_of-IsFrame :
    (k : ℕ) (bs : List ℕ) → IsFrame bs → length bs ≤ k → end_of k bs ≡ some (length bs)
unfolding end_of
end_of-IsFrame zero [] f h = absurd f
end_of-IsFrame zero (b ∷ bs) f h = absurd (omega arith)
end_of-IsFrame (suc k) [] f h = absurd f
end_of-IsFrame (suc k) (b ∷ []) f h = ground (arith, top_bit b)
end_of-IsFrame (suc k) (b ∷ c ∷ bs) f h = ground (arith, top_bit b, end_of-IsFrame k (c ∷ bs) f.2)

module _ (w : Wire) where
  -- The codec's answer for the number at the front of a buffer, with its length.
  abbrev pub number_at : List ℕ → ℕ → Outcome (ℕ × ℤ)
  number_at buf n = or_err (map_some (λ val. (n, val)) (w.var_int_decode (take n buf)))

  abbrev pub number_in : List ℕ → Option ℕ → Outcome (ℕ × ℤ)
  number_in buf none = err
  number_in buf (some n) = number_at buf n

  loop_lem :
      (buf : List ℕ) (k : ℕ) (rest : List ℕ) (len : ℕ)
      → read_var_int_loop w buf k rest (len + 1)
        ≡ number_in buf (map_some (λ n. len + n) (end_of k rest))
  unfolding read_var_int_loop end_of
  loop_lem buf zero rest len = refl
  loop_lem buf (suc k) [] len = refl
  loop_lem buf (suc k) (b ∷ rest) len = elim (Option-cases (end_of k rest)) [
    | inl stop ↦ ground (arith, stop, loop_lem buf k rest (len + 1))
    | inr (j, found) ↦ ground (arith, found, loop_lem buf k rest (len + 1))
  ]

  -- The loop finds the end of the number and decodes up to there.
  pub read_var_int_lem : (buf : List ℕ) → read_var_int w buf ≡ number_in buf (end_of 5 buf)
  unfolding read_var_int
  read_var_int_lem buf = elim (Option-cases (end_of 5 buf)) [
    | inl stop ↦ ground (arith, stop, loop_lem buf 5 buf 0)
    | inr (j, found) ↦ ground (arith, found, loop_lem buf 5 buf 0)
  ]

  pub read_var_int_nil : read_var_int w [] ≡ err
  unfolding read_var_int read_var_int_loop
  read_var_int_nil = refl

  -- A number in a buffer is found whatever follows it.
  pub read_var_int_bounds :
      (buf : List ℕ) (n : ℕ) (i : ℤ)
      → read_var_int w buf ≡ ok (n, i)
      → (end_of 5 buf ≡ some n) × (1 ≤ n) × (n ≤ length buf)
  read_var_int_bounds buf n i e = elim (Option-cases (end_of 5 buf)) [
    | inl stop ↦ ground (arith, stop, read_var_int_lem buf)
    | inr (j, found) ↦ ground (arith, found, read_var_int_lem buf, end_of_bounds 5 j buf)
  ]

  -- A buffer that ends inside its number is refused.
  pub read_var_int_cut :
      (buf : List ℕ) (n m : ℕ) → end_of 5 buf ≡ some n → m < n → read_var_int w (take m buf) ≡ err
  read_var_int_cut buf n m found h =
      ground (arith, read_var_int_lem (take m buf), end_of-take_lt 5 n m buf found)

  pub read_var_int-ne-panic : (buf : List ℕ) → read_var_int w buf ≢ panic
  read_var_int-ne-panic buf = ground (arith, read_var_int_lem buf)

  -- Only the bytes of the number matter: not what follows, nor where the buffer is cut behind it.
  pub read_var_int-append :
      (buf more : List ℕ) (n : ℕ) (i : ℤ)
      → read_var_int w buf ≡ ok (n, i)
      → read_var_int w (buf ++ more) ≡ ok (n, i)
  read_var_int-append buf more n i e =
      let (found, _, long) = read_var_int_bounds buf n i e in
      ground (
        arith,
        read_var_int_lem buf,
        read_var_int_lem (buf ++ more),
        end_of-append 5 n buf more found,
        take-append_le n buf more long,
      )

  pub read_var_int-take :
      (buf : List ℕ) (n m : ℕ) (i : ℤ)
      → read_var_int w buf ≡ ok (n, i)
      → n ≤ m
      → read_var_int w (take m buf) ≡ ok (n, i)
  read_var_int-take buf n m i e h =
      let (found, _, long) = read_var_int_bounds buf n i e in
      ground (
        arith,
        read_var_int_lem buf,
        read_var_int_lem (take m buf),
        end_of-take 5 n m buf found,
        take-take n m buf,
      )

  -- A number that is read was decoded, and fits its type.
  pub read_var_int_range :
      ((bs : List ℕ) (i : ℤ) → w.var_int_decode bs ≡ some i → IsI32 i)
      → (buf : List ℕ) (n : ℕ) (i : ℤ) → read_var_int w buf ≡ ok (n, i)
      → IsI32 i
  read_var_int_range range buf n i e =
      let (found, _, _) = read_var_int_bounds buf n i e in
      range (take n buf) i (ground (arith, read_var_int_lem buf, found))
