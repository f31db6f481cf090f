-- ===== src/Types/RoundTrip.antt =====
-- Reading back a number that was written (src/types.rs).
use plexsoftware.Prelude.{
  ℕ, ◌≤◌, ◌≡◌, List, ◌++◌, some, ok, length, arith, ap, ◌∙◌, take-append_length,
}
use mathlib.Core.Path.{subst}
use plexsoftware.Prelude.Int.{ℤ, IsI32}
use plexsoftware.Types.{Wire, IsWire, IsFrame, read_var_int, encode_var_int}
use plexsoftware.Types.Frame.{end_of-IsFrame, end_of-append, read_var_int_lem, number_in}

-- What is known of the bytes that a number was written to.
abbrev pub IsNumber : Wire → ℤ → List ℕ → Type 0
IsNumber w i bs = IsFrame bs × (length bs ≤ 5) × (w.var_int_decode bs ≡ some i)

module _ (w : Wire) (laws : IsWire w) where
  pub encode_var_int-IsNumber :
      (i : ℤ) (bs : List ℕ) → IsI32 i → encode_var_int w i ≡ ok bs → IsNumber w i bs
  unfolding encode_var_int
  encode_var_int-IsNumber i bs h e =
      let (cs, written, frame, short, decoded) = laws.var_int_lem i h in
      subst (IsNumber w i) (ground (arith, written)) (frame, short, decoded)

  pub read_var_int-encode :
      (i : ℤ) (bs rest : List ℕ)
      → IsI32 i
      → encode_var_int w i ≡ ok bs
      → read_var_int w (bs ++ rest) ≡ ok (length bs, i)
  read_var_int-encode i bs rest h e =
      let (frame, short, decoded) = encode_var_int-IsNumber i bs h e in
      let found = end_of-append 5 (length bs) bs rest (end_of-IsFrame 5 bs frame short) in
      read_var_int_lem w (bs ++ rest)
      ∙ ap (number_in w (bs ++ rest)) found
      ∙ rw (take-append_length, decoded)
