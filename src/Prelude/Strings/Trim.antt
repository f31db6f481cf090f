-- ===== src/Prelude/Strings/Trim.antt =====
-- What trimming leaves of a line that is cut at a separator.
use plexsoftware.Prelude.{
  ℕ, ◌≡◌, refl, sym, ap, ◌∙◌, false, ◌==◌, Bool-cases, Option-cases, inl, inr, [], ◌∷◌, ◌++◌,
  Option, none, some, Text, arith, ◌⊎◌, append_assoc,
}
use mathlib.Core.List.{reverse, reverse_aux}
use plexsoftware.Prelude.Strings.{is_whitespace, trim_start, trim, split_once}

abbrev pub head : Text → Option ℕ
head [] = none
head (c ∷ s) = some c

trim_start_end :
    (s : Text) (c : ℕ)
    → is_whitespace c ≡ false
    → (t : Text) × (trim_start (s ++ c ∷ []) ≡ t ++ c ∷ [])
unfolding trim_start
trim_start_end [] c solid = ([], ground (arith, solid))
trim_start_end (d ∷ s) c solid = elim (Bool-cases (is_whitespace d)) [
  | inl white ↦ let (t, e) = trim_start_end s c solid in (t, ground (arith, white, e))
  | inr black ↦ (d ∷ s, ground (arith, black))
]

reverse_aux_end : (s : Text) (c : ℕ) (r : Text) → reverse_aux (s ++ c ∷ []) r ≡ c ∷ reverse_aux s r
reverse_aux_end [] c r = refl
reverse_aux_end (d ∷ s) c r = reverse_aux_end s c (d ∷ r)

reverse_aux-append : (s r : Text) → reverse_aux s r ≡ reverse_aux s [] ++ r
reverse_aux-append [] r = refl
reverse_aux-append (c ∷ s) r =
    reverse_aux-append s (c ∷ r)
    ∙ sym (append_assoc (reverse_aux s []) (c ∷ []) r)
    ∙ ap (λ (t : Text). t ++ r) (sym (reverse_aux-append s (c ∷ [])))

head-reverse :
    (c : ℕ) (s : Text)
    → is_whitespace c ≡ false
    → head (reverse (trim_start (reverse (c ∷ s)))) ≡ some c
head-reverse c s solid =
    let (t, e) = trim_start_end (reverse_aux s []) c solid in
    ap (λ (u : Text). head (reverse (trim_start u))) (reverse_aux-append s (c ∷ []))
    ∙ ap (λ (u : Text). head (reverse u)) e
    ∙ ap head (reverse_aux_end t c [])

-- Trimming leaves the first character that is no white space in front.
pub head-trim : (s : Text) → head (trim s) ≡ head (trim_start s)
unfolding trim trim_start
head-trim [] = refl
head-trim (c ∷ s) = elim (Bool-cases (is_whitespace c)) [
  | inl white ↦ simp white (head-trim s)
  | inr black ↦ simp black (head-reverse c s black)
]

-- A line that is blank has no separator, and one that starts with another character keeps it in
-- front of its separator.
pub head-split_once :
    (c : ℕ) (line key value : Text)
    → is_whitespace c ≡ false
    → split_once c line ≡ some (key, value)
    → (head (trim_start line) ≡ some c)
      ⊎ ((d : ℕ) × (head (trim_start line) ≡ some d) × (head (trim_start key) ≡ some d))
unfolding split_once trim_start
head-split_once c [] key value solid e = ground (arith, e)
head-split_once c (d ∷ s) key value solid e = elim (Bool-cases (d == c)) [
  | inl is ↦
      let same : d ≡ c = ground (arith, is) in
      let black : is_whitespace d ≡ false = ap is_whitespace same ∙ solid in
      inl (simp black (ap (λ (x : ℕ). head (x ∷ s)) same))
  | inr isnt ↦ elim (Option-cases (split_once c s)) [
    | inl missing ↦ ground (arith, missing, simp isnt at e)
    | inr ((front, back), found) ↦
        let key_is : d ∷ front ≡ key = ground (arith, simp (isnt, found) at e) in
        rw (← key_is) (elim (Bool-cases (is_whitespace d)) [
          | inl white ↦ simp white (head-split_once c s front back solid found)
          | inr black ↦ simp black (inr (d, refl, refl))
        ])
  ]
]
