-- ===== src/Prelude/Strings/Lines.antt =====
-- Cutting a text into lines, and joining lines.
use plexsoftware.Prelude.{
  Option-cases, none, ◌≡◌, ◌≢◌, refl, sym, ap, ◌∙◌, ◌==◌, Bool-cases, inl, inr, List, [], ◌∷◌, ◌++◌,
  Text, All, is_empty, arith, append_assoc, append-nil, if◌then◌else◌,
}
use plexsoftware.Prelude.Strings.{
  split_once, newline, carriage_return, strip_return, lines_from, lines, join,
}

-- A text in which no line ends.
abbrev pub IsLine : Text → Type 0
IsLine s = All (λ c. c ≢ newline) s

abbrev pub line_end : Text
line_end = carriage_return ∷ newline ∷ []

pub append-IsLine : (s t : Text) → IsLine s → IsLine t → IsLine (s ++ t)
append-IsLine [] t one two = two
append-IsLine (c ∷ s) t (other, one) two = (other, append-IsLine s t one two)

strip_return_end : (s : Text) → strip_return (s ++ carriage_return ∷ []) ≡ s
unfolding strip_return
strip_return_end [] = refl
strip_return_end (c ∷ []) = refl
strip_return_end (c ∷ d ∷ s) = ap (◌∷◌ c) (strip_return_end (d ∷ s))

lines_from-newline :
    (start line rest : Text)
    → IsLine line
    → lines_from start (line ++ newline ∷ rest) ≡ strip_return (start ++ line) ∷ lines_from [] rest
unfolding lines_from
lines_from-newline start [] rest is_line =
    ap (λ (s : Text). strip_return s ∷ lines_from [] rest) (sym (append-nil start))
lines_from-newline start (c ∷ line) rest (other, is_line) = elim (Bool-cases (c == newline)) [
  | inl ends ↦ absurd (other (ground (arith, ends)))
  | inr goes_on ↦ simp goes_on (
      lines_from-newline (start ++ c ∷ []) line rest is_line
      ∙ ap (λ (s : Text). strip_return s ∷ lines_from [] rest) (append_assoc start (c ∷ []) line))
]

lines_from_line :
    (start line : Text)
    → IsLine line
    → lines_from start line ≡ (if is_empty (start ++ line) then [] else (start ++ line) ∷ [])
unfolding lines_from
lines_from_line start [] is_line =
    ap (λ (s : Text). if is_empty s then [] else s ∷ []) (sym (append-nil start))
lines_from_line start (c ∷ line) (other, is_line) = elim (Bool-cases (c == newline)) [
  | inl ends ↦ absurd (other (ground (arith, ends)))
  | inr goes_on ↦ simp goes_on (
      lines_from_line (start ++ c ∷ []) line is_line
      ∙ ap (λ (s : Text). if is_empty s then [] else s ∷ []) (append_assoc start (c ∷ []) line))
]

-- A line that ends as the code writes line ends is cut off.
pub lines-line_end :
    (line rest : Text) → IsLine line → lines (line ++ line_end ++ rest) ≡ line ∷ lines rest
unfolding lines
lines-line_end line rest is_line =
    ap (lines_from []) (
      append_assoc line line_end rest
      ∙ sym (append_assoc line (carriage_return ∷ []) (newline ∷ rest)))
    ∙ lines_from-newline [] (line ++ carriage_return ∷ []) rest
        (append-IsLine line (carriage_return ∷ []) is_line ((λ e. ground (arith, e)), tt))
    ∙ ap (λ (l : Text). l ∷ lines_from [] rest) (strip_return_end line)

pub lines-IsLine :
    (line : Text) → IsLine line → lines line ≡ (if is_empty line then [] else line ∷ [])
unfolding lines
lines-IsLine line is_line = lines_from_line [] line is_line

strip_return-IsLine : (s : Text) → IsLine s → IsLine (strip_return s)
unfolding strip_return
strip_return-IsLine [] is_line = tt
strip_return-IsLine (c ∷ []) is_line = elim (Bool-cases (c == carriage_return)) [
  | inl is ↦ simp is tt
  | inr isnt ↦ simp isnt is_line
]
strip_return-IsLine (c ∷ d ∷ s) (other, is_line) = (other, strip_return-IsLine (d ∷ s) is_line)

lines_from-IsLine : (start s : Text) → IsLine start → All IsLine (lines_from start s)
unfolding lines_from
lines_from-IsLine start [] is_line = elim (Bool-cases (is_empty start)) [
  | inl blank ↦ simp blank tt
  | inr filled ↦ simp filled (is_line, tt)
]
lines_from-IsLine start (c ∷ s) is_line = elim (Bool-cases (c == newline)) [
  | inl ends ↦ simp ends (strip_return-IsLine start is_line, lines_from-IsLine [] s tt)
  | inr goes_on ↦ simp goes_on (
      lines_from-IsLine (start ++ c ∷ []) s
        (append-IsLine start (c ∷ []) is_line (λ is. ground (arith, is, goes_on), tt)))
]

-- No line of a text holds the end of a line.
pub lines-All : (s : Text) → All IsLine (lines s)
unfolding lines
lines-All s = lines_from-IsLine [] s tt

-- One line more behind others.
pub join-append :
    (first : Text) (ls : List Text) (line : Text)
    → join line_end (first ∷ ls ++ line ∷ []) ≡ join line_end (first ∷ ls) ++ line_end ++ line
unfolding join
join-append first [] line = refl
join-append first (l ∷ ls) line =
    let start = first ++ line_end in
    let others = join line_end (l ∷ ls) in
    ap (λ (t : Text). start ++ t) (join-append l ls line)
    ∙ sym (append_assoc start (others ++ line_end) line)
    ∙ ap (λ (t : Text). t ++ line) (sym (append_assoc start others line_end))

-- A text that cannot be cut at the end of a line is on one line.
pub IsLine-split_once : (s : Text) → split_once newline s ≡ none → IsLine s
unfolding split_once
IsLine-split_once [] e = tt
IsLine-split_once (c ∷ s) e = elim (Bool-cases (c == newline)) [
  | inl ends ↦ ground (arith, simp ends at e)
  | inr goes_on ↦ elim (Option-cases (split_once newline s)) [
    | inl missing ↦ ((λ same. ground (arith, same, goes_on)), IsLine-split_once s missing)
    | inr (found, there) ↦ ground (arith, simp (goes_on, there) at e)
  ]
]
