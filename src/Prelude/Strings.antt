-- ===== src/Prelude/Strings.antt =====
-- The methods of Rust's `str` that the code calls, on lists of code points. `to_lowercase` needs
-- the Unicode tables, so it is a parameter wherever it is used.
pub mod Lines
pub mod Trim
use Prim.Native.Char.{code}
use Prim.Native.String.{String}
use plexsoftware.Prelude.{
  ℕ, ◌+◌, ◌-◌, ◌*◌, ◌<◌, ◌≡◌, List, [], ◌∷◌, ◌++◌, Bool, false, ◌&&◌, ◌||◌, Option, none, some,
  Text, leb, ltb, ◌==◌, if◌then◌else◌, is_empty, arith, map_some,
}
use mathlib.Core.List.{reverse}

-- The code points of a literal.
abbrev pub codes : String → Text
codes String.[] = []
codes (String.◌∷◌ c s) = code c ∷ codes s

abbrev pub newline : ℕ
newline = 10

abbrev pub carriage_return : ℕ
carriage_return = 13

-- `char::is_whitespace`: the property White_Space.
unfoldable pub is_whitespace : ℕ → Bool
is_whitespace c =
    (leb 9 c && leb c 13)
    || c == 32
    || c == 0x85
    || c == 0xa0
    || c == 0x1680
    || (leb 0x2000 c && leb c 0x200a)
    || c == 0x2028
    || c == 0x2029
    || c == 0x202f
    || c == 0x205f
    || c == 0x3000

unfoldable pub trim_start : Text → Text
unfolding is_whitespace
trim_start [] = []
trim_start (c ∷ s) = if is_whitespace c then trim_start s else c ∷ s

unfoldable pub trim : Text → Text
unfolding trim_start
trim s = reverse (trim_start (reverse (trim_start s)))

abbrev pub starts_with : ℕ → Text → Bool
starts_with c [] = false
starts_with c (d ∷ s) = d == c

-- `split_once(c)`.
unfoldable pub split_once : ℕ → Text → Option (Text × Text)
split_once c [] = none
split_once c (d ∷ s) =
    let rest = split_once c s in
    if d == c then some ([], s) else map_some (λ p. (d ∷ p.0, p.1)) rest

-- `lines()`: cut behind each "\n", which goes with one "\r" before it; nothing stands behind a last
-- "\n".
unfoldable pub strip_return : Text → Text
strip_return [] = []
strip_return (c ∷ []) = if c == carriage_return then [] else c ∷ []
strip_return (c ∷ d ∷ s) = c ∷ strip_return (d ∷ s)

unfoldable pub lines_from : Text → Text → List Text
unfolding strip_return
lines_from line [] = if is_empty line then [] else line ∷ []
lines_from line (c ∷ s) =
    let rest = lines_from [] s in
    let more = lines_from (line ++ c ∷ []) s in
    if c == newline then strip_return line ∷ rest else more

unfoldable pub lines : Text → List Text
unfolding lines_from
lines s = lines_from [] s

-- `join(sep)`.
unfoldable pub join : Text → List Text → Text
join sep [] = []
join sep (s ∷ []) = s
join sep (s ∷ t ∷ ss) = s ++ sep ++ join sep (t ∷ ss)

is_digit : ℕ → Bool
is_digit c = leb b'0' c && leb c b'9'

parse_digits : ℕ → ℕ → Text → Option ℕ
unfolding is_digit
parse_digits limit acc [] = some acc
parse_digits limit acc (c ∷ s) =
    let next = acc * 10 + (c - b'0') in
    let rest = parse_digits limit next s in if is_digit c && ltb next limit then rest else none

strip_plus : Text → Text
strip_plus [] = []
strip_plus (c ∷ s) = if c == b'+' then s else c ∷ s

-- `parse` of an unsigned type with values below the limit: decimal digits, a plus sign allowed.
unfoldable pub parse_uint : ℕ → Text → Option ℕ
unfolding parse_digits strip_plus
parse_uint limit s =
    let body = strip_plus s in if is_empty body then none else parse_digits limit 0 body

parse_digits-lt :
    (limit acc : ℕ) (s : Text) (n : ℕ) → acc < limit → parse_digits limit acc s ≡ some n → n < limit
unfolding parse_digits
parse_digits-lt limit acc [] n h e = ground arith
parse_digits-lt limit acc (c ∷ s) n h e =
    ground (arith, parse_digits-lt limit (acc * 10 + (c - b'0')) s n)

-- What is parsed fits the type.
pub parse_uint-lt :
    (limit : ℕ) (s : Text) (n : ℕ) → 0 < limit → parse_uint limit s ≡ some n → n < limit
unfolding parse_uint
parse_uint-lt limit s n h e = ground (arith, parse_digits-lt limit 0 (strip_plus s) n)
