-- ===== src/Mc/Properties.antt =====
-- src/mc/server_properties.rs: reading and rewriting `server.properties`.
-- `to_lowercase` needs the Unicode tables, so it is a parameter.
-- The map of changes is a list of keys and values with no key twice; the source leaves the order in
-- which new lines are added open, here it is that of the list.
pub mod Entries
pub mod Files
pub mod Start
pub mod Printing
pub mod Rewriting
pub mod RoundTrip
use plexsoftware.Prelude.{
  Bool, true, false, ◌||◌, not, List, [], ◌∷◌, ◌++◌, Option, none, some, Text, eq_text, is_empty,
  if◌then◌else◌,
}
use plexsoftware.Prelude.Strings.{
  codes, trim, starts_with, split_once, lines, join, newline, carriage_return,
}

-- A file: whether it is one, and what reading it gives.
pub record File : Type 0 where
  pub is_file : Bool
  pub contents : Option Text

abbrev pub Changes : Type 0
Changes = List (Text × Text)

unfoldable pub remove_entry : Text → Changes → Option Text × Changes
remove_entry key [] = (none, [])
remove_entry key ((k, value) ∷ changes) =
    let (found, rest) = remove_entry key changes in
    if eq_text k key then (some value, changes) else (found, (k, value) ∷ rest)

module _ (to_lowercase : Text → Text) where
  -- A line whose entry is to have a new value, or none.
  unfoldable pub change_line : Text → Text → Text → Option Text → Text × Bool
  change_line line key value none = (line, false)
  change_line line key value (some new) =
      if eq_text value new then (line, false) else (key ++ codes "=" ++ new, true)

  unfoldable pub rewrite_entry : Text → Option (Text × Text) → Changes → Text × Changes × Bool
  unfolding change_line remove_entry
  rewrite_entry line none changes = (line, changes, false)
  rewrite_entry line (some (key, value)) changes =
      let (new, rest) = remove_entry (to_lowercase (trim key)) changes in
      let (rewritten, changed) = change_line line key value new in (rewritten, rest, changed)

  -- The closure over the lines; a comment or an empty line stays.
  unfoldable pub rewrite_line : Text → Changes → Text × Changes × Bool
  unfolding rewrite_entry
  rewrite_line line changes =
      if starts_with b'#' (trim line) || is_empty (trim line)
      then (line, changes, false)
      else rewrite_entry line (split_once b'=' line) changes

  unfoldable pub rewrite_lines : List Text → Changes → List Text × Changes × Bool
  unfolding rewrite_line
  rewrite_lines [] changes = ([], changes, false)
  rewrite_lines (line ∷ later) changes =
      let (first, rest, here) = rewrite_line line changes in
      let (others, left, there) = rewrite_lines later rest in (first ∷ others, left, here || there)

  abbrev pub eol : Text
  eol = carriage_return ∷ newline ∷ []

  unfoldable pub add_entries : Text → Changes → Text
  add_entries contents [] = contents
  add_entries contents ((key, value) ∷ changes) =
      add_entries (contents ++ eol ++ key ++ codes "=" ++ value) changes

  unfoldable pub rewrite_contents : Text → Changes → Option Text
  unfolding rewrite_lines add_entries
  rewrite_contents contents [] = none
  rewrite_contents contents (c ∷ changes) =
      let (rewritten, left, changed) = rewrite_lines (lines contents) (c ∷ changes) in
      if changed || not (is_empty left) then some (add_entries (join eol rewritten) left) else none

  unfoldable pub find_property : Text → List Text → Option Text
  unfolding split_once
  find_property property [] = none
  find_property property (line ∷ later) =
      let rest = find_property property later in entry_or rest (split_once b'=' line)
    where
      entry_or : Option Text → Option (Text × Text) → Option Text
      entry_or rest none = rest
      entry_or rest (some (key, value)) =
          if eq_text (to_lowercase (trim key)) (to_lowercase property)
          then some (trim value)
          else rest

  unfoldable pub read_property : File → Text → Option Text
  unfolding find_property
  read_property file property = if file.is_file then read file.contents else none
    where
      read : Option Text → Option Text
      read none = none
      read (some contents) = find_property property (lines contents)
