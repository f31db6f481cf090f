-- ===== src/Mc/Properties/Printing.antt =====
-- The lines of a rewritten `server.properties` as a text (src/mc/server_properties.rs).
use plexsoftware.Prelude.{
  ℕ, ◌≡◌, refl, sym, ap, ◌∙◌, ◌==◌, ◌||◌, Bool-cases, Option-cases, inl, inr, List, [], ◌∷◌, ◌++◌,
  Option, none, some, Text, All, eq_text, is_empty, arith, append_assoc, append-nil,
}
use plexsoftware.Prelude.Strings.{codes, trim, split_once, starts_with, lines, join}
use plexsoftware.Prelude.Strings.Lines.{
  IsLine, line_end, append-IsLine, lines-line_end, lines-IsLine, join-append,
}
use plexsoftware.Mc.Properties.{
  Changes, remove_entry, change_line, rewrite_entry, rewrite_line, rewrite_lines, add_entries,
  find_property,
}
use plexsoftware.Mc.Properties.Entries.{
  equals_sign, entry_line, entry_lines, find_property_skip, find_property_other, find_property_hit,
}

-- A key and a value that stand on one line.
abbrev pub OnOneLine : Text × Text → Type 0
OnOneLine (key, value) = IsLine key × IsLine value

remove_entry-IsLine :
    (key new : Text) (changes : Changes)
    → All OnOneLine changes
    → (remove_entry key changes).0 ≡ some new
    → IsLine new
unfolding remove_entry
remove_entry-IsLine key new [] all e = ground (arith, e)
remove_entry-IsLine key new ((j, value) ∷ changes) (one, all) e =
    elim (Bool-cases (eq_text j key)) [
      | inl is ↦ let same : value ≡ new = ground (arith, simp is at e) in rw (← same) one.1
      | inr isnt ↦ remove_entry-IsLine key new changes all (simp isnt at e)
    ]

remove_entry-OnOneLine :
    (key : Text) (changes : Changes)
    → All OnOneLine changes
    → All OnOneLine (remove_entry key changes).1
unfolding remove_entry
remove_entry-OnOneLine key [] all = tt
remove_entry-OnOneLine key ((j, value) ∷ changes) (one, all) = elim (Bool-cases (eq_text j key)) [
  | inl is ↦ simp is all
  | inr isnt ↦ simp isnt (one, remove_entry-OnOneLine key changes all)
]

split_once-IsLine :
    (c : ℕ) (line key value : Text)
    → IsLine line
    → split_once c line ≡ some (key, value)
    → IsLine key
unfolding split_once
split_once-IsLine c [] key value is_line e = ground (arith, e)
split_once-IsLine c (d ∷ line) key value (other, is_line) e = elim (Bool-cases (d == c)) [
  | inl is ↦ let empty : [] ≡ key = ground (arith, simp is at e) in rw (← empty) tt
  | inr isnt ↦ elim (Option-cases (split_once c line)) [
    | inl missing ↦ ground (arith, simp (isnt, missing) at e)
    | inr ((front, back), found) ↦
        let front_is : d ∷ front ≡ key = ground (arith, simp (isnt, found) at e) in
        rw (← front_is) (other, split_once-IsLine c line front back is_line found)
  ]
]

module _ (to_lowercase : Text → Text) where
  change_line-IsLine :
      (line key value : Text) (new : Option Text)
      → IsLine line
      → IsLine key
      → ((v : Text) → new ≡ some v → IsLine v)
      → IsLine (change_line to_lowercase line key value new).0
  unfolding change_line
  change_line-IsLine line key value none is_line key_line new_line = is_line
  change_line-IsLine line key value (some new) is_line key_line new_line =
      elim (Bool-cases (eq_text value new)) [
        | inl same ↦ simp same is_line
        | inr other ↦ simp other (
            append-IsLine (key ++ codes "=") new
              (append-IsLine key (codes "=") key_line (λ e. ground (arith, e), tt))
              (new_line new refl))
      ]

  rewrite_entry-IsLine :
      (line : Text) (entry : Option (Text × Text)) (changes : Changes)
      → split_once equals_sign line ≡ entry
      → IsLine line
      → All OnOneLine changes
      → IsLine (rewrite_entry to_lowercase line entry changes).0
        × All OnOneLine (rewrite_entry to_lowercase line entry changes).1
  unfolding rewrite_entry
  rewrite_entry-IsLine line none changes split is_line all = (is_line, all)
  rewrite_entry-IsLine line (some (key, value)) changes split is_line all = (
    change_line-IsLine line key value (remove_entry (to_lowercase (trim key)) changes).0 is_line
        (split_once-IsLine equals_sign line key value is_line split)
        (λ v found. remove_entry-IsLine (to_lowercase (trim key)) v changes all found),
    remove_entry-OnOneLine (to_lowercase (trim key)) changes all,
  )

  pub rewrite_lines-IsLine :
      (contents : List Text) (changes : Changes)
      → All IsLine contents
      → All OnOneLine changes
      → All IsLine (rewrite_lines to_lowercase contents changes).0
        × All OnOneLine (rewrite_lines to_lowercase contents changes).1
  unfolding rewrite_lines rewrite_line
  rewrite_lines-IsLine [] changes all_lines all = (tt, all)
  rewrite_lines-IsLine (line ∷ contents) changes (is_line, all_lines) all =
      elim (Bool-cases (starts_with b'#' (trim line) || is_empty (trim line))) [
        | inl skipped ↦
            let (rest, left) = rewrite_lines-IsLine contents changes all_lines all in
            simp skipped ((is_line, rest), left)
        | inr entry ↦
            let (first, kept) =
              rewrite_entry-IsLine line (split_once equals_sign line) changes refl is_line all in
            let (rest, left) = rewrite_lines-IsLine contents _ all_lines kept in
            simp entry ((first, rest), left)
      ]

  -- Adding entries to a text of lines is adding lines.
  pub add_entries-join :
      (first : Text) (ls : List Text) (changes : Changes)
      → add_entries to_lowercase (join line_end (first ∷ ls)) changes
        ≡ join line_end (first ∷ ls ++ entry_lines changes)
  unfolding add_entries
  add_entries-join first ls [] =
      ap (λ (ms : List Text). join line_end (first ∷ ms)) (sym (append-nil ls))
  add_entries-join first ls ((key, value) ∷ changes) =
      let start = join line_end (first ∷ ls) ++ line_end in
      let line = entry_line (key, value) in
      ap (λ (t : Text). add_entries to_lowercase t changes)
        (ap (λ (t : Text). t ++ value) (append_assoc start key (codes "="))
          ∙ append_assoc start (key ++ codes "=") value
          ∙ sym (join-append first ls line))
      ∙ add_entries-join first (ls ++ line ∷ []) changes
      ∙ ap (λ (ms : List Text). join line_end (first ∷ ms))
          (append_assoc ls (line ∷ []) (entry_lines changes))

  find_property_behind :
      (k line : Text) (xs ys : List Text)
      → find_property to_lowercase k xs ≡ find_property to_lowercase k ys
      → find_property to_lowercase k (line ∷ xs) ≡ find_property to_lowercase k (line ∷ ys)
  find_property_behind k line xs ys same = elim (Option-cases (split_once equals_sign line)) [
    | inl missing ↦
        find_property_skip to_lowercase k line xs missing
        ∙ same
        ∙ sym (find_property_skip to_lowercase k line ys missing)
    | inr ((key, value), found) ↦
        elim (Bool-cases (eq_text (to_lowercase (trim key)) (to_lowercase k))) [
          | inl hits ↦
              find_property_hit to_lowercase k line key value xs found hits
              ∙ sym (find_property_hit to_lowercase k line key value ys found hits)
          | inr other ↦
              find_property_other to_lowercase k line key value xs found other
              ∙ same
              ∙ sym (find_property_other to_lowercase k line key value ys found other)
        ]
  ]

  -- Reading joined lines is reading the lines, though an empty last line is lost.
  pub find_property-join :
      (k : Text) (ls : List Text)
      → All IsLine ls
      → find_property to_lowercase k (lines (join line_end ls)) ≡ find_property to_lowercase k ls
  unfolding join
  find_property-join k [] all = ap (find_property to_lowercase k) (lines-IsLine [] tt)
  find_property-join k ([] ∷ []) all =
      ap (find_property to_lowercase k) (lines-IsLine [] tt)
      ∙ sym (find_property_skip to_lowercase k [] [] (unfold split_once in refl))
  find_property-join k ((c ∷ l) ∷ []) all =
      ap (find_property to_lowercase k) (lines-IsLine (c ∷ l) all.0)
  find_property-join k (l ∷ m ∷ ls) (one, all) =
      ap (find_property to_lowercase k) (lines-line_end l (join line_end (m ∷ ls)) one)
      ∙ find_property_behind k l (lines (join line_end (m ∷ ls))) (m ∷ ls)
          (find_property-join k (m ∷ ls) all)
