-- ===== src/Mc/Properties/RoundTrip.antt =====
-- Rewriting `server.properties` and reading it again (src/mc/server_properties.rs).
use plexsoftware.Prelude.{
  append-All, ◌≡◌, refl, sym, ap, ◌∙◌, Bool, true, false, not, ◌||◌, Bool-cases, Option-cases, inl,
  inr, List, [], ◌∷◌, ◌++◌, Option, none, some, Text, All, eq_text, is_empty, arith, unwrap_or,
  append-nil, if◌then◌else◌,
}
use plexsoftware.Prelude.Strings.{codes, trim, split_once, starts_with, lines, join}
use plexsoftware.Prelude.Strings.Lines.{IsLine, line_end, append-IsLine, lines-All}
use plexsoftware.Mc.Properties.{
  Changes, remove_entry, change_line, rewrite_entry, rewrite_line, rewrite_lines, rewrite_contents,
  add_entries, find_property, read_property,
}
use plexsoftware.Mc.Properties.Entries.{equals_sign, entry_lines, IsKey, find_property_skip}
use plexsoftware.Mc.Properties.Printing.{
  OnOneLine, rewrite_lines-IsLine, add_entries-join, find_property-join,
}
use plexsoftware.Mc.Properties.Rewriting.{find_property-rewrite_lines}
use plexsoftware.Mc.Properties.Files.{rewrite_file}

entry_lines-IsLine : (changes : Changes) → All OnOneLine changes → All IsLine (entry_lines changes)
entry_lines-IsLine [] all = tt
entry_lines-IsLine ((key, value) ∷ changes) (one, all) = (
  append-IsLine (key ++ codes "=") value
      (append-IsLine key (codes "=") one.0 ((λ e. ground (arith, e)), tt)) one.1,
  entry_lines-IsLine changes all,
)

nothing_left : (changes : Changes) → is_empty changes ≡ true → changes ≡ []
nothing_left [] e = refl
nothing_left (c ∷ changes) e = ground (arith, e)

some_change :
    (k v : Text) (changes : Changes)
    → (remove_entry k changes).0 ≡ some v
    → is_empty changes ≡ false
unfolding remove_entry
some_change k v [] e = ground (arith, e)
some_change k v (c ∷ changes) e = refl

module _ (to_lowercase : Text → Text) where
  -- What is left as it was.
  change_line_same :
      (line key value : Text) (new : Option Text)
      → (change_line to_lowercase line key value new).1 ≡ false
      → (change_line to_lowercase line key value new).0 ≡ line
  unfolding change_line
  change_line_same line key value none e = refl
  change_line_same line key value (some new) e = elim (Bool-cases (eq_text value new)) [
    | inl same ↦ simp same refl
    | inr other ↦ ground (arith, simp other at e)
  ]

  rewrite_entry_same :
      (line : Text) (entry : Option (Text × Text)) (changes : Changes)
      → (rewrite_entry to_lowercase line entry changes).2 ≡ false
      → (rewrite_entry to_lowercase line entry changes).0 ≡ line
  unfolding rewrite_entry
  rewrite_entry_same line none changes e = refl
  rewrite_entry_same line (some (key, value)) changes e =
      change_line_same line key value (remove_entry (to_lowercase (trim key)) changes).0 e

  rewrite_line_same :
      (line : Text) (changes : Changes)
      → (rewrite_line to_lowercase line changes).2 ≡ false
      → (rewrite_line to_lowercase line changes).0 ≡ line
  unfolding rewrite_line
  rewrite_line_same line changes e =
      elim (Bool-cases (starts_with b'#' (trim line) || is_empty (trim line))) [
        | inl skipped ↦ simp skipped refl
        | inr entry ↦
            simp entry
              (rewrite_entry_same line (split_once equals_sign line) changes (simp entry at e))
      ]

  either_false : (a b : Bool) → (a || b) ≡ false → (a ≡ false) × (b ≡ false)
  either_false true b e = ground (arith, e)
  either_false false b e = (refl, e)

  rewrite_lines_same :
      (contents : List Text) (changes : Changes)
      → (rewrite_lines to_lowercase contents changes).2 ≡ false
      → (rewrite_lines to_lowercase contents changes).0 ≡ contents
  unfolding rewrite_lines
  rewrite_lines_same [] changes e = refl
  rewrite_lines_same (line ∷ contents) changes e =
      let (here, there) = either_false (rewrite_line to_lowercase line changes).2 _ e in
      ap
        (λ (l : Text).
          l ∷ (rewrite_lines to_lowercase contents (rewrite_line to_lowercase line changes).1).0)
        (rewrite_line_same line changes here)
      ∙ ap (λ (ls : List Text). line ∷ ls)
          (rewrite_lines_same contents (rewrite_line to_lowercase line changes).1 there)

  -- The text that is made of rewritten lines and added entries reads as the lines do.
  find_property-add_entries :
      (k : Text) (out : List Text) (left : Changes)
      → All IsLine out
      → All IsLine (entry_lines left)
      → find_property to_lowercase k (lines (add_entries to_lowercase (join line_end out) left))
        ≡ find_property to_lowercase k (out ++ entry_lines left)
  unfolding join
  find_property-add_entries k [] left clean clean_left =
      ap (λ (t : Text). find_property to_lowercase k (lines t))
        (add_entries-join to_lowercase [] [] left)
      ∙ find_property-join to_lowercase k ([] ∷ entry_lines left) (tt, clean_left)
      ∙ find_property_skip to_lowercase k [] (entry_lines left) (unfold split_once in refl)
  find_property-add_entries k (o ∷ out) left clean clean_left =
      ap (λ (t : Text). find_property to_lowercase k (lines t))
        (add_entries-join to_lowercase o out left)
      ∙ find_property-join to_lowercase k (o ∷ out ++ entry_lines left)
          (append-All IsLine (o ∷ out) (entry_lines left) clean clean_left)

  rewrite_contents_lem :
      (contents : Text) (changes : Changes)
      → is_empty changes ≡ false
      → rewrite_contents to_lowercase contents changes ≡ (
          if (rewrite_lines to_lowercase (lines contents) changes).2
            || not (is_empty (rewrite_lines to_lowercase (lines contents) changes).1)
          then some (
              add_entries to_lowercase
                (join line_end (rewrite_lines to_lowercase (lines contents) changes).0)
                (rewrite_lines to_lowercase (lines contents) changes).1)
          else none)
  unfolding rewrite_contents
  rewrite_contents_lem contents [] filled = ground (arith, filled)
  rewrite_contents_lem contents (c ∷ changes) filled = refl

  module _ (lower_comment : (s : Text) → to_lowercase (b'#' ∷ s) ≡ b'#' ∷ to_lowercase s)
      (k v : Text) (changes : Changes) (clean : IsKey to_lowercase k)
      (keys : All (λ (c : Text × Text). IsKey to_lowercase c.0) changes)
      (on_one_line : All OnOneLine changes) (listed : (remove_entry k changes).0 ≡ some v) where
    rewritten_reads :
        (contents : Text)
        → find_property to_lowercase k (
            lines (
              add_entries to_lowercase
                (join line_end (rewrite_lines to_lowercase (lines contents) changes).0)
                (rewrite_lines to_lowercase (lines contents) changes).1))
          ≡ some (trim v)
    rewritten_reads contents =
        let (out_lines, left) =
          rewrite_lines-IsLine to_lowercase (lines contents) changes (lines-All contents)
            on_one_line in
        find_property-add_entries k _ _ out_lines (entry_lines-IsLine _ left)
        ∙ find_property-rewrite_lines to_lowercase k v clean lower_comment (lines contents) changes
            keys listed

    -- Where nothing is to be changed the text reads so already.
    kept_reads :
        (contents : Text)
        → (rewrite_lines to_lowercase (lines contents) changes).2 ≡ false
        → is_empty (rewrite_lines to_lowercase (lines contents) changes).1 ≡ true
        → find_property to_lowercase k (lines contents) ≡ some (trim v)
    kept_reads contents same none_left =
        let reads =
          find_property-rewrite_lines to_lowercase k v clean lower_comment (lines contents) changes
            keys listed in
        let left_is =
          nothing_left (rewrite_lines to_lowercase (lines contents) changes).1 none_left in
        let out = (rewrite_lines to_lowercase (lines contents) changes).0 in
        sym (
          ap (find_property to_lowercase k) (
            ap (λ (left : Changes). out ++ entry_lines left) left_is
            ∙ append-nil out
            ∙ rewrite_lines_same (lines contents) changes same))
        ∙ reads

    contents_read :
        (contents : Text)
        → find_property to_lowercase k
            (lines (unwrap_or (rewrite_contents to_lowercase contents changes) contents))
          ≡ some (trim v)
    contents_read contents =
        let rewritten = rewrite_lines to_lowercase (lines contents) changes in
        let decided = rewrite_contents_lem contents changes (some_change k v changes listed) in
        elim (Bool-cases (rewritten.2 || not (is_empty rewritten.1))) [
          | inl changed ↦ simp (decided, changed) (rewritten_reads contents)
          | inr nothing ↦
              let (same, none_left) =
                either_false rewritten.2 (not (is_empty rewritten.1)) nothing in
              simp (decided, nothing) (kept_reads contents same (ground (arith, none_left)))
        ]

    -- A file that was rewritten reads, for every key of the changes, as the new value, trimmed,
    -- whatever the file held, if it could be read and written, no key or value holds the end of a
    -- line, the keys are trimmed, in lower case and hold no separator and no mark of a comment, and
    -- lowering keeps that mark.
    pub read_property-rewrite_file :
        (contents : Text)
        → read_property to_lowercase
            (rewrite_file to_lowercase true changes
              (record { is_file = true; contents = some contents }))
            k
          ≡ some (trim v)
    unfolding rewrite_file read_property
    read_property-rewrite_file contents =
        let reads = contents_read contents in
        elim (Option-cases (rewrite_contents to_lowercase contents changes)) [
          | inl same ↦ simp (some_change k v changes listed, same) (simp same at reads)
          | inr (text, made) ↦ simp (some_change k v changes listed, made) (simp made at reads)
        ]
