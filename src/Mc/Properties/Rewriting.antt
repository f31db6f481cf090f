-- ===== src/Mc/Properties/Rewriting.antt =====
-- What is read of the rewritten lines of `server.properties` (src/mc/server_properties.rs).
use plexsoftware.Prelude.{
  ◌≡◌, refl, sym, ap, ◌∙◌, ◌||◌, Bool-cases, inl, inr, ◌⊎◌, List, [], ◌∷◌, ◌++◌, Option, none, some,
  Text, All, eq_text, eq_text_iff, is_empty, arith,
}
use plexsoftware.Prelude.Strings.{trim, split_once, starts_with}
use plexsoftware.Mc.Properties.{
  Changes, remove_entry, change_line, rewrite_entry, rewrite_line, rewrite_lines, find_property,
}
use plexsoftware.Mc.Properties.Entries.{
  equals_sign, entry_lines, split_once-key, split_once_entry, IsKey, find_property_skip,
  find_property_other, find_property_hit, find_property_comment, find_property-entry_lines,
  remove_entry-other, remove_entry-All,
}

module _ (to_lowercase : Text → Text) where
  change_line_key :
      (line key value : Text) (new : Option Text)
      → split_once equals_sign line ≡ some (key, value)
      → (w : Text) × (split_once equals_sign (change_line to_lowercase line key value new).0
          ≡ some (key, w))
  unfolding change_line
  change_line_key line key value none split = (value, split)
  change_line_key line key value (some new) split = elim (Bool-cases (eq_text value new)) [
    | inl same ↦ (value, simp same split)
    | inr other ↦ (
      new,
      simp other (split_once_entry key new (split_once-key equals_sign line key value split)),
    )
  ]

  change_line_value :
      (line key value v : Text)
      → split_once equals_sign line ≡ some (key, value)
      → split_once equals_sign (change_line to_lowercase line key value (some v)).0 ≡ some (key, v)
  unfolding change_line
  change_line_value line key value v split = elim (Bool-cases (eq_text value v)) [
    | inl same ↦ simp same (split ∙ ap (λ (w : Text). some (key, w)) ((eq_text_iff value v).0 same))
    | inr other ↦
        simp other (split_once_entry key v (split_once-key equals_sign line key value split))
  ]

  -- Whether a line settles what is read of an entry, or leaves it to the lines behind it and to the
  -- changes that are left.
  Settles : Text → Text → Text → Changes → Type 0
  Settles k v first rest =
      ((later : List Text) → find_property to_lowercase k (first ∷ later) ≡ some (trim v))
      ⊎ (((later : List Text)
            → find_property to_lowercase k (first ∷ later) ≡ find_property to_lowercase k later)
          × ((remove_entry k rest).0 ≡ some v)
          × All (λ (c : Text × Text). IsKey to_lowercase c.0) rest)

  module _ (k v : Text) (clean : IsKey to_lowercase k) where
    rewrite_entry-Settles :
        (line : Text) (entry : Option (Text × Text)) (changes : Changes)
        → split_once equals_sign line ≡ entry
        → All (λ (c : Text × Text). IsKey to_lowercase c.0) changes
        → (remove_entry k changes).0 ≡ some v
        → Settles k v
            (rewrite_entry to_lowercase line entry changes).0
            (rewrite_entry to_lowercase line entry changes).1
    unfolding rewrite_entry Settles
    rewrite_entry-Settles line none changes split all e =
        inr (λ later. find_property_skip to_lowercase k line later split, e, all)
    rewrite_entry-Settles line (some (key, value)) changes split all e =
        let lowered = to_lowercase (trim key) in
        elim (Bool-cases (eq_text lowered k)) [
          | inl same ↦
              let key_is : lowered ≡ k = (eq_text_iff lowered k).0 same in
              let new_is : (remove_entry lowered changes).0 ≡ some v =
                ap (λ (j : Text). (remove_entry j changes).0) key_is ∙ e in
              inl (λ later.
                find_property_hit to_lowercase k _ key v later
                  (ap
                      (λ (new : Option Text).
                        split_once equals_sign (change_line to_lowercase line key value new).0)
                      new_is
                    ∙ change_line_value line key value v split)
                  (simp clean.lower same))
          | inr other ↦
              let (w, kept) =
                change_line_key line key value (remove_entry lowered changes).0 split in
              inr (
                λ later.
                    find_property_other to_lowercase k _ key w later kept (simp clean.lower other),
                remove_entry-other to_lowercase k lowered changes
                      (λ same. ground (arith, other, (eq_text_iff lowered k).1 (sym same)))
                    ∙ e,
                remove_entry-All to_lowercase lowered changes all,
              )
        ]

    module _ (lower_comment : (s : Text) → to_lowercase (b'#' ∷ s) ≡ b'#' ∷ to_lowercase s) where
      rewrite_line-Settles :
          (line : Text) (changes : Changes)
          → All (λ (c : Text × Text). IsKey to_lowercase c.0) changes
          → (remove_entry k changes).0 ≡ some v
          → Settles k v
              (rewrite_line to_lowercase line changes).0
              (rewrite_line to_lowercase line changes).1
      unfolding rewrite_line Settles
      rewrite_line-Settles line changes all e =
          elim (Bool-cases (starts_with b'#' (trim line) || is_empty (trim line))) [
            | inl skipped ↦ simp skipped (
                inr (
                  λ later.
                      find_property_comment to_lowercase lower_comment k line later clean skipped,
                  e,
                  all,
                ))
            | inr entry ↦
                simp entry
                  (rewrite_entry-Settles line (split_once equals_sign line) changes refl all e)
          ]

      -- An entry of the changes is what is read of the rewritten lines with the lines that are
      -- added, if its key, and the other keys, are written trimmed and in lower case, with no
      -- separator and no mark of a comment, and `to_lowercase` keeps that mark.
      pub find_property-rewrite_lines :
          (contents : List Text) (changes : Changes)
          → All (λ (c : Text × Text). IsKey to_lowercase c.0) changes
          → (remove_entry k changes).0 ≡ some v
          → find_property to_lowercase k (
              (rewrite_lines to_lowercase contents changes).0
              ++ entry_lines (rewrite_lines to_lowercase contents changes).1)
            ≡ some (trim v)
      unfolding rewrite_lines Settles
      find_property-rewrite_lines [] changes all e =
          find_property-entry_lines to_lowercase k v changes clean all e
      find_property-rewrite_lines (line ∷ contents) changes all e =
          elim (rewrite_line-Settles line changes all e) [
            | inl settled ↦ settled _
            | inr (passed, left, clean_left) ↦
                passed _
                ∙ find_property-rewrite_lines contents (rewrite_line to_lowercase line changes).1
                    clean_left left
          ]
