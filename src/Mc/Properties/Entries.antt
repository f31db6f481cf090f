-- ===== src/Mc/Properties/Entries.antt =====
-- Looking up an entry in the lines of `server.properties` (src/mc/server_properties.rs).
use plexsoftware.Prelude.{
  ℕ, ◌≡◌, ◌≢◌, refl, sym, ap, ◌∙◌, true, false, ◌==◌, Bool-cases, Option-cases, inl, inr, ◌⊎◌, List,
  [], ◌∷◌, ◌++◌, none, some, Text, All, append_assoc, eq_text, eq_text_iff, is_empty, arith, ◌||◌,
}
use plexsoftware.Prelude.Strings.{codes, is_whitespace, trim, split_once, starts_with}
use plexsoftware.Prelude.Strings.Trim.{head, head-trim, head-split_once}
use plexsoftware.Mc.Properties.{Changes, remove_entry, find_property}

abbrev pub equals_sign : ℕ
equals_sign = b'='

-- The line of an entry.
abbrev pub entry_line : Text × Text → Text
entry_line (key, value) = key ++ codes "=" ++ value

abbrev pub entry_lines : Changes → List Text
entry_lines [] = []
entry_lines (c ∷ cs) = entry_line c ∷ entry_lines cs

pub eq_text-ne : (s t : Text) → s ≢ t → eq_text s t ≡ false
eq_text-ne s t other = elim (Bool-cases (eq_text s t)) [
  | inl same ↦ absurd (other ((eq_text_iff s t).0 same))
  | inr e ↦ e
]

pub split_once-entry_line :
    (c : ℕ) (key value : Text)
    → split_once c key ≡ none
    → split_once c (key ++ c ∷ value) ≡ some (key, value)
unfolding split_once
split_once-entry_line c [] value plain = ground arith
split_once-entry_line c (d ∷ key) value plain = elim (Bool-cases (d == c)) [
  | inl is ↦ ground (arith, simp is at plain)
  | inr isnt ↦ elim (Option-cases (split_once c key)) [
    | inl missing ↦ ground (arith, isnt, split_once-entry_line c key value missing)
    | inr (found, at_key) ↦ ground (arith, simp (isnt, at_key) at plain)
  ]
]

pub split_once_entry :
    (key value : Text)
    → split_once equals_sign key ≡ none
    → split_once equals_sign (entry_line (key, value)) ≡ some (key, value)
split_once_entry key value plain =
    ap (split_once equals_sign) (append_assoc key (codes "=") value)
    ∙ split_once-entry_line equals_sign key value plain

-- What stands before the separator has none.
pub split_once-key :
    (c : ℕ) (line key value : Text)
    → split_once c line ≡ some (key, value)
    → split_once c key ≡ none
unfolding split_once
split_once-key c [] key value e = ground (arith, e)
split_once-key c (d ∷ line) key value e = elim (Bool-cases (d == c)) [
  | inl is ↦ let empty : [] ≡ key = ground (arith, simp is at e) in rw (← empty) refl
  | inr isnt ↦ elim (Option-cases (split_once c line)) [
    | inl missing ↦ ground (arith, simp (isnt, missing) at e)
    | inr ((front, back), found) ↦
        let front_is : d ∷ front ≡ key = ground (arith, simp (isnt, found) at e) in
        rw (← front_is) (simp (isnt, split_once-key c line front back found) refl)
  ]
]

starts_with-head :
    (t : Text) → (starts_with b'#' t || is_empty t) ≡ true → (head t ≡ some b'#') ⊎ (head t ≡ none)
starts_with-head [] e = inr refl
starts_with-head (c ∷ t) e = inl (ground (arith, e))

-- A comment that has a separator has the mark of a comment in front of it.
comment_head :
    (line key value : Text)
    → split_once equals_sign line ≡ some (key, value)
    → (starts_with b'#' (trim line) || is_empty (trim line)) ≡ true
    → head (trim key) ≡ some b'#'
unfolding is_whitespace
comment_head line key value found skipped =
    elim (head-split_once equals_sign line key value refl found) [
      | inl sign ↦ elim (starts_with-head (trim line) skipped) [
        | inl mark ↦ ground (arith, sym mark ∙ head-trim line ∙ sign)
        | inr blank ↦ ground (arith, sym blank ∙ head-trim line ∙ sign)
      ]
      | inr (d, first, kept) ↦ elim (starts_with-head (trim line) skipped) [
        | inl mark ↦ head-trim key ∙ kept ∙ sym first ∙ sym (head-trim line) ∙ mark
        | inr blank ↦ ground (arith, sym blank ∙ head-trim line ∙ first)
      ]
    ]

module _ (to_lowercase : Text → Text) where
  -- A key as the code writes them: with no separator, trimmed, in lower case, and not the start of
  -- a comment.
  pub record IsKey (key : Text) : Type 0 where
    pub plain : split_once equals_sign key ≡ none
    pub trimmed : trim key ≡ key
    pub lower : to_lowercase key ≡ key
    pub no_comment : head key ≢ some b'#'

  pub find_property_skip :
      (k line : Text) (later : List Text)
      → split_once equals_sign line ≡ none
      → find_property to_lowercase k (line ∷ later) ≡ find_property to_lowercase k later
  unfolding find_property
  find_property_skip k line later plain = simp plain refl

  pub find_property_other :
      (k line key value : Text) (later : List Text)
      → split_once equals_sign line ≡ some (key, value)
      → eq_text (to_lowercase (trim key)) (to_lowercase k) ≡ false
      → find_property to_lowercase k (line ∷ later) ≡ find_property to_lowercase k later
  unfolding find_property
  find_property_other k line key value later split differs = simp (split, differs) refl

  pub find_property_hit :
      (k line key value : Text) (later : List Text)
      → split_once equals_sign line ≡ some (key, value)
      → eq_text (to_lowercase (trim key)) (to_lowercase k) ≡ true
      → find_property to_lowercase k (line ∷ later) ≡ some (trim value)
  unfolding find_property
  find_property_hit k line key value later split same = simp (split, same) refl

  pub remove_entry-other :
      (k key : Text) (changes : Changes)
      → k ≢ key
      → (remove_entry k (remove_entry key changes).1).0 ≡ (remove_entry k changes).0
  unfolding remove_entry
  remove_entry-other k key [] other = refl
  remove_entry-other k key ((j, value) ∷ changes) other = elim (Bool-cases (eq_text j key)) [
    | inl is ↦ simp (is, eq_text-ne j k (λ same. other (sym same ∙ (eq_text_iff j key).0 is))) refl
    | inr isnt ↦ elim (Bool-cases (eq_text j k)) [
      | inl here ↦ simp (isnt, here) refl
      | inr elsewhere ↦ simp (isnt, elsewhere, remove_entry-other k key changes other) refl
    ]
  ]

  pub remove_entry-All :
      (key : Text) (changes : Changes)
      → All (λ (c : Text × Text). IsKey c.0) changes
      → All (λ (c : Text × Text). IsKey c.0) (remove_entry key changes).1
  unfolding remove_entry
  remove_entry-All key [] all = tt
  remove_entry-All key ((j, value) ∷ changes) (clean, all) = elim (Bool-cases (eq_text j key)) [
    | inl is ↦ simp is all
    | inr isnt ↦ simp isnt (clean, remove_entry-All key changes all)
  ]

  -- Of entries that are written one to a line, each is found.
  pub find_property-entry_lines :
      (k v : Text) (changes : Changes)
      → IsKey k
      → All (λ (c : Text × Text). IsKey c.0) changes
      → (remove_entry k changes).0 ≡ some v
      → find_property to_lowercase k (entry_lines changes) ≡ some (trim v)
  unfolding remove_entry
  find_property-entry_lines k v [] clean all e = ground (arith, e)
  find_property-entry_lines k v ((j, value) ∷ changes) clean (clean_j, all) e =
      let split = split_once_entry j value clean_j.plain in
      elim (Bool-cases (eq_text j k)) [
        | inl is ↦
            let same : j ≡ k = (eq_text_iff j k).0 is in
            let value_is : value ≡ v = ground (arith, simp is at e) in
            find_property_hit k (entry_line (j, value)) j value (entry_lines changes) split
              (simp (clean_j.trimmed, clean_j.lower, clean.lower) is)
            ∙ ap (λ (u : Text). some (trim u)) value_is
        | inr isnt ↦
            find_property_other k (entry_line (j, value)) j value (entry_lines changes) split
              (simp (clean_j.trimmed, clean_j.lower, clean.lower) isnt)
            ∙ find_property-entry_lines k v changes clean all (simp isnt at e)
      ]

  module _ (lower_comment : (s : Text) → to_lowercase (b'#' ∷ s) ≡ b'#' ∷ to_lowercase s) where
    ck_lem :
        (t k : Text)
        → IsKey k
        → head t ≡ some b'#'
        → eq_text (to_lowercase t) (to_lowercase k) ≡ false
    ck_lem [] k clean marked = ground (arith, marked)
    ck_lem (c ∷ t) k clean marked =
        let is_mark : c ≡ b'#' = ground (arith, marked) in
        eq_text-ne (to_lowercase (c ∷ t)) (to_lowercase k) (λ same. clean.no_comment (
          ap head (
            sym clean.lower
            ∙ sym same
            ∙ ap (λ (d : ℕ). to_lowercase (d ∷ t)) is_mark
            ∙ lower_comment t)))

    comment_key :
        (key k : Text)
        → IsKey k
        → head (trim key) ≡ some b'#'
        → eq_text (to_lowercase (trim key)) (to_lowercase k) ≡ false
    comment_key key k clean marked = ck_lem (trim key) k clean marked

    -- A comment or a blank line is no entry.
    pub find_property_comment :
        (k line : Text) (later : List Text)
        → IsKey k
        → (starts_with b'#' (trim line) || is_empty (trim line)) ≡ true
        → find_property to_lowercase k (line ∷ later) ≡ find_property to_lowercase k later
    find_property_comment k line later clean skipped =
        elim (Option-cases (split_once equals_sign line)) [
          | inl missing ↦ find_property_skip k line later missing
          | inr ((key, value), found) ↦
              find_property_other k line key value later found
                (comment_key key k clean (comment_head line key value found skipped))
        ]
