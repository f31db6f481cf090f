-- ===== src/Config/Command/Parts.antt =====
-- What the command line of the Minecraft server holds (src/config.rs).
use plexsoftware.Prelude.{
  ◌≡◌, refl, sym, ap, ◌∙◌, Bool, true, false, List, [], ◌∷◌, ◌++◌, Text, any, last?, unwrap_or,
  map_some, if◌then◌else◌, arith, Bool-cases, inl, inr, eq_text_refl, any-append, append_assoc,
  append-nil,
}
use plexsoftware.Config.Command.{
  Shell, jar_flag, nogui_flag, java_bin, is_text, jar_file, clean_args, with_jar_flag,
  with_jar_file, with_nogui, command_parts,
}

-- An argument is there, once it was looked for and appended.
appended_once :
    (flag : Text) (args : List Text)
    → any (is_text flag) (if any (is_text flag) args then args else args ++ flag ∷ []) ≡ true
appended_once flag args = elim (Bool-cases (any (is_text flag) args)) [
  | inl there ↦ ground (arith, there)
  | inr missing ↦
      ground (arith, missing, any-append (is_text flag) args (flag ∷ []), eq_text_refl flag)
]

kept_by_append :
    (flag : Text) (args extra : List Text)
    → any (is_text flag) args ≡ true
    → any (is_text flag) (args ++ extra) ≡ true
kept_by_append flag args extra h = ground (arith, any-append (is_text flag) args extra)

-- What a step leaves of the arguments before it: all, with more behind.
abbrev Extends : List Text → List Text → Type 0
Extends before after = (extra : List Text) × (after ≡ before ++ extra)

Extends-if : (b : Bool) (args more : List Text) → Extends args (if b then args else args ++ more)
Extends-if true args more = ([], sym (append-nil args))
Extends-if false args more = (more, refl)

module _ (shell : Shell) where
  with_jar_file-Extends : (args : List Text) → Extends args (with_jar_file shell args)
  unfolding with_jar_file
  with_jar_file-Extends args =
      elim (Bool-cases (unwrap_or (map_some (is_text jar_flag) (last? args)) false)) [
        | inl ends ↦ (jar_file shell ∷ [], ground (arith, ends))
        | inr other ↦ ([], ground (arith, other, append-nil args))
      ]

  with_jar_flag_lem :
      (args : List Text)
      → Extends args (with_jar_flag shell args)
        × (any (is_text jar_flag) (with_jar_flag shell args) ≡ true)
  unfolding with_jar_flag
  with_jar_flag_lem args =
      (Extends-if (any (is_text jar_flag) args) args (jar_flag ∷ []), appended_once jar_flag args)

  with_nogui_lem :
      (args : List Text)
      → Extends args (with_nogui shell args)
        × (any (is_text nogui_flag) (with_nogui shell args) ≡ true)
  unfolding with_nogui
  with_nogui_lem args = (
    Extends-if (any (is_text nogui_flag) args) args (nogui_flag ∷ []),
    appended_once nogui_flag args,
  )

  -- The command is "java" and then the given arguments, or the default ones, in their order, with
  -- more behind them at most, and "-jar" and "--nogui" are among its parts.
  pub command_parts_lem :
      (java_args : List Text)
      → (extra : List Text) × (command_parts shell java_args
          ≡ java_bin ∷ (clean_args shell java_args ++ extra))
        × (any (is_text jar_flag) (command_parts shell java_args) ≡ true)
        × (any (is_text nogui_flag) (command_parts shell java_args) ≡ true)
  unfolding command_parts
  command_parts_lem java_args =
      let args = clean_args shell java_args in
      let ((one, e1), jar) = with_jar_flag_lem args in
      let (two, e2) = with_jar_file-Extends (with_jar_flag shell args) in
      let filed = with_jar_file shell (with_jar_flag shell args) in
      let ((three, e3), nogui) = with_nogui_lem filed in
      let grown : with_nogui shell filed ≡ with_jar_flag shell args ++ (two ++ three) =
        e3
        ∙ ap (λ (xs : List Text). xs ++ three) e2
        ∙ append_assoc (with_jar_flag shell args) two three in
      (
        one ++ (two ++ three),
        ap (◌∷◌ java_bin) (
            grown
            ∙ ap (λ (xs : List Text). xs ++ (two ++ three)) e1
            ∙ append_assoc args one (two ++ three)),
        rw grown (kept_by_append jar_flag (with_jar_flag shell args) (two ++ three) jar),
        nogui,
      )
