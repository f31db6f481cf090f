-- ===== src/Config/Command.antt =====
-- `build_command` of src/config.rs: the command line of the Minecraft server.
pub mod Parts
use plexsoftware.Prelude.{
  ℕ, ◌≡◌, refl, sym, ap, ◌∙◌, Bool, true, false, not, List, [], ◌∷◌, ◌++◌, Option, none, some, Text,
  any, last?, is_empty, keep, map, unwrap_or, map_some, filter_some, eq_text, if◌then◌else◌, arith,
  Bool-cases, inl, inr, eq_text_refl, eq_text_iff, ◌||◌,
}
use plexsoftware.Prelude.Strings.{codes, trim, join}

-- The environment's variables, and `shlex::try_quote`, where `none` stands for an `Err`.
pub record Shell : Type 0 where
  pub var : Text → Option Text
  pub try_quote : Text → Option Text

abbrev pub java_bin : Text
java_bin = codes "java"

abbrev pub jar_default : Text
jar_default = codes "server.jar"

abbrev pub jar_flag : Text
jar_flag = codes "-jar"

abbrev pub nogui_flag : Text
nogui_flag = codes "--nogui"

abbrev pub java_args_default : List Text
java_args_default =
    codes "-Xms128M"
    ∷ codes "-XX:MaxRAMPercentage=75.0"
    ∷ codes "-Dterminal.jline=false"
    ∷ codes "-Dterminal.ansi=true"
    ∷ jar_flag
    ∷ []

abbrev pub is_text : Text → Text → Bool
is_text t arg = eq_text arg t

module _ (shell : Shell) where
  unfoldable pub env_string : Text → Option Text
  env_string key = filter_some (λ v. not (is_empty v)) (map_some trim (shell.var key))

  unfoldable pub jar_file : Text
  unfolding env_string
  jar_file = unwrap_or (env_string (codes "SERVER_JARFILE")) jar_default

  -- The steps of the body, in its order: trimmed arguments or the default ones, "-jar", the file
  -- behind a last "-jar", and "--nogui".
  unfoldable pub clean_args : List Text → List Text
  clean_args java_args =
      let args = keep (λ arg. not (is_empty arg)) (map trim java_args) in
      if is_empty args then java_args_default else args

  unfoldable pub with_jar_flag : List Text → List Text
  with_jar_flag args = if any (is_text jar_flag) args then args else args ++ jar_flag ∷ []

  unfoldable pub with_jar_file : List Text → List Text
  with_jar_file args =
      if unwrap_or (map_some (is_text jar_flag) (last? args)) false
      then args ++ jar_file ∷ []
      else args

  unfoldable pub with_nogui : List Text → List Text
  with_nogui args = if any (is_text nogui_flag) args then args else args ++ nogui_flag ∷ []

  unfoldable pub command_parts : List Text → List Text
  command_parts java_args =
      java_bin ∷ with_nogui (with_jar_file (with_jar_flag (clean_args java_args)))

  unfoldable pub quote : Text → Text
  quote part = unwrap_or (shell.try_quote part) part

  unfoldable pub build_command : List Text → Text
  unfolding command_parts quote clean_args with_jar_flag with_jar_file with_nogui
  build_command java_args = join (codes " ") (map quote (command_parts java_args))
