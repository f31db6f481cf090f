-- ===== src/Mc/Properties/Files.antt =====
-- `rewrite_dir` and `rewrite_file` of src/mc/server_properties.rs, and src/action/start.rs: what is
-- written to `server.properties` before the server is started.
use plexsoftware.Prelude.{
  ℕ, Bool, true, false, not, List, [], ◌∷◌, ◌++◌, Option, none, some, Text, is_empty, is_some,
  if◌then◌else◌,
}
use plexsoftware.Prelude.Strings.{codes}
use plexsoftware.Config.{Config, Method, lobby, method_eq, server_directory}
use plexsoftware.Mc.Properties.{File, Changes, rewrite_contents}

-- A directory: whether it is one, its `server.properties`, and whether that can be written.
pub record ServerDir : Type 0 where
  pub is_dir : Bool
  pub properties : File
  pub writable : Bool

unfoldable pub saved : Bool → Option Text → File → File
saved false contents file = file
saved true none file = file
saved true (some contents) file = record file { contents = some contents }

module _ (to_lowercase : Text → Text) where
  unfoldable pub rewrite_contents_of : Option Text → Changes → Option Text
  rewrite_contents_of none changes = none
  rewrite_contents_of (some contents) changes = rewrite_contents to_lowercase contents changes

  -- A file that cannot be read or saved is only logged.
  unfoldable pub rewrite_file : Bool → Changes → File → File
  unfolding saved rewrite_contents_of
  rewrite_file writable changes file =
      if is_empty changes
      then file
      else if not file.is_file
      then file
      else saved writable (rewrite_contents_of file.contents changes) file

  unfoldable pub rewrite_dir : Changes → ServerDir → ServerDir
  unfolding rewrite_file
  rewrite_dir changes dir =
      if is_empty changes
      then dir
      else if not dir.is_dir
      then dir
      else record dir { properties = rewrite_file dir.writable changes dir.properties }

  -- `prepare_rcon`; `password` is the random one.
  unfoldable pub prepare_rcon : Text → Config → Config
  prepare_rcon password config =
      if not config.rcon.enabled
      then config
      else if config.rcon.randomize_password
      then record config { rcon = record config.rcon { password = password } }
      else config

  abbrev pub has_lobby : List Method → Bool
  has_lobby [] = false
  has_lobby (m ∷ ms) = if method_eq m lobby then true else has_lobby ms

  module _ (show_ip show_number : ℕ → Text) where
    abbrev pub base_changes : Config → Changes
    base_changes config =
        (codes "server-ip", show_ip config.server.address.ip)
        ∷ (codes "server-port", show_number config.server.address.port)
        ∷ (codes "query.port", show_number config.server.address.port)
        ∷ (codes "enable-status", codes "true")
        ∷ (codes "view-distance", codes "5")
        ∷ (codes "simulation-distance", codes "5")
        ∷ (codes "spawn-protection", codes "0")
        ∷ []

    abbrev pub lobby_changes : Config → Changes
    lobby_changes config =
        if has_lobby config.join.methods
        then (codes "network-compression-threshold", show_number 256) ∷ []
        else []

    abbrev pub rcon_changes : Config → Changes
    rcon_changes config =
        if config.rcon.enabled
        then (codes "rcon.port", show_number config.rcon.port)
          ∷ (codes "rcon.password", config.rcon.password)
          ∷ (codes "enable-rcon", codes "true")
          ∷ []
        else []

    unfoldable pub changes_for : Config → Changes
    changes_for config = base_changes config ++ lobby_changes config ++ rcon_changes config

    -- `dir` is the server's directory, where one is configured.
    unfoldable pub rewrite_server_properties : Config → ServerDir → ServerDir
    unfolding changes_for rewrite_dir
    rewrite_server_properties config dir =
        if not config.rewrite_server_properties
        then dir
        else if is_some (server_directory config)
        then rewrite_dir (changes_for config) dir
        else dir

    -- `invoke` up to the service.
    unfoldable pub invoke : Text → Config → ServerDir → Config × ServerDir
    unfolding prepare_rcon rewrite_server_properties
    invoke password config dir =
        let prepared = prepare_rcon password config in
        (prepared, rewrite_server_properties prepared dir)
