-- ===== src/Service/Watching.antt =====
-- src/service/file_watcher.rs: the task that watches the server's directory. The watching itself is
-- `notify`'s, so what its channel delivers is a parameter.
use plexsoftware.Prelude.{
  Bool, true, false, ◌&&◌, not, List, [], ◌∷◌, Option, none, some, Text, is_some, if◌then◌else◌,
}
use plexsoftware.Config.{Config, server_directory}
use plexsoftware.Mc.Properties.{File}
use plexsoftware.Server.Model.{Server}
use plexsoftware.Service.Files.{Directory, Readers, update, reload_all}

-- A changed path by the name that it ends with: the directory as it is then, and the file.
pub record Change : Type 0 where
  pub dir : Directory
  pub name : Text
  pub file : File

-- What `recv` returns.
pub data Received : Type 0 where
  changes : List Change → Received
  watch_failed hung_up : Received

-- One round of the service: the directory at its start and whether it is one when it is watched,
-- whether a watcher can be made, and what it delivers.
pub record Watch : Type 0 where
  pub dir : Directory
  pub is_dir : Bool
  pub watches : Bool
  pub received : List Received

module _ (config : Config) (readers : Readers) where
  unfoldable pub update_each : List Change → Server → Server
  update_each [] s = s
  update_each (c ∷ cs) s = update_each cs (update config readers c.dir c.name c.file s)

  -- Whether it is to be watched again; `none` while nothing more is received.
  unfoldable pub watch_loop : List Received → Server → Server × Option Bool
  unfolding update_each
  watch_loop [] s = (s, none)
  watch_loop (changes cs ∷ later) s = watch_loop later (update_each cs s)
  watch_loop (watch_failed ∷ later) s = (s, some true)
  watch_loop (hung_up ∷ later) s = (s, some true)

  unfoldable pub watch_server : Watch → Server → Server × Option Bool
  unfolding watch_loop
  watch_server watch s =
      if not watch.is_dir
      then (s, some false)
      else if not watch.watches
      then (s, some true)
      else watch_loop watch.received s

  unfoldable pub goes_on : Option Bool → Bool
  goes_on none = false
  goes_on (some again) = again

  -- The loop of `service`, over its rounds.
  unfoldable pub watch_rounds : List Watch → Server → Server
  unfolding watch_server goes_on
  watch_rounds [] s = s
  watch_rounds (watch ∷ later) s =
      let watched = watch_server watch (reload_all config readers watch.dir s) in
      let rest = watch_rounds later watched.0 in if goes_on watched.1 then rest else watched.0

  -- `is_dir` says of the configured directory whether it is there at the start.
  unfoldable pub watch_files : Bool → List Watch → Server → Server
  unfolding watch_rounds
  watch_files is_dir rounds s =
      if is_some (server_directory config) && is_dir then watch_rounds rounds s else s
