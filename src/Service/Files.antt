-- ===== src/Service/Files.antt =====
-- src/service/file_watcher.rs: the files that are read again when they change.
use plexsoftware.Prelude.{
  ℕ, ◌≡◌, Bool, true, false, ◌&&◌, ◌||◌, not, List, [], Option, none, some, Text, eq_text, map_some,
  if◌then◌else◌, unwrap_or, arith, Option-cases, inl, inr,
}
use plexsoftware.Prelude.Strings.{codes, trim}
use plexsoftware.Config.{Config}
use plexsoftware.Mc.Ban.{BannedIp, BannedIps, load, last_entry, get-load}
use plexsoftware.Mc.Whitelist.{Whitelist, UserJson, load_dir, whitelist_file, ops_file}
use plexsoftware.Mc.Properties.{File, read_property}
use plexsoftware.Server.Model.{Server, set_banned_ips, set_whitelist, ban_entry}

-- What is read of the server directory.
pub record Directory : Type 0 where
  pub bans : File
  pub whitelist : File
  pub ops : File
  pub properties : File

-- The readers of other crates.
pub record Readers : Type 0 where
  pub bans_json : Text → Option (List BannedIp)
  pub users : UserJson
  pub to_lowercase : Text → Text

abbrev pub ban_file : Text
ban_file = codes "banned-ips.json"

abbrev pub properties_file : Text
properties_file = codes "server.properties"

-- What a failed load leaves as it was.
unfoldable pub store_bans : Option BannedIps → Server → Server
store_bans none s = s
store_bans (some ips) s = set_banned_ips ips s

unfoldable pub store_whitelist : Option Whitelist → Server → Server
store_whitelist none s = s
store_whitelist (some whitelist) s = set_whitelist (some whitelist) s

module _ (config : Config) (readers : Readers) where
  unfoldable pub reload_bans : File → Server → Server
  unfolding store_bans
  reload_bans file s =
      if not config.server.block_banned_ips && not config.server.drop_banned_ips
      then s
      else if not file.is_file
      then set_banned_ips (record { ips = [] }) s
      else store_bans (load readers.bans_json file.contents) s

  -- Whether server.properties turns the whitelist on.
  unfoldable pub whitelist_enabled : Directory → Bool
  whitelist_enabled dir =
      unwrap_or
        (map_some (λ v. eq_text (trim v) (codes "true"))
          (read_property readers.to_lowercase dir.properties (codes "white-list")))
        false

  unfoldable pub reload_whitelist : Directory → Server → Server
  unfolding store_whitelist
  reload_whitelist dir s =
      if not config.server.wake_whitelist
      then s
      else if not (whitelist_enabled dir)
      then set_whitelist none s
      else store_whitelist
          (load_dir readers.users dir.whitelist.is_file dir.whitelist.contents dir.ops.is_file
            dir.ops.contents)
          s

  -- An event for the file of that name, whose path leads to `changed`.
  unfoldable pub update : Directory → Text → File → Server → Server
  unfolding reload_bans reload_whitelist
  update dir name changed s =
      let t = if eq_text name ban_file then reload_bans changed s else s in
      if (eq_text name whitelist_file || eq_text name ops_file) || eq_text name properties_file
      then reload_whitelist dir t
      else t

  -- Both files are read when the service begins to watch.
  unfoldable pub reload_all : Directory → Server → Server
  unfolding reload_bans reload_whitelist
  reload_all dir s = reload_whitelist dir (reload_bans dir.bans s)

  reload_bans_lem :
      (contents : Text) (entries : List BannedIp) (ip : ℕ) (s : Server)
      → config.server.block_banned_ips ≡ true
      → readers.bans_json contents ≡ some entries
      → ban_entry ip (reload_bans (record { is_file = true; contents = some contents }) s)
        ≡ last_entry ip entries
  unfolding reload_bans store_bans ban_entry set_banned_ips
  reload_bans_lem contents entries ip s blocks parsed =
      elim (Option-cases (load readers.bans_json (some contents))) [
        | inl missing ↦ unfold load in ground (arith, missing, parsed)
        | inr (ips, loaded) ↦
            simp (blocks, loaded) (get-load readers.bans_json contents entries ips ip parsed loaded)
      ]

  -- After a change of a readable ban list the entry that a player's address is checked against is
  -- the last one of the file for it, if block_banned_ips is on.
  pub ban_entry-update :
      (dir : Directory) (contents : Text) (entries : List BannedIp) (ip : ℕ) (s : Server)
      → config.server.block_banned_ips ≡ true
      → readers.bans_json contents ≡ some entries
      → ban_entry ip (update dir ban_file (record { is_file = true; contents = some contents }) s)
        ≡ last_entry ip entries
  unfolding update
  ban_entry-update dir contents entries ip s blocks parsed =
      reload_bans_lem contents entries ip s blocks parsed
