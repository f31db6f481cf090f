-- ===== src/Mc/Whitelist.antt =====
-- src/mc/whitelist.rs: the players that may wake the server. JSON is the crates', so its readers
-- are parameters; `none` stands for an `Err`.
use plexsoftware.Prelude.{
  ℕ, List, [], Option, some, Bool, ◌||◌, Text, eq_text, any, map, if◌then◌else◌, map_some, and_then,
}
use plexsoftware.Prelude.Strings.{codes}

pub record Whitelist : Type 0 where
  pub whitelist : List Text
  pub ops : List Text

unfoldable pub is_whitelisted : Whitelist → Text → Bool
is_whitelisted w username =
    any (λ u. eq_text u username) w.whitelist || any (λ u. eq_text u username) w.ops

pub record WhitelistUser : Type 0 where
  pub username : Text
  pub uuid : Option Text

pub record OpUser : Type 0 where
  pub username : Text
  pub uuid : Option Text
  pub level : Option ℕ
  pub bypasses_player_limit : Option Bool

abbrev pub whitelist_file : Text
whitelist_file = codes "whitelist.json"

abbrev pub ops_file : Text
ops_file = codes "ops.json"

-- The readers of the two files.
pub record UserJson : Type 0 where
  pub whitelist_users : Text → Option (List WhitelistUser)
  pub op_users : Text → Option (List OpUser)

module _ (json : UserJson) where
  unfoldable pub load_whitelist : Option Text → Option (List Text)
  load_whitelist contents =
      map_some (map (λ (user : WhitelistUser). user.username))
        (and_then contents json.whitelist_users)

  unfoldable pub load_ops : Option Text → Option (List Text)
  load_ops contents =
      map_some (map (λ (user : OpUser). user.username)) (and_then contents json.op_users)

  -- For each of the two files: whether it is a file, and what reading it gives.
  unfoldable pub load_dir : Bool → Option Text → Bool → Option Text → Option Whitelist
  unfolding load_whitelist load_ops
  load_dir has_whitelist whitelist_text has_ops ops_text =
      and_then (if has_whitelist then load_whitelist whitelist_text else some []) λ whitelist.
        map_some (λ ops. record { whitelist = whitelist; ops = ops })
          (if has_ops then load_ops ops_text else some [])
