-- ===== src/Service/Looks.antt =====
-- What the file watcher looks at, described by what is delivered to it
-- (src/service/file_watcher.rs).
use plexsoftware.Prelude.{
  ◌≡◌, Bool, true, false, List, [], ◌∷◌, ◌++◌, map, none, some, Text, eq_text, ◌||◌, ◌⊎◌,
  if◌then◌else◌, Bool-cases, inl, inr,
}
use plexsoftware.Prelude.Strings.{codes}
use plexsoftware.Config.{Config}
use plexsoftware.Mc.Ban.{BannedIps, load}
use plexsoftware.Mc.Whitelist.{Whitelist, load_dir}
use plexsoftware.Mc.Properties.{File}
use plexsoftware.Server.Model.{Server}
use plexsoftware.Service.Files.{Directory, Readers, whitelist_enabled}
use plexsoftware.Service.Watching.{Change, Received, changes, watch_failed, hung_up, Watch}

-- The whole directory, or a file of which a change was delivered.
pub data Look : Type 0 where
  scanned : Directory → Look
  notified : Change → Look

-- The changes that the channel delivers, until it fails or for as long as anything comes.
pub data Delivers : List Received → List Change → Bool → Type 0 where
  waiting : Delivers [] [] false
  watcher_failed : {later : List Received} → Delivers (watch_failed ∷ later) [] true
  sender_gone : {later : List Received} → Delivers (hung_up ∷ later) [] true
  delivered :
      {cs more : List Change} {later : List Received} {fails : Bool}
      → Delivers later more fails
      → Delivers (changes cs ∷ later) (cs ++ more) fails

-- Each round scans the directory. If it is one no longer, that round is the last; if no watcher can
-- be made, or what it delivers ends in a failure, the next round follows.
pub data Looks : List Watch → List Look → Type 0 where
  no_round : Looks [] []
  gone :
      {w : Watch} {later : List Watch} → w.is_dir ≡ false → Looks (w ∷ later) (scanned w.dir ∷ [])
  unwatched :
      {w : Watch} {later : List Watch} {looks : List Look}
      → w.is_dir ≡ true
      → w.watches ≡ false
      → Looks later looks
      → Looks (w ∷ later) (scanned w.dir ∷ looks)
  waits :
      {w : Watch} {later : List Watch} {cs : List Change}
      → w.is_dir ≡ true
      → w.watches ≡ true
      → Delivers w.received cs false
      → Looks (w ∷ later) (scanned w.dir ∷ map notified cs)
  rescans :
      {w : Watch} {later : List Watch} {cs : List Change} {looks : List Look}
      → w.is_dir ≡ true
      → w.watches ≡ true
      → Delivers w.received cs true
      → Looks later looks
      → Looks (w ∷ later) (scanned w.dir ∷ (map notified cs ++ looks))

delivers :
    (received : List Received) → (cs : List Change) × (fails : Bool) × Delivers received cs fails
delivers [] = ([], false, waiting)
delivers (changes cs ∷ later) =
    let (more, fails, rest) = delivers later in (cs ++ more, fails, delivered rest)
delivers (watch_failed ∷ later) = ([], true, watcher_failed)
delivers (hung_up ∷ later) = ([], true, sender_gone)

round_looks :
    (w : Watch) (later : List Watch)
    → ((looks : List Look) × Looks later looks)
    → (looks : List Look) × Looks (w ∷ later) (scanned w.dir ∷ looks)
round_looks w later (looks, rest) = elim (Bool-cases w.is_dir) [
  | inl here ↦ elim (Bool-cases w.watches) [
    | inl watches ↦
        let (cs, fails, given) = delivers w.received in
        elim (Bool-cases fails) [
          | inl ends ↦ (map notified cs ++ looks, rescans here watches (rw ends at given) rest)
          | inr stays ↦ (map notified cs, waits here watches (rw stays at given))
        ]
    | inr fails ↦ (looks, unwatched here fails rest)
  ]
  | inr left ↦ ([], gone left)
]

all_looks : (rounds : List Watch) → (looks : List Look) × Looks rounds looks
all_looks [] = ([], no_round)
all_looks (w ∷ later) =
    let (looks, looked) = round_looks w later (all_looks later) in (scanned w.dir ∷ looks, looked)

-- The ban list that was looked at last, `file` being the one before.
abbrev pub last_bans : File → List Look → File
last_bans file [] = file
last_bans file (scanned dir ∷ looks) = last_bans dir.bans looks
last_bans file (notified c ∷ looks) =
    last_bans (if eq_text c.name (codes "banned-ips.json") then c.file else file) looks

abbrev pub is_list : Text → Bool
is_list name =
    (eq_text name (codes "whitelist.json") || eq_text name (codes "ops.json"))
    || eq_text name (codes "server.properties")

-- The directory as it was when its whitelist was looked at last.
abbrev pub last_lists : Directory → List Look → Directory
last_lists old [] = old
last_lists old (scanned dir ∷ looks) = last_lists dir looks
last_lists old (notified c ∷ looks) = last_lists (if is_list c.name then c.dir else old) looks

module _ (config : Config) (readers : Readers) where
  -- The server has the bans of the file, if bans are looked at: none if there is no file, and else
  -- those that load from it.
  pub record HasBans (file : File) (s : Server) : Type 0 where
    pub unbanned :
        (config.server.block_banned_ips ≡ true) ⊎ (config.server.drop_banned_ips ≡ true)
        → file.is_file ≡ false
        → s.banned_ips ≡ record { ips = [] }
    pub banned :
        (config.server.block_banned_ips ≡ true) ⊎ (config.server.drop_banned_ips ≡ true)
        → file.is_file ≡ true
        → (ips : BannedIps) → load readers.bans_json file.contents ≡ some ips
        → s.banned_ips ≡ ips

  -- The server has the whitelist of the directory, if the whitelist is looked at: none if
  -- server.properties does not turn it on, and else the one that loads from the directory.
  pub record HasWhitelist (dir : Directory) (s : Server) : Type 0 where
    pub off :
        config.server.wake_whitelist ≡ true
        → whitelist_enabled config readers dir ≡ false
        → s.whitelist ≡ none
    pub on :
        config.server.wake_whitelist ≡ true
        → whitelist_enabled config readers dir ≡ true
        → (w : Whitelist)
        → load_dir readers.users dir.whitelist.is_file dir.whitelist.contents dir.ops.is_file
            dir.ops.contents
          ≡ some w
        → s.whitelist ≡ some w
