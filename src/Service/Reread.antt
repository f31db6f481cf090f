-- ===== src/Service/Reread.antt =====
-- What the file watcher leaves of the server as it was (src/service/file_watcher.rs).
use plexsoftware.Prelude.{
  ◌≡◌, refl, ap, ◌∙◌, Bool, true, false, not, List, [], ◌∷◌, Option, none, some, Text, eq_text,
  if◌then◌else◌, Bool-cases, inl, inr,
}
use plexsoftware.Config.{Config}
use plexsoftware.Mc.Ban.{BannedIps, load}
use plexsoftware.Mc.Whitelist.{Whitelist}
use plexsoftware.Mc.Properties.{File}
use plexsoftware.Server.Model.{Server, set_banned_ips, set_whitelist}
use plexsoftware.Service.Files.{
  Directory, Readers, ban_file, store_bans, store_whitelist, whitelist_enabled, reload_bans,
  reload_whitelist, update, reload_all,
}
use plexsoftware.Service.Watching.{
  Change, Received, changes, watch_failed, hung_up, Watch, update_each, watch_loop, watch_server,
  goes_on, watch_rounds, watch_files,
}

module _ (config : Config) (readers : Readers) where
  -- Nothing differs but the ban list and the whitelist.
  pub record IsReread (s t : Server) : Type 0 where
    pub banned_ips : BannedIps
    pub whitelist : Option Whitelist
    pub same : t ≡ record s { banned_ips = banned_ips; whitelist = whitelist }

  unchanged : (s : Server) → IsReread s s
  unchanged s = record { banned_ips = s.banned_ips; whitelist = s.whitelist; same = refl }

  IsReread-trans : (s t u : Server) → IsReread s t → IsReread t u → IsReread s u
  IsReread-trans s t u one two = record {
    banned_ips = two.banned_ips;
    whitelist = two.whitelist;
    same =
        two.same
        ∙ ap (λ (v : Server). record v { banned_ips = two.banned_ips; whitelist = two.whitelist })
            one.same;
  }

  if_IsReread :
      (b : Bool) (s t u : Server) → IsReread s t → IsReread s u → IsReread s (if b then t else u)
  if_IsReread true s t u one other = one
  if_IsReread false s t u one other = other

  store_bans-IsReread : (ips : Option BannedIps) (s : Server) → IsReread s (store_bans ips s)
  unfolding store_bans set_banned_ips
  store_bans-IsReread none s = unchanged s
  store_bans-IsReread (some ips) s = record {
    banned_ips = ips;
    whitelist = s.whitelist;
    same = refl;
  }

  store_whitelist-IsReread : (w : Option Whitelist) (s : Server) → IsReread s (store_whitelist w s)
  unfolding store_whitelist set_whitelist
  store_whitelist-IsReread none s = unchanged s
  store_whitelist-IsReread (some w) s = record {
    banned_ips = s.banned_ips;
    whitelist = some w;
    same = refl;
  }

  reload_bans-IsReread : (file : File) (s : Server) → IsReread s (reload_bans config readers file s)
  unfolding reload_bans set_banned_ips
  reload_bans-IsReread file s = if_IsReread _ s s _ (unchanged s) (
      if_IsReread (not file.is_file) s _ _
        (record { banned_ips = record { ips = [] }; whitelist = s.whitelist; same = refl })
        (store_bans-IsReread (load readers.bans_json file.contents) s))

  reload_whitelist-IsReread :
      (dir : Directory) (s : Server) → IsReread s (reload_whitelist config readers dir s)
  unfolding reload_whitelist set_whitelist
  reload_whitelist-IsReread dir s = if_IsReread _ s s _ (unchanged s) (
      if_IsReread (not (whitelist_enabled config readers dir)) s _ _
        (record { banned_ips = s.banned_ips; whitelist = none; same = refl })
        (store_whitelist-IsReread _ s))

  update-IsReread :
      (dir : Directory) (name : Text) (file : File) (s : Server)
      → IsReread s (update config readers dir name file s)
  unfolding update
  update-IsReread dir name file s =
      let t = if eq_text name ban_file then reload_bans config readers file s else s in
      let bans =
        if_IsReread (eq_text name ban_file) s _ _ (reload_bans-IsReread file s) (unchanged s) in
      if_IsReread _ s _ _ (IsReread-trans s t _ bans (reload_whitelist-IsReread dir t)) bans

  update_each-IsReread :
      (cs : List Change) (s : Server) → IsReread s (update_each config readers cs s)
  unfolding update_each
  update_each-IsReread [] s = unchanged s
  update_each-IsReread (c ∷ cs) s =
      IsReread-trans s _ _ (update-IsReread c.dir c.name c.file s) (update_each-IsReread cs _)

  watch_loop-IsReread :
      (received : List Received) (s : Server) → IsReread s (watch_loop config readers received s).0
  unfolding watch_loop
  watch_loop-IsReread [] s = unchanged s
  watch_loop-IsReread (changes cs ∷ later) s =
      IsReread-trans s _ _ (update_each-IsReread cs s) (watch_loop-IsReread later _)
  watch_loop-IsReread (watch_failed ∷ later) s = unchanged s
  watch_loop-IsReread (hung_up ∷ later) s = unchanged s

  watch_server-IsReread :
      (watch : Watch) (s : Server) → IsReread s (watch_server config readers watch s).0
  unfolding watch_server
  watch_server-IsReread watch s = elim (Bool-cases watch.is_dir) [
    | inl here ↦ elim (Bool-cases watch.watches) [
      | inl watches ↦ simp (here, watches) (watch_loop-IsReread watch.received s)
      | inr fails ↦ simp (here, fails) (unchanged s)
    ]
    | inr gone ↦ simp gone (unchanged s)
  ]

  watch_rounds-IsReread :
      (rounds : List Watch) (s : Server) → IsReread s (watch_rounds config readers rounds s)
  unfolding watch_rounds reload_all
  watch_rounds-IsReread [] s = unchanged s
  watch_rounds-IsReread (watch ∷ later) s =
      let bans = reload_bans-IsReread watch.dir.bans s in
      let loaded = IsReread-trans s _ _ bans (reload_whitelist-IsReread watch.dir _) in
      let watched = IsReread-trans s _ _ loaded (watch_server-IsReread watch _) in
      if_IsReread
        (goes_on config readers
          (watch_server config readers watch (reload_all config readers watch.dir s)).1)
        s _ _ (IsReread-trans s _ _ watched (watch_rounds-IsReread later _)) watched

  -- Whatever the file watcher sees, in however many rounds, it changes nothing of the server but
  -- the ban list and the whitelist: it starts and stops nothing.
  pub watch_files-IsReread :
      (is_dir : Bool) (rounds : List Watch) (s : Server)
      → IsReread s (watch_files config readers is_dir rounds s)
  unfolding watch_files
  watch_files-IsReread is_dir rounds s =
      if_IsReread _ s _ _ (watch_rounds-IsReread rounds s) (unchanged s)
