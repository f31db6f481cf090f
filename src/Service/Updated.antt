-- ===== src/Service/Updated.antt =====
-- What the server's bans and whitelist are to be behind a reload (src/service/file_watcher.rs).
use plexsoftware.Prelude.{◌≡◌, ◌∙◌, [], ◌∷◌, eq_text, arith, Bool-cases, inl, inr}
use plexsoftware.Config.{Config}
use plexsoftware.Mc.Properties.{File}
use plexsoftware.Server.Model.{Server, set_banned_ips, set_whitelist}
use plexsoftware.Service.Files.{
  Directory, Readers, ban_file, store_bans, store_whitelist, reload_bans, reload_whitelist, update,
  reload_all,
}
use plexsoftware.Service.Watching.{Change}
use plexsoftware.Service.Looks.{notified, last_bans, last_lists, is_list, HasBans, HasWhitelist}

module _ (config : Config) (readers : Readers) where
  -- Both lists.
  pub record IsCurrent (file : File) (dir : Directory) (s : Server) : Type 0 where
    pub bans : HasBans config readers file s
    pub whitelist : HasWhitelist config readers dir s

  reload_bans-HasBans :
      (file : File) (s : Server) → HasBans config readers file (reload_bans config readers file s)
  unfolding reload_bans store_bans set_banned_ips
  reload_bans-HasBans file s = record {
    unbanned = λ used missing. ground (arith, used, missing);
    banned = λ used there ips loads. ground (arith, used, there, loads);
  }

  reload_whitelist-HasWhitelist :
      (dir : Directory) (s : Server)
      → HasWhitelist config readers dir (reload_whitelist config readers dir s)
  unfolding reload_whitelist store_whitelist set_whitelist
  reload_whitelist-HasWhitelist dir s = record {
    off = λ used disabled. simp (used, disabled);
    on = λ used enabled w loads. simp (used, enabled, loads);
  }

  reload_bans-whitelist :
      (file : File) (s : Server) → (reload_bans config readers file s).whitelist ≡ s.whitelist
  unfolding reload_bans store_bans set_banned_ips
  reload_bans-whitelist file s = ground arith

  reload_whitelist-banned_ips :
      (dir : Directory) (s : Server)
      → (reload_whitelist config readers dir s).banned_ips ≡ s.banned_ips
  unfolding reload_whitelist store_whitelist set_whitelist
  reload_whitelist-banned_ips dir s = ground arith

  HasBans-same :
      (file : File) (s t : Server)
      → t.banned_ips ≡ s.banned_ips
      → HasBans config readers file s
      → HasBans config readers file t
  HasBans-same file s t same h = record {
    unbanned = λ used missing. same ∙ h.unbanned used missing;
    banned = λ used there ips loads. same ∙ h.banned used there ips loads;
  }

  HasWhitelist-same :
      (dir : Directory) (s t : Server)
      → t.whitelist ≡ s.whitelist
      → HasWhitelist config readers dir s
      → HasWhitelist config readers dir t
  HasWhitelist-same dir s t same h = record {
    off = λ used disabled. same ∙ h.off used disabled;
    on = λ used enabled w loads. same ∙ h.on used enabled w loads;
  }

  reload_bans-IsCurrent :
      (file : File) (dir : Directory) (s : Server)
      → HasWhitelist config readers dir s
      → IsCurrent file dir (reload_bans config readers file s)
  reload_bans-IsCurrent file dir s h = record {
    bans = reload_bans-HasBans file s;
    whitelist = HasWhitelist-same dir s _ (reload_bans-whitelist file s) h;
  }

  reload_whitelist-IsCurrent :
      (file : File) (dir : Directory) (s : Server)
      → HasBans config readers file s
      → IsCurrent file dir (reload_whitelist config readers dir s)
  reload_whitelist-IsCurrent file dir s h = record {
    bans = HasBans-same file s _ (reload_whitelist-banned_ips dir s) h;
    whitelist = reload_whitelist-HasWhitelist dir s;
  }

  pub reload_all-IsCurrent :
      (dir : Directory) (s : Server) → IsCurrent dir.bans dir (reload_all config readers dir s)
  unfolding reload_all
  reload_all-IsCurrent dir s =
      reload_whitelist-IsCurrent dir.bans dir (reload_bans config readers dir.bans s)
        (reload_bans-HasBans dir.bans s)

  pub update-IsCurrent :
      (c : Change) (file : File) (dir : Directory) (s : Server)
      → IsCurrent file dir s
      → IsCurrent
          (last_bans file (notified c ∷ []))
          (last_lists dir (notified c ∷ []))
          (update config readers c.dir c.name c.file s)
  unfolding update
  update-IsCurrent c file dir s h = elim (Bool-cases (eq_text c.name ban_file)) [
    | inl bans ↦
        let t = reload_bans-IsCurrent c.file dir s h.whitelist in
        elim (Bool-cases (is_list c.name)) [
          | inl lists ↦ rw (bans, lists) (reload_whitelist-IsCurrent c.file c.dir _ t.bans)
          | inr none_of ↦ rw (bans, none_of) t
        ]
    | inr other ↦ elim (Bool-cases (is_list c.name)) [
      | inl lists ↦ rw (other, lists) (reload_whitelist-IsCurrent file c.dir s h.bans)
      | inr none_of ↦ rw (other, none_of) h
    ]
  ]
