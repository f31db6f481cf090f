-- ===== src/Service/Current.antt =====
-- What the server's bans and whitelist are to be behind the looks of the file watcher
-- (src/service/file_watcher.rs).
use plexsoftware.Prelude.{
  ◌≡◌, refl, sym, ap, ◌∙◌, Bool, ◌&&◌, true, List, [], ◌∷◌, ◌++◌, map, Option, some, Text, arith,
  is_some, if◌then◌else◌,
}
use plexsoftware.Config.{Config, server_directory}
use plexsoftware.Mc.Properties.{File}
use plexsoftware.Server.Model.{Server}
use plexsoftware.Service.Files.{Directory, Readers, update, reload_all}
use plexsoftware.Service.Updated.{IsCurrent, reload_all-IsCurrent, update-IsCurrent}
use plexsoftware.Service.Watching.{
  Change, Received, Watch, update_each, watch_loop, watch_server, goes_on, watch_rounds,
  watch_files,
}
use plexsoftware.Service.Reread.{IsReread, watch_files-IsReread}
use plexsoftware.Service.Looks.{
  Look, scanned, notified, Delivers, waiting, watcher_failed, sender_gone, delivered, Looks,
  no_round, gone, unwatched, waits, rescans, last_bans, last_lists,
}

module _ (config : Config) (readers : Readers) where
  update_each-IsCurrent :
      (cs : List Change) (file : File) (dir : Directory) (s : Server)
      → IsCurrent config readers file dir s
      → IsCurrent config readers
          (last_bans file (map notified cs))
          (last_lists dir (map notified cs))
          (update_each config readers cs s)
  unfolding update_each
  update_each-IsCurrent [] file dir s h = h
  update_each-IsCurrent (c ∷ cs) file dir s h =
      update_each-IsCurrent cs _ _ (update config readers c.dir c.name c.file s)
        (update-IsCurrent config readers c file dir s h)

  update_each-append :
      (cs more : List Change) (s : Server)
      → update_each config readers (cs ++ more) s
        ≡ update_each config readers more (update_each config readers cs s)
  unfolding update_each
  update_each-append [] more s = refl
  update_each-append (c ∷ cs) more s = update_each-append cs more _

  -- The loop handles the changes that are delivered, and says whether the channel failed.
  watch_loop-Delivers :
      {received : List Received} {cs : List Change} {fails : Bool} (s : Server)
      → Delivers received cs fails
      → (watch_loop config readers received s).0 ≡ update_each config readers cs s
        × (goes_on config readers (watch_loop config readers received s).1 ≡ fails)
  unfolding watch_loop update_each goes_on
  watch_loop-Delivers s waiting = (refl, refl)
  watch_loop-Delivers s watcher_failed = (refl, refl)
  watch_loop-Delivers s sender_gone = (refl, refl)
  watch_loop-Delivers {cs = _} s (delivered {cs = cs} {more = more} rest) =
      let (state, ended) = watch_loop-Delivers (update_each config readers cs s) rest in
      (state ∙ sym (update_each-append cs more s), ended)

  last_bans-append :
      (file : File) (one two : List Look)
      → last_bans file (one ++ two) ≡ last_bans (last_bans file one) two
  last_bans-append file [] two = refl
  last_bans-append file (scanned dir ∷ one) two = last_bans-append dir.bans one two
  last_bans-append file (notified c ∷ one) two = last_bans-append _ one two

  last_lists-append :
      (old : Directory) (one two : List Look)
      → last_lists old (one ++ two) ≡ last_lists (last_lists old one) two
  last_lists-append old [] two = refl
  last_lists-append old (scanned dir ∷ one) two = last_lists-append dir one two
  last_lists-append old (notified c ∷ one) two = last_lists-append _ one two

  -- A round in which a watcher is made.
  watched-IsCurrent :
      {cs : List Change} {fails : Bool} (w : Watch) (s : Server)
      → w.is_dir ≡ true
      → w.watches ≡ true
      → Delivers w.received cs fails
      → let watched = watch_server config readers w (reload_all config readers w.dir s) in
        IsCurrent config readers
          (last_bans w.dir.bans (map notified cs))
          (last_lists w.dir (map notified cs))
          watched.0
        × (goes_on config readers watched.1 ≡ fails)
  unfolding watch_server
  watched-IsCurrent {cs} w s here watches delivers =
      let t = reload_all config readers w.dir s in
      let (state, ended) = watch_loop-Delivers t delivers in
      rw (here, watches)
        (
          rw state (
              update_each-IsCurrent cs w.dir.bans w.dir t
                (reload_all-IsCurrent config readers w.dir s)),
          ended,
        )

  watch_rounds-IsCurrent :
      {rounds : List Watch} {looks : List Look} (file : File) (dir : Directory) (s : Server)
      → Looks rounds looks
      → (rounds ≡ [] → IsCurrent config readers file dir s)
      → IsCurrent config readers
          (last_bans file looks)
          (last_lists dir looks)
          (watch_rounds config readers rounds s)
  unfolding watch_rounds watch_server goes_on
  watch_rounds-IsCurrent file dir s no_round h = h refl
  watch_rounds-IsCurrent file dir s (gone {w = w} left) h =
      rw left (reload_all-IsCurrent config readers w.dir s)
  watch_rounds-IsCurrent file dir s (unwatched {w = w} here fails rest) h =
      rw (here, fails)
        (watch_rounds-IsCurrent w.dir.bans w.dir (reload_all config readers w.dir s) rest
          (λ none_left. reload_all-IsCurrent config readers w.dir s))
  watch_rounds-IsCurrent file dir s (waits {w = w} here watches delivers) h =
      let (current, ended) = watched-IsCurrent w s here watches delivers in rw ended current
  watch_rounds-IsCurrent file dir s
        (rescans {w = w} {cs = cs} {looks = looks} here watches delivers rest) h =
      let (current, ended) = watched-IsCurrent w s here watches delivers in
      rw ended (
        rw (last_bans-append w.dir.bans (map notified cs) looks) (
          rw (last_lists-append w.dir (map notified cs) looks)
            (watch_rounds-IsCurrent _ _ _ rest (λ none_left. current))))

  watch_files-watch_rounds :
      (place : Text) (rounds : List Watch) (s : Server)
      → server_directory config ≡ some place
      → watch_files config readers true rounds s ≡ watch_rounds config readers rounds s
  unfolding watch_files
  watch_files-watch_rounds place rounds s placed =
      ap
        (λ (o : Option Text). if is_some o && true then watch_rounds config readers rounds s else s)
        placed

  -- If a server directory is configured and there, then whatever the file watcher looks at, in
  -- however many rounds, the server's bans are those of the ban list that it looked at last and the
  -- whitelist is that of the directory that it looked at last for it, each if the configuration
  -- uses it and as far as the files could be loaded; and nothing else of the server is changed.
  pub watch_files-IsCurrent :
      (place : Text) (w : Watch) (later : List Watch) (looks : List Look) (s : Server)
      → server_directory config ≡ some place
      → Looks (w ∷ later) (scanned w.dir ∷ looks)
      → let t = watch_files config readers true (w ∷ later) s in
        IsCurrent config readers (last_bans w.dir.bans looks) (last_lists w.dir looks) t
        × IsReread config readers s t
  watch_files-IsCurrent place w later looks s placed looked = (
    rw (watch_files-watch_rounds place (w ∷ later) s placed)
        (watch_rounds-IsCurrent w.dir.bans w.dir s looked (λ none_left. ground (arith, none_left))),
    watch_files-IsReread config readers true (w ∷ later) s,
  )
