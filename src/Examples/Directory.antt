-- ===== src/Examples/Directory.antt =====
-- The theorems on the files of the server's directory at concrete inputs.
use plexsoftware.Prelude.{ℕ, All, ◌≡◌, refl, List, [], ◌∷◌, none, some, true, Text, arith}
use plexsoftware.Prelude.Strings.{codes, trim, split_once, join}
use plexsoftware.Prelude.Strings.Lines.{IsLine-split_once, IsLine, line_end}
use plexsoftware.Mc.Properties.{Changes, File, remove_entry, rewrite_lines, read_property}
use plexsoftware.Mc.Properties.Entries.{IsKey}
use plexsoftware.Mc.Properties.Printing.{OnOneLine}
use plexsoftware.Mc.Properties.Files.{rewrite_file, changes_for, prepare_rcon, invoke}
use plexsoftware.Mc.Properties.RoundTrip.{read_property-rewrite_file}
use plexsoftware.Service.Files.{Directory, Readers, ban_file}
use plexsoftware.Service.Watching.{Change, changes, hung_up, Watch, watch_files}
use plexsoftware.Service.Looks.{
  Look, scanned, notified, sender_gone, delivered, Looks, no_round, rescans, last_bans, last_lists,
}
use plexsoftware.Service.Current.{watch_files-IsCurrent}
use plexsoftware.Service.Updated.{IsCurrent}
use plexsoftware.Service.Reread.{IsReread}
use plexsoftware.Config.{Config}
use plexsoftware.Mc.Properties.Start.{IsShown, read_property-invoke}
use plexsoftware.Examples.Data.{config, running}

abbrev contents : List Text
contents = codes "# server-port=1" ∷ [] ∷ codes " server-port =25565" ∷ codes "motd=a=b" ∷ []

abbrev to_lowercase : Text → Text
to_lowercase s = s

abbrev new_entries : Changes
new_entries = (codes "server-port", codes "25566 ") ∷ (codes "view-distance", codes "5") ∷ []

server_port-IsKey : IsKey to_lowercase (codes "server-port")
unfolding split_once trim
server_port-IsKey = record {
  plain = refl;
  trimmed = refl;
  lower = refl;
  no_comment = λ e. ground (arith, e);
}

view_distance-IsKey : IsKey to_lowercase (codes "view-distance")
unfolding split_once trim
view_distance-IsKey = record {
  plain = refl;
  trimmed = refl;
  lower = refl;
  no_comment = λ e. ground (arith, e);
}

listed : (remove_entry (codes "server-port") new_entries).0 ≡ some (codes "25566 ")
unfolding remove_entry
listed = refl

on_one_line : All OnOneLine new_entries
unfolding split_once
on_one_line = (
  (IsLine-split_once (codes "server-port") refl, IsLine-split_once (codes "25566 ") refl),
  ((IsLine-split_once (codes "view-distance") refl, IsLine-split_once (codes "5") refl), tt),
)

read_property-rewrite_file_example :
    read_property to_lowercase
      (rewrite_file to_lowercase true new_entries
        (record { is_file = true; contents = some (join line_end contents) }))
      (codes "server-port")
    ≡ some (trim (codes "25566 "))
read_property-rewrite_file_example =
    read_property-rewrite_file to_lowercase (λ s. refl) (codes "server-port") (codes "25566 ")
      new_entries server_port-IsKey (server_port-IsKey, (view_distance-IsKey, tt)) on_one_line
      listed (join line_end contents)

-- The key of the line stays as it was written.
rewritten :
    (rewrite_lines to_lowercase contents new_entries).0
    ≡ codes "# server-port=1" ∷ [] ∷ codes " server-port =25566 " ∷ codes "motd=a=b" ∷ []
unfolding rewrite_lines split_once trim
rewritten = refl

abbrev readers : Readers
readers = record {
  bans_json = λ s. some [];
  users = record { whitelist_users = λ s. none; op_users = λ s. none };
  to_lowercase = to_lowercase;
}

abbrev ban_list : File
ban_list = record { is_file = true; contents = some [] }

abbrev directory : Directory
directory = record { bans = ban_list; whitelist = ban_list; ops = ban_list; properties = ban_list }

abbrev ban_change : Change
ban_change = record { dir = directory; name = ban_file; file = ban_list }

abbrev watch : Watch
watch = record {
  dir = directory;
  is_dir = true;
  watches = true;
  received = changes (ban_change ∷ []) ∷ hung_up ∷ [];
}

abbrev placed : Config
placed = record config { server = record config.server { directory = some (codes "server") } }

-- The bans and the whitelist are used.
abbrev guarded : Config
guarded = record placed {
  server = record placed.server { block_banned_ips = true; wake_whitelist = true };
}

abbrev seen : List Look
seen = notified ban_change ∷ scanned directory ∷ notified ban_change ∷ []

all_seen : Looks (watch ∷ watch ∷ []) (scanned directory ∷ seen)
all_seen =
    rescans refl refl (delivered sender_gone) (rescans refl refl (delivered sender_gone) no_round)

watch_files-IsCurrent_example :
    let t = watch_files guarded readers true (watch ∷ watch ∷ []) running in
    IsCurrent guarded readers (last_bans directory.bans seen) (last_lists directory seen) t
    × IsReread guarded readers running t
watch_files-IsCurrent_example =
    watch_files-IsCurrent guarded readers (codes "server") watch (watch ∷ []) seen running refl
      all_seen

abbrev show_ip : ℕ → Text
show_ip n = codes "127.0.0.1"

abbrev show_number : ℕ → Text
show_number n = codes "25566"

shown : IsShown to_lowercase show_ip show_number
unfolding split_once
shown = record {
  lower_comment = λ s. refl;
  lower_lower = λ s lower. refl;
  ip_line = λ n. IsLine-split_once (codes "127.0.0.1") refl;
  number_line = λ n. IsLine-split_once (codes "25566") refl;
}

password-IsLine : IsLine (prepare_rcon to_lowercase (codes "secret") placed).rcon.password
unfolding split_once prepare_rcon
password-IsLine =
    IsLine-split_once (prepare_rcon to_lowercase (codes "secret") placed).rcon.password refl

asked_for :
    (remove_entry (codes "server-port") (
      changes_for to_lowercase show_ip show_number
        (prepare_rcon to_lowercase (codes "secret") placed))).0
    ≡ some (codes "25566")
unfolding remove_entry changes_for
asked_for = refl

read_property-invoke_example :
    read_property to_lowercase
      (invoke to_lowercase show_ip show_number (codes "secret") placed (record {
        is_dir = true;
        properties = record { is_file = true; contents = some (join line_end contents) };
        writable = true;
      })).1.properties
      (codes "server-port")
    ≡ some (trim (codes "25566"))
read_property-invoke_example =
    read_property-invoke to_lowercase show_ip show_number shown (codes "secret") (codes "server")
      (join line_end contents) (codes "server-port") (codes "25566") placed refl refl
      password-IsLine asked_for
