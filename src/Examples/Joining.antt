-- ===== src/Examples/Joining.antt =====
-- The theorems on joining clients and on the watched files, at concrete inputs.
use plexsoftware.Prelude.{◌≡◌, ◌↔◌, refl, [], ◌∷◌, none, some, true, false, ok}
use plexsoftware.Prelude.Strings.{codes}
use plexsoftware.Mc.Ban.{BannedIp}
use plexsoftware.Mc.Properties.{File}
use plexsoftware.Server.State.{starting, started, stopping}
use plexsoftware.Server.Model.{default, ban_entry}
use plexsoftware.Service.{ProxyHeader, no_header}
use plexsoftware.Service.Files.{Directory, Readers, ban_file, update, ban_entry-update}
use plexsoftware.Join.{Meeting, hold_client, occupy, forwarded}
use plexsoftware.Join.Holding.{IsReady, hold_client_iff}
use plexsoftware.Join.Handover.{IsForward, occupy-IsForward}
use plexsoftware.Examples.Codec.{wire}
use plexsoftware.Server.Stop.{start}
use plexsoftware.Server.Model.{is_banned_ip}
use plexsoftware.Status.{Host, handle}
use plexsoftware.Status.Admission.{unnamed_login_starts}
use plexsoftware.Examples.Data.{
  config, packets, handed_on, host, dates, world_at, login_packet, login_frame, logging_in,
}

hold_client_iff_example :
    (hold_client (starting ∷ started ∷ stopping ∷ []) ≡ true)
    ↔ IsReady (starting ∷ started ∷ stopping ∷ [])
hold_client_iff_example = hold_client_iff (starting ∷ started ∷ stopping ∷ [])

-- The server is starting, and comes up while the client is held.
abbrev meeting : Meeting
meeting = record {
  server = λ n. record default { state = starting };
  observed = starting ∷ started ∷ [];
  closes = true;
  serves_lobby = true;
}

let_in :
    occupy wire packets config meeting handed_on.client (1 ∷ 2 ∷ []) (2 ∷ []) handed_on.out
    ≡ ok (forwarded no_header config.server.address (1 ∷ 2 ∷ []))
unfolding occupy plexsoftware.Service.not_none
let_in = refl

occupy-IsForward_example : IsForward config meeting (1 ∷ 2 ∷ []) config.server.address (1 ∷ 2 ∷ [])
occupy-IsForward_example =
    occupy-IsForward wire packets config meeting handed_on.client (1 ∷ 2 ∷ []) (2 ∷ [])
      handed_on.out no_header config.server.address (1 ∷ 2 ∷ []) let_in

abbrev banned_entry : BannedIp
banned_entry = record { ip = 7; created = none; source = none; expires = none; reason = none }

abbrev readers : Readers
readers = record {
  bans_json = λ s. some (banned_entry ∷ []);
  users = record { whitelist_users = λ s. none; op_users = λ s. none };
  to_lowercase = λ s. s;
}

abbrev missing : File
missing = record { is_file = false; contents = none }

abbrev directory : Directory
directory = record { bans = missing; whitelist = missing; ops = missing; properties = missing }

ban_entry-update_example :
    ban_entry 7 (
      update config readers directory ban_file
        (record { is_file = true; contents = some (codes "[]") })
        default)
    ≡ some banned_entry
ban_entry-update_example =
    ban_entry-update config readers directory (codes "[]") (banned_entry ∷ []) 7 default refl refl

-- No name of a login packet can be decoded.
abbrev nameless : Host
nameless = record host { packets = record packets { decode_login_start = λ bs. none } }

unbanned : is_banned_ip dates 1 7 default ≡ false
unfolding is_banned_ip plexsoftware.Mc.Ban.is_banned
unbanned = refl

unnamed_login_starts_example :
    (handle config nameless (world_at 1) login_packet login_frame default logging_in).0
    ≡ (start config (world_at 1) default).0
unnamed_login_starts_example =
    unnamed_login_starts config nameless (world_at 1) login_packet login_frame default logging_in
      refl refl refl refl unbanned
