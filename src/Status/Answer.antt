-- ===== src/Status/Answer.antt =====
-- `server_status` and `server_favicon` of src/status.rs: the answer to a status request.
use plexsoftware.Prelude.{
  ℕ, List, [], Option, none, some, Bool, if◌then◌else◌, map_some, and_then, unwrap_or, Text,
}
use plexsoftware.Config.{Config, server_directory}
use plexsoftware.Mc.Favicon.{Icons, encode_favicon, default_favicon, supports_favicon}
use plexsoftware.Proto.Client.{ClientInfo}
use plexsoftware.Server.State.{State, stopped, starting, started, stopping}
use plexsoftware.Server.Model.{Server, ServerStatus}

-- The icon file in a directory: whether it is a file, and what reading it gives.
pub record IconFile : Type 0 where
  pub is_file : Text → Bool
  pub read : Text → Option (List ℕ)

module _ (config : Config) (icons : Icons) where
  -- When reading fails the bytes of the default icon's own address are encoded.
  unfoldable pub read_favicon : IconFile → Option Text → Text
  read_favicon icon none = default_favicon icons
  read_favicon icon (some dir) =
      if icon.is_file dir
      then encode_favicon icons (unwrap_or (icon.read dir) (default_favicon icons))
      else default_favicon icons

  unfoldable pub server_favicon : IconFile → Text
  unfolding read_favicon
  server_favicon icon = read_favicon icon (server_directory config)

  unfoldable pub state_motd : State → Text
  state_motd stopped = config.motd.sleeping
  state_motd started = config.motd.sleeping
  state_motd starting = config.motd.starting
  state_motd stopping = config.motd.stopping

  -- What a status request is answered with while the server's own status is not used: `status` is
  -- the last one known.
  unfoldable pub own_status : IconFile → ClientInfo → State → Option ServerStatus → ServerStatus
  unfolding state_motd
  own_status icon info state status = record {
    version_name =
        unwrap_or (map_some (λ (st : ServerStatus). st.version_name) status) config.public.version;
    version_protocol =
        unwrap_or (map_some (λ (st : ServerStatus). st.version_protocol) status)
          config.public.protocol;
    online = 0;
    max = unwrap_or (map_some (λ (st : ServerStatus). st.max) status) 0;
    sample = [];
    description =
        if config.motd.from_server
        then unwrap_or (map_some (λ (st : ServerStatus). st.description) status) (state_motd state)
        else state_motd state;
    favicon =
        if supports_favicon info
        then some (
            unwrap_or
              (if config.motd.from_server
                then and_then status (λ (st : ServerStatus). st.favicon)
                else none)
              (server_favicon icon))
        else none;
  }

  unfoldable pub choose_status : IconFile → ClientInfo → State → Option ServerStatus → ServerStatus
  unfolding own_status
  choose_status icon info started (some status) = status
  choose_status icon info state status = own_status icon info state status

  unfoldable pub server_status : IconFile → ClientInfo → Server → ServerStatus
  unfolding choose_status
  server_status icon info s = choose_status icon info s.state s.status
