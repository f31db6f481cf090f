-- ===== src/Server/Process.antt =====
-- `invoke_server_cmd` of src/server.rs: the life of the server's process, cut where it waits.
use plexsoftware.Prelude.{
  ℕ, ◌==◌, Bool, false, ◌&&◌, ◌||◌, List, [], ◌∷◌, Option, none, some, Outcome, ok, err, panic,
  ◌>>=◌, unwrap, Text, if◌then◌else◌,
}
use plexsoftware.Prelude.Int.{ℤ, pos, negsuc}
use plexsoftware.Config.{Config}
use plexsoftware.Server.State.{State, stopped, started, eq_state}
use plexsoftware.Server.Model.{Server, update_state}
use plexsoftware.Server.Stop.{World, start, StartResult, refused}

-- How waiting for the process ends: with its exit code, none if a signal ended it, or not at all.
pub data WaitResult : Type 0 where
  exited : Option ℤ → WaitResult
  wait_failed : WaitResult

-- `ALLOWED_EXIT_CODES`.
abbrev pub is_allowed : ℤ → Bool
is_allowed (pos n) = n == 130 || n == 143
is_allowed (negsuc n) = false

abbrev pub is_success : ℤ → Bool
is_success (pos n) = n == 0
is_success (negsuc n) = false

unfoldable pub has_crashed : WaitResult → State → Bool
has_crashed (exited (some c)) state =
    if is_success c || is_allowed c then false else eq_state state started
has_crashed (exited none) state = eq_state state started
has_crashed wait_failed state = false

-- The command, split by shlex; then the child's process id, or `none` where spawning fails.
abbrev pub program_of : List Text → Outcome Text
program_of [] = panic
program_of (program ∷ args) = ok program

unfoldable pub invoke_spawn :
    (Text → Option (List Text)) → Config → Option ℕ → Server → Outcome Server
invoke_spawn split config child s = do
  args ← unwrap (split config.server.command)
  program ← program_of args
  elim child [ none ↦ err | some pid ↦ ok (record s { pid = some pid }) ]

-- When the process has ended: whether it crashed, and its process id is forgotten.
unfoldable pub invoke_exit : WaitResult → Server → Server × Bool
unfolding has_crashed
invoke_exit result s = (record s { pid = none }, has_crashed result s.state)

-- After the cooldown.
unfoldable pub invoke_cleanup : Config → World → Bool → Server → Server × StartResult
invoke_cleanup config world crashed s =
    let t = (update_state config world.now stopped s).0 in
    if crashed && config.server.wake_on_crash then start config world t else (t, refused)
