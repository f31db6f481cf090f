-- ===== src/Join.antt =====
-- src/join: what is done with a client that logs in while the server does not run yet.
pub mod Holding
pub mod Handover
use plexsoftware.Prelude.{
  ℕ, suc, Bool, true, false, ◌&&◌, not, List, [], ◌∷◌, Option, none, some, Outcome, ok, err, panic,
  ◌>>=◌, ◌>>◌, assert, if◌then◌else◌, is_some, unwrap_or, Text,
}
use plexsoftware.Types.{Wire}
use plexsoftware.Config.{Config, SocketAddr, Method, hold, forward, lobby}
use plexsoftware.Config
use plexsoftware.Proto.Client.{Client, login, state_eq}
use plexsoftware.Proto.Action.{Packets, Outbound}
use plexsoftware.Proto.Action
use plexsoftware.Server.State.{State, stopped, starting, started, stopping, eq_state}
use plexsoftware.Server.Model.{Server}
use plexsoftware.Service.{ProxyHeader, proxy_header, not_none}

-- What becomes of the stream in the end: it is closed behind the packets that were written, it is
-- forwarded with the bytes to send first, or the lobby takes it with its queue.
pub data Fate : Type 0 where
  closed_after : List (List ℕ) → Fate
  forwarded : ProxyHeader → SocketAddr → List ℕ → Fate
  in_lobby : List ℕ → Fate

-- `MethodResult`, with what became of the stream that was consumed.
pub data MethodResult : Type 0 where
  consumed : Fate → MethodResult
  continued : MethodResult

-- What the methods meet: the server when the n-th method looks at it, the states that the held
-- client's receiver sees until the timeout, whether closing the stream and the lobby succeed.
pub record Meeting : Type 0 where
  pub server : ℕ → Server
  pub observed : List State
  pub closes : Bool
  pub serves_lobby : Bool

-- `if ok { Ok(()) } else { Err(()) }`.
abbrev pub succeed : Bool → Outcome (Unit {0})
succeed true = ok tt
succeed false = err

-- `task_wait`; `none` when the timeout comes first.
unfoldable pub task_wait : List State → Option Bool
task_wait [] = none
task_wait (starting ∷ later) = task_wait later
task_wait (started ∷ later) = some true
task_wait (stopping ∷ later) = some false
task_wait (stopped ∷ later) = some false

unfoldable pub hold_client : List State → Bool
unfolding task_wait
hold_client observed = unwrap_or (task_wait observed) false

unfoldable pub occupy_hold : Config → Meeting → Server → List ℕ → MethodResult
unfolding hold_client
occupy_hold config meeting s history =
    if not (eq_state s.state starting)
    then continued
    else if hold_client meeting.observed
    then consumed (
        forwarded (not_none proxy_header config.server.send_proxy_v2) config.server.address history)
    else continued

abbrev pub kick_message : Config → State → Text
kick_message config starting = config.join.kick.starting
kick_message config stopped = config.join.kick.starting
kick_message config started = config.join.kick.starting
kick_message config stopping = config.join.kick.stopping

unfoldable pub occupy_forward : Config → List ℕ → MethodResult
occupy_forward config history = consumed (
    forwarded (not_none proxy_header config.join.forward.send_proxy_v2) config.join.forward.address
      history)

unfoldable pub must_still_probe : Config → Server → Bool
must_still_probe config s = config.server.forge && not (is_some s.probed_join_game)

unfoldable pub occupy_lobby : Config → Meeting → Server → List ℕ → Outcome MethodResult
unfolding must_still_probe
occupy_lobby config meeting s queue =
    if must_still_probe config s
    then ok continued
    else (do succeed meeting.serves_lobby; ok (consumed (in_lobby queue)))

-- The `match` on the result of a method, where the loop goes on with `rest`.
unfoldable pub after_method : Outcome Fate → Outcome MethodResult → Outcome Fate
after_method rest (ok (consumed fate)) = ok fate
after_method rest (ok continued) = rest
after_method rest err = err
after_method rest panic = panic

module _ (w : Wire) (packets : Packets) (config : Config) (meeting : Meeting)
    (client : Client) where
  unfoldable pub occupy_kick : Server → Outbound → Outcome MethodResult
  occupy_kick s out = do
    sent ← Action.kick w packets client (kick_message config s.state) out
    succeed meeting.closes
    ok (consumed (closed_after sent.written))

  module _ (history login_queue : List ℕ) (out : Outbound) where
    unfoldable pub occupy_method : Method → Server → Outcome MethodResult
    unfolding occupy_kick occupy_hold occupy_forward occupy_lobby
    occupy_method Config.kick s = occupy_kick s out
    occupy_method hold s = ok (occupy_hold config meeting s history)
    occupy_method forward s = ok (occupy_forward config history)
    occupy_method lobby s = occupy_lobby config meeting s login_queue

    -- The loop over the methods, from the n-th one on.
    unfoldable pub occupy_from : ℕ → List Method → Outcome Fate
    unfolding occupy_method after_method
    occupy_from n [] = do succeed meeting.closes; ok (closed_after out.written)
    occupy_from n (method ∷ methods) =
        after_method (occupy_from (suc n) methods) (occupy_method method (meeting.server n))

    unfoldable pub occupy : Outcome Fate
    unfolding occupy_from
    occupy = do assert (state_eq client.state login); occupy_from 0 config.join.methods
