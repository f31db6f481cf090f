-- ===== src/Server/Lifecycle.antt =====
-- Starting, freezing and stopping the server (src/server.rs).
use plexsoftware.Prelude.{
  ℕ, ◌≡◌, refl, ap, ◌∙◌, ◌≢◌, ◌⊎◌, inl, inr, Bool, true, false, ◌&&◌, ◌∷◌, Option, none, some,
  arith, Bool-cases,
}
use plexsoftware.Config.{Config}
use plexsoftware.Server.State.{
  State, stopped, starting, started, stopping, eq_state, sigcont, sigstop,
}
use plexsoftware.Server.Model.{Server, update_state_from, update_state, announce}
use plexsoftware.Server.Stop.{
  World, refused, unfrozen, returned, start, stop, unfreeze_server_signal, unfreeze_process,
  unfreeze, unix_signal, move_from, freeze_server_signal, freeze_process, freeze,
}
use plexsoftware.Server.Invariant.Updates.{eq_state-eq}
use plexsoftware.Server.Process.{invoke_cleanup}

-- What an exchange of the state leaves alone.
exchange_pid :
    (config : Config) (now : ℕ) (from new : State) (s : Server)
    → (update_state_from config now (some from) new s).0.pid ≡ s.pid
unfolding update_state_from
exchange_pid config now from starting s = ground arith
exchange_pid config now from _ s = ground arith

exchange_signals :
    (config : Config) (now : ℕ) (from new : State) (s : Server)
    → (update_state_from config now (some from) new s).0.signals ≡ s.signals
unfolding update_state_from
exchange_signals config now from starting s = ground arith
exchange_signals config now from _ s = ground arith

announce_state :
    (config : Config) (now : ℕ) (new : State) (s : Server)
    → (announce config now new s).state ≡ s.state
unfolding announce
announce_state config now starting s = refl
announce_state config now stopped s = refl
announce_state config now started s = refl
announce_state config now stopping s = refl

eq_state-ne : (a b : State) → eq_state a b ≡ false → a ≢ b
eq_state-ne a b e = ground arith

update_state_stops :
    (config : Config) (now : ℕ) (s : Server) → (update_state config now stopped s).0.state ≡ stopped
unfolding update_state update_state_from
update_state_stops config now s = ground arith

-- A compare-and-exchange between two states succeeds exactly in the first, and else does nothing.
data Exchanged (config : Config) (now : ℕ) (from new : State) (s : Server) : Type 0 where
  won :
      s.state ≡ from
      → (update_state_from config now (some from) new s).1 ≡ true
      → (update_state_from config now (some from) new s).0.state ≡ new
      → Exchanged config now from new s
  lost :
      s.state ≢ from
      → update_state_from config now (some from) new s ≡ (s, false)
      → Exchanged config now from new s

exchange-Exchanged :
    (config : Config) (now : ℕ) (from new : State) (s : Server)
    → eq_state from new ≡ false
    → Exchanged config now from new s
unfolding update_state_from
exchange-Exchanged config now from new s differ = elim (Bool-cases (eq_state s.state from)) [
  | inl same ↦
      let here = eq_state-eq s.state from same in
      let fresh : eq_state s.state new ≡ false = ap (λ (t : State). eq_state t new) here ∙ differ in
      won here (simp (same, fresh)) (simp (same, fresh, announce_state))
  | inr other ↦ lost (eq_state-ne s.state from other) (simp other)
]

module _ (config : Config) (world : World) where
  -- Once the server is starting, waking its process is the signal alone.
  unfreeze_process_lem :
      (pid : ℕ) (s : Server)
      → s.state ≡ starting
      → unfreeze_process config world (some pid) s
        ≡ (record s { signals = (pid, sigcont) ∷ s.signals }, true)
  unfolding unfreeze_process unfreeze unix_signal move_from update_state_from
  unfreeze_process_lem pid s claimed = simp claimed

  unfreeze_process_state :
      (o : Option ℕ) (s : Server)
      → s.state ≡ starting
      → (unfreeze_process config world o s).0.state ≡ starting
  unfreeze_process_state none s claimed = unfold unfreeze_process in claimed
  unfreeze_process_state (some pid) s claimed =
      ap (λ (r : Server × Bool). r.0.state) (unfreeze_process_lem pid s claimed) ∙ claimed

  -- `start` succeeds exactly on a stopped server, which is then starting; on any other server it
  -- changes nothing.
  pub start_lem :
      (s : Server)
      → ((s.state ≡ stopped)
          × (returned (start config world s).1 ≡ true)
          × ((start config world s).0.state ≡ starting))
        ⊎ ((s.state ≢ stopped) × (start config world s ≡ (s, refused)))
  unfolding start unfreeze_server_signal
  start_lem s = elim (exchange-Exchanged config world.now stopped starting s refl) [
    | won here hit now_starting ↦
        let claimed = (update_state_from config world.now (some stopped) starting s).0 in
        let woken = unfreeze_process_state claimed.pid claimed now_starting in
        inl (here, ground (arith, hit), ground (arith, hit, now_starting, woken))
    | lost elsewhere same ↦ inr (elsewhere, simp same)
  ]

  freeze_process_lem :
      (pid : ℕ) (s : Server)
      → s.state ≡ started
      → freeze_process config world (some pid) s ≡ (
        record s {
          state = stopped;
          sent = stopped ∷ s.sent;
          kill_at = none;
          signals = (pid, sigstop) ∷ s.signals;
        },
        true,
      )
  unfolding freeze_process freeze unix_signal move_from update_state_from
  freeze_process_lem pid s up = simp up

  stop_freezes :
      (s : Server) (pid : ℕ)
      → config.server.freeze_process ≡ true
      → s.pid ≡ some pid
      → s.state ≡ started
      → stop config world s ≡ (
        record s {
          state = stopped;
          sent = stopped ∷ s.sent;
          kill_at = none;
          signals = (pid, sigstop) ∷ s.signals;
        },
        true,
      )
  unfolding stop freeze_server_signal
  stop_freezes s pid freezes known up =
      let frozen =
        ap (λ (o : Option ℕ). freeze_process config world o s) known
        ∙ freeze_process_lem pid s up in
      simp (freezes, frozen)

  start_thaws :
      (s : Server) (pid : ℕ)
      → config.server.freeze_process ≡ true
      → s.pid ≡ some pid
      → s.state ≡ stopped
      → let (woken, result) = start config world s in
        (result ≡ unfrozen)
        × (woken.state ≡ starting)
        × (woken.pid ≡ some pid)
        × (woken.signals ≡ (pid, sigcont) ∷ s.signals)
  unfolding start unfreeze_server_signal
  start_thaws s pid freezes known down =
      elim (exchange-Exchanged config world.now stopped starting s refl) [
        | won here hit now_starting ↦
            let claimed = (update_state_from config world.now (some stopped) starting s).0 in
            let same_pid = exchange_pid config world.now stopped starting s ∙ known in
            let same_signals = exchange_signals config world.now stopped starting s in
            let woken =
              ap (λ (o : Option ℕ). unfreeze_process config world o claimed) same_pid
              ∙ unfreeze_process_lem pid claimed now_starting in
            (
              simp (hit, freezes, woken),
              simp (hit, freezes, woken, now_starting),
              simp (hit, freezes, woken) same_pid,
              simp (hit, freezes, woken) (ap (◌∷◌ (pid, sigcont)) same_signals),
            )
        | lost elsewhere same ↦ absurd (elsewhere down)
      ]

module _ (config : Config) (world later : World) where
  -- Of two calls of `start` in a row, with nothing between, the second is refused and changes
  -- nothing, whatever the first one did.
  pub start_twice :
      (s : Server)
      → start config later (start config world s).0 ≡ ((start config world s).0, refused)
  start_twice s = elim (start_lem config world s) [
    | inl (was, hit, is) ↦ elim (start_lem config later (start config world s).0) [
      | inl (again, _, _) ↦ cc
      | inr (_, same) ↦ same
    ]
    | inr (other, same) ↦ elim (start_lem config later s) [
      | inl (here, _, _) ↦ absurd (other here)
      | inr (_, still) ↦ simp (same, still)
    ]
  ]

  -- Freezing a running server whose process is known stops it without ending the process, and the
  -- next `start` wakes that process in place of spawning another.
  pub start-stop_frozen :
      (s : Server) (pid : ℕ)
      → config.server.freeze_process ≡ true
      → s.pid ≡ some pid
      → s.state ≡ started
      → let (frozen, stopping_now) = stop config world s in
        let (woken, result) = start config later frozen in
        (stopping_now ≡ true)
        × (frozen.state ≡ stopped)
        × (result ≡ unfrozen)
        × (woken.state ≡ starting)
        × (woken.pid ≡ some pid)
        × (woken.signals ≡ (pid, sigcont) ∷ (pid, sigstop) ∷ s.signals)
  start-stop_frozen s pid freezes known up =
      let frozen = stop_freezes config world s pid freezes known up in
      let (a, b, c, d) =
        start_thaws config later
          (record s {
            state = stopped;
            sent = stopped ∷ s.sent;
            kill_at = none;
            signals = (pid, sigstop) ∷ s.signals;
          })
          pid freezes known refl in
      rw frozen (refl, refl, a, b, c, d)

-- After the process of a server has ended the server is stopped, and if it crashed and the
-- configuration wants that, it is started at once.
pub invoke_cleanup_lem :
    (config : Config) (world : World) (crashed : Bool) (s : Server)
    → ((crashed && config.server.wake_on_crash) ≡ true)
        × (returned (invoke_cleanup config world crashed s).1 ≡ true)
        × ((invoke_cleanup config world crashed s).0.state ≡ starting)
      ⊎ ((crashed && config.server.wake_on_crash) ≡ false)
        × ((invoke_cleanup config world crashed s).1 ≡ refused)
        × ((invoke_cleanup config world crashed s).0.state ≡ stopped)
unfolding invoke_cleanup
invoke_cleanup_lem config world crashed s =
    let down = update_state_stops config world.now s in
    elim (Bool-cases (crashed && config.server.wake_on_crash)) [
      | inl again ↦ elim (start_lem config world (update_state config world.now stopped s).0) [
        | inl (_, hit, up) ↦ inl (again, simp (again, hit), simp (again, up))
        | inr (other, _) ↦ absurd (other down)
      ]
      | inr done ↦ inr (done, simp done, simp (done, down))
    ]
