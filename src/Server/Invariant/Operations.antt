-- ===== src/Server/Invariant/Operations.antt =====
-- Every operation on the server keeps the invariant (src/server.rs).
use plexsoftware.Prelude.{
  ℕ, ◌≡◌, refl, sym, ◌∙◌, Bool, true, false, ◌&&◌, List, [], ◌∷◌, Option, none, some, ltb, arith,
  ◌⊎◌, inl, inr, Bool-cases,
}
use plexsoftware.Config.{Config}
use plexsoftware.Server.State.{
  State, stopped, starting, started, stopping, eq_state, Signal, sigkill, sigterm, sigstop, sigcont,
}
use plexsoftware.Server.Model.{
  Server, ServerStatus, update_state_from, update_state, detect, store_status, update_status,
  set_banned_ips, set_whitelist,
}
use plexsoftware.Server.Stop.{
  signal_stop, stop_process, freeze_process, unfreeze_process, force_kill_process, World, move_from,
  stop_server_rcon, stop_server_signal, freeze_server_signal, unfreeze_server_signal, stop, start,
  force_kill, freeze, unfreeze, kill_gracefully, unix_signal, os_force_kill,
}
use plexsoftware.Server.Process.{invoke_exit, invoke_cleanup}
use plexsoftware.Server.Events.{
  Event, polled, start_called, stop_called, force_killed, process_spawned, process_ended,
  cleaned_up, bans_loaded, whitelist_loaded, probed, payload_recorded, apply, run,
}
use plexsoftware.Server.Invariant.Updates.{
  WellFormed, may_follow, update_state-WellFormed, update_state_from-WellFormed, eq_state-eq,
}

to_stopped : (s : State) → (eq_state s stopped ≡ true) ⊎ (may_follow s stopped ≡ true)
to_stopped stopped = inl refl
to_stopped _ = inr refl

module _ (config : Config) where
  -- The invariant speaks of four fields only.
  framed :
      (s t : Server)
      → t.state ≡ s.state
      → t.sent ≡ s.sent
      → t.kill_at ≡ s.kill_at
      → t.last_active ≡ s.last_active
      → WellFormed config s
      → WellFormed config t
  framed s t same_state same_sent same_kill same_active wf = record {
    announced = rw (same_sent, same_state) wf.announced;
    history = rw same_sent wf.history;
    deadline = rw (same_kill, same_state) wf.deadline;
    active = λ h. rw same_active (wf.active (sym same_state ∙ h));
  }

  detect-WellFormed :
      (now : ℕ) (status : Option ServerStatus) (s : Server)
      → WellFormed config s
      → WellFormed config (detect config now s.state status s)
  detect-WellFormed now status s wf = go s.state status refl
    where
      go :
          (state : State) (status : Option ServerStatus)
          → s.state ≡ state
          → WellFormed config (detect config now state status s)
      go stopped (some st) e =
          unfold detect in update_state-WellFormed config now started s (inr (rw e)) wf
      go starting (some st) e =
          unfold detect in update_state-WellFormed config now started s (inr (rw e)) wf
      go started none e =
          unfold detect in update_state-WellFormed config now stopped s (inr (rw e)) wf
      go stopped none e = unfold detect in wf
      go starting none e = unfold detect in wf
      go started (some st) e = unfold detect in wf
      go stopping none e = unfold detect in wf
      go stopping (some st) e = unfold detect in wf

  store_status-WellFormed :
      (now : ℕ) (status : Option ServerStatus) (s : Server)
      → WellFormed config s
      → WellFormed config (store_status config now status s)
  unfolding store_status
  store_status-WellFormed now none s wf = wf
  store_status-WellFormed now (some status) s wf = elim (Bool-cases (ltb 0 status.online)) [
    | inl busy ↦ rw busy (record {
      announced = wf.announced;
      history = wf.history;
      deadline = wf.deadline;
      active = λ _. refl;
    })
    | inr idle ↦ rw idle (framed s (record s { status = some status }) refl refl refl refl wf)
  ]

  move_from-WellFormed :
      (world : World) (first second new : State) (s : Server)
      → may_follow first new ≡ true
      → may_follow second new ≡ true
      → WellFormed config s
      → WellFormed config (move_from config world first second new s)
  unfolding move_from
  move_from-WellFormed world first second new s one two wf =
      update_state_from-WellFormed config world.now second new
        (update_state_from config world.now (some first) new s).0 two
        (update_state_from-WellFormed config world.now first new s one wf)

  signalled :
      (pid : ℕ) (signal : Signal) (s : Server)
      → WellFormed config s
      → WellFormed config (record s { signals = (pid, signal) ∷ s.signals })
  signalled pid signal s wf =
      framed s (record s { signals = (pid, signal) ∷ s.signals }) refl refl refl refl wf

  module _ (world : World) where
    rcon-WellFormed :
        (s : Server)
        → eq_state s.state started ≡ true
        → WellFormed config s
        → WellFormed config (stop_server_rcon config world s).0
    unfolding stop_server_rcon
    rcon-WellFormed s up wf =
        let asked = record s { rcon_last_stop = some world.now } in
        let told : WellFormed config (update_state config world.now stopping asked).0 =
          update_state-WellFormed config world.now stopping asked
            (inr (ground (arith, eq_state-eq s.state started up)))
            (framed s asked refl refl refl refl wf) in
        ground (arith, told)

    signal_stop-WellFormed :
        (r : Server × Bool)
        → WellFormed config r.0
        → WellFormed config (signal_stop config world r).0
    unfolding signal_stop
    signal_stop-WellFormed (s, false) wf = wf
    signal_stop-WellFormed (s, true) wf =
        move_from-WellFormed world starting started stopping s refl refl wf

    stop_process-WellFormed :
        (o : Option ℕ) (s : Server)
        → WellFormed config s
        → WellFormed config (stop_process config world o s).0
    unfolding stop_process kill_gracefully
    stop_process-WellFormed none s wf = wf
    stop_process-WellFormed (some pid) s wf =
        signal_stop-WellFormed (unix_signal world pid sigterm s)
          (unfold unix_signal in signalled pid sigterm s wf)

    freeze_process-WellFormed :
        (o : Option ℕ) (s : Server)
        → WellFormed config s
        → WellFormed config (freeze_process config world o s).0
    unfolding freeze_process freeze unix_signal
    freeze_process-WellFormed none s wf = wf
    freeze_process-WellFormed (some pid) s wf =
        move_from-WellFormed world starting started stopped
          (record s { signals = (pid, sigstop) ∷ s.signals }) refl refl (signalled pid sigstop s wf)

    -- The state was set to `starting` before, so neither exchange finds the state that it wants.
    unfreeze_process-WellFormed :
        (o : Option ℕ) (s : Server)
        → s.state ≡ starting
        → WellFormed config s
        → WellFormed config (unfreeze_process config world o s).0
    unfolding unfreeze_process unfreeze unix_signal move_from update_state_from
    unfreeze_process-WellFormed none s claimed wf = wf
    unfreeze_process-WellFormed (some pid) s claimed wf =
        let woken = signalled pid sigcont s wf in ground (arith, woken)

    stop-WellFormed : (s : Server) → WellFormed config s → WellFormed config (stop config world s).0
    unfolding stop freeze_server_signal stop_server_signal
    stop-WellFormed s wf =
        let frozen = freeze_process-WellFormed s.pid s wf in
        let signalled' = stop_process-WellFormed s.pid s wf in
        elim (Bool-cases
          (config.server.freeze_process && (freeze_process config world s.pid s).1)) [
            | inl by_freeze ↦ rw by_freeze frozen
            | inr still ↦
                elim (Bool-cases
                  (eq_state s.state started && (stop_server_rcon config world s).1)) [
                    | inl by_rcon ↦
                        rw (still, by_rcon) (rcon-WellFormed s (ground (arith, by_rcon)) wf)
                    | inr other ↦ rw (still, other) signalled'
                  ]
          ]

    claim-WellFormed :
        (s : Server)
        → WellFormed config s
        → WellFormed config (update_state_from config world.now (some stopped) starting s).0
    claim-WellFormed s wf = update_state_from-WellFormed config world.now stopped starting s refl wf

    claimed_state :
        (s : Server)
        → (update_state_from config world.now (some stopped) starting s).1 ≡ true
        → (update_state_from config world.now (some stopped) starting s).0.state ≡ starting
    unfolding update_state_from
    claimed_state s won = ground arith

    start-WellFormed :
        (s : Server) → WellFormed config s → WellFormed config (start config world s).0
    unfolding start unfreeze_server_signal
    start-WellFormed s wf =
        let claimed = (update_state_from config world.now (some stopped) starting s).0 in
        let kept = claim-WellFormed s wf in
        elim (Bool-cases (update_state_from config world.now (some stopped) starting s).1) [
          | inl won ↦
              let woken =
                unfreeze_process-WellFormed claimed.pid claimed (claimed_state s won) kept in
              elim (Bool-cases (
                config.server.freeze_process
                && (unfreeze_process config world claimed.pid claimed).1)) [
                  | inl thawed ↦ rw (won, thawed) woken
                  | inr cold ↦ rw (won, cold) kept
                ]
          | inr lost ↦ rw lost kept
        ]

    cleanup-WellFormed :
        (crashed : Bool) (s : Server)
        → WellFormed config s
        → WellFormed config (invoke_cleanup config world crashed s).0
    unfolding invoke_cleanup
    cleanup-WellFormed crashed s wf =
        let down = update_state-WellFormed config world.now stopped s (to_stopped s.state) wf in
        elim (Bool-cases (crashed && config.server.wake_on_crash)) [
          | inl again ↦ rw again (start-WellFormed (update_state config world.now stopped s).0 down)
          | inr done ↦ rw done down
        ]

  force_kill_process-WellFormed :
      (world : World) (o : Option ℕ) (s : Server)
      → WellFormed config s
      → WellFormed config (force_kill_process config world o s).0
  unfolding force_kill_process os_force_kill unix_signal
  force_kill_process-WellFormed world none s wf = wf
  force_kill_process-WellFormed world (some pid) s wf = signalled pid sigkill s wf

  -- Every operation of every task keeps the server well formed.
  pub apply-WellFormed :
      (e : Event) (s : Server) → WellFormed config s → WellFormed config (apply config e s)
  unfolding apply update_status force_kill force_kill_process invoke_exit set_banned_ips
      set_whitelist
  apply-WellFormed (polled now status) s wf =
      store_status-WellFormed now status (detect config now s.state status s)
        (detect-WellFormed now status s wf)
  apply-WellFormed (start_called world) s wf = start-WellFormed world s wf
  apply-WellFormed (stop_called world) s wf = stop-WellFormed world s wf
  apply-WellFormed (force_killed world) s wf = force_kill_process-WellFormed world s.pid s wf
  apply-WellFormed (process_spawned pid) s wf =
      framed s (record s { pid = some pid }) refl refl refl refl wf
  apply-WellFormed (process_ended result) s wf =
      framed s (record s { pid = none }) refl refl refl refl wf
  apply-WellFormed (cleaned_up world crashed) s wf = cleanup-WellFormed world crashed s wf
  apply-WellFormed (bans_loaded ips) s wf =
      framed s (record s { banned_ips = ips }) refl refl refl refl wf
  apply-WellFormed (whitelist_loaded whitelist) s wf =
      framed s (record s { whitelist = whitelist }) refl refl refl refl wf
  apply-WellFormed (probed game) s wf =
      framed s (record s { probed_join_game = some game }) refl refl refl refl wf
  apply-WellFormed (payload_recorded payload) s wf =
      framed s (record s { forge_payload = payload }) refl refl refl refl wf

  -- Whatever operations the tasks make, in whatever order, on a well formed server leave it well
  -- formed: the announced states follow one another as the state machine allows, the last one is
  -- its state, a deadline for its death is set in exactly the states that the configuration limits,
  -- and a started server has a time of last activity.
  pub run-WellFormed :
      (es : List Event) (s : Server) → WellFormed config s → WellFormed config (run config es s)
  unfolding run
  run-WellFormed [] s wf = wf
  run-WellFormed (e ∷ es) s wf = run-WellFormed es (apply config e s) (apply-WellFormed e s wf)
