-- ===== src/Server/Timers.antt =====
-- When the server is put to sleep, and when it is killed (src/server.rs).
use plexsoftware.Prelude.{
  ℕ, ◌+◌, ◌-◌, ◌<◌, ◌≤◌, ◌≡◌, refl, ◌⊎◌, inl, inr, ◌↔◌, true, false, Option, none, some, arith,
  Bool-cases, Option-cases, ltb, leb, unwrap_or, map_some,
}
use plexsoftware.Config.{Config}
use plexsoftware.Server.State.{State, stopped, starting, started, stopping, eq_state}
use plexsoftware.Server.Model.{
  Server, ServerStatus, update_state_from, update_state, exchanged, announce, update_status, detect,
  store_status, should_sleep, should_kill, from_secs,
}

-- What `should_sleep` stands for: the server runs, nobody is known to be on it, it need not be kept
-- online any longer, and its last activity is long enough ago.
pub record MaySleep (config : Config) (now : ℕ) (s : Server) : Type 0 where
  pub running : s.state ≡ started
  pub deserted : (status : ServerStatus) → s.status ≡ some status → status.online ≡ 0
  pub expired : (until : ℕ) → s.keep_online_until ≡ some until → until < now
  pub idle :
      (last : ℕ) × (s.last_active ≡ some last) × (from_secs config.time.sleep_after ≤ now - last)

module _ (config : Config) (now : ℕ) (s : Server) where
  -- The server is put to sleep in no other case.
  pub should_sleep-MaySleep : should_sleep config now s ≡ true → MaySleep config now s
  unfolding should_sleep
  should_sleep-MaySleep h = record {
    running = ground arith;
    deserted = λ status e. ground arith;
    expired = λ until e. ground arith;
    idle = elim (Option-cases s.last_active) [
      | inl never ↦ ground (arith, never)
      | inr (last, e) ↦ (last, e, ground (arith, e))
    ];
  }

  nobody_online :
      (o : Option ServerStatus)
      → ((status : ServerStatus) → o ≡ some status → status.online ≡ 0)
      → unwrap_or (map_some (λ (status : ServerStatus). ltb 0 status.online) o) false ≡ false
  nobody_online none h = refl
  nobody_online (some status) h = ground (arith, h status refl)

  not_kept :
      (o : Option ℕ)
      → ((until : ℕ) → o ≡ some until → until < now)
      → unwrap_or (map_some (λ i. leb now i) o) false ≡ false
  not_kept none h = refl
  not_kept (some until) h = ground (arith, h until refl)

  -- In that case it always is.
  pub MaySleep-should_sleep : MaySleep config now s → should_sleep config now s ≡ true
  unfolding should_sleep
  MaySleep-should_sleep m = ground (
    arith,
    m.running,
    m.idle,
    nobody_online s.status m.deserted,
    not_kept s.keep_online_until m.expired,
  )

  -- `should_sleep` decides `MaySleep`.
  pub should_sleep_iff : (should_sleep config now s ≡ true) ↔ MaySleep config now s
  should_sleep_iff = (should_sleep-MaySleep, MaySleep-should_sleep)

-- What the record holds of a server that was just found to be up.
record IsFresh (config : Config) (now : ℕ) (s : Server) : Type 0 where
  up : s.state ≡ started
  active : s.last_active ≡ some now
  kept :
      0 < config.time.min_online_time
      → s.keep_online_until ≡ some (now + from_secs config.time.min_online_time)

module _ (config : Config) (now : ℕ) (status : ServerStatus) where
  update_state-IsFresh :
      (s : Server)
      → eq_state s.state started ≡ false
      → IsFresh config now (update_state config now started s).0
  unfolding update_state update_state_from exchanged announce
  update_state-IsFresh s other =
      rw other (record { up = refl; active = refl; kept = λ h. ground (arith, h) })

  detect-IsFresh :
      (s : Server)
      → (s.state ≡ stopped) ⊎ (s.state ≡ starting)
      → IsFresh config now (detect config now s.state (some status) s)
  unfolding detect
  detect-IsFresh s down = found s.state down (λ e. e)
    where
      found :
          (here : State)
          → (here ≡ stopped) ⊎ (here ≡ starting)
          → ((eq_state here started ≡ false) → eq_state s.state started ≡ false)
          → IsFresh config now (detect config now here (some status) s)
      found stopped h other = update_state-IsFresh s (other refl)
      found starting h other = update_state-IsFresh s (other refl)
      found started h other = ground (arith, h)
      found stopping h other = ground (arith, h)

  store_status-IsFresh :
      (s : Server)
      → IsFresh config now s
      → IsFresh config now (store_status config now (some status) s)
  unfolding store_status
  store_status-IsFresh s fresh = elim (Bool-cases (ltb 0 status.online)) [
    | inl busy ↦ rw busy (record { up = fresh.up; active = refl; kept = fresh.kept })
    | inr idle ↦ rw idle (record { up = fresh.up; active = fresh.active; kept = fresh.kept })
  ]

  IsFresh-should_sleep :
      (later : ℕ) (s : Server)
      → IsFresh config now s
      → (later - now < from_secs config.time.sleep_after)
        ⊎ ((0 < config.time.min_online_time)
            × (later ≤ now + from_secs config.time.min_online_time))
      → should_sleep config later s ≡ false
  IsFresh-should_sleep later s fresh soon = elim (Bool-cases (should_sleep config later s)) [
    | inr awake ↦ awake
    | inl asleep ↦ absurd (refuted (should_sleep-MaySleep config later s asleep) soon)
  ]
    where
      refuted :
          MaySleep config later s
          → (later - now < from_secs config.time.sleep_after)
            ⊎ ((0 < config.time.min_online_time)
                × (later ≤ now + from_secs config.time.min_online_time))
          → ⊥
      refuted m (inl early) =
          let (last, known, long) = m.idle in ground (arith, known, long, fresh.active)
      refuted m (inr (some_time, early)) =
          omega
            (arith, m.expired (now + from_secs config.time.min_online_time) (fresh.kept some_time))

  -- A server that is found to be up is not put to sleep before the configured time without activity
  -- has passed, nor within the time for which it is kept online, whatever its record held before.
  pub update_status-not_idle :
      (later : ℕ) (s : Server)
      → (s.state ≡ stopped) ⊎ (s.state ≡ starting)
      → (later - now < from_secs config.time.sleep_after)
        ⊎ ((0 < config.time.min_online_time)
            × (later ≤ now + from_secs config.time.min_online_time))
      → (should_sleep config later (update_status config now (some status) s) ≡ false)
        × ((update_status config now (some status) s).state ≡ started)
  unfolding update_status
  update_status-not_idle later s down soon =
      let found = detect config now s.state (some status) s in
      let fresh = store_status-IsFresh found (detect-IsFresh s down) in
      (
        IsFresh-should_sleep later (store_status config now (some status) found) fresh soon,
        fresh.up,
      )

-- When the deadline of a state that was entered at `now` has come.
abbrev pub IsOverdue : Config → ℕ → ℕ → State → Type 0
IsOverdue config now later starting =
    (0 < config.server.start_timeout) × (now + from_secs config.server.start_timeout ≤ later)
IsOverdue config now later stopping =
    (0 < config.server.stop_timeout) × (now + from_secs config.server.stop_timeout ≤ later)
IsOverdue config now later stopped = ⊥
IsOverdue config now later started = ⊥

overdue :
    (config : Config) (now later : ℕ) (new : State) (s : Server)
    → (should_kill later (announce config now new s) ≡ true) ↔ IsOverdue config now later new
unfolding should_kill announce
overdue config now later starting s = ground arith
overdue config now later stopping s = ground arith
overdue config now later stopped s = ground arith
overdue config now later started s = ground arith

-- After a change of state the server is due to be killed exactly if the new state is one of
-- starting and stopping, a timeout is configured for it, and has passed.
pub should_kill-update_state_from :
    (config : Config) (now later : ℕ) (from : Option State) (new : State) (s : Server)
    → (update_state_from config now from new s).1 ≡ true
    → (should_kill later (update_state_from config now from new s).0 ≡ true)
      ↔ IsOverdue config now later new
unfolding update_state_from exchanged
should_kill-update_state_from config now later none new s done =
    elim (Bool-cases (eq_state s.state new)) [
      | inl same ↦ ground (arith, same)
      | inr other ↦ rw other (overdue config now later new (record s { state = new }))
    ]
should_kill-update_state_from config now later (some from) new s done =
    elim (Bool-cases (eq_state s.state from)) [
      | inr elsewhere ↦ ground (arith, elsewhere)
      | inl here ↦ elim (Bool-cases (eq_state s.state new)) [
        | inl same ↦ ground (arith, here, same)
        | inr other ↦ rw (here, other) (overdue config now later new (record s { state = new }))
      ]
    ]
