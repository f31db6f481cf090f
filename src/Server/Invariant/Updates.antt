-- ===== src/Server/Invariant/Updates.antt =====
-- The invariant, and that a change of state keeps it (src/server.rs).
use plexsoftware.Prelude.{
  ℕ, ◌≡◌, refl, ap, ◌∙◌, Bool, true, false, List, [], ◌∷◌, some, is_some, ltb, arith, ◌⊎◌, inl, inr,
  Bool-cases,
}
use plexsoftware.Config.{Config}
use plexsoftware.Server.State.{State, stopped, starting, started, stopping, eq_state}
use plexsoftware.Server.Model.{
  Server, default, announce, exchanged, update_state_from, update_state,
}

-- Whether a server in the first state may next be in the second.
abbrev pub may_follow : State → State → Bool
may_follow stopped starting = true
may_follow stopped started = true
may_follow starting started = true
may_follow starting stopping = true
may_follow starting stopped = true
may_follow started stopping = true
may_follow started stopped = true
may_follow stopping stopped = true
may_follow _ _ = false

abbrev pub last_sent : List State → State
last_sent [] = stopped
last_sent (s ∷ ss) = s

-- Each state that was announced may follow the one before it; the first follows `stopped`.
abbrev pub IsHistory : List State → Type 0
IsHistory [] = Unit
IsHistory (new ∷ older) = (may_follow (last_sent older) new ≡ true) × IsHistory older

-- Whether the configuration limits the time in a state.
abbrev pub is_timed : Config → State → Bool
is_timed config starting = ltb 0 config.server.start_timeout
is_timed config stopping = ltb 0 config.server.stop_timeout
is_timed config stopped = false
is_timed config started = false

pub record WellFormed (config : Config) (s : Server) : Type 0 where
  pub announced : last_sent s.sent ≡ s.state
  pub history : IsHistory s.sent
  pub deadline : is_some s.kill_at ≡ is_timed config s.state
  pub active : s.state ≡ started → is_some s.last_active ≡ true

pub eq_state-eq : (a b : State) → eq_state a b ≡ true → a ≡ b
eq_state-eq a b e = ground arith

new_state :
    (a b : State)
    → eq_state a b ≡ false
    → (eq_state a b ≡ true) ⊎ (may_follow a b ≡ true)
    → may_follow a b ≡ true
new_state a b other allowed = ground arith

module _ (config : Config) where
  pub default-WellFormed : WellFormed config default
  default-WellFormed = ground arith

  module _ (now : ℕ) where
    announce-WellFormed :
        (new : State) (t : Server)
        → t.state ≡ new
        → IsHistory t.sent
        → may_follow (last_sent t.sent) new ≡ true
        → WellFormed config (announce config now new t)
    unfolding announce
    announce-WellFormed stopped t e past allowed = ground arith
    announce-WellFormed starting t e past allowed = ground arith
    announce-WellFormed started t e past allowed = ground arith
    announce-WellFormed stopping t e past allowed = ground arith

    same_state-WellFormed :
        (new : State) (s : Server)
        → s.state ≡ new
        → WellFormed config s
        → WellFormed config (record s { state = new })
    same_state-WellFormed new s e wf = record {
      announced = wf.announced ∙ e;
      history = wf.history;
      deadline = wf.deadline ∙ ap (is_timed config) e;
      active = λ h. wf.active (e ∙ h);
    }

    exchanged-WellFormed :
        (new : State) (s : Server)
        → (eq_state s.state new ≡ true) ⊎ (may_follow s.state new ≡ true)
        → WellFormed config s
        → WellFormed config (exchanged config now s.state new s).0
    unfolding exchanged
    exchanged-WellFormed new s allowed wf = elim (Bool-cases (eq_state s.state new)) [
      | inl same ↦ rw same (same_state-WellFormed new s (eq_state-eq s.state new same) wf)
      | inr other ↦ rw other (
          announce-WellFormed new (record s { state = new }) refl wf.history
            (rw (wf.announced) (new_state s.state new other allowed)))
    ]

    pub update_state-WellFormed :
        (new : State) (s : Server)
        → (eq_state s.state new ≡ true) ⊎ (may_follow s.state new ≡ true)
        → WellFormed config s
        → WellFormed config (update_state config now new s).0
    unfolding update_state update_state_from
    update_state-WellFormed new s allowed wf = exchanged-WellFormed new s allowed wf

    pub update_state_from-WellFormed :
        (from new : State) (s : Server)
        → may_follow from new ≡ true
        → WellFormed config s
        → WellFormed config (update_state_from config now (some from) new s).0
    unfolding update_state_from
    update_state_from-WellFormed from new s allowed wf = elim (Bool-cases (eq_state s.state from)) [
      | inl same ↦
          rw same
            (exchanged-WellFormed new s (inr (ground (arith, eq_state-eq s.state from same))) wf)
      | inr other ↦ rw other wf
    ]
