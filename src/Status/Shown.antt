-- ===== src/Status/Shown.antt =====
-- What a player sees in the server list behind a poll of the monitor (src/status.rs,
-- src/server.rs).
use plexsoftware.Prelude.{ℕ, ◌≡◌, ◌≢◌, refl, some, ltb, Bool-cases, inl, inr}
use plexsoftware.Config.{Config}
use plexsoftware.Mc.Favicon.{Icons}
use plexsoftware.Proto.Client.{ClientInfo}
use plexsoftware.Server.State.{State, stopped, starting, started, stopping, eq_state}
use plexsoftware.Server.Model.{
  Server, ServerStatus, update_status, detect, store_status, update_state, update_state_from,
  exchanged, announce,
}
use plexsoftware.Status.Answer.{IconFile, choose_status, server_status}

module _ (config : Config) (icons : Icons) (icon : IconFile) (info : ClientInfo) (now : ℕ) where
  update_state_up : (s : Server) → (update_state config now started s).0.state ≡ started
  unfolding update_state update_state_from exchanged announce
  update_state_up s = elim (Bool-cases (eq_state s.state started)) [
    | inl same ↦ rw same refl
    | inr other ↦ rw other refl
  ]

  detect_up :
      (here : State) (status : ServerStatus) (s : Server)
      → s.state ≡ here
      → here ≢ stopping
      → (detect config now here (some status) s).state ≡ started
  unfolding detect
  detect_up stopped status s e other = update_state_up s
  detect_up starting status s e other = update_state_up s
  detect_up started status s e other = e
  detect_up stopping status s e other = absurd (other refl)

  store_status_shown :
      (status : ServerStatus) (s : Server)
      → s.state ≡ started
      → server_status config icons icon info (store_status config now (some status) s) ≡ status
  unfolding store_status server_status choose_status
  store_status_shown status s up = elim (Bool-cases (ltb 0 status.online)) [
    | inl busy ↦ simp (busy, up)
    | inr idle ↦ simp (idle, up)
  ]

  -- Once the monitor has a status of a server that is not stopping, that status is what a player is
  -- shown, with its players and its icon.
  pub server_status-update_status :
      (status : ServerStatus) (s : Server)
      → s.state ≢ stopping
      → server_status config icons icon info (update_status config now (some status) s) ≡ status
  unfolding update_status
  server_status-update_status status s up =
      store_status_shown status (detect config now s.state (some status) s)
        (detect_up s.state status s refl up)
