-- ===== src/Join/Holding.antt =====
-- When a held client is let through (src/join/hold.rs).
use plexsoftware.Prelude.{ℕ, zero, suc, ◌≡◌, refl, ap, ◌↔◌, List, [], ◌∷◌, ◌++◌, true, arith}
use plexsoftware.Server.State.{State, stopped, starting, started, stopping}
use plexsoftware.Join.{hold_client}

-- So many times `starting`.
abbrev pub waits : ℕ → List State
waits zero = []
waits (suc n) = starting ∷ waits n

-- What a held client must see: nothing but `starting`, then `started`.
pub record IsReady (observed : List State) : Type 0 where
  pub rounds : ℕ
  pub later : List State
  pub seen : observed ≡ waits rounds ++ started ∷ later

hold_client-IsReady : (observed : List State) → hold_client observed ≡ true → IsReady observed
unfolding hold_client
hold_client-IsReady [] h = ground (arith, h)
hold_client-IsReady (starting ∷ later) h =
    let ready = hold_client-IsReady later h in
    record { rounds = suc ready.rounds; later = ready.later; seen = ap (◌∷◌ starting) ready.seen }
hold_client-IsReady (started ∷ later) h = record { rounds = 0; later = later; seen = refl }
hold_client-IsReady (stopping ∷ later) h = ground (arith, h)
hold_client-IsReady (stopped ∷ later) h = ground (arith, h)

waits-hold_client : (n : ℕ) (later : List State) → hold_client (waits n ++ started ∷ later) ≡ true
unfolding hold_client
waits-hold_client zero later = refl
waits-hold_client (suc n) later = waits-hold_client n later

-- A held client is let through exactly if what its receiver sees before the timeout is any number
-- of `starting`, and then `started`.
pub hold_client_iff : (observed : List State) → (hold_client observed ≡ true) ↔ IsReady observed
hold_client_iff observed = (
  hold_client-IsReady observed,
  λ ready. rw ready.seen (waits-hold_client ready.rounds ready.later),
)
