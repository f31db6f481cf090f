-- ===== src/Server/State.antt =====
-- The states of the server and their codes in the `AtomicU8` (src/server.rs).
use plexsoftware.Prelude.{ℕ, zero, suc, ◌≡◌, Bool, true, false, Outcome, ok, panic, arith, ◌↔◌}

pub data State : Type 0 where
  stopped starting started stopping : State

-- The signals of src/os/mod.rs.
pub data Signal : Type 0 where
  sigkill sigterm sigstop sigcont : Signal

unfoldable pub from_u8 : ℕ → Outcome State
from_u8 zero = ok stopped
from_u8 (suc zero) = ok starting
from_u8 (suc (suc zero)) = ok started
from_u8 (suc (suc (suc zero))) = ok stopping
from_u8 (suc (suc (suc (suc n)))) = panic

unfoldable pub to_u8 : State → ℕ
to_u8 stopped = 0
to_u8 starting = 1
to_u8 started = 2
to_u8 stopping = 3

abbrev pub eq_state : State → State → Bool
eq_state stopped stopped = true
eq_state starting starting = true
eq_state started started = true
eq_state stopping stopping = true
eq_state _ _ = false

-- A code is read without a panic exactly if it was written, and then as the state that wrote it; so
-- the cell is modelled by the state that it stands for.
pub from_u8-to_u8 : (n : ℕ) (s : State) → (from_u8 n ≡ ok s) ↔ (n ≡ to_u8 s)
unfolding from_u8 to_u8
from_u8-to_u8 zero s = ground arith
from_u8-to_u8 (suc zero) s = ground arith
from_u8-to_u8 (suc (suc zero)) s = ground arith
from_u8-to_u8 (suc (suc (suc zero))) s = ground arith
from_u8-to_u8 (suc (suc (suc (suc n)))) s = ground arith
