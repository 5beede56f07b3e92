-- ===== src/Run.antt =====
-- The workers of the run engine (src/run/engine.rs) and what they observe of their surroundings:
-- the phase flag, which the main thread sets, and the monotonic clock. Readings are numbered by
-- the worker that makes them.
pub mod Sender
pub mod Receiver
pub mod Saturation
pub mod Scenario
pub mod Connrate
pub mod Calibrate
pub mod PingPong
pub mod Echo
pub mod EndToEnd
mod Tests
use scg_seshat.Prelude.{ℕ, ◌^◌, ◌≤◌, ◌<◌, ◌≡◌, Bool, true, false}

-- The values `PHASE_WARMUP` to `PHASE_DONE` of the flag.
pub data Phase : Type 0 where
  warmup measure cooldown done : Phase

abbrev pub is_done : Phase → Bool
is_done Phase.done = true
is_done _ = false

abbrev pub is_measuring : Phase → Bool
is_measuring Phase.measure = true
is_measuring _ = false

pub record World : Type 0 where
  -- what reading number `t` of the flag yields
  pub phase : ℕ → Phase
  -- what reading number `t` of the clock yields
  pub clock : ℕ → ℕ

-- The run is over from reading `limit` on.
abbrev pub EndsBy : World → ℕ → Type 0
EndsBy w limit = (t : ℕ) → limit ≤ t → w.phase t ≡ Phase.done

-- The clock counts in `u64`.
abbrev pub Readable : World → Type 0
Readable w = (t : ℕ) → w.clock t < 2 ^ 64
