-- ===== src/Run/Connrate.antt =====
-- The connector worker of src/run/engine.rs: `connrate_client_loop`. A reading of the flag takes
-- place at the state's `at`; backing off and pinning the thread leave no trace.
pub mod Counts
use scg_seshat.Prelude.{
  ℕ, ◌+◌, ◌%◌, ◌^◌, Bool, true, false, Option, none, some, List, if◌then◌else◌,
}
use scg_seshat.Prelude.Float.{FloatOps}
use scg_seshat.Prelude.Loop.{Round, again, leave, Exit, loop}
use scg_seshat.Metrics.Flow as Flow
use scg_seshat.Metrics.Flow.{FlowMetrics, record_message}
use scg_seshat.Run.{World, is_done, is_measuring}

-- The trait `ConnFactory`: the nanoseconds of a handshake, or `none` if it failed.
pub record ConnFactory (S : Type 0) : Type 0 where
  pub connect_once : S → Option ℕ × S

pub record Connector (F S : Type 0) : Type 0 where
  pub factory : S
  pub metrics : FlowMetrics F
  pub seq : ℕ
  pub first_hs_ns : Option ℕ
  pub second_hs_ns : Option ℕ
  pub at : ℕ

-- The account, the first handshake's time and the second's.
abbrev pub Outcome : Type 0 → Type 0
Outcome F = FlowMetrics F × Option ℕ × Option ℕ

-- `if first.is_none() { first = .. } else if second.is_none() { second = .. }`
unfoldable pub track : Option ℕ → Option ℕ → ℕ → Option ℕ × Option ℕ
track none second ns = (some ns, second)
track (some a) none ns = (some a, some ns)
track (some a) (some b) ns = (some a, some b)

module _ {F S : Type 0} (fl : FloatOps F) (ops : ConnFactory S) (w : World) where
  unfoldable pub connected : Connector F S → Bool → Option ℕ → Connector F S
  connected s measuring none = s
  connected s false (some ns) = s
  connected s true (some ns) =
      let (first, second) = track s.first_hs_ns s.second_hs_ns ns in
      record s {
        metrics = record_message fl s.metrics s.seq ns 0;
        first_hs_ns = first;
        second_hs_ns = second;
        seq = (s.seq + 1) % 2 ^ 64;
      }

  unfoldable pub connect_round : Connector F S → Round (Connector F S) (Outcome F)
  connect_round s =
      let (o, factory) = ops.connect_once s.factory in
      if is_done (w.phase s.at)
      then leave (s.metrics, s.first_hs_ns, s.second_hs_ns)
      else again (
          connected (record s { factory = factory; at = s.at + 1 }) (is_measuring (w.phase s.at)) o)

  unfoldable pub connrate_client_loop : ℕ → S → Exit (Outcome F)
  connrate_client_loop fuel factory = loop connect_round fuel (record {
    factory = factory;
    metrics = Flow.new fl;
    seq = 0;
    first_hs_ns = none;
    second_hs_ns = none;
    at = 0;
  })
