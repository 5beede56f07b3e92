-- ===== src/Run/Calibrate.antt =====
-- Whether the harness or the gateway limits a result: src/run/calibrate.rs. The warning of a suspect
-- ceiling is a log line and leaves no trace.
pub mod Verdicts
use Prim.Native.String.{String}
use scg_seshat.Prelude.{ℕ, max, Bool, true, false, Option, none, some, if◌then◌else◌}
use scg_seshat.Prelude.Float.{FloatOps, FloatMath}

pub record CpuSignals (F : Type 0) : Type 0 where
  pub gw_pool_pct_p95 : F
  pub gw_pool_cores : ℕ
  pub gw_hot_thread_pct_p95 : F
  pub host_busy_frac_p95 : F

-- The texts of `bottleneck`, and of `dut`.
pub data Bottleneck : Type 0 where
  not_applicable scg_cpu scg host_saturated harness_io : Bottleneck

pub data Dut : Type 0 where
  loopback gateway : Dut

pub record Calibration (F : Type 0) : Type 0 where
  pub ceiling_gbps : F
  pub headroom : F
  pub harness_limited : Bool
  pub dut : Dut
  pub bottleneck : Bottleneck
  pub ceiling_transport : String

module _ {F : Type 0} (fm : FloatMath F) where
  open fm use {infinity, literal}
  open fm.ops use {of_nat, mul, div, lt, le}

  unfoldable pub headroom : F → F → F
  headroom ceiling_gbps measured_gbps =
      if le measured_gbps (of_nat 0) then infinity else div ceiling_gbps measured_gbps

  abbrev pub headroom_min : F
  headroom_min = literal 30 1

  unfoldable pub is_harness_limited : F → F → Bool
  is_harness_limited ceiling_gbps measured_gbps =
      lt (headroom ceiling_gbps measured_gbps) headroom_min

  -- The pool of cores, or the hottest thread, is saturated.
  unfoldable pub pool_saturated : CpuSignals F → Bool
  pool_saturated c =
      le (mul (literal 85 2) (mul (of_nat (max c.gw_pool_cores 1)) (of_nat 100))) c.gw_pool_pct_p95

  unfoldable pub thread_saturated : CpuSignals F → Bool
  thread_saturated c = le (literal 900 1) c.gw_hot_thread_pct_p95

  unfoldable pub host_is_saturated : CpuSignals F → Bool
  host_is_saturated c = le (literal 90 2) c.host_busy_frac_p95

  -- Behind the checks of the gateway's cores.
  unfoldable pub classify_host : Option (CpuSignals F) → Bool × Bottleneck
  classify_host none = (true, harness_io)
  classify_host (some c) =
      if host_is_saturated c then (true, host_saturated) else (true, harness_io)

  unfoldable pub classify_headroom : F → F → Option (CpuSignals F) → Bool × Bottleneck
  classify_headroom ceiling_gbps measured_gbps cpu =
      if le headroom_min (headroom ceiling_gbps measured_gbps)
      then (false, scg)
      else classify_host cpu

  unfoldable pub classify : F → F → Option (CpuSignals F) → Bool × Bottleneck
  classify ceiling_gbps measured_gbps none = classify_headroom ceiling_gbps measured_gbps none
  classify ceiling_gbps measured_gbps (some c) =
      if pool_saturated c
      then (false, scg_cpu)
      else if thread_saturated c
      then (false, scg_cpu)
      else classify_headroom ceiling_gbps measured_gbps (some c)

  unfoldable pub baseline : F → F → Calibration F
  baseline ceiling_gbps measured_gbps = record {
    ceiling_gbps = ceiling_gbps;
    headroom = headroom ceiling_gbps measured_gbps;
    harness_limited = false;
    dut = loopback;
    bottleneck = not_applicable;
    ceiling_transport = "tcp";
  }

  unfoldable pub for_signals : F → F → Option (CpuSignals F) → Calibration F
  for_signals ceiling_gbps measured_gbps cpu =
      let (limited, bottleneck) = classify ceiling_gbps measured_gbps cpu in
      record {
        ceiling_gbps = ceiling_gbps;
        headroom = headroom ceiling_gbps measured_gbps;
        harness_limited = limited;
        dut = gateway;
        bottleneck = bottleneck;
        ceiling_transport = "tcp";
      }

  unfoldable pub for_scg : F → F → Calibration F
  for_scg ceiling_gbps measured_gbps = for_signals ceiling_gbps measured_gbps none

  unfoldable pub for_scg_with_cpu : F → F → CpuSignals F → Calibration F
  for_scg_with_cpu ceiling_gbps measured_gbps cpu =
      for_signals ceiling_gbps measured_gbps (some cpu)

unfoldable pub with_transport : {F : Type 0} → Calibration F → String → Calibration F
with_transport c name = record c { ceiling_transport = name }
