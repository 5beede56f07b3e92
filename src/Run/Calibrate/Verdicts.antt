-- ===== src/Run/Calibrate/Verdicts.antt =====
-- The verdicts of src/run/calibrate.rs.
use scg_seshat.Prelude.{
  ◌≡◌, ◌↔◌, ◌⊎◌, Bool, true, false, not, ◌&&◌, ◌||◌, Option, none, some, arith,
}
use scg_seshat.Prelude.Float.{FloatMath}
use scg_seshat.Run.Calibrate.{
  CpuSignals, Bottleneck, scg_cpu, scg, host_saturated, harness_io, headroom, headroom_min,
  pool_saturated, thread_saturated, host_is_saturated, classify_host, classify_headroom, classify,
  for_signals,
}

module _ {F : Type 0} (fm : FloatMath F) where
  open fm.ops use {lt, le}

  -- The gateway is known to be at its limit.
  unfoldable pub gateway_busy : Option (CpuSignals F) → Bool
  gateway_busy none = false
  gateway_busy (some c) = pool_saturated fm c || thread_saturated fm c

  unfoldable pub host_busy : Option (CpuSignals F) → Bool
  host_busy none = false
  host_busy (some c) = host_is_saturated fm c

  -- The harness has its margin.
  unfoldable pub has_margin : F → F → Bool
  has_margin ceiling measured = le (headroom_min fm) (headroom fm ceiling measured)

  -- The table of verdicts: a busy gateway explains the result, then a margin, then a busy host.
  unfoldable pub verdict_of : Bool → Bool → Bool → Bool × Bottleneck
  verdict_of true margin host = (false, scg_cpu)
  verdict_of false true host = (false, scg)
  verdict_of false false true = (true, host_saturated)
  verdict_of false false false = (true, harness_io)

  pub classify-eq-verdict_of :
      (ceiling measured : F) (cpu : Option (CpuSignals F))
      → classify fm ceiling measured cpu
        ≡ verdict_of (gateway_busy cpu) (has_margin ceiling measured) (host_busy cpu)
  unfolding classify classify_headroom classify_host gateway_busy host_busy has_margin verdict_of
  classify-eq-verdict_of ceiling measured none = ground arith
  classify-eq-verdict_of ceiling measured (some c) = ground arith

  -- A result through the gateway is marked as limited by the harness exactly if neither the
  -- gateway's pool nor its hottest thread is saturated and the headroom is below the margin, or no
  -- number; and exactly if the bottleneck named is the saturated host or the harness.
  pub for_signals-harness_limited :
      (ceiling measured : F) (cpu : Option (CpuSignals F))
      → let c = for_signals fm ceiling measured cpu in
        (c.harness_limited ≡ (not (gateway_busy cpu) && not (has_margin ceiling measured)))
        × ((c.harness_limited ≡ true)
            ↔ ((c.bottleneck ≡ host_saturated) ⊎ (c.bottleneck ≡ harness_io)))
  unfolding for_signals verdict_of
  for_signals-harness_limited ceiling measured cpu =
      rw (classify-eq-verdict_of ceiling measured cpu)
        (cases (gateway_busy cpu) (has_margin ceiling measured) (host_busy cpu))
    where
      cases :
          (busy margin host : Bool)
          → let v = verdict_of busy margin host in
            (v.0 ≡ (not busy && not margin))
            × ((v.0 ≡ true) ↔ ((v.1 ≡ host_saturated) ⊎ (v.1 ≡ harness_io)))
      cases busy margin host = ground arith
