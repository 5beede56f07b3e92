-- ===== src/Workload/Pacer.antt =====
-- When the next message is due: `Pacer` of src/workload/sender.rs. All times are `u64` nanoseconds.
pub mod Deadlines
use mathlib.Core.Option.{get_or as unwrap_or}
use mathlib.Core.Option
use scg_seshat.Prelude.{
  ℕ, zero, suc, ◌+◌, ◌-◌, ◌*◌, ◌/◌, ◌^◌, min, max, Bool, true, false, Option, none, some, List, [],
  ◌∷◌, ◌==◌, leb, if◌then◌else◌,
}
use scg_seshat.Prelude.Float.{FloatOps}
use scg_seshat.Config.Schema.{Pattern, Sender}

abbrev pub u64_max : ℕ
u64_max = 2 ^ 64 - 1

-- `u64::saturating_add` and `u64::saturating_mul`
abbrev pub saturating_add : ℕ → ℕ → ℕ
saturating_add a b = min (a + b) u64_max

abbrev pub saturating_mul : ℕ → ℕ → ℕ
saturating_mul a b = min (a * b) u64_max

pub data PacerKind (F : Type 0) : Type 0 where
  -- `gap_ns`
  fixed : ℕ → PacerKind F
  -- `count`, `gap_ns`, `pause_ns`, `pos`
  burst : ℕ → ℕ → ℕ → ℕ → PacerKind F
  -- `message_bytes`, `start_mbps`, `step_mbps`, `step_interval_ns`
  ramp : ℕ → F → F → ℕ → PacerKind F

pub record Pacer (F : Type 0) : Type 0 where
  pub kind : PacerKind F
  pub next_ns : ℕ

module _ {F : Type 0} (fl : FloatOps F) where
  open fl use {of_nat, to_u64, add, mul, div, fmax, le}

  -- message_bits / (rate_mbps * 1e6) * 1e9
  unfoldable pub gap_ns_for_rate : ℕ → F → ℕ
  gap_ns_for_rate message_bytes rate_mbps =
      if le rate_mbps (of_nat 0)
      then 0
      else to_u64 (
          mul (div (mul (of_nat message_bytes) (of_nat 8)) (mul rate_mbps (of_nat 1000000)))
            (of_nat 1000000000))

  -- `interval_us` if it is set, else the rate limit, else no gap.
  unfoldable pub interval_gap : Sender F → ℕ → ℕ
  interval_gap sender message_bytes = elim sender.interval_us [
    | some us ↦ saturating_mul us 1000
    | none ↦ unwrap_or (Option.map (gap_ns_for_rate message_bytes) sender.rate_limit_mbps) 0
  ]

  unfoldable pub kind_for : Pattern → Sender F → ℕ → PacerKind F
  kind_for Pattern.sustained sender message_bytes =
      fixed (unwrap_or (Option.map (gap_ns_for_rate message_bytes) sender.rate_limit_mbps) 0)
  kind_for Pattern.periodic sender message_bytes = fixed (interval_gap sender message_bytes)
  kind_for Pattern.burst sender message_bytes =
      burst (max (unwrap_or sender.burst_count 1) 1) (interval_gap sender message_bytes)
        (saturating_mul (unwrap_or sender.burst_pause_us 0) 1000) 0
  kind_for Pattern.ramp sender message_bytes =
      ramp message_bytes (fmax (unwrap_or sender.ramp_start_mbps (of_nat 0)) (of_nat 0))
        (fmax (unwrap_or sender.ramp_step_mbps (of_nat 0)) (of_nat 0))
        (saturating_mul (max (unwrap_or sender.ramp_step_interval_secs 1) 1) 1000000000)

  unfoldable pub from_sender : Sender F → ℕ → Pacer F
  from_sender sender message_bytes = record {
    kind = kind_for sender.pattern sender message_bytes;
    next_ns = 0;
  }

  -- The state after a message at `deadline`.
  unfoldable pub advance : PacerKind F → ℕ → Pacer F
  advance (fixed gap_ns) deadline = record {
    kind = fixed gap_ns;
    next_ns = saturating_add deadline gap_ns;
  }
  advance (burst count gap_ns pause_ns pos) deadline =
      if leb count (pos + 1)
      then record {
        kind = burst count gap_ns pause_ns 0;
        next_ns = saturating_add (saturating_add deadline gap_ns) pause_ns;
      }
      else record {
        kind = burst count gap_ns pause_ns (pos + 1);
        next_ns = saturating_add deadline gap_ns;
      }
  advance (ramp message_bytes start_mbps step_mbps step_interval_ns) deadline =
      let rate = add start_mbps (mul step_mbps (of_nat (deadline / step_interval_ns))) in
      record {
        kind = ramp message_bytes start_mbps step_mbps step_interval_ns;
        next_ns = saturating_add deadline (gap_ns_for_rate message_bytes rate);
      }

  -- The deadline of the next message, and the pacer afterwards.
  unfoldable pub next_deadline_ns : Pacer F → ℕ × Pacer F
  next_deadline_ns p = (p.next_ns, advance p.kind p.next_ns)

  -- The pacer after `n` messages.
  unfoldable pub after : ℕ → Pacer F → Pacer F
  after zero p = p
  after (suc n) p = after n (next_deadline_ns p).1

-- A pacer with no gap between messages.
unfoldable pub is_blast : {F : Type 0} → Pacer F → Bool
is_blast p = elim p.kind [ fixed gap_ns ↦ gap_ns == 0 | _ ↦ false ]
