-- ===== src/Workload/Dscp.antt =====
-- Marks of the traffic class: the conversions of src/workload/dscp.rs and `DscpObservation` of
-- src/workload/streams.rs.
pub mod Verdict
use mathlib.Core.List.{foldl}
use scg_seshat.Prelude.{
  ℕ, ◌+◌, ◌*◌, ◌/◌, ◌%◌, Bool, Option, none, some, List, ltb, ◌==◌, if◌then◌else◌,
}
use scg_seshat.Workload.Pacer.{saturating_add}

-- `dscp << 2` and `tos >> 2` on bytes
unfoldable pub dscp_to_tos : ℕ → ℕ
dscp_to_tos dscp = dscp * 4 % 256

unfoldable pub tos_to_dscp : ℕ → ℕ
tos_to_dscp tos = tos / 4

pub record DscpObservation : Type 0 where
  pub observed : ℕ
  pub matched : ℕ

-- `DscpObservation::default()`
abbrev pub nothing_seen : DscpObservation
nothing_seen = record { observed = 0; matched = 0 }

unfoldable pub record_tos : ℕ → DscpObservation → ℕ → DscpObservation
record_tos expected seen tos = record {
  observed = saturating_add seen.observed 1;
  matched = if tos_to_dscp tos == expected then saturating_add seen.matched 1 else seen.matched;
}

unfoldable pub verdict : DscpObservation → Option Bool
verdict seen = if ltb 0 seen.observed then some (seen.matched == seen.observed) else none

-- What the receive loop has seen after these TOS bytes.
unfoldable pub seen_all : ℕ → DscpObservation → List ℕ → DscpObservation
seen_all expected = foldl (record_tos expected)
