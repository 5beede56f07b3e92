-- ===== src/Config/Report.antt =====
-- What validation reports (src/config/mod.rs). A message is a constructor with what its text quotes.
use scg_seshat.Prelude.{ℕ, suc, Bool, true, ◌&&◌, Option, List, [], ◌∷◌, ◌++◌, if◌then◌else◌}
use scg_seshat.Prelude.Text.{is_empty}
use Prim.Native.String.{String}
use scg_seshat.Config.Schema.{Interface, ProtocolType, ReloadAction, TopologyMode}

-- The field a message speaks of: `sender`, or `streams[i]`.
pub data Context : Type 0 where
  sender : Context
  streams : ℕ → Context

pub data SuiteError : Type 0 where
  name_empty version_empty runs_zero confidence_level sample_rate_zero : SuiteError
  duplicate_name : String → SuiteError

pub data Problem : Type 0 where
  name_empty no_traffic wireguard_needs_udp ipsec_stub custom_needs_provider ktls_needs_tls :
      Problem
  bad_host_port bad_tproxy : Context → String → Problem
  unix_not_absolute bad_shm : Context → Problem
  needs_interval needs_burst_count needs_ramp : Problem
  needs_gateway : Interface → Problem
  tls_version dtls_version : Problem
  dtls_needs_udp : Interface → Problem
  app_needs_udp app_needs_tls comparison_empty : Problem
  saturation_not_finite saturation_start saturation_step saturation_max : Problem
  stream_message_size stream_interval stream_connections : ℕ → Problem
  stream_traffic_class : ℕ → String → Problem
  stream_interface : ℕ → Interface → Problem
  streams_need_gateway : Problem
  streams_protocol : ProtocolType → Problem
  zero_copy resumption reload_needs_gateway : Problem
  perf_profile : String → Problem
  certificates_protocol server_cert_alone server_key_alone client_cert_alone client_key_alone
        mutual_bundle :
      Problem

pub data Warning : Type 0 where
  latency_bufferbloat : Warning
  unknown_dscp : ℕ → String → Warning
  stream_protocol : ℕ → ProtocolType → ProtocolType → Warning
  reload_payload : ReloadAction → Warning
  topology_setup : TopologyMode → Warning
  client_cert_ignored : Warning

pub data Note : Type 0 where
  skip : Option String → Note
  streams : ℕ → Note
  reload_event : ReloadAction → Note

pub record ScenarioReport : Type 0 where
  pub name : String
  pub enabled : Bool
  pub errors : List Problem
  pub warnings : List Warning
  pub notes : List Note

abbrev pub scenario_ok : ScenarioReport → Bool
scenario_ok r = is_empty r.errors

pub record ValidationReport : Type 0 where
  pub suite_errors : List SuiteError
  pub scenarios : List ScenarioReport

unfoldable pub all_ok : List ScenarioReport → Bool
all_ok [] = true
all_ok (r ∷ rs) = is_empty r.errors && all_ok rs

unfoldable pub ok : ValidationReport → Bool
ok v = is_empty v.suite_errors && all_ok v.scenarios

unfoldable pub enabled_in : List ScenarioReport → ℕ
enabled_in [] = 0
enabled_in (r ∷ rs) = let n = enabled_in rs in if r.enabled then suc n else n

unfoldable pub enabled_count : ValidationReport → ℕ
enabled_count v = enabled_in v.scenarios

-- `if test { r.errors.push(e) }`, and so for warnings; a note.
abbrev pub error_if : Bool → Problem → ScenarioReport → ScenarioReport
error_if b e r = if b then record r { errors = r.errors ++ e ∷ [] } else r

abbrev pub warn_if : Bool → Warning → ScenarioReport → ScenarioReport
warn_if b w r = if b then record r { warnings = r.warnings ++ w ∷ [] } else r

abbrev pub add_note : Note → ScenarioReport → ScenarioReport
add_note n r = record r { notes = r.notes ++ n ∷ [] }
