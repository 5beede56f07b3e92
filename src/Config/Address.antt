-- ===== src/Config/Address.antt =====
-- `validate_addr` and the checks of one sender (src/config/mod.rs).
use scg_seshat.Prelude.{Bool, true, false, not, ◌&&◌, ◌||◌, none, some}
use scg_seshat.Prelude.Text.{
  is_none, is_some, is_empty, codes, trim, rsplit_once, strip_prefix, parse_u16,
}
use Prim.Native.String.{String}
use scg_seshat.Config.Schema.{
  Interface, Pattern, ProtocolType, TlsVersion, AppProtocol, Sender, Gateway, Scenario,
}
use scg_seshat.Config.Kinds.{same_interface, same_kind}
use scg_seshat.Config.Report.{Context, Problem, ScenarioReport, error_if}

-- Accept host:port where host is a name and port is numeric.
unfoldable pub is_host_port : String → Bool
is_host_port addr = elim (rsplit_once b':' (codes addr)) [
  | none ↦ false
  | some (host, port) ↦ not (is_empty host) && is_some (parse_u16 port)
]

abbrev starts_with_slash : String → Bool
starts_with_slash addr = is_some (strip_prefix (codes "/") (codes addr))

-- `strip_prefix("shm:///").map(str::is_empty).unwrap_or(true)`
abbrev is_shm_nameless : String → Bool
is_shm_nameless addr = elim (strip_prefix (codes "shm:///") (codes addr)) [
  | none ↦ true
  | some name ↦ is_empty name
]

-- The first argument tells whether the standard library parses a text as a `SocketAddr`.
unfoldable pub validate_addr :
    (String → Bool) → Interface → String → Context → ScenarioReport → ScenarioReport
validate_addr parses Interface.tcp addr ctx r =
    error_if (not (parses addr) && not (is_host_port addr)) (Problem.bad_host_port ctx addr) r
validate_addr parses Interface.udp addr ctx r =
    error_if (not (parses addr) && not (is_host_port addr)) (Problem.bad_host_port ctx addr) r
validate_addr parses Interface.unix addr ctx r =
    error_if (not (starts_with_slash addr)) (Problem.unix_not_absolute ctx) r
validate_addr parses Interface.shm addr ctx r =
    error_if (is_shm_nameless addr) (Problem.bad_shm ctx) r
validate_addr parses Interface.tproxy addr ctx r =
    error_if (not (parses addr) && not (is_host_port addr)) (Problem.bad_tproxy ctx addr) r

unfoldable pub validate_pattern : {F : Type 0} → Sender F → ScenarioReport → ScenarioReport
validate_pattern sender r = elim sender.pattern [
  | Pattern.sustained ↦ r
  | Pattern.periodic ↦ error_if (is_none sender.interval_us) Problem.needs_interval r
  | Pattern.burst ↦ error_if (is_none sender.burst_count) Problem.needs_burst_count r
  | Pattern.ramp ↦
      error_if
        (is_none sender.ramp_start_mbps
          || is_none sender.ramp_step_mbps
          || is_none sender.ramp_step_interval_secs)
        Problem.needs_ramp r
]

abbrev pub is_unix_or_shm : Interface → Bool
is_unix_or_shm i = same_interface i Interface.unix || same_interface i Interface.shm

unfoldable pub validate_transport_needs_gateway :
    Interface → Gateway → ScenarioReport → ScenarioReport
validate_transport_needs_gateway interface gateway r =
    error_if (is_unix_or_shm interface && not gateway.enabled) (Problem.needs_gateway interface) r

abbrev pub is_v1_0 : TlsVersion → Bool
is_v1_0 v = elim v [ TlsVersion.v1_0 ↦ true | _ ↦ false ]

abbrev pub is_v1_3 : TlsVersion → Bool
is_v1_3 v = elim v [ TlsVersion.v1_3 ↦ true | _ ↦ false ]

abbrev pub no_app_protocol : AppProtocol → Bool
no_app_protocol a = elim a [ AppProtocol.none ↦ true | _ ↦ false ]

abbrev pub is_blank : String → Bool
is_blank s = is_empty (trim (codes s))

unfoldable pub validate_protocol_transport :
    {F : Type 0} → Scenario F → Interface → ScenarioReport → ScenarioReport
validate_protocol_transport s interface r =
    let kind = s.protocol.kind in
    let udp = same_interface interface Interface.udp in
    let app = not (no_app_protocol s.protocol.app_protocol) in
    let r1 : ScenarioReport = elim kind [
      | ProtocolType.tls ↦ error_if (is_v1_0 s.protocol.version) Problem.tls_version r
      | ProtocolType.dtls ↦ error_if (is_v1_3 s.protocol.version) Problem.dtls_version r
      | _ ↦ r
    ] in
    let r2 =
      error_if (same_kind kind ProtocolType.dtls && not udp) (Problem.dtls_needs_udp interface)
        r1 in
    let r3 = error_if (app && not udp) Problem.app_needs_udp r2 in
    let r4 = error_if (app && not (same_kind kind ProtocolType.tls)) Problem.app_needs_tls r3 in
    elim s.comparison [
      | none ↦ r4
      | some c ↦ error_if (is_blank c.group || is_blank c.reference) Problem.comparison_empty r4
    ]
