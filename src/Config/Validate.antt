-- ===== src/Config/Validate.antt =====
-- `validate_scenario`, `validate_certificate_selection` and `validate` (src/config/mod.rs).
use scg_seshat.Prelude.{
  ℕ, ◌+◌, Bool, true, false, not, ◌&&◌, ◌||◌, Option, none, some, List, [], ◌∷◌, length, ◌==◌,
  if◌then◌else◌,
}
use scg_seshat.Prelude.Text.{is_none, is_some, is_empty, codes, eq_ignore_ascii_case}
use scg_seshat.Prelude.Float.{FloatOps}
use Prim.Native.String.{String}
use text.Mathlib.Text.{◌==◌ as str_eq}
use scg_seshat.Config.Schema.{
  Interface, Pattern, ProtocolType, ProtectionMode, TopologyMode, ReloadAction,
  CertificateSelection, Saturation, Stream, Protocol, Scenario,
}
use scg_seshat.Config.Kinds.{
  same_interface, same_pattern, same_kind, selection_is_empty, has_mutual_bundle,
  canonical_traffic_class,
}
use scg_seshat.Config.Report.{
  Context, Problem, Warning, Note, ScenarioReport, error_if, warn_if, add_note,
}
use scg_seshat.Config.Address.{
  is_blank, validate_addr, validate_pattern, validate_transport_needs_gateway,
  validate_protocol_transport,
}

-- Whether a text is one of a list of texts.
abbrev pub contains : List String → String → Bool
contains [] s = false
contains (t ∷ ts) s = str_eq t s || contains ts s

unfoldable pub is_latency_category : Option String → Bool
is_latency_category none = false
is_latency_category (some c) = eq_ignore_ascii_case (codes c) (codes "latency")

abbrev pub known_dscp : List String
known_dscp =
    "EF" ∷ "BE" ∷ "AF11" ∷ "AF12" ∷ "AF13" ∷ "AF21" ∷ "AF22" ∷ "AF23" ∷ "AF31" ∷ "AF32" ∷ "AF33"
    ∷ "AF41" ∷ "AF42" ∷ "AF43" ∷ "CS0" ∷ "CS1" ∷ "CS2" ∷ "CS3" ∷ "CS4" ∷ "CS5" ∷ "CS6" ∷ "CS7" ∷ []

unfoldable pub validate_dscp : String → ℕ → ScenarioReport → ScenarioReport
validate_dscp tag i r = warn_if (not (contains known_dscp tag)) (Warning.unknown_dscp i tag) r

-- The match on the protocol's kind, and the check of kTLS after it.
unfoldable pub validate_kind : {F : Type 0} → Scenario F → ScenarioReport → ScenarioReport
validate_kind s r =
    let r1 : ScenarioReport = elim s.protocol.kind [
      | ProtocolType.wireguard ↦ elim s.sender [
        | none ↦ r
        | some snd ↦
            error_if (not (same_interface snd.interface Interface.udp)) Problem.wireguard_needs_udp
              r
      ]
      | ProtocolType.ipsec ↦ error_if true Problem.ipsec_stub r
      | ProtocolType.custom ↦
          error_if (elim s.protocol.security_provider [ none ↦ true | some p ↦ is_blank p ])
            Problem.custom_needs_provider r
      | _ ↦ r
    ] in
    error_if (s.protocol.kernel && not (same_kind s.protocol.kind ProtocolType.tls))
      Problem.ktls_needs_tls r1

module _ {F : Type 0} (fl : FloatOps F) where
  unfoldable pub validate_saturation : Saturation F → ScenarioReport → ScenarioReport
  validate_saturation sat r =
      let rates_finite =
        fl.is_finite sat.start_mbps && fl.is_finite sat.step_mbps && fl.is_finite sat.max_mbps in
      if not rates_finite
      then error_if true Problem.saturation_not_finite r
      else error_if (fl.lt sat.max_mbps sat.start_mbps) Problem.saturation_max (
          error_if (fl.le sat.step_mbps (fl.of_nat 0)) Problem.saturation_step
            (error_if (fl.le sat.start_mbps (fl.of_nat 0)) Problem.saturation_start r))

-- One round of the loop over the streams.
unfoldable pub validate_stream :
    {F : Type 0} → (String → Bool) → Scenario F → ℕ → Stream → ScenarioReport → ScenarioReport
validate_stream parses s i stream r =
    let r1 = validate_addr parses stream.interface stream.target_addr (Context.streams i) r in
    let r2 = validate_transport_needs_gateway stream.interface s.gateway r1 in
    let r3 = error_if (stream.message_size_bytes == 0) (Problem.stream_message_size i) r2 in
    let r4 =
      error_if (same_pattern stream.pattern Pattern.periodic && is_none stream.interval_us)
        (Problem.stream_interval i) r3 in
    let r5 = validate_dscp stream.priority.dscp_tag i r4 in
    let r6 =
      error_if (is_none (canonical_traffic_class stream.priority.traffic_class))
        (Problem.stream_traffic_class i stream.priority.traffic_class) r5 in
    let r7 =
      error_if (not (same_interface stream.interface Interface.tcp))
        (Problem.stream_interface i stream.interface) r6 in
    let r8 = error_if (not (stream.connections == 1)) (Problem.stream_connections i) r7 in
    warn_if
      (not (same_kind stream.protocol.kind ProtocolType.none)
        && not (same_kind stream.protocol.kind s.protocol.kind))
      (Warning.stream_protocol i stream.protocol.kind s.protocol.kind) r8

unfoldable pub validate_streams :
    {F : Type 0} → (String → Bool) → Scenario F → ℕ → List Stream → ScenarioReport → ScenarioReport
validate_streams parses s i [] r = r
validate_streams parses s i (stream ∷ streams) r =
    validate_streams parses s (i + 1) streams (validate_stream parses s i stream r)

unfoldable pub validate_multi_stream : {F : Type 0} → Scenario F → ScenarioReport → ScenarioReport
validate_multi_stream s r =
    let kind = s.protocol.kind in
    let r1 = error_if (not s.gateway.enabled) Problem.streams_need_gateway r in
    let r2 =
      error_if
        (same_kind kind ProtocolType.dtls
          || same_kind kind ProtocolType.wireguard
          || same_kind kind ProtocolType.ipsec)
        (Problem.streams_protocol kind) r1 in
    if is_empty s.streams then r else add_note (Note.streams (length s.streams)) r2

abbrev pub is_routing_only : ProtectionMode → Bool
is_routing_only m = elim m [ ProtectionMode.routing_only ↦ true | _ ↦ false ]

-- Zero copy, the performance profile and the resumption of sessions.
unfoldable pub validate_flags : {F : Type 0} → Scenario F → ScenarioReport → ScenarioReport
validate_flags s r =
    let routing =
      is_routing_only s.protocol.protection_mode || same_kind s.protocol.kind ProtocolType.none in
    let r1 =
      error_if (s.optimization_flags.zero_copy && (not routing && not s.protocol.kernel))
        Problem.zero_copy r in
    let r2 : ScenarioReport = elim s.optimization_flags.perf_profile [
      | none ↦ r1
      | some profile ↦
          error_if (not (contains ("throughput" ∷ "latency" ∷ "balanced" ∷ []) profile))
            (Problem.perf_profile profile) r1
    ] in
    error_if (s.protocol.resumption && not (same_kind s.protocol.kind ProtocolType.tls))
      Problem.resumption r2

abbrev pub has_path_material : CertificateSelection → Bool
has_path_material c =
    is_some c.server_cert
    || is_some c.server_key
    || is_some c.client_cert
    || is_some c.client_key
    || is_some c.ca_cert

-- `protocol.mutual_auth`, or the profile subset146-pki
abbrev pub is_mutual : Protocol → Bool
is_mutual p =
    p.mutual_auth || elim p.profile [ none ↦ false | some profile ↦ str_eq profile "subset146-pki" ]

unfoldable pub validate_certificate_selection :
    {F : Type 0} → Scenario F → ScenarioReport → ScenarioReport
validate_certificate_selection s r =
    let certs = s.protocol.certificates in
    let kind = s.protocol.kind in
    let r1 =
      error_if (not (same_kind kind ProtocolType.tls || same_kind kind ProtocolType.dtls))
        Problem.certificates_protocol r in
    let r2 =
      error_if (is_some certs.server_cert && is_none certs.server_key) Problem.server_cert_alone
        r1 in
    let r3 =
      error_if (is_none certs.server_cert && is_some certs.server_key) Problem.server_key_alone
        r2 in
    let r4 =
      error_if (is_some certs.client_cert && is_none certs.client_key) Problem.client_cert_alone
        r3 in
    let r5 =
      error_if (is_none certs.client_cert && is_some certs.client_key) Problem.client_key_alone
        r4 in
    if selection_is_empty certs
    then r
    else if is_mutual s.protocol && has_path_material certs
    then error_if (not (has_mutual_bundle certs)) Problem.mutual_bundle r5
    else warn_if (is_some certs.client_cert || is_some certs.client_key) Warning.client_cert_ignored
        r5

abbrev pub is_profile_update : ReloadAction → Bool
is_profile_update a = elim a [ ReloadAction.update_tls_profile ↦ true | _ ↦ false ]

unfoldable pub validate_reload : {F : Type 0} → Scenario F → ScenarioReport → ScenarioReport
validate_reload s r = elim s.reload_event [
  | none ↦ r
  | some reload ↦ add_note (Note.reload_event reload.action) (
      warn_if (is_profile_update reload.action && is_none reload.payload_file)
        (Warning.reload_payload reload.action)
        (error_if (not s.gateway.enabled) Problem.reload_needs_gateway r))
]

abbrev needs_setup : TopologyMode → Bool
needs_setup m = elim m [ TopologyMode.veth ↦ true | TopologyMode.netns ↦ true | _ ↦ false ]

unfoldable pub validate_topology : {F : Type 0} → Scenario F → ScenarioReport → ScenarioReport
validate_topology s r =
    warn_if (needs_setup s.topology.mode && not s.topology.auto_setup)
      (Warning.topology_setup s.topology.mode) r

-- The checks of a single sender.
unfoldable pub validate_sender :
    {F : Type 0} → (String → Bool) → Scenario F → ScenarioReport → ScenarioReport
validate_sender parses s r = elim s.sender [
  | none ↦ r
  | some sender ↦ validate_protocol_transport s sender.interface (
      validate_transport_needs_gateway sender.interface s.gateway (
        validate_pattern sender
          (validate_addr parses sender.interface sender.target_addr Context.sender r)))
]

unfoldable pub validate_latency : {F : Type 0} → Scenario F → ScenarioReport → ScenarioReport
validate_latency s r = elim s.sender [
  | none ↦ r
  | some sender ↦
      warn_if
        (is_latency_category s.category
          && (same_pattern sender.pattern Pattern.sustained && is_none sender.rate_limit_mbps))
        Warning.latency_bufferbloat r
]
