-- ===== src/Config/Rules.antt =====
-- The rules that a scenario must keep, stated apart from the code that checks them
-- (src/config/mod.rs, src/config/schema.rs).
pub mod HostPort
mod Address
mod Transport
mod Accepts
mod Flags
pub mod Whole
pub mod Names
use scg_seshat.Prelude.{
  ℕ, zero, ◌<◌, ◌≡◌, ◌≢◌, ◌↔◌, ◌⊎◌, Bool, true, false, Option, none, some, List, [], ◌∷◌, ◌++◌, All,
}
use scg_seshat.Prelude.Text.{codes, parse_u16, is_none}
use scg_seshat.Prelude.Float.{FloatOps}
use Prim.Native.String.{String}
use scg_seshat.Config.Schema.{
  Interface, Pattern, ProtocolType, TlsVersion, AppProtocol, ProtectionMode, CertificateSelection,
  Protocol, Gateway, Sender, Saturation, Stream, OptimizationFlags, Scenario, Comparison,
}
use scg_seshat.Config.Kinds.{canonical_traffic_class, selection_is_empty, has_mutual_bundle}
use scg_seshat.Config.Address.{is_blank}
use scg_seshat.Config.Validate.{is_mutual, has_path_material}
use scg_seshat.Config.Checks.{OptAll}

abbrev pub IsSome {ℓ} : {A : Type ℓ} → Option A → Type ℓ
IsSome {A = A} o = (a : A) × (o ≡ some a)

-- A name that is not empty, then a colon and a number that fits in 16 bits.
abbrev pub IsHostPort : String → Type 0
IsHostPort addr =
    (host port : List ℕ) × (n : ℕ) × (codes addr ≡ host ++ b':' ∷ port)
    × (host ≢ [])
    × (parse_u16 port ≡ some n)

abbrev pub AddrIsValid : Interface → String → Type 0
AddrIsValid Interface.unix addr = (path : List ℕ) × (codes addr ≡ codes "/" ++ path)
AddrIsValid Interface.shm addr =
    (name : List ℕ) × (codes addr ≡ codes "shm:///" ++ name) × (name ≢ [])
AddrIsValid interface addr = IsHostPort addr

-- Each pattern has the parameters it is paced by.
abbrev pub PatternIsValid : {F : Type 0} → Sender F → Type 0
PatternIsValid sender = elim sender.pattern [
  | Pattern.sustained ↦ Unit
  | Pattern.periodic ↦ IsSome sender.interval_us
  | Pattern.burst ↦ IsSome sender.burst_count
  | Pattern.ramp ↦
      IsSome sender.ramp_start_mbps
      × IsSome sender.ramp_step_mbps
      × IsSome sender.ramp_step_interval_secs
]

-- Unix sockets and shared memory are provisioned by the gateway.
abbrev pub GatewayFits : Interface → Gateway → Type 0
GatewayFits Interface.unix g = g.enabled ≡ true
GatewayFits Interface.shm g = g.enabled ≡ true
GatewayFits interface g = Unit

-- TLS is not version 1.0, and DTLS is not version 1.3 and runs over UDP.
abbrev pub VersionFits : TlsVersion → ProtocolType → Interface → Type 0
VersionFits version ProtocolType.tls interface = version ≢ TlsVersion.v1_0
VersionFits version ProtocolType.dtls interface =
    (version ≢ TlsVersion.v1_3) × (interface ≡ Interface.udp)
VersionFits version kind interface = Unit

-- ALE and RAW framing is UDP over TLS.
abbrev pub AppFits : AppProtocol → ProtocolType → Interface → Type 0
AppFits AppProtocol.none kind interface = Unit
AppFits app_protocol kind interface = (interface ≡ Interface.udp) × (kind ≡ ProtocolType.tls)

abbrev pub ComparisonIsValid : {F : Type 0} → Comparison F → Type 0
ComparisonIsValid c = (is_blank c.group ≡ false) × (is_blank c.reference ≡ false)

abbrev pub SenderIsValid : {F : Type 0} → Scenario F → Sender F → Type 0
SenderIsValid s sender =
    AddrIsValid sender.interface sender.target_addr
    × PatternIsValid sender
    × GatewayFits sender.interface s.gateway
    × VersionFits s.protocol.version s.protocol.kind sender.interface
    × AppFits s.protocol.app_protocol s.protocol.kind sender.interface
    × OptAll ComparisonIsValid s.comparison

-- WireGuard runs over UDP, IPSec is refused and a custom protocol names its provider.
abbrev pub KindFits : {F : Type 0} → Scenario F → ProtocolType → Type 0
KindFits s ProtocolType.wireguard = OptAll (λ sender. sender.interface ≡ Interface.udp) s.sender
KindFits s ProtocolType.ipsec = ⊥
KindFits s ProtocolType.custom =
    (p : String) × (s.protocol.security_provider ≡ some p) × (is_blank p ≡ false)
KindFits s kind = Unit

-- TLS in the kernel is TLS.
abbrev pub KindIsValid : {F : Type 0} → Scenario F → Type 0
KindIsValid s =
    KindFits s s.protocol.kind × (s.protocol.kernel ≡ true → s.protocol.kind ≡ ProtocolType.tls)

abbrev pub RatesAreValid : {F : Type 0} → FloatOps F → Saturation F → Type 0
RatesAreValid fl sat =
    (fl.is_finite sat.start_mbps ≡ true)
    × (fl.is_finite sat.step_mbps ≡ true)
    × (fl.is_finite sat.max_mbps ≡ true)
    × (fl.le sat.start_mbps (fl.of_nat 0) ≡ false)
    × (fl.le sat.step_mbps (fl.of_nat 0) ≡ false)
    × (fl.lt sat.max_mbps sat.start_mbps ≡ false)

-- A stream is one TCP connection of a known class, with messages that are not empty.
abbrev pub StreamIsValid : Stream → Type 0
StreamIsValid stream =
    IsHostPort stream.target_addr
    × (stream.interface ≡ Interface.tcp)
    × (stream.connections ≡ 1)
    × (0 < stream.message_size_bytes)
    × (stream.pattern ≡ Pattern.periodic → IsSome stream.interval_us)
    × IsSome (canonical_traffic_class stream.priority.traffic_class)

-- Streams need the gateway and a protocol over TCP.
abbrev pub MultiStreamIsValid : {F : Type 0} → Scenario F → Type 0
MultiStreamIsValid s =
    s.streams ≢ []
    → (s.gateway.enabled ≡ true)
      × (s.protocol.kind ≢ ProtocolType.dtls)
      × (s.protocol.kind ≢ ProtocolType.wireguard)
      × (s.protocol.kind ≢ ProtocolType.ipsec)

-- Zero copy needs a path without encryption in user space.
abbrev pub FlagsAreValid : {F : Type 0} → Scenario F → Type 0
FlagsAreValid s =
    (s.optimization_flags.zero_copy ≡ true
      → ((s.protocol.protection_mode ≡ ProtectionMode.routing_only)
          ⊎ (s.protocol.kind ≡ ProtocolType.none))
        ⊎ (s.protocol.kernel ≡ true))
    × OptAll
        (λ profile. ("throughput" ≡ profile) ⊎ (("latency" ≡ profile) ⊎ ("balanced" ≡ profile)))
        s.optimization_flags.perf_profile
    × (s.protocol.resumption ≡ true → s.protocol.kind ≡ ProtocolType.tls)

-- Certificates go with TLS and DTLS, each certificate with its key, and mutual authentication with the
-- whole bundle if any file is given.
abbrev pub CertificatesAreValid : {F : Type 0} → Scenario F → Type 0
CertificatesAreValid s =
    selection_is_empty s.protocol.certificates ≡ false
    → ((s.protocol.kind ≡ ProtocolType.tls) ⊎ (s.protocol.kind ≡ ProtocolType.dtls))
      × (IsSome s.protocol.certificates.server_cert ↔ IsSome s.protocol.certificates.server_key)
      × (IsSome s.protocol.certificates.client_cert ↔ IsSome s.protocol.certificates.client_key)
      × (is_mutual s.protocol ≡ true
          → has_path_material s.protocol.certificates ≡ true
          → has_mutual_bundle s.protocol.certificates ≡ true)

-- All the rules of an enabled scenario.
abbrev pub ScenarioIsValid : {F : Type 0} → FloatOps F → Scenario F → Type 0
ScenarioIsValid fl s =
    (IsSome s.sender ⊎ (s.streams ≢ []))
    × KindIsValid s
    × OptAll (SenderIsValid s) s.sender
    × OptAll (RatesAreValid fl) s.saturation
    × All StreamIsValid s.streams
    × MultiStreamIsValid s
    × FlagsAreValid s
    × CertificatesAreValid s
    × OptAll (λ reload. s.gateway.enabled ≡ true) s.reload_event
