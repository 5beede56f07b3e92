-- ===== src/Config/Rules/Transport.antt =====
-- What the checks of one sender accept (src/config/mod.rs).
use scg_seshat.Prelude.{◌≡◌, ◌≢◌, ◌↔◌, refl, Bool, true, false, not, ◌&&◌, if◌then◌else◌}
use Prim.Native.String.{String}
use scg_seshat.Config.Schema.{Interface, ProtocolType, TlsVersion, AppProtocol, Scenario}
use scg_seshat.Config.Kinds.{same_interface, same_kind}
use scg_seshat.Config.Kinds.Equal.{same_interface_iff, same_kind_iff}
use scg_seshat.Config.Report.{Context, Problem, error_if}
use scg_seshat.Config.Address.{
  is_blank, is_v1_0, is_v1_3, no_app_protocol, validate_protocol_transport,
}
use scg_seshat.Config.Validate.{validate_sender}
use scg_seshat.Config.Checks.{
  Checks, OptAll, error_if-Checks, skip-Checks, ◌then◌, iff-Checks, option-Checks, and_not_iff,
  or_false_iff,
}
use scg_seshat.Config.Rules.{IsHostPort, VersionFits, AppFits, ComparisonIsValid, SenderIsValid}
use scg_seshat.Config.Rules.Address.{
  validate_addr-Checks, validate_pattern-Checks, validate_gateway-Checks,
}

-- Where a test is one of a form of Boolean, the rule that it decides.
pub if_kind_iff :
    (k l : ProtocolType) (b : Bool) {P : Type 0}
    → (b ≡ true) ↔ P
    → (same_kind k l && not b ≡ false) ↔ (k ≡ l → P)
if_kind_iff k l b hb =
    let (to, from) = and_not_iff (same_kind k l) b hb in
    (λ h e. to h ((same_kind_iff k l).1 e), λ h. from (λ t. h ((same_kind_iff k l).0 t)))

v1_0_iff : (v : TlsVersion) → (is_v1_0 v ≡ false) ↔ (v ≢ TlsVersion.v1_0)
v1_0_iff TlsVersion.v1_0 = (λ h. absurd cc, λ h. absurd (h refl))
v1_0_iff TlsVersion.v1_2 = (λ h e. absurd cc, λ h. refl)
v1_0_iff TlsVersion.v1_3 = (λ h e. absurd cc, λ h. refl)

v1_3_iff : (v : TlsVersion) → (is_v1_3 v ≡ false) ↔ (v ≢ TlsVersion.v1_3)
v1_3_iff TlsVersion.v1_0 = (λ h e. absurd cc, λ h. refl)
v1_3_iff TlsVersion.v1_2 = (λ h e. absurd cc, λ h. refl)
v1_3_iff TlsVersion.v1_3 = (λ h. absurd cc, λ h. absurd (h refl))

abbrev VersionOnly : TlsVersion → ProtocolType → Type 0
VersionOnly v ProtocolType.tls = v ≢ TlsVersion.v1_0
VersionOnly v ProtocolType.dtls = v ≢ TlsVersion.v1_3
VersionOnly v k = Unit

version_step :
    (v : TlsVersion) (k : ProtocolType)
    → Checks
        (λ r. elim k [
          | ProtocolType.tls ↦ error_if (is_v1_0 v) Problem.tls_version r
          | ProtocolType.dtls ↦ error_if (is_v1_3 v) Problem.dtls_version r
          | _ ↦ r
        ])
        (VersionOnly v k)
version_step v ProtocolType.none = skip-Checks
version_step v ProtocolType.tls = error_if-Checks _ _ (v1_0_iff v)
version_step v ProtocolType.dtls = error_if-Checks _ _ (v1_3_iff v)
version_step v ProtocolType.wireguard = skip-Checks
version_step v ProtocolType.ipsec = skip-Checks
version_step v ProtocolType.custom = skip-Checks

version_iff :
    (v : TlsVersion) (k : ProtocolType) (i : Interface)
    → (VersionOnly v k × (k ≡ ProtocolType.dtls → i ≡ Interface.udp)) ↔ VersionFits v k i
version_iff v ProtocolType.none i = (λ h. tt, λ h. (tt, λ e. absurd cc))
version_iff v ProtocolType.tls i = (λ (h, g). h, λ h. (h, λ e. absurd cc))
version_iff v ProtocolType.dtls i = (λ (h, g). (h, g refl), λ (h, g). (h, λ e. g))
version_iff v ProtocolType.wireguard i = (λ h. tt, λ h. (tt, λ e. absurd cc))
version_iff v ProtocolType.ipsec i = (λ h. tt, λ h. (tt, λ e. absurd cc))
version_iff v ProtocolType.custom i = (λ h. tt, λ h. (tt, λ e. absurd cc))

app_iff :
    (a : AppProtocol) (k : ProtocolType) (i : Interface)
    → ((not (no_app_protocol a) ≡ true → i ≡ Interface.udp)
        × (not (no_app_protocol a) ≡ true → k ≡ ProtocolType.tls))
      ↔ AppFits a k i
app_iff AppProtocol.none k i = (λ h. tt, λ h. (λ e. absurd cc, λ e. absurd cc))
app_iff AppProtocol.ale k i = (λ (h, g). (h refl, g refl), λ (h, g). (λ e. h, λ e. g))
app_iff AppProtocol.raw k i = (λ (h, g). (h refl, g refl), λ (h, g). (λ e. h, λ e. g))

pub validate_protocol_transport-Checks :
    {F : Type 0} (s : Scenario F) (i : Interface)
    → Checks (validate_protocol_transport s i) (
        VersionFits s.protocol.version s.protocol.kind i
        × AppFits s.protocol.app_protocol s.protocol.kind i
        × OptAll ComparisonIsValid s.comparison)
unfolding validate_protocol_transport
validate_protocol_transport-Checks s i =
    let p = s.protocol in
    let udp = same_interface i Interface.udp in
    let app = not (no_app_protocol p.app_protocol) in
    let udp_iff = same_interface_iff i Interface.udp in
    let c1 = version_step p.version p.kind in
    let c2 =
      error_if-Checks _ (Problem.dtls_needs_udp i)
        (if_kind_iff p.kind ProtocolType.dtls udp udp_iff) in
    let c3 = error_if-Checks _ (Problem.app_needs_udp) (and_not_iff app udp udp_iff) in
    let c4 = error_if-Checks _ (Problem.app_needs_tls) (
      and_not_iff app (same_kind p.kind ProtocolType.tls)
        (same_kind_iff p.kind ProtocolType.tls)) in
    let c5 = option-Checks {P = ComparisonIsValid} s.comparison (λ c.
      error_if-Checks _ (Problem.comparison_empty)
        (or_false_iff (is_blank c.group) (is_blank c.reference))) in
    let (v_to, v_from) = version_iff p.version p.kind i in
    let (a_to, a_from) = app_iff p.app_protocol p.kind i in
    iff-Checks
      (
        λ ((((h1, h2), h3), h4), h5). (v_to (h1, h2), a_to (h3, h4), h5),
        λ (h, g, h5).
            let (h1, h2) = v_from h in let (h3, h4) = a_from g in ((((h1, h2), h3), h4), h5),
      )
      (c1 then c2 then c3 then c4 then c5)

module _ (parses : String → Bool)
    (parses_lem : (addr : String) → parses addr ≡ true → IsHostPort addr) where
  pub validate_sender-Checks :
      {F : Type 0} (s : Scenario F)
      → Checks (validate_sender parses s) (OptAll (SenderIsValid s) s.sender)
  unfolding validate_sender
  validate_sender-Checks s = option-Checks {P = SenderIsValid s} s.sender (λ sender.
      iff-Checks
        (
          λ (((a, p), g), (v, w, c)). (a, p, g, v, w, c),
          λ (a, p, g, v, w, c). (((a, p), g), (v, w, c)),
        )
        (validate_addr-Checks parses parses_lem sender.interface sender.target_addr Context.sender
          then validate_pattern-Checks sender
          then validate_gateway-Checks sender.interface s.gateway
          then validate_protocol_transport-Checks s sender.interface))
