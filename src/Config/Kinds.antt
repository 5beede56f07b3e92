-- ===== src/Config/Kinds.antt =====
-- Derived tests on the schema's types (src/config/schema.rs): `==` of the enumerations, the checks on
-- a certificate selection, and the traffic classes.
pub mod Equal
use scg_seshat.Prelude.{
  ℕ, Bool, true, false, ◌&&◌, ◌||◌, Option, none, some, map, ◌==◌, if◌then◌else◌, bytes_eq,
}
use scg_seshat.Prelude.Text.{is_none, is_some, codes, trim, to_ascii_lower}
use Prim.Native.String.{String}
use scg_seshat.Config.Schema.{Interface, Pattern, ProtocolType, CertificateSelection}

abbrev pub interface_index : Interface → ℕ
interface_index Interface.tcp = 0
interface_index Interface.udp = 1
interface_index Interface.unix = 2
interface_index Interface.shm = 3
interface_index Interface.tproxy = 4

abbrev pub same_interface : Interface → Interface → Bool
same_interface a b = interface_index a == interface_index b

abbrev pub pattern_index : Pattern → ℕ
pattern_index Pattern.sustained = 0
pattern_index Pattern.periodic = 1
pattern_index Pattern.burst = 2
pattern_index Pattern.ramp = 3

abbrev pub same_pattern : Pattern → Pattern → Bool
same_pattern a b = pattern_index a == pattern_index b

abbrev pub kind_index : ProtocolType → ℕ
kind_index ProtocolType.none = 0
kind_index ProtocolType.tls = 1
kind_index ProtocolType.dtls = 2
kind_index ProtocolType.wireguard = 3
kind_index ProtocolType.ipsec = 4
kind_index ProtocolType.custom = 5

abbrev pub same_kind : ProtocolType → ProtocolType → Bool
same_kind a b = kind_index a == kind_index b

abbrev pub selection_is_empty : CertificateSelection → Bool
selection_is_empty c =
    is_none c.server_cert
    && is_none c.server_key
    && is_none c.client_cert
    && is_none c.client_key
    && is_none c.ca_cert
    && is_none c.server_name

abbrev pub has_server_identity : CertificateSelection → Bool
has_server_identity c = is_some c.server_cert && is_some c.server_key

abbrev pub has_mutual_bundle : CertificateSelection → Bool
has_mutual_bundle c =
    has_server_identity c && is_some c.client_cert && is_some c.client_key && is_some c.ca_cert

unfoldable pub canonical_traffic_class : String → Option String
canonical_traffic_class raw =
    let label = map to_ascii_lower (trim (codes raw)) in
    if bytes_eq label (codes "safety") || bytes_eq label (codes "safety-critical")
    then some "safety"
    else if bytes_eq label (codes "normal")
        || bytes_eq label (codes "non-safety")
        || bytes_eq label (codes "bulk")
    then some "normal"
    else none
