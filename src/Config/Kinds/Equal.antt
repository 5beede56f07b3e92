-- ===== src/Config/Kinds/Equal.antt =====
-- The tests on the schema's enumerations decide equality (src/config/schema.rs).
use scg_seshat.Prelude.{ℕ, ◌≡◌, ◌↔◌, refl, sym, ap, ◌∙◌, true, ==_iff, ◌==◌, if◌then◌else◌}
use scg_seshat.Config.Schema.{Interface, Pattern, ProtocolType}
use scg_seshat.Config.Kinds.{
  interface_index, same_interface, pattern_index, same_pattern, kind_index, same_kind,
}

-- A function with a left inverse reflects equality.
same_iff :
    {A : Type 0} (index : A → ℕ) (back : ℕ → A) (inv : (a : A) → back (index a) ≡ a) (a b : A)
    → ((index a == index b) ≡ true) ↔ (a ≡ b)
same_iff index back inv a b = (
  λ h. sym (inv a) ∙ ap back ((==_iff (index a) (index b)).0 h) ∙ inv b,
  λ e. (==_iff (index a) (index b)).1 (ap index e),
)

interface_at : ℕ → Interface
interface_at n =
    if n == 0
    then Interface.tcp
    else if n == 1
    then Interface.udp
    else if n == 2
    then Interface.unix
    else if n == 3
    then Interface.shm
    else Interface.tproxy

interface_at_lem : (a : Interface) → interface_at (interface_index a) ≡ a
unfolding interface_at
interface_at_lem Interface.tcp = refl
interface_at_lem Interface.udp = refl
interface_at_lem Interface.unix = refl
interface_at_lem Interface.shm = refl
interface_at_lem Interface.tproxy = refl

pub same_interface_iff : (a b : Interface) → (same_interface a b ≡ true) ↔ (a ≡ b)
same_interface_iff = same_iff interface_index interface_at interface_at_lem

pattern_at : ℕ → Pattern
pattern_at n =
    if n == 0
    then Pattern.sustained
    else if n == 1
    then Pattern.periodic
    else if n == 2
    then Pattern.burst
    else Pattern.ramp

pattern_at_lem : (a : Pattern) → pattern_at (pattern_index a) ≡ a
unfolding pattern_at
pattern_at_lem Pattern.sustained = refl
pattern_at_lem Pattern.periodic = refl
pattern_at_lem Pattern.burst = refl
pattern_at_lem Pattern.ramp = refl

pub same_pattern_iff : (a b : Pattern) → (same_pattern a b ≡ true) ↔ (a ≡ b)
same_pattern_iff = same_iff pattern_index pattern_at pattern_at_lem

kind_at : ℕ → ProtocolType
kind_at n =
    if n == 0
    then ProtocolType.none
    else if n == 1
    then ProtocolType.tls
    else if n == 2
    then ProtocolType.dtls
    else if n == 3
    then ProtocolType.wireguard
    else if n == 4
    then ProtocolType.ipsec
    else ProtocolType.custom

kind_at_lem : (a : ProtocolType) → kind_at (kind_index a) ≡ a
unfolding kind_at
kind_at_lem ProtocolType.none = refl
kind_at_lem ProtocolType.tls = refl
kind_at_lem ProtocolType.dtls = refl
kind_at_lem ProtocolType.wireguard = refl
kind_at_lem ProtocolType.ipsec = refl
kind_at_lem ProtocolType.custom = refl

pub same_kind_iff : (a b : ProtocolType) → (same_kind a b ≡ true) ↔ (a ≡ b)
same_kind_iff = same_iff kind_index kind_at kind_at_lem
