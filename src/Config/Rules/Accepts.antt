-- ===== src/Config/Rules/Accepts.antt =====
-- What the other checks of a scenario accept (src/config/mod.rs).
use scg_seshat.Prelude.{
  ℕ, ◌+◌, ◌<◌, ◌≡◌, ◌↔◌, refl, sym, ap, ◌∙◌, Bool, true, false, not, ◌&&◌, Option, none, some, List,
  [], ◌∷◌, ◌==◌, if◌then◌else◌, arith, ==_iff, All,
}
use mathlib.Core.Path.{subst}
use mathlib.Core.Option.{some-injective}
use scg_seshat.Prelude.Text.{is_none}
use scg_seshat.Prelude.Float.{FloatOps}
use Prim.Native.String.{String}
use scg_seshat.Config.Schema.{
  Interface, Pattern, ProtocolType, Gateway, Saturation, Stream, Scenario,
}
use scg_seshat.Config.Kinds.{same_interface, same_pattern, same_kind, canonical_traffic_class}
use scg_seshat.Config.Kinds.Equal.{same_interface_iff, same_pattern_iff, same_kind_iff}
use scg_seshat.Config.Report.{Context, Problem, error_if}
use scg_seshat.Config.Address.{is_blank}
use scg_seshat.Config.Validate.{
  validate_kind, validate_saturation, validate_stream, validate_streams, validate_dscp,
}
use scg_seshat.Config.Checks.{
  Checks, error_if-Checks, warn_if-Checks, skip-Checks, ◌then◌, iff-Checks, option-Checks,
  error_or-Checks, is_some_iff, and_not_iff, not_iff,
}
use scg_seshat.Config.Rules.{
  IsSome, IsHostPort, AddrIsValid, GatewayFits, KindFits, KindIsValid, RatesAreValid, StreamIsValid,
}
use scg_seshat.Config.Rules.Address.{validate_addr-Checks, validate_gateway-Checks}

all_three_iff :
    (a b c : Bool) → (not (a && b && c) ≡ false) ↔ ((a ≡ true) × (b ≡ true) × (c ≡ true))
all_three_iff true true true = (λ h. (refl, refl, refl), λ h. refl)
all_three_iff true true false = (λ h. absurd cc, λ (h, h', h''). absurd cc)
all_three_iff true false c = (λ h. absurd cc, λ (h, h', h''). absurd cc)
all_three_iff false b c = (λ h. absurd cc, λ (h, h', h''). absurd cc)

same : (b : Bool) → (b ≡ false) ↔ (b ≡ false)
same b = (λ h. h, λ h. h)

pub validate_saturation-Checks :
    {F : Type 0} (fl : FloatOps F) (sat : Saturation F)
    → Checks (validate_saturation fl sat) (RatesAreValid fl sat)
unfolding validate_saturation
validate_saturation-Checks fl sat =
    let (to, from) =
      all_three_iff (fl.is_finite sat.start_mbps) (fl.is_finite sat.step_mbps)
        (fl.is_finite sat.max_mbps) in
    iff-Checks
      (
        λ (h, ((h1, h2), h3)). let (f1, f2, f3) = to h in (f1, f2, f3, h1, h2, h3),
        λ (f1, f2, f3, h1, h2, h3). (from (f1, f2, f3), ((h1, h2), h3)),
      )
      (error_or-Checks _ _ (
        error_if-Checks _ _ (same _)
        then error_if-Checks _ _ (same _)
        then error_if-Checks _ _ (same _)))

connections_iff : (n : ℕ) → (not (n == 1) ≡ false) ↔ (n ≡ 1)
connections_iff n = not_iff (n == 1) (==_iff n 1)

size_iff : (n : ℕ) → (n == 0 ≡ false) ↔ (0 < n)
size_iff n = ground arith

and_is_none_iff {ℓ} :
    {A : Type ℓ} (a : Bool) (o : Option A) → (a && is_none o ≡ false) ↔ (a ≡ true → IsSome o)
and_is_none_iff true o = let (to, from) = is_some_iff o in (λ h t. to h, λ h. from (h refl))
and_is_none_iff false o = (λ h t. absurd cc, λ h. refl)

interval_iff :
    (stream : Stream)
    → (same_pattern stream.pattern Pattern.periodic && is_none stream.interval_us ≡ false)
      ↔ (stream.pattern ≡ Pattern.periodic → IsSome stream.interval_us)
interval_iff stream =
    let (p_to, p_from) = same_pattern_iff stream.pattern Pattern.periodic in
    let (to, from) =
      and_is_none_iff (same_pattern stream.pattern Pattern.periodic) stream.interval_us in
    (λ h e. to h (p_from e), λ h. from (λ t. h (p_to t)))

-- A stream over TCP needs no gateway of its own, and its address is a host and a port.
stream_iff :
    (g : Gateway) (stream : Stream)
    → ((((((((AddrIsValid stream.interface stream.target_addr × GatewayFits stream.interface g)
                    × (0 < stream.message_size_bytes))
                  × (stream.pattern ≡ Pattern.periodic → IsSome stream.interval_us))
                × Unit {0})
              × IsSome (canonical_traffic_class stream.priority.traffic_class))
            × (stream.interface ≡ Interface.tcp))
          × (stream.connections ≡ 1))
        × Unit {0})
      ↔ StreamIsValid stream
stream_iff g stream = (
  λ ((((((((a, gw), z), p), u), c), i), n), u').
      (subst (λ i. AddrIsValid i stream.target_addr) i a, i, n, z, p, c),
  λ (a, i, n, z, p, c). (
    (
      (
        (
          (
            (
              (
                (
                  subst (λ i. AddrIsValid i stream.target_addr) (sym i) a,
                  subst (λ i. GatewayFits i g) (sym i) tt,
                ),
                z,
              ),
              p,
            ),
            tt,
          ),
          c,
        ),
        i,
      ),
      n,
    ),
    tt,
  ),
)

module _ (parses : String → Bool)
    (parses_lem : (addr : String) → parses addr ≡ true → IsHostPort addr) where
  pub validate_stream-Checks :
      {F : Type 0} (s : Scenario F) (i : ℕ) (stream : Stream)
      → Checks (validate_stream parses s i stream) (StreamIsValid stream)
  unfolding validate_stream validate_dscp
  validate_stream-Checks s i stream = iff-Checks (stream_iff s.gateway stream) (
      validate_addr-Checks parses parses_lem stream.interface stream.target_addr (Context.streams i)
      then validate_gateway-Checks stream.interface s.gateway
      then error_if-Checks _ _ (size_iff stream.message_size_bytes)
      then error_if-Checks _ _ (interval_iff stream)
      then warn_if-Checks _ _
      then error_if-Checks _ _ (is_some_iff (canonical_traffic_class stream.priority.traffic_class))
      then error_if-Checks _ _ (not_iff _ (same_interface_iff stream.interface Interface.tcp))
      then error_if-Checks _ _ (connections_iff stream.connections)
      then warn_if-Checks _ _)

  pub validate_streams-Checks :
      {F : Type 0} (s : Scenario F) (i : ℕ) (streams : List Stream)
      → Checks (validate_streams parses s i streams) (All StreamIsValid streams)
  unfolding validate_streams
  validate_streams-Checks s i [] = skip-Checks
  validate_streams-Checks s i (stream ∷ streams) =
      validate_stream-Checks s i stream then validate_streams-Checks s (i + 1) streams

refused : (true ≡ false) ↔ ⊥
refused = (λ h. absurd cc, λ h. absurd h)

provider_iff :
    (o : Option String)
    → (elim o [ none ↦ true | some p ↦ is_blank p ] ≡ false)
      ↔ ((p : String) × (o ≡ some p) × (is_blank p ≡ false))
provider_iff none = (λ h. absurd cc, λ (p, e, h). absurd cc)
provider_iff (some p) = (λ h. (p, refl, h), λ (q, e, h). ap is_blank (some-injective p q e) ∙ h)

kind_step :
    {F : Type 0} (s : Scenario F) (k : ProtocolType)
    → Checks
        (λ r. elim k [
          | ProtocolType.wireguard ↦ elim s.sender [
            | none ↦ r
            | some snd ↦
                error_if
                  (not (same_interface snd.interface Interface.udp))
                  Problem.wireguard_needs_udp
                  r
          ]
          | ProtocolType.ipsec ↦ error_if true Problem.ipsec_stub r
          | ProtocolType.custom ↦
              error_if
                (elim s.protocol.security_provider [ none ↦ true | some p ↦ is_blank p ])
                Problem.custom_needs_provider
                r
          | _ ↦ r
        ])
        (KindFits s k)
kind_step s ProtocolType.none = skip-Checks
kind_step s ProtocolType.tls = skip-Checks
kind_step s ProtocolType.dtls = skip-Checks
kind_step s ProtocolType.wireguard =
    option-Checks {P = λ sender. sender.interface ≡ Interface.udp} s.sender
      (λ snd. error_if-Checks _ _ (not_iff _ (same_interface_iff snd.interface Interface.udp)))
kind_step s ProtocolType.ipsec = error_if-Checks _ _ refused
kind_step s ProtocolType.custom = error_if-Checks _ _ (provider_iff s.protocol.security_provider)

pub validate_kind-Checks : {F : Type 0} (s : Scenario F) → Checks (validate_kind s) (KindIsValid s)
unfolding validate_kind
validate_kind-Checks s =
    kind_step s s.protocol.kind
    then error_if-Checks _ _ (
        and_not_iff s.protocol.kernel (same_kind s.protocol.kind ProtocolType.tls)
          (same_kind_iff s.protocol.kind ProtocolType.tls))
