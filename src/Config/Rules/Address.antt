-- ===== src/Config/Rules/Address.antt =====
-- What `validate_addr` and the other checks of one sender accept (src/config/mod.rs).
use scg_seshat.Prelude.{
  ℕ, ◌≡◌, ◌≢◌, ◌↔◌, inl, inr, refl, ap, ◌∙◌, Bool, true, false, not, ◌&&◌, ◌||◌, Option, none, some,
  List, [], ◌∷◌, ◌++◌, Option-cases, arith, ==_iff,
}
use scg_seshat.Prelude.Text.{is_some, is_none, is_empty, codes, strip_prefix}
use Prim.Native.String.{String}
use scg_seshat.Config.Schema.{Interface, Pattern, Sender, Gateway}
use scg_seshat.Config.Report.{Context, Problem, error_if}
use scg_seshat.Config.Address.{
  is_host_port, validate_addr, validate_pattern, validate_transport_needs_gateway,
}
use scg_seshat.Config.Checks.{Checks, error_if-Checks, skip-Checks, is_some_iff, not-false}
use scg_seshat.Config.Rules.{IsSome, IsHostPort, AddrIsValid, PatternIsValid, GatewayFits}
use scg_seshat.Config.Rules.HostPort.{is_host_port_iff}

strip_prefix-append : (p rest : List ℕ) → strip_prefix p (p ++ rest) ≡ some rest
unfolding strip_prefix
strip_prefix-append [] rest = refl
strip_prefix-append (c ∷ cs) rest = ground (arith, strip_prefix-append cs rest)

strip_prefix-some : (p s rest : List ℕ) → strip_prefix p s ≡ some rest → s ≡ p ++ rest
unfolding strip_prefix
strip_prefix-some [] s rest h = cc
strip_prefix-some (p ∷ ps) [] rest h = absurd cc
strip_prefix-some (p ∷ ps) (c ∷ cs) rest h =
    ground (arith, strip_prefix-some ps cs rest, ==_iff p c)

prefix_iff :
    (p s : List ℕ)
    → (not (is_some (strip_prefix p s)) ≡ false) ↔ ((rest : List ℕ) × (s ≡ p ++ rest))
prefix_iff p s = (
  λ h. elim (Option-cases (strip_prefix p s)) [
    | inl e ↦ absurd cc
    | inr (rest, e) ↦ (rest, strip_prefix-some p s rest e)
  ],
  λ (rest, e).
      ap (λ s. not (is_some (strip_prefix p s))) e
      ∙ ap (λ o. not (is_some o)) (strip_prefix-append p rest),
)

nameless : Option (List ℕ) → Bool
nameless o = elim o [ none ↦ true | some name ↦ is_empty name ]

nonempty-is_empty : (s : List ℕ) → s ≢ [] → is_empty s ≡ false
nonempty-is_empty [] h = absurd (h refl)
nonempty-is_empty (c ∷ cs) h = refl

name_iff :
    (p s : List ℕ)
    → (elim (strip_prefix p s) [ none ↦ true | some name ↦ is_empty name ] ≡ false)
      ↔ ((name : List ℕ) × (s ≡ p ++ name) × (name ≢ []))
unfolding nameless
name_iff p s = (
  λ h. elim (Option-cases (strip_prefix p s)) [
    | inl e ↦ absurd cc (h, ap nameless e)
    | inr (name, e) ↦ (
      name,
      strip_prefix-some p s name e,
      λ en. absurd cc (h, ap nameless (e ∙ ap {B = Option (List ℕ)} some en)),
    )
  ],
  λ (name, e, hn).
      ap (λ s. nameless (strip_prefix p s)) e
      ∙ ap nameless (strip_prefix-append p name)
      ∙ nonempty-is_empty name hn,
)

neither_iff :
    {P : Type 0} (a b : Bool) → (a ≡ true → P) → (b ≡ true) ↔ P → (not a && not b ≡ false) ↔ P
neither_iff true b hp (to, from) = (λ h. hp refl, λ p. refl)
neither_iff false true hp (to, from) = (λ h. to refl, λ p. refl)
neither_iff false false hp (to, from) = (λ h. absurd cc, λ p. absurd cc (from p))

module _ (parses : String → Bool)
    (parses_lem : (addr : String) → parses addr ≡ true → IsHostPort addr) where
  tcp_iff :
      (addr : String) → (not (parses addr) && not (is_host_port addr) ≡ false) ↔ IsHostPort addr
  tcp_iff addr =
      neither_iff (parses addr) (is_host_port addr) (parses_lem addr) (is_host_port_iff addr)

  pub validate_addr-Checks :
      (i : Interface) (addr : String) (ctx : Context)
      → Checks (validate_addr parses i addr ctx) (AddrIsValid i addr)
  unfolding validate_addr
  validate_addr-Checks Interface.tcp addr ctx = error_if-Checks _ _ (tcp_iff addr)
  validate_addr-Checks Interface.udp addr ctx = error_if-Checks _ _ (tcp_iff addr)
  validate_addr-Checks Interface.unix addr ctx =
      error_if-Checks _ _ (prefix_iff (codes "/") (codes addr))
  validate_addr-Checks Interface.shm addr ctx =
      error_if-Checks _ _ (name_iff (codes "shm:///") (codes addr))
  validate_addr-Checks Interface.tproxy addr ctx = error_if-Checks _ _ (tcp_iff addr)

pub validate_gateway-Checks :
    (i : Interface) (g : Gateway) → Checks (validate_transport_needs_gateway i g) (GatewayFits i g)
unfolding validate_transport_needs_gateway
validate_gateway-Checks Interface.tcp g = skip-Checks
validate_gateway-Checks Interface.udp g = skip-Checks
validate_gateway-Checks Interface.unix g = error_if-Checks _ _ (not-false g.enabled)
validate_gateway-Checks Interface.shm g = error_if-Checks _ _ (not-false g.enabled)
validate_gateway-Checks Interface.tproxy g = skip-Checks

three_iff {ℓ} :
    {A B C : Type ℓ} (a : Option A) (b : Option B) (c : Option C)
    → (is_none a || is_none b || is_none c ≡ false) ↔ (IsSome a × IsSome b × IsSome c)
three_iff none b c = (λ h. absurd cc, λ ((x, h), y, z). absurd cc)
three_iff (some a) none c = (λ h. absurd cc, λ (x, (y, h), z). absurd cc)
three_iff (some a) (some b) none = (λ h. absurd cc, λ (x, y, (z, h)). absurd cc)
three_iff (some a) (some b) (some c) = (λ h. ((a, refl), (b, refl), (c, refl)), λ h. refl)

pattern_step :
    {F : Type 0} (sender : Sender F) (p : Pattern)
    → Checks
        (λ r. elim p [
          | Pattern.sustained ↦ r
          | Pattern.periodic ↦ error_if (is_none sender.interval_us) Problem.needs_interval r
          | Pattern.burst ↦ error_if (is_none sender.burst_count) Problem.needs_burst_count r
          | Pattern.ramp ↦
              error_if
                (is_none sender.ramp_start_mbps
                  || is_none sender.ramp_step_mbps
                  || is_none sender.ramp_step_interval_secs)
                Problem.needs_ramp
                r
        ])
        (elim p [
          | Pattern.sustained ↦ Unit
          | Pattern.periodic ↦ IsSome sender.interval_us
          | Pattern.burst ↦ IsSome sender.burst_count
          | Pattern.ramp ↦
              IsSome sender.ramp_start_mbps
              × IsSome sender.ramp_step_mbps
              × IsSome sender.ramp_step_interval_secs
        ])
pattern_step sender Pattern.sustained = skip-Checks
pattern_step sender Pattern.periodic = error_if-Checks _ _ (is_some_iff sender.interval_us)
pattern_step sender Pattern.burst = error_if-Checks _ _ (is_some_iff sender.burst_count)
pattern_step sender Pattern.ramp =
    error_if-Checks _ _
      (three_iff sender.ramp_start_mbps sender.ramp_step_mbps sender.ramp_step_interval_secs)

pub validate_pattern-Checks :
    {F : Type 0} (sender : Sender F) → Checks (validate_pattern sender) (PatternIsValid sender)
unfolding validate_pattern
validate_pattern-Checks sender = pattern_step sender sender.pattern
