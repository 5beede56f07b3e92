-- ===== src/Config/Rules/Flags.antt =====
-- What the checks of the flags, of the certificates and of several streams accept (src/config/mod.rs).
use scg_seshat.Prelude.{
  ◌≡◌, ◌≢◌, ◌↔◌, ◌⊎◌, inl, inr, refl, Bool, true, false, not, ◌&&◌, ◌||◌, Option, none, some, List,
  [], ◌∷◌, if◌then◌else◌,
}
use scg_seshat.Prelude.Text.{is_some, is_none, is_empty}
use Prim.Native.String.{String}
use text.Mathlib.Text.{◌==◌ as str_eq}
use text.Mathlib.TextEquality.{eq_iff}
use scg_seshat.Config.Schema.{ProtocolType, ProtectionMode, Stream, Scenario}
use scg_seshat.Config.Kinds.{same_kind, selection_is_empty, has_mutual_bundle}
use scg_seshat.Config.Kinds.Equal.{same_kind_iff}
use scg_seshat.Config.Validate.{
  contains, is_routing_only, is_mutual, has_path_material, validate_multi_stream, validate_flags,
  validate_certificate_selection, validate_reload,
}
use scg_seshat.Config.Checks.{
  Checks, OptAll, error_if-Checks, warn_if-Checks, add_note-Checks, ◌then◌, iff-Checks,
  option-Checks, unless-Checks, either-Checks, not-false, and_not_iff, not_iff, or_false_iff,
}
use scg_seshat.Config.Rules.{IsSome, MultiStreamIsValid, FlagsAreValid, CertificatesAreValid}

routing_iff : (m : ProtectionMode) → (is_routing_only m ≡ true) ↔ (m ≡ ProtectionMode.routing_only)
routing_iff ProtectionMode.full = (λ h. absurd cc, λ h. absurd cc)
routing_iff ProtectionMode.integrity_only = (λ h. absurd cc, λ h. absurd cc)
routing_iff ProtectionMode.routing_only = (λ h. refl, λ h. refl)

-- The test of zero copy, over what its parts decide.
zero_copy_iff :
    {A B : Type 0} (z a b c : Bool)
    → (a ≡ true) ↔ A
    → (b ≡ true) ↔ B
    → (z && (not (a || b) && not c) ≡ false) ↔ (z ≡ true → (A ⊎ B) ⊎ (c ≡ true))
zero_copy_iff false a b c ha hb = (λ h e. absurd cc, λ h. refl)
zero_copy_iff true true b c (to, from) hb = (λ h e. inl (inl (to refl)), λ h. refl)
zero_copy_iff true false true c ha (to, from) = (λ h e. inl (inr (to refl)), λ h. refl)
zero_copy_iff true false false true ha hb = (λ h e. inr refl, λ h. refl)
zero_copy_iff true false false false (a_to, a_from) (b_to, b_from) = (
  λ h e. absurd cc,
  λ h. elim (h refl) [
    | inl (inl a) ↦ absurd cc (a_from a)
    | inl (inr b) ↦ absurd cc (b_from b)
    | inr e ↦ absurd cc
  ],
)

or_iff : {A B : Type 0} (a b : Bool) → (a ≡ true) ↔ A → (b ≡ true) ↔ B → (a || b ≡ true) ↔ (A ⊎ B)
or_iff true b (to, from) hb = (λ h. inl (to refl), λ h. refl)
or_iff false b (a_to, a_from) (b_to, b_from) =
    (λ h. inr (b_to h), λ h. elim h [ inl a ↦ absurd cc (a_from a) | inr y ↦ b_from y ])

or_false : (b : Bool) → b || false ≡ b
or_false true = refl
or_false false = refl

profile_iff :
    (p : String)
    → (not (contains ("throughput" ∷ "latency" ∷ "balanced" ∷ []) p) ≡ false)
      ↔ (("throughput" ≡ p) ⊎ (("latency" ≡ p) ⊎ ("balanced" ≡ p)))
profile_iff p = not_iff _ (
    or_iff (str_eq "throughput" p) _ (eq_iff "throughput" p) (
      or_iff (str_eq "latency" p) _ (eq_iff "latency" p)
        (rw (or_false (str_eq "balanced" p)) (eq_iff "balanced" p))))

pub validate_flags-Checks :
    {F : Type 0} (s : Scenario F) → Checks (validate_flags s) (FlagsAreValid s)
unfolding validate_flags
validate_flags-Checks s =
    let kind = s.protocol.kind in
    iff-Checks (λ ((h1, h2), h3). (h1, h2, h3), λ (h1, h2, h3). ((h1, h2), h3))
      (error_if-Checks _ _ (
          zero_copy_iff s.optimization_flags.zero_copy _ _ s.protocol.kernel
            (routing_iff s.protocol.protection_mode) (same_kind_iff kind ProtocolType.none))
        then option-Checks s.optimization_flags.perf_profile
            (λ p. error_if-Checks _ _ (profile_iff p))
        then error_if-Checks _ _ (
            and_not_iff s.protocol.resumption (same_kind kind ProtocolType.tls)
              (same_kind_iff kind ProtocolType.tls)))

false_iff : {P : Type 0} (b : Bool) → (b ≡ true → P) → (P → b ≡ true) → (b ≡ false) ↔ (P → ⊥)
false_iff true to from = (λ h. absurd cc, λ h. absurd (h (to refl)))
false_iff false to from = (λ h p. absurd cc (from p), λ h. refl)

differ_iff : (k l : ProtocolType) → (same_kind k l ≡ false) ↔ (k ≢ l)
differ_iff k l = let (to, from) = same_kind_iff k l in false_iff (same_kind k l) to from

streams_iff :
    {Q : Type 0} (streams : List Stream) → (is_empty streams ≡ false → Q) ↔ (streams ≢ [] → Q)
streams_iff [] = (λ h hn. absurd (hn refl), λ h e. absurd cc)
streams_iff (x ∷ xs) = (λ h hn. h refl, λ h e. h (λ e'. absurd cc))

same : (b : Bool) → (b ≡ false) ↔ (b ≡ false)
same b = (λ h. h, λ h. h)

kinds_iff :
    {G : Type 0} (k : ProtocolType)
    → ((G
          × (same_kind k ProtocolType.dtls
                || same_kind k ProtocolType.wireguard
                || same_kind k ProtocolType.ipsec
              ≡ false))
        × Unit {0})
      ↔ (G × (k ≢ ProtocolType.dtls) × (k ≢ ProtocolType.wireguard) × (k ≢ ProtocolType.ipsec))
kinds_iff k =
    let (d_to, d_from) = differ_iff k ProtocolType.dtls in
    let (w_to, w_from) = differ_iff k ProtocolType.wireguard in
    let (i_to, i_from) = differ_iff k ProtocolType.ipsec in
    let dtls = same_kind k ProtocolType.dtls in
    let wireguard = same_kind k ProtocolType.wireguard in
    let (to, from) = or_false_iff (dtls || wireguard) (same_kind k ProtocolType.ipsec) in
    let (to', from') = or_false_iff dtls wireguard in
    (
      λ ((g, h), u). let (h1, h2) = to h in let (h3, h4) = to' h1 in (g, d_to h3, w_to h4, i_to h2),
      λ (g, d, w, i). ((g, from (from' (d_from d, w_from w), i_from i)), tt),
    )

pub validate_multi_stream-Checks :
    {F : Type 0} (s : Scenario F) → Checks (validate_multi_stream s) (MultiStreamIsValid s)
unfolding validate_multi_stream
validate_multi_stream-Checks s =
    let kind = s.protocol.kind in
    iff-Checks (streams_iff s.streams) (
      unless-Checks (is_empty s.streams) (
        iff-Checks (kinds_iff kind) (
          error_if-Checks _ _ (not-false s.gateway.enabled)
          then error_if-Checks _ _ (same _)
          then add_note-Checks _)))

one_without_iff {ℓ} :
    {A : Type ℓ} (a b : Option A)
    → ((is_some a && is_none b ≡ false) × (is_none a && is_some b ≡ false)) ↔ (IsSome a ↔ IsSome b)
one_without_iff none none = (λ h. (λ x. x, λ x. x), λ h. (refl, refl))
one_without_iff none (some b) =
    (λ (h, h'). absurd cc, λ (to, from). let (a, e) = from (b, refl) in absurd cc)
one_without_iff (some a) none =
    (λ (h, h'). absurd cc, λ (to, from). let (b, e) = to (a, refl) in absurd cc)
one_without_iff (some a) (some b) = (λ h. (λ x. (b, refl), λ x. (a, refl)), λ h. (refl, refl))

both_iff : {P : Type 0} (a b : Bool) → (a && b ≡ true → P) ↔ (a ≡ true → b ≡ true → P)
both_iff true b = (λ h e. h, λ h. h refl)
both_iff false b = (λ h e. absurd cc, λ h e. absurd cc)

pub validate_certificates-Checks :
    {F : Type 0} (s : Scenario F)
    → Checks (validate_certificate_selection s) (CertificatesAreValid s)
unfolding validate_certificate_selection
validate_certificates-Checks s =
    let certs = s.protocol.certificates in
    let kind = s.protocol.kind in
    let tls_or_dtls =
      or_iff _ _ (same_kind_iff kind ProtocolType.tls) (same_kind_iff kind ProtocolType.dtls) in
    let (s_to, s_from) = one_without_iff certs.server_cert certs.server_key in
    let (c_to, c_from) = one_without_iff certs.client_cert certs.client_key in
    let (b_to, b_from) = both_iff (is_mutual s.protocol) (has_path_material certs) in
    unless-Checks (selection_is_empty certs) (
      iff-Checks
        (
          λ (((((k, s1), s2), c1), c2), (b, u)). (k, s_to (s1, s2), c_to (c1, c2), b_to b),
          λ (k, sk, ck, b).
              let (s1, s2) = s_from sk in
              let (c1, c2) = c_from ck in (((((k, s1), s2), c1), c2), (b_from b, λ h. tt)),
        )
        (error_if-Checks _ _ (not_iff _ tls_or_dtls)
          then error_if-Checks _ _ (same _)
          then error_if-Checks _ _ (same _)
          then error_if-Checks _ _ (same _)
          then error_if-Checks _ _ (same _)
          then either-Checks _ (error_if-Checks _ _ (not-false (has_mutual_bundle certs)))
              (warn_if-Checks _ _)))

pub validate_reload-Checks :
    {F : Type 0} (s : Scenario F)
    → Checks (validate_reload s) (OptAll (λ reload. s.gateway.enabled ≡ true) s.reload_event)
unfolding validate_reload
validate_reload-Checks s =
    option-Checks {P = λ reload. s.gateway.enabled ≡ true} s.reload_event (λ reload.
      iff-Checks (λ ((h, u), u'). h, λ h. ((h, tt), tt))
        (error_if-Checks _ _ (not-false s.gateway.enabled)
          then warn_if-Checks _ _
          then add_note-Checks _))
