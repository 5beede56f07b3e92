-- ===== src/Config/Rules/HostPort.antt =====
-- `is_host_port` and `validate_addr` (src/config/mod.rs) decide the form of an address.
use scg_seshat.Prelude.{
  ℕ, ◌+◌, ◌-◌, ◌*◌, ◌≡◌, ◌≢◌, ◌↔◌, inl, inr, refl, sym, ap, ◌∙◌, Bool, true, false, not, ◌&&◌,
  Option, none, some, List, [], ◌∷◌, ◌++◌, ◌==◌, ltb, if◌then◌else◌, Bool-cases, All, arith, ==_iff,
}
use scg_seshat.Prelude.Text.{is_some, is_empty, codes, rsplit_once, parse_u16, digits_u16, is_digit}
use Prim.Native.String.{String}
use mathlib.Core.Option.{some-injective}
use scg_seshat.Config.Address.{is_host_port}
use scg_seshat.Config.Rules.{IsHostPort}

-- The separator is not in the list.
abbrev Lacks : ℕ → List ℕ → Type 0
Lacks sep = All (λ c. c ≢ sep)

-- What one more code point in front changes.
extend : ℕ → ℕ → List ℕ → Option (List ℕ × List ℕ) → Option (List ℕ × List ℕ)
extend sep c cs o = elim o [
  | some (before, after) ↦ some (c ∷ before, after)
  | none ↦ if c == sep then some ([], cs) else none
]

rsplit_once-cons :
    (sep c : ℕ) (cs : List ℕ) (o : Option (List ℕ × List ℕ))
    → rsplit_once sep cs ≡ o
    → rsplit_once sep (c ∷ cs) ≡ extend sep c cs o
unfolding rsplit_once extend
rsplit_once-cons sep c cs o e = ap (extend sep c cs) e

rsplit_once-Lacks : (sep : ℕ) (s : List ℕ) → Lacks sep s → rsplit_once sep s ≡ none
unfolding rsplit_once extend
rsplit_once-Lacks sep [] h = refl
rsplit_once-Lacks sep (c ∷ cs) (hc, h) =
    rsplit_once-cons sep c cs none (rsplit_once-Lacks sep cs h) ∙ ground (arith, hc)

-- A text splits at a separator into what stands before and, without another separator, after it.
rsplit_once-append :
    (sep : ℕ) (before after : List ℕ)
    → Lacks sep after
    → rsplit_once sep (before ++ sep ∷ after) ≡ some (before, after)
unfolding extend
rsplit_once-append sep [] after h =
    rsplit_once-cons sep sep after none (rsplit_once-Lacks sep after h) ∙ ground arith
rsplit_once-append sep (c ∷ cs) after h =
    rsplit_once-cons sep c (cs ++ sep ∷ after) (some (cs, after))
      (rsplit_once-append sep cs after h)

extend-some :
    (sep c : ℕ) (cs before after : List ℕ) (o : Option (List ℕ × List ℕ))
    → ((b : List ℕ) → o ≡ some (b, after) → cs ≡ b ++ sep ∷ after)
    → extend sep c cs o ≡ some (before, after)
    → c ∷ cs ≡ before ++ sep ∷ after
unfolding extend
extend-some sep c cs before after none hb h = ground (arith, ==_iff c sep)
extend-some sep c cs before after (some (b, a)) hb h =
    let e = some-injective (c ∷ b, a) (before, after) h in
    ap (λ l. c ∷ l) (hb b (ap (λ x. some (b, x)) (ap (λ p. p.1) e)))
    ∙ ap (λ l. l ++ sep ∷ after) (ap (λ p. p.0) e)

rsplit_once-some :
    (sep : ℕ) (s before after : List ℕ)
    → rsplit_once sep s ≡ some (before, after)
    → s ≡ before ++ sep ∷ after
unfolding rsplit_once
rsplit_once-some sep [] before after h = absurd cc
rsplit_once-some sep (c ∷ cs) before after h =
    extend-some sep c cs before after (rsplit_once sep cs)
      (λ b e. rsplit_once-some sep cs b after e)
      (sym (rsplit_once-cons sep c cs (rsplit_once sep cs) refl) ∙ h)

if-some :
    (b : Bool) (o : Option ℕ) (n : ℕ) → (if b then o else none) ≡ some n → (b ≡ true) × (o ≡ some n)
if-some true o n h = (refl, h)
if-some false o n h = absurd cc

digits-Lacks : (acc : ℕ) (s : List ℕ) (n : ℕ) → digits_u16 acc s ≡ some n → Lacks b':' s
unfolding digits_u16
digits-Lacks acc [] n h = tt
digits-Lacks acc (c ∷ cs) n h =
    let next : ℕ = acc * 10 + (c - 48) in
    let (hd, hr) = if-some (is_digit c && ltb next 65536) (digits_u16 next cs) n h in
    (λ e. ground arith, digits-Lacks next cs n hr)

parse_u16-Lacks : (s : List ℕ) (n : ℕ) → parse_u16 s ≡ some n → Lacks b':' s
unfolding parse_u16
parse_u16-Lacks [] n h = tt
parse_u16-Lacks (c ∷ []) n h = digits-Lacks 0 (c ∷ []) n h
parse_u16-Lacks (c ∷ d ∷ ds) n h = elim (Bool-cases (c == 43)) [
  | inl e ↦ (
    λ e'. ground arith,
    digits-Lacks 0 (d ∷ ds) n
        (ap (λ b. if b then digits_u16 0 (d ∷ ds) else digits_u16 0 (c ∷ d ∷ ds)) (sym e) ∙ h),
  )
  | inr e ↦
      digits-Lacks 0 (c ∷ d ∷ ds) n
        (ap (λ b. if b then digits_u16 0 (d ∷ ds) else digits_u16 0 (c ∷ d ∷ ds)) (sym e) ∙ h)
]

accepts : Option (List ℕ × List ℕ) → Bool
accepts o = elim o [
  | none ↦ false
  | some (host, port) ↦ not (is_empty host) && is_some (parse_u16 port)
]

nonempty_and_some :
    (host : List ℕ) (o : Option ℕ)
    → not (is_empty host) && is_some o ≡ true
    → (host ≢ []) × ((n : ℕ) × (o ≡ some n))
nonempty_and_some [] o h = absurd cc
nonempty_and_some (c ∷ cs) none h = absurd cc
nonempty_and_some (c ∷ cs) (some n) h = (λ e. absurd cc, (n, refl))

accepts-IsHostPort :
    (addr : String) (o : Option (List ℕ × List ℕ))
    → rsplit_once b':' (codes addr) ≡ o
    → accepts o ≡ true
    → IsHostPort addr
unfolding accepts
accepts-IsHostPort addr none e h = absurd cc
accepts-IsHostPort addr (some (host, port)) e h =
    let (hne, (n, hn)) = nonempty_and_some host (parse_u16 port) h in
    (host, port, n, rsplit_once-some b':' (codes addr) host port e, hne, hn)

nonempty-not : (host : List ℕ) → host ≢ [] → not (is_empty host) ≡ true
nonempty-not [] h = absurd (h refl)
nonempty-not (c ∷ cs) h = refl

-- The test of an address accepts a host that is not empty, a colon and a port that fits in 16
-- bits, and nothing else.
pub is_host_port_iff : (addr : String) → (is_host_port addr ≡ true) ↔ IsHostPort addr
unfolding is_host_port accepts
is_host_port_iff addr = (
  λ h. accepts-IsHostPort addr (rsplit_once b':' (codes addr)) refl h,
  λ (host, port, n, e, hne, hn).
      ap (λ s. accepts (rsplit_once b':' s)) e
      ∙ ap accepts (rsplit_once-append b':' host port (parse_u16-Lacks port n hn))
      ∙ ap (λ o. not (is_empty host) && is_some o) hn
      ∙ ap (λ b. b && true) (nonempty-not host hne),
)
