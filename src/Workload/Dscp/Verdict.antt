-- ===== src/Workload/Dscp/Verdict.antt =====
-- What the verdict on the marks of a stream says (src/workload/streams.rs, src/workload/dscp.rs).
use scg_seshat.Prelude.{
  ℕ, ◌+◌, ◌^◌, ◌≤◌, ◌<◌, ◌≡◌, refl, ap, ap₂, ◌∙◌, Bool, true, ◌&&◌, Option, none, some, List, [],
  ◌∷◌, length, ltb, ◌==◌, lt→ltb, if◌then◌else◌, arith,
}
use scg_seshat.Prelude.Text.{is_empty}
use scg_seshat.Workload.Dscp.{
  dscp_to_tos, tos_to_dscp, DscpObservation, nothing_seen, record_tos, verdict, seen_all,
}

-- Whether all packets carry the mark.
unfoldable pub all_marked : ℕ → List ℕ → Bool
all_marked expected [] = true
all_marked expected (tos ∷ rest) = tos_to_dscp tos == expected && all_marked expected rest

hits : ℕ → List ℕ → ℕ
hits expected [] = 0
hits expected (tos ∷ rest) = (if tos_to_dscp tos == expected then 1 else 0) + hits expected rest

hits-le : (expected : ℕ) (xs : List ℕ) → hits expected xs ≤ length xs
unfolding hits
hits-le expected [] = omega arith
hits-le expected (x ∷ xs) = ground (arith, hits-le expected xs)

hits-all_marked :
    (expected : ℕ) (xs : List ℕ) → (hits expected xs == length xs) ≡ all_marked expected xs
unfolding hits all_marked
hits-all_marked expected [] = refl
hits-all_marked expected (x ∷ xs) = ground (arith, hits-le expected xs, hits-all_marked expected xs)

seen_all_lem :
    (expected : ℕ) (seen : DscpObservation) (xs : List ℕ)
    → seen.observed + length xs < 2 ^ 64
    → seen.matched ≤ seen.observed
    → ((seen_all expected seen xs).observed ≡ seen.observed + length xs)
      × ((seen_all expected seen xs).matched ≡ seen.matched + hits expected xs)
unfolding seen_all hits record_tos
seen_all_lem expected seen [] h hm = (omega arith, omega arith)
seen_all_lem expected seen (x ∷ xs) h hm =
    ground (arith, seen_all_lem expected (record_tos expected seen x) xs)

-- For fewer than 2 ^ 64 observed packets, the verdict is none if there was none, and otherwise
-- tells whether all of them carried the expected mark.
pub verdict-seen_all :
    (expected : ℕ) (xs : List ℕ)
    → length xs < 2 ^ 64
    → verdict (seen_all expected nothing_seen xs)
      ≡ (if is_empty xs then none else some (all_marked expected xs))
unfolding verdict seen_all
verdict-seen_all expected [] h = refl
verdict-seen_all expected (x ∷ xs) h =
    let (ho, hm) = seen_all_lem expected nothing_seen (x ∷ xs) (omega arith) (omega arith) in
    let n : ℕ = length (x ∷ xs) in
    let k : ℕ = hits expected (x ∷ xs) in
    let eo : 0 + n ≡ n = omega arith in
    let em : 0 + k ≡ k = omega arith in
    ap₂ (λ m o. if ltb 0 o then some (m == o) else none) (hm ∙ em) (ho ∙ eo)
    ∙ ap (λ b. if b then some (k == n) else none) (lt→ltb 0 n (omega arith))
    ∙ ap {B = Option Bool} some (hits-all_marked expected (x ∷ xs))

-- A mark below 64 is read back from its TOS byte, whatever the two bits of congestion notification
-- are.
tos_to_dscp-dscp_to_tos :
    (dscp ecn : ℕ) → dscp < 64 → ecn < 4 → tos_to_dscp (dscp_to_tos dscp + ecn) ≡ dscp
unfolding tos_to_dscp dscp_to_tos
tos_to_dscp-dscp_to_tos dscp ecn h k = omega arith
