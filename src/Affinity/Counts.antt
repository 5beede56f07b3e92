-- ===== src/Affinity/Counts.antt =====
-- The two loops of `partition_cores` (src/run/affinity.rs) make the counts add up to the cores.
use scg_seshat.Prelude.{
  ℕ, zero, suc, ◌+◌, ◌-◌, ◌≤◌, ◌<◌, ◌≡◌, ◌≢◌, refl, sym, ap, ◌∙◌, inl, inr, Bool, true, false, ◌&&◌,
  Option, none, some, List, [], ◌∷◌, length, leb, ltb, if◌then◌else◌, Bool-cases, Option-cases,
  get_or, All, arith, ltb→lt,
}
use mathlib.Core.Path.{subst}
use mathlib.Core.Option.{some-injective}
use scg_seshat.Affinity.{total, pick, adjust, shrink, grow, reconcile}

abbrev pub ArePositive : List ℕ → Type 0
ArePositive = All (λ c. 1 ≤ c)

abbrev Holds : (ℕ → Type 0) → Option (ℕ × ℕ) → Type 0
Holds P none = Unit
Holds P (some (j, best)) = P j

Holds-if :
    (P : ℕ → Type 0) (b : Bool) (i c : ℕ) (o : Option (ℕ × ℕ))
    → (b ≡ true → P i)
    → Holds P o
    → Holds P (if b then some (i, c) else o)
Holds-if P true i c o hi ho = hi refl
Holds-if P false i c o hi ho = ho

&&-left : (a b : Bool) → a && b ≡ true → a ≡ true
&&-left true b h = refl
&&-left false b h = h

-- What holds of every index whose element passes the test holds of the index picked.
pick-holds :
    (P : ℕ → Type 0) (test : ℕ → Bool) (i : ℕ) (best : Option (ℕ × ℕ)) (xs : List ℕ) (found : ℕ)
    → Holds P best
    → ((k : ℕ) → k < length xs → test (get_or xs k 0) ≡ true → P (i + k))
    → pick test i best xs ≡ some found
    → P found
unfolding pick
pick-holds P test i none [] found hb hp e = absurd cc
pick-holds P test i (some (j, best)) [] found hb hp e = subst P (some-injective j found e) hb
pick-holds P test i none (c ∷ cs) found hb hp e =
    pick-holds P test (i + 1) (if test c then some (i, c) else none) cs found
      (Holds-if P (test c) i c none (λ h. subst P (omega arith) (hp 0 (omega arith) h)) hb)
      (λ k hk h. subst P (omega arith) (hp (suc k) (omega arith) h)) e
pick-holds P test i (some (j, best)) (c ∷ cs) found hb hp e =
    pick-holds P test (i + 1) (if test c && leb best c then some (i, c) else some (j, best)) cs
      found
      (Holds-if P (test c && leb best c) i c (some (j, best))
        (λ h. subst P (omega arith) (hp 0 (omega arith) (&&-left (test c) (leb best c) h))) hb)
      (λ k hk h. subst P (omega arith) (hp (suc k) (omega arith) h)) e

if-some : (b : Bool) (x y : ℕ × ℕ) → (z : ℕ × ℕ) × ((if b then some x else some y) ≡ some z)
if-some true x y = (x, refl)
if-some false x y = (y, refl)

pick-some :
    (test : ℕ → Bool) (i : ℕ) (best : ℕ × ℕ) (xs : List ℕ) → pick test i (some best) xs ≢ none
unfolding pick
pick-some test i (j, best) [] e = absurd cc
pick-some test i (j, best) (c ∷ cs) e =
    let (z, h) = if-some (test c && leb best c) (i, c) (j, best) in
    pick-some test (i + 1) z cs (ap (λ o. pick test (i + 1) o cs) (sym h) ∙ e)

small : (c : ℕ) → ltb 1 c ≡ false → c ≤ 1
small c h = ground arith

-- Where no element is above 1, the total is at most the number of elements.
pick-none : (i : ℕ) (xs : List ℕ) → pick (λ c. ltb 1 c) i none xs ≡ none → total xs ≤ length xs
unfolding pick total
pick-none i [] e = omega arith
pick-none i (c ∷ cs) e = elim (Bool-cases (ltb 1 c)) [
  | inl h ↦ absurd (
      pick-some (λ c. ltb 1 c) (i + 1) (i, c) cs
        (ap (λ b. pick (λ c. ltb 1 c) (i + 1) (if b then some (i, c) else none) cs) (sym h) ∙ e))
  | inr h ↦ omega (
    arith,
    pick-none (i + 1) cs
        (ap (λ b. pick (λ c. ltb 1 c) (i + 1) (if b then some (i, c) else none) cs) (sym h) ∙ e),
    small c h,
  )
]

total-adjust-sub :
    (j : ℕ) (cs : List ℕ)
    → j < length cs
    → 1 < get_or cs j 0
    → total (adjust (λ c. c - 1) j cs) + 1 ≡ total cs
unfolding total adjust
total-adjust-sub j [] hj hc = absurd (omega arith)
total-adjust-sub zero (c ∷ cs) hj hc = omega arith
total-adjust-sub (suc j) (c ∷ cs) hj hc = omega (arith, total-adjust-sub j cs (omega arith) hc)

total-adjust-add :
    (j : ℕ) (cs : List ℕ) → j < length cs → total (adjust (λ c. c + 1) j cs) ≡ total cs + 1
unfolding total adjust
total-adjust-add j [] hj = absurd (omega arith)
total-adjust-add zero (c ∷ cs) hj = omega arith
total-adjust-add (suc j) (c ∷ cs) hj = omega (arith, total-adjust-add j cs (omega arith))

length-adjust : (f : ℕ → ℕ) (j : ℕ) (cs : List ℕ) → length (adjust f j cs) ≡ length cs
unfolding adjust
length-adjust f j [] = refl
length-adjust f zero (c ∷ cs) = refl
length-adjust f (suc j) (c ∷ cs) = ap suc (length-adjust f j cs)

adjust_sub-ArePositive :
    (j : ℕ) (cs : List ℕ)
    → 1 < get_or cs j 0
    → ArePositive cs
    → ArePositive (adjust (λ c. c - 1) j cs)
unfolding adjust
adjust_sub-ArePositive j [] hc hp = hp
adjust_sub-ArePositive zero (c ∷ cs) hc (h, hp) = (omega arith, hp)
adjust_sub-ArePositive (suc j) (c ∷ cs) hc (h, hp) = (h, adjust_sub-ArePositive j cs hc hp)

adjust_add-ArePositive :
    (j : ℕ) (cs : List ℕ) → ArePositive cs → ArePositive (adjust (λ c. c + 1) j cs)
unfolding adjust
adjust_add-ArePositive j [] hp = hp
adjust_add-ArePositive zero (c ∷ cs) (h, hp) = (omega arith, hp)
adjust_add-ArePositive (suc j) (c ∷ cs) (h, hp) = (h, adjust_add-ArePositive j cs hp)

shrink-suc :
    (s j : ℕ) (cs : List ℕ)
    → pick (λ c. ltb 1 c) 0 none cs ≡ some j
    → shrink (suc s) cs ≡ shrink s (adjust (λ c. c - 1) j cs)
unfolding shrink
shrink-suc s j cs e =
    ap (λ o. elim o [ none ↦ cs | some idx ↦ shrink s (adjust (λ c. c - 1) idx cs) ]) e

-- A surplus over one core for each group is taken off to the last.
shrink-total :
    (s : ℕ) (cs : List ℕ)
    → ArePositive cs
    → s + length cs ≤ total cs
    → (total (shrink s cs) + s ≡ total cs)
      × (length (shrink s cs) ≡ length cs)
      × ArePositive (shrink s cs)
unfolding shrink
shrink-total zero cs hp hs = (omega arith, refl, hp)
shrink-total (suc s) cs hp hs = elim (Option-cases (pick (λ c. ltb 1 c) 0 none cs)) [
  | inl e ↦ absurd (omega (arith, pick-none 0 cs e))
  | inr (j, e) ↦
      let (hj, hc) =
        pick-holds (λ j. (j < length cs) × (1 < get_or cs j 0)) (λ c. ltb 1 c) 0 none cs j tt
          (λ k hk h. (
            omega arith,
            subst (λ i. 1 < get_or cs i 0) (omega arith) (ltb→lt 1 (get_or cs k 0) h),
          ))
          e in
      let cs' = adjust (λ c. c - 1) j cs in
      let ht = total-adjust-sub j cs hj hc in
      let hl = length-adjust (λ c. c - 1) j cs in
      let (h1, h2, h3) = shrink-total s cs' (adjust_sub-ArePositive j cs hc hp) (omega arith) in
      rw (shrink-suc s j cs e) (omega arith, h2 ∙ hl, h3)
]

pick_or-lt :
    (ws cs : List ℕ)
    → length ws ≡ length cs
    → 1 ≤ length cs
    → elim (pick (λ c. true) 0 none ws) [ none ↦ 0 | some i ↦ i ] < length cs
pick_or-lt ws cs hl hn = elim (Option-cases (pick (λ c. true) 0 none ws)) [
  | inl e ↦ rw (e) hn
  | inr (j, e) ↦
      rw (e) (pick-holds (λ j. j < length cs) (λ c. true) 0 none ws j tt (λ k hk h. omega arith) e)
]

grow-total :
    (l : ℕ) (ws cs : List ℕ)
    → ArePositive cs
    → length ws ≡ length cs
    → 1 ≤ length cs
    → (total (grow l ws cs) ≡ total cs + l)
      × (length (grow l ws cs) ≡ length cs)
      × ArePositive (grow l ws cs)
unfolding grow
grow-total zero ws cs hp hl hn = (omega arith, refl, hp)
grow-total (suc l) ws cs hp hl hn =
    let j : ℕ = elim (pick (λ c. true) 0 none ws) [ none ↦ 0 | some i ↦ i ] in
    let hj : j < length cs = pick_or-lt ws cs hl hn in
    let cs' = adjust (λ c. c + 1) j cs in
    let ht = total-adjust-add j cs hj in
    let hl' = length-adjust (λ c. c + 1) j cs in
    let (h1, h2, h3) =
      grow-total l ws cs' (adjust_add-ArePositive j cs hp) (omega arith) (omega arith) in
    (omega arith, h2 ∙ hl', h3)

length-le-total : (cs : List ℕ) → ArePositive cs → length cs ≤ total cs
unfolding total
length-le-total [] hp = omega arith
length-le-total (c ∷ cs) (h, hp) = omega (arith, length-le-total cs hp)

-- Where there is a core for each group, the counts end with all the cores given, one at least to each.
pub reconcile-total :
    (usable : ℕ) (ws cs : List ℕ)
    → ArePositive cs
    → length ws ≡ length cs
    → 1 ≤ length cs
    → length cs ≤ usable
    → (total (reconcile usable ws cs) ≡ usable)
      × (length (reconcile usable ws cs) ≡ length cs)
      × ArePositive (reconcile usable ws cs)
unfolding reconcile
reconcile-total usable ws cs hp hl hn hu =
    let hc = length-le-total cs hp in
    let s : ℕ = total cs - usable in
    let (h1, h2, h3) = shrink-total s cs hp (omega arith) in
    let (h4, h5, h6) =
      grow-total (usable - total (shrink s cs)) ws (shrink s cs) h3 (hl ∙ sym h2) (omega arith) in
    (omega arith, h5 ∙ h2, h6)
