-- ===== src/Run/Saturation/Knee.antt =====
-- What a sweep of src/run/saturation.rs reports.
use mathlib.Core.Path.{subst}
use mathlib.Core.List.{Memᴰ}
use scg_seshat.Prelude.{
  ℕ, zero, suc, ◌+◌, ◌≤◌, ◌≡◌, refl, sym, ap, ◌∙◌, ◌⊎◌, inl, inr, Bool, true, false, Option, none,
  some, List, [], ◌∷◌, length, All, Bool-cases, arith,
}
use scg_seshat.Prelude.Float.{FloatMath}
use scg_seshat.Prelude.Result.{Result, ok, err, WhenOk, WhenOk-bind}
use scg_seshat.Metrics.Summary.{FlowSummary}
use scg_seshat.Run.Scenario.{RunParams}
use scg_seshat.Metrics.Stats.Sorting.{TotalOrder}
use scg_seshat.Run.Saturation.{
  SweepPoint, SweepPlan, SweepResult, point_params, point_count, rate_at, point_of, better, best,
  knee_from, knee, knee_values, derive, measure_points, sweep_saturation,
}

module _ {F : Type 0} (fm : FloatMath F) (order : TotalOrder fm) (plan : SweepPlan F) where
  open fm use {total_le}
  open fm.ops use {le, of_nat}

  abbrev within : SweepPoint F → Bool
  within p = le p.loss_pct plan.loss_threshold_pct

  abbrev NotAbove : SweepPoint F → SweepPoint F → Type 0
  NotAbove p k = total_le p.throughput_gbps k.throughput_gbps ≡ true

  -- No point within the budget has a higher goodput.
  abbrev Beats : SweepPoint F → List (SweepPoint F) → Type 0
  Beats k = All (λ (p : SweepPoint F). (within p ≡ false) ⊎ NotAbove p k)

  NotAbove-trans : (a b c : SweepPoint F) → NotAbove a b → NotAbove b c → NotAbove a c
  NotAbove-trans a b c h k =
      order.transitive a.throughput_gbps b.throughput_gbps c.throughput_gbps h k

  better_lem :
      (a p : SweepPoint F)
      → let b = better fm a p in ((b ≡ a) ⊎ (b ≡ p)) × NotAbove a b × NotAbove p b
  unfolding better
  better_lem a p = elim (Bool-cases (total_le a.throughput_gbps p.throughput_gbps)) [
    | inl le ↦ rw le (inr refl, le, order.reflexive p.throughput_gbps)
    | inr gt ↦ rw gt (
      inl refl,
      order.reflexive a.throughput_gbps,
      order.total a.throughput_gbps p.throughput_gbps gt,
    )
  ]

  from_some :
      (a : SweepPoint F) (ps : List (SweepPoint F))
      → within a ≡ true
      → (k : SweepPoint F) × (knee_from fm plan (some a) ps ≡ some k)
        × ((k ≡ a) ⊎ Memᴰ k ps)
        × (within k ≡ true)
        × NotAbove a k
        × Beats k ps
  unfolding knee_from best
  from_some a [] ok_a = (a, refl, inl refl, ok_a, order.reflexive a.throughput_gbps, tt)
  from_some a (p ∷ ps) ok_a = elim (Bool-cases (within p)) [
    | inl inside ↦
        let b = better fm a p in
        let (which, below_a, below_p) = better_lem a p in
        let ok_b : within b ≡ true = elim which [
          | inl e ↦ ap within e ∙ ok_a
          | inr e ↦ ap within e ∙ inside
        ] in
        let (k, e, where_k, ok_k, above, beats) = from_some b ps ok_b in
        (
          k,
          rw inside e,
          elim where_k [
            | inl same ↦ elim which [ inl e ↦ inl (same ∙ e) | inr e ↦ inr (Memᴰ.head (same ∙ e)) ]
            | inr mem ↦ inr (Memᴰ.tail mem)
          ],
          ok_k,
          NotAbove-trans a b k below_a above,
          (inr (NotAbove-trans p b k below_p above), beats),
        )
    | inr outside ↦
        let (k, e, where_k, ok_k, above, beats) = from_some a ps ok_a in
        (
          k,
          rw outside e,
          elim where_k [ inl same ↦ inl same | inr mem ↦ inr (Memᴰ.tail mem) ],
          ok_k,
          above,
          (inl outside, beats),
        )
  ]

  -- The knee is within the budget and has the highest goodput of the points within it, or no point
  -- is within it.
  unfoldable pub IsKnee : List (SweepPoint F) → Option (SweepPoint F) → Type 0
  IsKnee ps none = All (λ (p : SweepPoint F). within p ≡ false) ps
  IsKnee ps (some k) = Memᴰ k ps × (within k ≡ true) × Beats k ps

  further :
      (p : SweepPoint F) (ps : List (SweepPoint F)) (o : Option (SweepPoint F))
      → within p ≡ false
      → IsKnee ps o
      → IsKnee (p ∷ ps) o
  unfolding IsKnee
  further p ps none outside h = (outside, h)
  further p ps (some k) outside h = (Memᴰ.tail h.0, h.1, (inl outside, h.2))

  knee-IsKnee : (ps : List (SweepPoint F)) → IsKnee ps (knee fm plan ps)
  unfolding knee knee_from best IsKnee
  knee-IsKnee [] = tt
  knee-IsKnee (p ∷ ps) = elim (Bool-cases (within p)) [
    | inl inside ↦
        let (k, e, where_k, ok_k, above, beats) = from_some p ps inside in
        rw (inside, e)
          (
            elim where_k [ inl same ↦ Memᴰ.head same | inr mem ↦ Memᴰ.tail mem ],
            ok_k,
            (inr above, beats),
          )
    | inr outside ↦
        let e : knee fm plan (p ∷ ps) ≡ knee fm plan ps = rw outside refl in
        subst (IsKnee (p ∷ ps)) (sym e) (further p ps (knee fm plan ps) outside (knee-IsKnee ps))
  ]

  -- The offered rates of the points: `count` of them from number `i` on.
  unfoldable pub OfferedFrom : ℕ → ℕ → List (SweepPoint F) → Type 0
  OfferedFrom zero i [] = Unit
  OfferedFrom (suc count) i (p ∷ ps) =
      (p.offered_mbps ≡ rate_at fm plan i) × OfferedFrom count (i + 1) ps
  OfferedFrom _ i _ = ⊥

  -- What a sweep reports.
  pub record IsSweep (r : SweepResult F) : Type 0 where
    pub offered : OfferedFrom (point_count fm plan) 0 r.points
    pub few : length r.points ≤ 10000
    pub at_knee :
        (k : Option (SweepPoint F)) × IsKnee r.points k
        × ((r.max_lossfree_gbps, r.knee_offered_mbps) ≡ knee_values fm k)

  capped : point_count fm plan ≤ 10000
  unfolding point_count
  capped = omega arith

  anything : {E A : Type 0} (r : Result E A) → WhenOk (λ a. Unit) r
  unfolding WhenOk
  anything (ok a) = tt
  anything (err e) = tt

  module _ {E W : Type 0} (run_once : RunParams F → W → Result E (FlowSummary F × W))
      (base : RunParams F) where
    measured :
        (count i : ℕ) (w : W)
        → WhenOk
            (λ r. OfferedFrom count i r.0 × (length r.0 ≡ count))
            (measure_points fm run_once base plan count i w)
    unfolding measure_points OfferedFrom WhenOk rate_at point_of
    measured zero i w = (tt, refl)
    measured (suc count) i w =
        WhenOk-bind (λ r. Unit) _ (run_once (point_params base (rate_at fm plan i)) w) _
          (anything _)
          (λ r u.
            WhenOk-bind (λ t. OfferedFrom count (i + 1) t.0 × (length t.0 ≡ count)) _
              (measure_points fm run_once base plan count (i + 1) r.1) _
              (measured count (i + 1) r.1) (λ t h. ((refl, h.0), omega (arith, h.1))))

    -- Where `total_cmp` orders totally: a sweep that succeeds has one point for each offered rate
    -- of the plan, in order, and 10000 at most. Its lossless goodput and the load at the knee are
    -- those of one of the points, whose loss is within the budget and whose goodput no point
    -- within the budget exceeds; or no point is within the budget, and both are zero.
    pub sweep_saturation-IsSweep :
        (w : W) → WhenOk (λ r. IsSweep r.0) (sweep_saturation fm run_once base plan w)
    unfolding sweep_saturation derive WhenOk
    sweep_saturation-IsSweep w =
        WhenOk-bind
          (λ t. OfferedFrom (point_count fm plan) 0 t.0 × (length t.0 ≡ point_count fm plan)) _
          (measure_points fm run_once base plan (point_count fm plan) 0 w) _
          (measured (point_count fm plan) 0 w)
          (λ t h. record {
            offered = h.0;
            few = omega (arith, h.1, capped);
            at_knee = (knee fm plan t.0, knee-IsKnee t.0, refl);
          })
