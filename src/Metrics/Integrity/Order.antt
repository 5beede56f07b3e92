-- ===== src/Metrics/Integrity/Order.antt =====
-- What `reordered` counts (src/metrics/app.rs).
use scg_seshat.Prelude.{
  ℕ, ◌+◌, ◌≤◌, ◌<◌, ◌≡◌, ◌↔◌, refl, sym, ◌∙◌, max, List, [], ◌∷◌, All, ltb, if◌then◌else◌, arith,
}
use scg_seshat.Metrics.Integrity.{SeqScan, scan_seq, scan_seqs, first_scan, integrity_of, integrity}

-- The arrivals whose number is below that of the arrival just before.
unfoldable pub descents : ℕ → List ℕ → ℕ
descents prev [] = 0
descents prev (s ∷ seqs) = (if ltb s prev then 1 else 0) + descents s seqs

-- The arrivals whose number is below that of some earlier arrival, of which `top` is the highest.
unfoldable pub late : ℕ → List ℕ → ℕ
late top [] = 0
late top (s ∷ seqs) = (if ltb s top then 1 else 0) + late (max top s) seqs

reordered-scan_seqs :
    (i : ℕ) (st : SeqScan) (xs : List ℕ)
    → 0 < i
    → (scan_seqs i st xs).reordered ≡ st.reordered + descents st.prev xs
unfolding scan_seqs scan_seq descents
reordered-scan_seqs i st [] h = omega arith
reordered-scan_seqs i st (x ∷ xs) h =
    ground (arith, reordered-scan_seqs (i + 1) (scan_seq i st x) xs (omega arith))

integrity-reordered : (s : ℕ) (rest : List ℕ) → (integrity (s ∷ rest)).reordered ≡ descents s rest
unfolding integrity integrity_of scan_seqs scan_seq
integrity-reordered s rest =
    ground (arith, reordered-scan_seqs 1 (scan_seq 0 (first_scan s) s) rest (omega arith))

descents-le-late : (prev top : ℕ) (xs : List ℕ) → prev ≤ top → descents prev xs ≤ late top xs
unfolding descents late
descents-le-late prev top [] h = omega arith
descents-le-late prev top (x ∷ xs) h =
    ground (arith, descents-le-late x (max top x) xs (omega arith))

-- No arrival has a number below that of any earlier one.
unfoldable pub IsInOrder : List ℕ → Type 0
IsInOrder [] = Unit
IsInOrder (s ∷ seqs) = All (λ t. s ≤ t) seqs × IsInOrder seqs

All-le : (a b : ℕ) (xs : List ℕ) → a ≤ b → All (λ t. b ≤ t) xs → All (λ t. a ≤ t) xs
All-le a b [] h k = tt
All-le a b (x ∷ xs) h k = (omega (arith, k.0), All-le a b xs h k.1)

IsInOrder-descents : (s : ℕ) (rest : List ℕ) → IsInOrder (s ∷ rest) → descents s rest ≡ 0
unfolding IsInOrder descents
IsInOrder-descents s [] h = refl
IsInOrder-descents s (x ∷ xs) h = ground (arith, IsInOrder-descents x xs h.1, h.0.0)

descents-IsInOrder : (s : ℕ) (rest : List ℕ) → descents s rest ≡ 0 → IsInOrder (s ∷ rest)
unfolding IsInOrder descents
descents-IsInOrder s [] h = (tt, tt)
descents-IsInOrder s (x ∷ xs) h =
    let not_below : s ≤ x = ground arith in
    let none_later : descents x xs ≡ 0 = ground arith in
    let rest = descents-IsInOrder x xs none_later in
    ((not_below, All-le s x xs not_below rest.0), rest)

-- For at least one arrival, `reordered` is zero exactly if no arrival has a number below that of
-- any earlier one; it is the number of arrivals lower than the one just before, and at most the
-- number of those lower than any earlier one.
pub reordered-IsInOrder :
    (s : ℕ) (rest : List ℕ)
    → let r = integrity (s ∷ rest) in
      ((r.reordered ≡ 0) ↔ IsInOrder (s ∷ rest))
      × (r.reordered ≡ descents s rest)
      × (r.reordered ≤ late s rest)
reordered-IsInOrder s rest =
    let e = integrity-reordered s rest in
    (
      (λ h. descents-IsInOrder s rest (sym e ∙ h), λ h. e ∙ IsInOrder-descents s rest h),
      e,
      omega (arith, e, descents-le-late s s rest (omega arith)),
    )
