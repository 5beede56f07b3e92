-- ===== src/Metrics/Integrity/Counts.antt =====
-- What the counts of `integrity` are (src/metrics/app.rs): `lost` is the number of sequence numbers
-- between the lowest and the highest received that never arrived.
use scg_seshat.Prelude.{
  ℕ, zero, suc, ◌+◌, ◌-◌, ◌^◌, ◌≤◌, ◌<◌, ◌≡◌, refl, sym, ap, ◌∙◌, min, max, false, ◌||◌, List, [],
  ◌∷◌, length, ◌==◌, ==_iff, if◌then◌else◌, Bool-cases, inl, inr, All, arith,
}
use scg_seshat.Metrics.Integrity.{
  contains, insert, SeqScan, scan_seq, scan_seqs, first_scan, span_of, integrity_of, integrity,
}

-- How many of the `n` numbers from `lo` on are in the list, and how many are not.
unfoldable pub present : ℕ → ℕ → List ℕ → ℕ
present lo zero xs = 0
present lo (suc n) xs = (if contains lo xs then 1 else 0) + present (lo + 1) n xs

unfoldable pub missing : ℕ → ℕ → List ℕ → ℕ
missing lo zero xs = 0
missing lo (suc n) xs = (if contains lo xs then 0 else 1) + missing (lo + 1) n xs

unfoldable pub lowest : List ℕ → ℕ
lowest [] = 2 ^ 64 - 1
lowest (x ∷ xs) = min x (lowest xs)

unfoldable pub highest : List ℕ → ℕ
highest [] = 0
highest (x ∷ xs) = max x (highest xs)

present-add-missing : (lo n : ℕ) (xs : List ℕ) → present lo n xs + missing lo n xs ≡ n
unfolding present missing
present-add-missing lo zero xs = refl
present-add-missing lo (suc n) xs = ground (arith, present-add-missing (lo + 1) n xs)

-- Only membership matters.
present_ext :
    (lo n : ℕ) (xs ys : List ℕ)
    → ((k : ℕ) → contains k xs ≡ contains k ys)
    → present lo n xs ≡ present lo n ys
unfolding present
present_ext lo zero xs ys h = refl
present_ext lo (suc n) xs ys h = rw (h lo, present_ext (lo + 1) n xs ys h)

present-nil : (lo n : ℕ) → present lo n [] ≡ 0
unfolding present contains
present-nil lo zero = refl
present-nil lo (suc n) = omega (arith, present-nil (lo + 1) n)

present-cons_below : (lo n s : ℕ) (xs : List ℕ) → s < lo → present lo n (s ∷ xs) ≡ present lo n xs
unfolding present contains
present-cons_below lo zero s xs h = refl
present-cons_below lo (suc n) s xs h =
    ground (arith, present-cons_below (lo + 1) n s xs (omega arith))

-- A new number in the range counts once.
present-cons_new :
    (lo n s : ℕ) (xs : List ℕ)
    → lo ≤ s
    → s < lo + n
    → contains s xs ≡ false
    → present lo n (s ∷ xs) ≡ present lo n xs + 1
unfolding present contains
present-cons_new lo zero s xs low high new = absurd (omega arith)
present-cons_new lo (suc n) s xs low high new = elim (Bool-cases (lo == s)) [
  | inl here ↦
      let e = (==_iff lo s).0 here in
      ground
        (arith, present-cons_below (lo + 1) n s xs (omega (arith, e)), ap (λ k. contains k xs) e)
  | inr later ↦
      let beyond : lo + 1 ≤ s = ground arith in
      ground (arith, present-cons_new (lo + 1) n s xs beyond (omega arith) new)
]

contains-insert : (k s : ℕ) (seen : List ℕ) → contains k (insert s seen) ≡ contains k seen || k == s
unfolding insert contains
contains-insert k s seen = elim (Bool-cases (k == s)) [
  | inl same ↦ ground (arith, ap (λ j. contains j seen) ((==_iff k s).0 same))
  | inr other ↦ ground arith
]

-- The set holds what it held and what has arrived.
contains-scan_seqs :
    (k i : ℕ) (st : SeqScan) (xs : List ℕ)
    → contains k (scan_seqs i st xs).seen ≡ contains k st.seen || contains k xs
unfolding scan_seqs scan_seq contains
contains-scan_seqs k i st [] = ground arith
contains-scan_seqs k i st (x ∷ xs) =
    ground (arith, contains-scan_seqs k (i + 1) (scan_seq i st x) xs, contains-insert k x st.seen)

abbrev Within : ℕ → ℕ → List ℕ → Type 0
Within lo n = All (λ s. (lo ≤ s) × (s < lo + n))

length-insert :
    (lo n s : ℕ) (seen : List ℕ)
    → lo ≤ s
    → s < lo + n
    → length seen ≡ present lo n seen
    → length (insert s seen) ≡ present lo n (insert s seen)
unfolding insert
length-insert lo n s seen low high h = elim (Bool-cases (contains s seen)) [
  | inl old ↦ rw old h
  | inr new ↦ rw new (omega (arith, present-cons_new lo n s seen low high new))
]

-- The size of the set is the number of different sequence numbers.
length-scan_seqs :
    (lo n i : ℕ) (st : SeqScan) (xs : List ℕ)
    → Within lo n xs
    → length st.seen ≡ present lo n st.seen
    → length (scan_seqs i st xs).seen ≡ present lo n (scan_seqs i st xs).seen
unfolding scan_seqs scan_seq
length-scan_seqs lo n i st [] w h = h
length-scan_seqs lo n i st (x ∷ xs) w h =
    length-scan_seqs lo n (i + 1) (scan_seq i st x) xs w.1
      (length-insert lo n x st.seen w.0.0 w.0.1 h)

min_seq-scan_seqs :
    (i : ℕ) (st : SeqScan) (xs : List ℕ)
    → st.min_seq ≤ 2 ^ 64 - 1
    → (scan_seqs i st xs).min_seq ≡ min st.min_seq (lowest xs)
unfolding scan_seqs scan_seq lowest
min_seq-scan_seqs i st [] h = omega arith
min_seq-scan_seqs i st (x ∷ xs) h =
    omega (arith, min_seq-scan_seqs (i + 1) (scan_seq i st x) xs (omega arith))

max_seq-scan_seqs :
    (i : ℕ) (st : SeqScan) (xs : List ℕ) → (scan_seqs i st xs).max_seq ≡ max st.max_seq (highest xs)
unfolding scan_seqs scan_seq highest
max_seq-scan_seqs i st [] = omega arith
max_seq-scan_seqs i st (x ∷ xs) = omega (arith, max_seq-scan_seqs (i + 1) (scan_seq i st x) xs)

abbrev pub AreSeqs : List ℕ → Type 0
AreSeqs = All (λ s. s < 2 ^ 64)

Within-lowest :
    (lo hi : ℕ) (xs : List ℕ) → lo ≤ lowest xs → highest xs ≤ hi → Within lo (hi - lo + 1) xs
unfolding lowest highest
Within-lowest lo hi [] low high = tt
Within-lowest lo hi (x ∷ xs) low high =
    ((omega arith, omega arith), Within-lowest lo hi xs (omega arith) (omega arith))

lowest-le-highest : (x : ℕ) (xs : List ℕ) → lowest (x ∷ xs) ≤ highest (x ∷ xs)
unfolding lowest highest
lowest-le-highest x xs = omega arith

highest-lt : (xs : List ℕ) → AreSeqs xs → highest xs < 2 ^ 64
unfolding highest
highest-lt [] h = omega arith
highest-lt (x ∷ xs) h = omega (arith, h.0, highest-lt xs h.1)

-- The width of the range from the lowest to the highest number received.
abbrev pub width : List ℕ → ℕ
width seqs = highest seqs - lowest seqs + 1

-- For at least one received number, all of them in the range of `u64` and their range not all of
-- it: `received` is the number of arrivals, `distinct` and `lost` count the numbers between the
-- lowest and the highest that arrived and that did not, the two together are the width of the
-- range, and `duplicate` is what `received` exceeds `distinct` by.
pub integrity-counts :
    (s : ℕ) (rest : List ℕ)
    → AreSeqs (s ∷ rest)
    → width (s ∷ rest) < 2 ^ 64
    → let seqs = s ∷ rest in
      let r = integrity seqs in
      (r.received ≡ length seqs)
      × (r.distinct ≡ present (lowest seqs) (width seqs) seqs)
      × (r.lost ≡ missing (lowest seqs) (width seqs) seqs)
      × (r.distinct + r.lost ≡ width seqs)
      × (r.duplicate ≡ r.received - r.distinct)
unfolding integrity integrity_of
integrity-counts s rest fits narrow =
    let seqs = s ∷ rest in
    let st = scan_seqs 0 (first_scan s) seqs in
    let lo = lowest seqs in
    let low : st.min_seq ≡ lo = omega (
      arith,
      min_seq-scan_seqs 0 (first_scan s) seqs (omega arith),
      lowest-le-highest s rest,
      highest-lt seqs fits,
    ) in
    let high : st.max_seq ≡ highest seqs = omega (arith, max_seq-scan_seqs 0 (first_scan s) seqs) in
    let span : span_of st ≡ width seqs = omega (arith, low, high) in
    let counted : length st.seen ≡ present lo (width seqs) st.seen =
      length-scan_seqs lo (width seqs) 0 (first_scan s) seqs
        (Within-lowest lo (highest seqs) seqs (omega arith) (omega arith))
        (sym (present-nil lo (width seqs))) in
    let same : present lo (width seqs) st.seen ≡ present lo (width seqs) seqs =
      present_ext lo (width seqs) st.seen seqs
        (λ k. contains-scan_seqs k 0 (first_scan s) seqs ∙ (unfold contains in refl)) in
    let total = present-add-missing lo (width seqs) seqs in
    (
      refl,
      counted ∙ same,
      omega (arith, span, counted, same, total),
      omega (arith, span, counted, same, total),
      refl,
    )
