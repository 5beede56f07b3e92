-- ===== src/Metrics/Integrity.antt =====
-- Loss, duplication and reordering from arrival-ordered sequence numbers: `integrity` of
-- src/metrics/app.rs. The hash set is a list without repetitions.
pub mod Counts
pub mod Order
use scg_seshat.Prelude.{
  ℕ, zero, suc, ◌+◌, ◌-◌, ◌%◌, ◌^◌, min, max, Bool, true, false, ◌&&◌, ◌||◌, List, [], ◌∷◌, length,
  ◌==◌, ltb, if◌then◌else◌,
}

pub record Integrity : Type 0 where
  pub received : ℕ
  pub distinct : ℕ
  pub lost : ℕ
  pub duplicate : ℕ
  pub reordered : ℕ

unfoldable pub contains : ℕ → List ℕ → Bool
contains k [] = false
contains k (x ∷ xs) = k == x || contains k xs

-- `HashSet::insert`
unfoldable pub insert : ℕ → List ℕ → List ℕ
insert k seen = if contains k seen then seen else k ∷ seen

-- The variables of the loop.
pub record SeqScan : Type 0 where
  pub seen : List ℕ
  pub min_seq : ℕ
  pub max_seq : ℕ
  pub reordered : ℕ
  pub prev : ℕ

unfoldable pub scan_seq : ℕ → SeqScan → ℕ → SeqScan
scan_seq i st s = record {
  seen = insert s st.seen;
  min_seq = min st.min_seq s;
  max_seq = max st.max_seq s;
  reordered = if ltb 0 i && ltb s st.prev then st.reordered + 1 else st.reordered;
  prev = s;
}

-- The loop over `seqs.iter().enumerate()`, from index `i` on.
unfoldable pub scan_seqs : ℕ → SeqScan → List ℕ → SeqScan
scan_seqs i st [] = st
scan_seqs i st (s ∷ seqs) = scan_seqs (i + 1) (scan_seq i st s) seqs

abbrev pub first_scan : ℕ → SeqScan
first_scan s = record { seen = []; min_seq = 2 ^ 64 - 1; max_seq = 0; reordered = 0; prev = s }

-- `max - min + 1` in `u64`
abbrev pub span_of : SeqScan → ℕ
span_of st = (st.max_seq - st.min_seq + 1) % 2 ^ 64

unfoldable pub integrity_of : List ℕ → SeqScan → Integrity
integrity_of seqs st = record {
  received = length seqs;
  distinct = length st.seen;
  lost = span_of st - length st.seen;
  duplicate = length seqs - length st.seen;
  reordered = st.reordered;
}

unfoldable pub integrity : List ℕ → Integrity
integrity [] = record { received = 0; distinct = 0; lost = 0; duplicate = 0; reordered = 0 }
integrity (s ∷ seqs) = integrity_of (s ∷ seqs) (scan_seqs 0 (first_scan s) (s ∷ seqs))
