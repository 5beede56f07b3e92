-- ===== src/Run/Sender/Progress.antt =====
-- What the workers of src/run/engine.rs have sent, through a sink that keeps its contract: all the
-- messages from number 0 on, one after the other, and the counter is their number.
use scg_seshat.Prelude.{
  ℕ, ◌+◌, ◌%◌, ◌^◌, ◌<◌, ◌≡◌, ap, ◌∙◌, List, [], length, take, length-append, length-take, inl, inr,
  le_cases, arith,
}
use mathlib.Core.Bool.{false}
use scg_seshat.Workload.Builder.Numbered.{Numbered, Numbered-append, Numbered-take}
use scg_seshat.Transport.Contract.{HandsOver}
use scg_seshat.Run.{World, is_done, EndsBy}

module _ {S : Type 0} (log : S → List (List ℕ)) (payload_len : ℕ) where
  pub record Progress (seq : ℕ) (s : S) : Type 0 where
    pub numbered : Numbered payload_len 0 (log s)
    pub counted : seq ≡ length (log s) % 2 ^ 64

  -- Handing over the front of the messages that are due.
  pub Progress-HandsOver :
      (seq k : ℕ) (s s' : S) (msgs : List (List ℕ))
      → Progress seq s
      → Numbered payload_len (length (log s)) msgs
      → HandsOver log s msgs s' k
      → Progress ((seq + k) % 2 ^ 64) s'
  Progress-HandsOver seq k s s' msgs p due h =
      let size : length (log s') ≡ length (log s) + k =
        omega
          (arith, ap length h.1, length-append (log s) (take k msgs), length-take k msgs, h.0) in
      let from : 0 + length (log s) ≡ length (log s) = omega arith in
      record {
        numbered = rw h.1 (
            Numbered-append payload_len 0 (log s) (take k msgs) p.numbered
              (rw from (Numbered-take payload_len (length (log s)) k msgs due)));
        counted = omega (arith, size, p.counted);
      }

  -- A step that hands over nothing.
  pub Progress-same : (seq : ℕ) (s s' : S) → Progress seq s → log s' ≡ log s → Progress seq s'
  Progress-same seq s s' p e = record { numbered = rw e p.numbered; counted = p.counted ∙ rw e }

  -- At the start.
  pub Progress-start : (s : S) → log s ≡ [] → Progress 0 s
  unfolding Numbered
  Progress-start s e = record { numbered = rw e tt; counted = rw e }

-- A worker that does not see the end of the run has made fewer readings than it takes.
pub before_end :
    (w : World) (limit at : ℕ) → EndsBy w limit → is_done (w.phase at) ≡ false → at < limit
before_end w limit at ends e = elim (le_cases limit at) [
  | inl over ↦ absurd (ground (arith, ends at over))
  | inr before ↦ before
]
