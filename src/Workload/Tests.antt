-- ===== src/Workload/Tests.antt =====
-- The theorems on pacing, building and receiving at concrete senders (src/workload).
use mathlib.Core.List.{foldl}
use scg_seshat.Workload.Receiver.Tally.{Arrival, decoded, IsTally, receive_measured-IsTally}
use scg_seshat.Prelude.{
  ℕ, ◌+◌, ◌-◌, ◌*◌, ◌^◌, ◌≤◌, ◌≡◌, min, none, some, List, [], ◌∷◌, ◌++◌, length, if◌then◌else◌,
  arith,
}
use scg_seshat.Prelude.Samples.{whole}
use scg_seshat.Config.Schema.{Interface, Pattern, Sender}
use scg_seshat.Wire.Header.{stamp_at}
use scg_seshat.Wire.Message.RoundTrip.{message_bytes}
use scg_seshat.Metrics.Flow.{FlowMetrics, record_message}
use scg_seshat.Metrics.Flow as Flow
use scg_seshat.Workload.Pacer.{fixed, Pacer, from_sender, next_deadline_ns, after}
use scg_seshat.Workload.Pacer.Deadlines
use scg_seshat.Workload.SendLag.{account, merge, merge-account}
use scg_seshat.Workload.Builder.{
  MessageBuilder, new, build_at, BatchBuilder, new_batch, build_batch,
}
use scg_seshat.Workload.Builder.Messages
use scg_seshat.Prelude.Text.{is_empty}
use scg_seshat.Workload.Dscp.{nothing_seen, verdict, seen_all}
use scg_seshat.Workload.Dscp.Verdict.{all_marked, verdict-seen_all}
use scg_seshat.Workload.Receiver.{receive_measured}
use scg_seshat.Workload.Receiver.Pipeline.{receive_measured-build_at}

-- Bursts of three messages, 10 µs apart, with a pause of 100 µs.
abbrev bursty : Sender ℕ
bursty = record {
  interface = Interface.tcp;
  target_addr = "127.0.0.1:9000";
  pattern = Pattern.burst;
  rate_limit_mbps = none;
  interval_us = some 10;
  burst_count = some 3;
  burst_pause_us = some 100;
  ramp_start_mbps = none;
  ramp_step_mbps = none;
  ramp_step_interval_secs = none;
}

from_sender_example : Deadlines.IsValid (from_sender whole bursty 64)
from_sender_example = Deadlines.from_sender-IsValid whole bursty 64

next_deadline_ns_example :
    let p = from_sender whole bursty 64 in
    let (d, p') = next_deadline_ns whole p in
    (d ≡ p.next_ns) × Deadlines.IsValid p' × (d ≤ p'.next_ns)
next_deadline_ns_example =
    Deadlines.next_deadline_ns-IsValid whole (from_sender whole bursty 64)
      (Deadlines.from_sender-IsValid whole bursty 64)

abbrev blast : Pacer ℕ
blast = record { kind = fixed 0; next_ns = 0 }

after-burst_example :
    after whole (2 * 3 + 1) (Deadlines.burst_at whole 3 10 100 0 0)
    ≡ Deadlines.burst_at whole 3 10 100 1 (0 + 2 * (3 * 10 + 100) + 1 * 10)
after-burst_example = Deadlines.after-burst whole 2 1 3 10 100 0 (omega arith)

merge_example : merge (account (5 ∷ 7 ∷ [])) (account (6 ∷ [])) ≡ account ((5 ∷ 7 ∷ []) ++ (6 ∷ []))
merge_example = merge-account (5 ∷ 7 ∷ []) (6 ∷ [])

small : MessageBuilder
small = new 32

small-IsValid : Messages.IsValid small
unfolding small
small-IsValid = Messages.new-IsValid 32 (omega arith)

build_at_example :
    (b' : MessageBuilder) × (build_at small 4 5
      ≡ some (message_bytes (stamp_at 4 small.payload_len 5), b'))
    × (length (message_bytes (stamp_at 4 small.payload_len 5)) ≡ small.message_bytes)
    × Messages.IsValid b'
    × (b'.payload_len ≡ small.payload_len)
build_at_example = Messages.build_at_lem small 4 5 small-IsValid

batch : BatchBuilder
batch = new_batch 32 2

batch-IsValid : Messages.BatchIsValid batch
unfolding batch
batch-IsValid = Messages.new_batch-BatchIsValid 32 2

build_batch_example :
    (b' : BatchBuilder) × (build_batch batch (2 ^ 64 - 1) 3 (λ i. i)
      ≡ some (
        Messages.batch_messages
            (2 ^ 64 - 1)
            batch.payload_len
            (λ i. i)
            0
            (min 3 (length batch.bufs)),
        b',
      ))
    × (length b'.bufs ≡ length batch.bufs)
    × Messages.BatchIsValid b'
    × (b'.payload_len ≡ batch.payload_len)
build_batch_example = Messages.build_batch_lem batch (2 ^ 64 - 1) 3 (λ i. i) batch-IsValid

metrics : FlowMetrics ℕ
metrics = Flow.new whole

receive_measured-build_at_example :
    (msg : List ℕ) × (b' : MessageBuilder) × (build_at small 4 5 ≡ some (msg, b'))
    × (receive_measured whole small.message_bytes metrics msg 9
        ≡ record_message whole metrics 4 (9 - 5) small.message_bytes)
receive_measured-build_at_example =
    receive_measured-build_at whole small metrics 4 5 9 small-IsValid (omega arith) (omega arith)

-- One byte, a message of the expected size, and one that is larger than expected.
abbrev arrivals : List Arrival
arrivals =
    (1 ∷ [], 9) ∷ (message_bytes (stamp_at 4 8 5), 9) ∷ (message_bytes (stamp_at 5 9 6), 20) ∷ []

receive_measured-IsTally_example :
    IsTally whole 32
      (decoded arrivals)
      (Flow.new whole)
      arrivals
      (foldl (λ m a. receive_measured whole 32 m a.0 a.1) (Flow.new whole) arrivals)
receive_measured-IsTally_example = receive_measured-IsTally whole 32 arrivals

-- The second of three packets has lost its mark.
verdict_example : verdict (seen_all 46 nothing_seen (184 ∷ 0 ∷ 185 ∷ [])) ≡ (
    if is_empty {A = ℕ} (184 ∷ 0 ∷ 185 ∷ [])
    then none
    else some (all_marked 46 (184 ∷ 0 ∷ 185 ∷ [])))
verdict_example = verdict-seen_all 46 (184 ∷ 0 ∷ 185 ∷ []) (omega arith)
