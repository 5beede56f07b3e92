-- ===== src/Transport/Tests.antt =====
-- The theorems on the sinks of src/transport at the ring of the samples.
use scg_seshat.Prelude.{ℕ, List, [], ◌∷◌, none}
use scg_seshat.Transport.{send_each}
use scg_seshat.Transport.Contract.{SendsBatch}
use scg_seshat.Transport.Each.{AnswersBatch, send_each-AnswersBatch}
use scg_seshat.Transport.Shm.{ShmSink, send_msg, shm_sink}
use scg_seshat.Transport.Shm.Keeps.{shm_sink-SinkContract}
use scg_seshat.Transport.Samples.{Ring, ring, ring-ClientContract}

abbrev sink : ShmSink Ring
sink = record { client = ([], []); traffic_id = 7; pending_len = none }

abbrev log : ShmSink Ring → List (List ℕ)
log s = s.client.0

send_each-AnswersBatch_example :
    let r = send_each (send_msg ring) 0 sink ((1 ∷ []) ∷ (2 ∷ []) ∷ []) in
    AnswersBatch log (send_msg ring) sink ((1 ∷ []) ∷ (2 ∷ []) ∷ []) r.0 r.1
    × SendsBatch log sink ((1 ∷ []) ∷ (2 ∷ []) ∷ []) r.0 r.1
unfolding send_msg shm_sink
send_each-AnswersBatch_example =
    send_each-AnswersBatch log (send_msg ring)
      (shm_sink-SinkContract ring (λ c. c.0) ring-ClientContract).sends sink
      ((1 ∷ []) ∷ (2 ∷ []) ∷ [])
