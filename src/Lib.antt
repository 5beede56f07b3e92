-- ===== src/Lib.antt =====
-- SESHAT measures a secure gateway: a sender paces numbered messages through a transport, and a
-- receiver checks each message and keeps the figures that the reports are made of.
--
-- Parts and files:
-- - Wire (src/proto/wire.rs): the header, the deterministic payload and the whole message. A byte is
--   a number below 256, a buffer a list of them, and `none` a panic of a slice operation.
-- - Framing (`FramedReader` of src/transport/mod.rs): messages taken out of a byte stream. The read
--   function is a parameter with a state of its own, and `ByteStream` is the contract of one that
--   serves a stream.
-- - Config (src/config/schema.rs, src/config/mod.rs, src/net.rs): Schema has the types, Report what
--   validation says, Address, Validate and Suite the checks, Estimate the run time, and Rules the
--   rules that the checks are compared with. A message of validation is a constructor with what its
--   text quotes.
-- - Workload (src/workload/sender.rs, src/workload/receiver.rs, src/workload/streams.rs): Pacer gives
--   deadlines, Builder makes messages, SendLag keeps how late they are sent, Receiver has the step of
--   the receive loop, which joins Wire and Metrics, and Dscp (also src/workload/dscp.rs) the marks seen.
-- - Transport (src/transport/mod.rs, src/transport/shm.rs): the traits of a transport's ends as records
--   of operations, what the run engine relies on of them (Contract), and the ends of the shared-memory
--   transport (Shm), whose client library is a parameter (`ScgClient`, `ScgReceiver`).
-- - Run (src/run/engine.rs): the workers. Sender joins Pacer, Builder and a sink, Receiver a source and
--   the receive step, PingPong and Echo are the closed loop, Connrate the connector, and EndToEnd puts a
--   channel between sender and receiver. The phase flag and the clock are functions of the number of
--   the reading. Scenario has the runs of a scenario and their aggregation, a single run
--   being a parameter. Saturation (src/run/saturation.rs) sweeps offered loads, with a measured run as a
--   parameter, and Calibrate (src/run/calibrate.rs) decides what limits a result.
-- - Metrics (src/metrics/app.rs, src/metrics/stats.rs): Flow has the recorded figures, Integrity the
--   loss, duplication and order of the numbers received, Stats the statistics of a sample, and Summary
--   what a flow and a run of several flows report. The hash set is a list without repetitions.
-- - Affinity (src/run/affinity.rs): the split of the cores among sender, receiver and gateway.
-- - Report (src/report/csv.rs, src/report/overview.rs): CSV tables, written and read back.
-- - Prelude: tests, lists, slices, bytes, texts, results and the operations of `f64`, which are a
--   parameter (`FloatOps`, and `FloatMath` for the statistics; TotalOrder and RankLaws are the laws
--   that theorems rely on).
--
-- Machine integers are numbers with their wrap-around written out; overflow is that of a release
-- build. Loops run on fuel that the code itself bounds: `take_one` by the buffered bytes, of which
-- each round drops one; the payload loops by the bytes left, of which each round handles at least
-- one; `partition_cores` by the surplus and by what is lacking. `next_message` has a number of rounds,
-- and is unfinished only if they run out; the theorem on it asks for more rounds than there are reads
-- to come. A worker of Run has a number of rounds in the same way, and the theorems on it ask for more
-- rounds than there are readings before the end of the run, and messages to come.
-- The decimal print of a `u64` has 20 digits at most.
--
-- Not modelled: sockets, shared memory, threads and clocks (below the traits of the transports, and the
-- start and the join of the workers), files,
-- processes and gRPC (commands, gateway control, topology, PKI, system metrics), deserialisation,
-- and the layout of the reports. The parsing of DSCP tags
-- is pure enough to be modelled, and is not here.
pub mod Prelude
pub mod Wire
pub mod Framing
pub mod Config
pub mod Metrics
pub mod Affinity
pub mod Workload
pub mod Transport
pub mod Run
pub mod Report
