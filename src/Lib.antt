-- ===== src/Lib.antt =====
-- go-replayer: a load generator that replays recorded gRPC requests (main.go), at the times that a
-- scheduler of Poisson streams and bursts gives (scheduler.go), with window statistics (metrics.go);
-- a target that analyses the arrivals (cmd/grpc-gap-target), one that only answers
-- (cmd/grpc-dummy-target), and a checker that sends each request to two servers and compares the
-- responses (cmd/grpc-parity-check).
--
-- The parts and their files:
--   Prelude    tests on numbers, lists, results, and (Int) Go's int64, time.Time and time.Duration
--   Machine    float64, math and math/rand as a record of operations, and poissonIntervalFloat
--   Replay     Codec: rawCodec of the four programs; Reader: io.ReadFull and binary.Read; Load:
--              loadRequests of main.go; ParityLoad: the loader of the parity checker; Dispatch:
--              roundRobinRequest and makeDispatchJob; Takeover: resolveTakeoverInstallRoot and
--              resolveTakeoverArtifacts; the other children hold proofs
--   Heap       Slice: container/heap over poissonHeap; the other children hold proofs
--   Scheduler  Burst: BurstConfig; State: NewSchedulerWithReplicas and the counters; Next: Next with
--              peekEarliest, spawnBurst and advanceBurstOnset; the other children hold proofs
--   Windows    Capture: the bounded captures; Bins and Analyzer: Summary of metrics.go; Gap and
--              GapSummary: recordArrival, analyzeWindows and printSummary of the gap target; Latency:
--              latencyStats of main.go; Percentiles: its summary, the percentiles of the reporter, and
--              the diffSampler of the parity checker; FloatSort: sort.Float64s; the other children hold
--              proofs
--   Telemetry  Rows and Writer: JSONLWriter of metrics.go
--   Parity     Varint, Floats, Compare: cmd/grpc-parity-check/proto_compare.go; Verdict: the switch on
--              the replies, the totals and the exit status of its main.go; Launch: its main up to the
--              loop; System: the loop, its goroutines and the semaphore; the other children hold proofs
--   Config     Strings: what the flags need of strings, strconv and net; Target: normalizeTargetArg;
--              BurstFlags: parseBurstShape, parseBurstJitter and parseBurstMode; Flags and Checks: main
--              from the parsed flags to the configuration of the run; Dial: buildDialOptions and dial of
--              the parity checker; the other children hold proofs
--   Run        Start: main up to the goroutines; State: what they share; Step: their steps; Ledger: an
--              abstract queue with counters; Report: the summary at the end; the other children hold
--              proofs
--   Servers    Listen: how the two targets come to listen; Handler: their handler; Gap: what each keeps
--              and prints; the other children hold proofs
--   Tests      concrete inputs
--
-- How they meet: main settles a configuration (resolve_config), loads the requests and opens the
-- connections (start_run; setup_of gives what the goroutines read), and starts the sender, the workers and
-- the reporter on a scheduler (main_run, Step), which share the queue, the counters and what the mutex
-- guards; the sender takes arrival times from Next, and the requests in turn from what
-- loadRequests read (arrivals, dispatched); the reporter drains the scheduler's latches between the
-- sender's steps (Reported); the analyzer records each dispatch; report reads the state that is left.
-- The checker loads its requests, dials (launch), sends each request to both servers (CheckStep),
-- counts the replies with the switch of Verdict and ends with its exit status. The gap target records
-- arrivals with the capture of Windows and prints their summary.
--
-- Conventions:
--   - A file is the list of its bytes, and none where os.Open fails. A string is the list of its bytes;
--     the texts of the command line are ASCII, where strings.ToLower and strings.TrimSpace work byte by
--     byte.
--   - A time.Time is the number of nanoseconds since Go's zero time; a duration is an int64, and the
--     products of durations in spawnBurst and in the size of the spike buffer wrap as int64 does. The
--     sum of a time and a duration does not saturate. Counters that go up by one are unbounded.
--   - float64 is abstract. Machine.Laws lists what the scheduler's theorems use of IEEE 754, math and
--     math/rand; each theorem that uses them takes them as an argument, and Tests.Arithmetic has an
--     instance. The percentiles and the quantiles
--     of bins assume Ranks.Ranks: up to 2^23, the constants 0.50, 0.90 and 0.99 times a length truncate
--     to the exact hundredths of it.
--   - container/heap and sort are translated from their documented algorithms; sort is an insertion
--     sort, which gives the same list, since equal numbers cannot be told apart; for float64 this holds
--     but for the signs of zeros and the bits of NaNs.
--   - The goroutines of main interleave in any order, one atomic operation, channel operation or section
--     under the mutex at a time. Invoke answers with any reply; the text of its error, which begins with
--     `rpc error:`, is not empty. The ticks of the reporter come at any time.
--   - arrivals and sent of Servers.Handler.Server only record what has happened: the targets keep no
--     such lists, and no step reads them.
--   - A method that holds a mutex, or an atomic operation, is one step.
--   - stuck, out_of_fuel and none mark a model that ran out of fuel. The fuel of the loaders is the
--     length of the file and one, and of the float extraction the length of the message: each round
--     takes a byte at least. Next takes its fuel as an argument: a round without an arrival spawns a
--     burst, and with fixed onsets the next one is at least a nanosecond later. A round of strip_loop
--     takes two bytes, so the length of the text is enough, and a round of itoa_from a digit.
--   - With exponential onsets the gap between bursts may be 0, so no number of rounds is enough there.
--   - os, crypto/tls and crypto/x509 are the record Dial.Trust; grpc.NewClient, net.Listen and the files
--     are arguments.
--   - Each call of a target may stop at any step; sync.Once lets no call pass before the first has
--     printed, so its function is one step.
--
-- Not modelled: gRPC and TLS themselves, flag.Parse, printing, the CSV rows, the encoding of JSON, the
-- lag and blocking times of the sender, the choice of a connection by a worker, the sleep of the
-- checker between requests, and the signal that stops the gap target.
pub mod Prelude
pub mod Replay
pub mod Heap
pub mod Machine
pub mod Scheduler
pub mod Windows
pub mod Parity
pub mod Telemetry
pub mod Config
pub mod Run
pub mod Servers
pub mod Tests
