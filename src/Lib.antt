-- ===== src/Lib.antt =====
-- goboxd runs programs that users submit, in a sandbox, and judges their output. A job comes from
-- a queue or over HTTP, the executor writes its source to a job directory, builds it, runs it once
-- for each test case under nsjail, compares the outputs and reports a status.
--
-- The parts and their files
--   Registry        internal/registry/registry.go: languages loaded from YAML files (LoadDir,
--                   loadFile, validate, Get, Names). The directory, the files and the YAML decoder
--                   are the record Files. Its errors are constructors.
--   Config          internal/config/config.go: the record Config, and Load with its two helpers over any
--                   environment.
--   Sandbox         internal/sandbox/sandbox.go: the arguments of nsjail and the call of it
--                   (Sandbox.run), the exit's meaning (Sandbox.Exit, classifyExit), and the buffer
--                   that keeps the output (Sandbox.Buffer, cappedBuffer).
--   Executor.Types, Checks, Output, Phases, Run
--                   internal/executor/types.go and executor.go: the checks of a request, the
--                   comparison of outputs, the build and run phases, rollup, and Run.
--   Executor.Stats  internal/executor/stats.go: the counters and the ring of latencies.
--   Executor.Admission  the semaphore and the counters under concurrent calls of Run: a step relation
--                   in which each operation on the channel, each addition to a counter and each
--                   Observe is a step (Admission.Books, Admission.Full).
--   Worker          internal/worker/job.go and worker.go: buildRequest (Worker.Jobs), responseToMap
--                   (Worker.Results) and handleMessage (Worker.Handling); New (Worker.Setup); and
--                   Start with pollLoop (Worker.Polling), a step relation over the number of
--                   goroutines at each point of the loop, which differ only in an id that is logged.
--                   A handler that panics ends the process, which that relation leaves out.
--   Api             internal/api/api.go: the run handler of the HTTP API and its replies, requests
--                   that come one after the other (Api.Sessions), and the handlers healthz, readyz,
--                   info and metrics (Api.Status).
--   Daemon          cmd/goboxd/main.go: the start of main over the answers of the machine
--                   (Daemon.Boot), sweepStaleJobs (Daemon.Sweep), and the shutdown (Daemon.Shutdown),
--                   a step relation of the main goroutine, the one that waits for a signal and the
--                   one that runs the worker.
--   Host            the operating system: each call of it is recorded in a trace and answered by an
--                   unconstrained function of the trace so far. A Go function returns or panics,
--                   and a deferred removal of a directory happens either way.
--   Strings, Dict, Prelude  what the code uses of Go's strings, path/filepath and strconv packages, maps,
--                   and helpers. Tests holds runs on concrete inputs.
--
-- Conventions
--   A Go string is the list of its bytes. int and int64 are ℤ; the sum that is the semaphore's
--   capacity and the sums and products of durations are wrapped to 64 bits by int64, and a
--   time.Duration counts nanoseconds. An error is a constructor
--   that keeps what the message is made of. A map is an association list, and the order of
--   Go's iteration over job.TestCases is the order of the list. A nil dereference, an index out of
--   range and a negative make are panics. Every loop runs over a list, but for the decimal digits
--   of a number, which run on the number itself, and the power of two below a number of seconds
--   (Sandbox.whole_seconds), whose fuel of 34 is enough for the seconds of an int64 of nanoseconds.
--   whole_seconds rounds as the float64 sum of time.Duration.Seconds does; int of a float64 that is out
--   of range is the least int64, as on amd64 (Worker.Jobs.int_of).
--   The answers of nsjail, the file system, the clock and the JSON and YAML decoders are parameters,
--   and so is how nsjail reads its arguments (Sandbox.Args).
--
-- Not modelled
--   The router of internal/api with its middlewares (a timeout and a recovery from panics) and its
--   access log, the clients of SQS and Redis, net/http, logging and JSON encoding, the load generator
--   (tests/load), and the service in Python (CodeSumissionService). The answers of SQS and the return
--   of ListenAndServe and Shutdown are steps. The writes to Redis are values; whether they succeed
--   changes only the log.
pub mod Prelude
pub mod Strings
pub mod Dict
pub mod Registry
pub mod Host
pub mod Config
pub mod Sandbox
pub mod Executor
pub mod Worker
pub mod Api
pub mod Daemon
mod Tests
