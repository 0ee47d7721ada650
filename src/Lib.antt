-- ===== src/Lib.antt =====
-- Verification of diagd, a measurement server for UDP capacity tests (TR-471, the protocol of
-- OB-UDPST) and TR-143 downloads. The Go sources under internal/udpst are translated function by
-- function, with some of internal/tr143, and the theorems are about those translations.
--
-- The parts, in the order in which a test meets them:
--   Server (internal/udpst/server.go): the state that the mutex guards, with the operations on it.
--     Checks holds the checks of handleSetup that change no state, Setup the allocations, the
--     answers, one round of Serve and the end of a session. Lifetime is `run` of session.go, from the
--     activation to the clean-up. Outcomes, Ledger, Interleaving, Sections, Refinement, Lifetime,
--     Admission, Ports and Response prove.
--   Auth (internal/udpst/auth.go): key derivation and digests. HMAC-SHA-256 is the parameter `mac`;
--     what is asked of it is that its output has 32 bytes. Sign and Wire prove.
--   Protocol (internal/udpst/protocol.go): the PDUs as records, and for each a parser and a writer
--     over lists of byte values. The round trips stand beside the codecs.
--   Session (internal/udpst/session.go): Police is `police`, Activation is `awaitActivation` with its
--     answer, Upstream `runUpstream`, Downstream `runDownstream`, Bursts the closure sendBurst of sendLoop and
--     Pacing the rest of sendLoop. Ranges, Echoes, Origin, Stream, Buffers, Steering, Statuses,
--     Schedule, Cadence and Wakes prove.
--   Rates (internal/udpst/srates.go): the table of sending rates that both ends compute. Order proves.
--   Algo (internal/udpst/algo.go): the search for the rate, driven by the feedback of each trial.
--     Bounds, Direction and Progress prove.
--   Accounting (internal/udpst/accounting.go): what a receiver counts. Samples is recordLoad,
--     Intervals the trial and the sub-interval. Ring, Sequence, Repeats, Delay and Trials prove.
--   Http (internal/tr143/http.go): the names of sized downloads, the slots of concurrent transfers and
--     the loop of a sized download; Requests is parseDownloadRequest, Service the handlers. Units, Names,
--     Downloads, Slots, Served, Tally, Times, Complete and Sized prove.
--   Live (internal/tr143/live.go, /live of cmd/diagd/ops.go): the registry of running and finished
--     transfers. Log is the abstract log, Covers, Refines and Growth prove.
--   Echo (internal/tr143/echo.go, echo_linux.go): the UDP Echo Plus responder. Layout, Packets, Numbers
--     and Accounts prove.
--   Command (cmd/diagd/serve.go): what the flags of `diagd serve` start. Its child Ops is /metrics and
--     /healthz of cmd/diagd/ops.go. AllowList, Startup and Ops/Health prove.
--   Clock: times and the comparison wallDiffMs with the 32-bit timestamps of the wire.
--   Base: shared names, Boolean tests, lists and signed integers over the native numbers, and bytes.
-- The server gives a session its table, keys and bandwidth; the session polices what its client asks
-- for, starts a rate controller with it, and at its end gives the bandwidth and its place back.
--
-- A number is a natural number; where the source has a uint8, uint16, uint32 or uint64 that can wrap,
-- the wrap is written out by u8, u16, u32 or u64. Signed values are of the type ℤ where they go below
-- 0. An `int` of the configuration is taken not to be negative. A float64 of BitsPerSecond is a
-- whole number, as it is in the source up to 2^53. A time.Time is nanoseconds since the Unix epoch.
-- Sockets, the clock and the kernel's answers are arguments: `bind` is net.ListenUDP on a port,
-- `set_class` the socket option for the traffic class.
--
-- Loops: the three nested loops of BuildRateTable are recursion on the rounds left, and its last two
-- run on fuel above the number of their rounds, which the size of the tables confirms; the key
-- derivation has fuel for three rounds and takes two; FormatUint has fuel for the ten digits of a
-- uint32; the loop over the ports runs once per port of the range; the loops of a session are recursion
-- on the rounds, datagrams or answers of the kernel that come, of which a theorem takes any list.
--
-- Concurrency: a section under the server's mutex is a step. Interleaving lets ends of sessions and
-- Close come between the sections of the one setup that Serve handles; Ledger takes whole setups, with
-- handleSetup as the code composes it, and lets the others come between them; Refinement shows that
-- each of these is a run of sections.
--
-- Not modelled: the logs of a session and the rates that only they report, net/http and the headers
-- of its answers but Content-Length, the socket calls of the echo service, the texts of errors, and of
-- the command its waiting and shutdown.
pub mod Base
pub mod Rates
pub mod Protocol
pub mod Auth
pub mod Algo
pub mod Clock
pub mod Accounting
pub mod Session
pub mod Server
pub mod Http
pub mod Live
pub mod Echo
pub mod Command
