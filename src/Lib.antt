-- ===== src/Lib.antt =====
-- The runtime-agnostic client of src/: its transports, its run helpers and its facade contract.
--
-- Base is shared notation: Base/Tests (conditionals, results of code that throws), Base/Lists,
-- Base/Number (JavaScript numbers as fixed-point values in millionths, infinities and NaN) and
-- Base/Text (texts as lists of character codes).
-- Errors models src/core/errors.ts: `Failure` is what the code can observe of a thrown value.
-- Runtime models src/core/runtime: Run (run.ts, usage.ts), RunResults (run-results.ts),
-- SynchronousRunStore (synchronous-run-store.ts), RunStream (run-stream.ts), and of its
-- control-plane ControlEvents (events.ts) and RunStreamBridge (run-stream-bridge.ts), which
-- translates the events of the one into those of the other.
-- Transport models src/core/transport: Backoff (backoff.ts), Attempts (lifecycle.ts and error.ts),
-- JsonRpc (json-rpc.ts), Framing (framing.ts), Channel (channel.ts), which takes any decoder such as
-- that of Framing, Lifecycle (types.ts and lifecycle.ts), WebSocket (websocket.ts) and SseTransport
-- (sse.ts), whose Subscription runs SseConsumer on each body; and SseStream and SseConsumer
-- (src/core/sse/stream.ts).
-- Contracts models src/contracts: Envelope (src/core/gateway/envelope/envelope.ts),
-- CapabilityResult (capability-result.ts), RunWait (run-wait.ts), CapabilitySource
-- (capability-source.ts and src/core/runtime/capability-taxonomy.ts: what a client supports) and
-- CapabilityClient (capability-client.ts): Memo and Resolution are its shared promises for a backend
-- and for the resolver's answer, Calls is the gated calls of a client whose steps are taken in any
-- order, and StreamRun is streamRun. Their errors are classified by CapabilityResult and Envelope.
-- Teams models src/core/teams: the directory (directory.ts, types.ts) and, in FromManifest, its
-- making from a manifest (from-manifest.ts).
-- Providers models src/providers: GatewayStreamRun (gateway-stream-run.ts), which forwards the
-- events of a run stream, such as those of RunStreamBridge, and settles on the last one, and
-- StreamRunLifecycle (stream-run-lifecycle.ts), which aborts its calls on disposal.
--
-- A module has the definitions of its source file, named like its functions in snake case; the
-- modules below it have the proofs, and its Tests the runs and the instances of the theorems.
-- Promises, timers, signals, fetch and sockets are not code of the repository: what they do at each
-- point where the code waits is an argument, such as `Attempt` for one round of
-- `runTransportAttempts` or `Turn` for one round of `waitForRun`, and the theorems hold for every
-- such argument. The loops recur on the attempts or polls that are left, so no fuel is
-- chosen; a drain of server-sent events has its buffer's length as fuel, which is enough since every
-- block is followed by two characters at least, and `push` of Framing has its chunk's, which is
-- enough since every line takes a byte.
-- Times are whole milliseconds. Options that may be any number are `Number`s: a finite number off
-- the grid of millionths has no value, and floating-point rounding inside the backoff formula is
-- replaced by exact arithmetic; its overflow is kept, and the NaN that comes of it (`Delay`).
-- Lower-casing is that of ASCII and leaves every other character, where the code's `toLowerCase`
-- follows Unicode. Error messages are data (`Note`), since nothing branches on their wording but
-- the classification of src/core/gateway/envelope, which is modelled on the text.
-- The observers and hooks that the code calls, such as `onResolve` of `withFallback` and the
-- listeners of a WebSocket connection, return and do not call back.
-- Not modelled: JSON and UTF-8 coding, URLs, header names, the disposal of a client and the methods
-- that its proxies keep, the gateway's remaining clients, snapshots and resources, the
-- normalization of team manifests, the provider adapters, the extensions and the React bindings.
pub mod Base
pub mod Contracts
pub mod Errors
pub mod Providers
pub mod Runtime
pub mod Teams
pub mod Transport
