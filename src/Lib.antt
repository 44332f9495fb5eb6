-- ===== src/Lib.antt =====
-- Odyshell lets Agents run Commands on Machines. An Agent asks the Server for a Session on a Machine;
-- a Human approves it, unless the Agent is an operator; the Machine's Client opens the Session under
-- its Local Policy, runs the Agent's Commands in it, and reports what becomes of them.
--
-- Base: numbers, texts, lists, and tables of rows with their primary key.
-- Protocol: packages/protocol/src/session.ts, the records and messages that Server and Client share,
--   `localSessionDecision` and `commandDecision`.
-- Server.Store: apps/server/src/session-database.ts and session-reconciliation.ts. Authorities,
--   Sessions, Commands, Reports (what a Machine reports), Endings (completion, cancellation, expiry,
--   revocation) and Reconnect hold the methods of `PostgresSessionDatabase`, each one step on the
--   record `Store` of its tables. An Effects module below each says as a rule what its methods leave.
-- Server.Store.Lifecycle: how a Session's status may change, and what each method does to it.
-- Server.Service: apps/server/src/sessions.ts, the class `SessionService`, on the record `World`: the
--   store and the messages sent. SessionRequests is `requestSession`, CommandRequests is
--   `createCommand`, Supervision is `superviseSession`, `finishSession` and `cancelCommand`.
-- Server.System: apps/server/src/index.ts. Hooks are the gateway's hooks and the sweep, Steps has an
--   `Action` for everything that may happen, with `step` and `run`, and Transitions is the relation
--   that the steps make on the database, on which the invariants are shown; Stored is about the chunks
--   of output, Replays about a request that comes again, and Limits about the active Commands of each
--   Session. The audit of the service works or fails as the last step `audits` says. Interleaving has
--   `createCommand` as two steps, up to its count and from its insert, and anything between them.
-- Server.Control: apps/server/src/control.ts. Concurrency is `ScopedConcurrencyLimiter`, with the
--   connections that it lets in (Connections); Rate is
--   `FixedWindowRateLimiter` with its heap (Holes, Sifting, Pruning), the table it implements
--   (Reference) and what that lets through (Counting, Bounds, Guarantee); Scoped is
--   `ScopedRateLimiter`, LiveTokens the signed tokens of live connections, Replay their guard.
-- Server.Gateway: apps/server/src/gateway.ts, the class `ClientGateway`: its connections, and the status
--   of the Machines in apps/server/src/control-database.ts. Routes, Connecting and Entry are about one step, and
--   Reaching about the states that it comes to.
-- Server.Privacy: apps/server/src/privacy.ts, the settings of the retention of data.
-- Client.Journal: apps/client/src/journal.ts, the class `CommandJournal`, on the list of its rows.
--   Recovery is about a restart, Truncation and Loss about lost output over any sequence of `Entry`.
-- Client: apps/client/src/index.ts. Buffer is `ClientMessageBuffer`, Deadlines the two functions on
--   times, and the class `Client` stands in Link (what it sends and buffers), Authority (Sessions),
--   Commands, and Events, whose `Event`, `step` and `run` are all that may happen to it. Policy,
--   Sessions, Starting and Run are about Local Policy; Over, Begun and Once about Commands that ended.
--
-- Parameters: the digest and the serialisation that identify a request, the gateway's open
-- connections, the fresh UUID and the clock of a call, the cutting of long texts, and the owner of a
-- Machine in the control database. An ISO time is the number of its milliseconds. The HMAC, base64url
-- and the claims' JSON of a live token are parameters too.
--
-- Bounds: `overlap` is how many other calls of `createCommand` may wait for a Session when one begins.
--
-- Fuel: the loops of the heap of expirations have one unit for each entry and one more, and
-- `Server.Control.Rate.Reference` shows that no run uses it up; the loop that cuts a Command's output
-- into chunks has one unit for each byte and one more, and `Client.Emission` shows that this is enough.
--
-- Not modelled: what other requests do between two awaits of a method other than `createCommand`, the zod checks of shapes and
-- lengths, the HTTP and MCP layers, OAuth, the rest of the control database, the Client's enrollment, service and processes, the CLI,
-- the web application and the scripts.
pub mod Base
pub mod Protocol
pub mod Server
pub mod Client
