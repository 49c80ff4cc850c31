-- ===== src/Lib.antt =====
-- The core server of LLM-MCP (core/internal): a queue of jobs for LLM devices in PostgreSQL, with an
-- HTTP and a gRPC interface for the workers that claim and finish the jobs, a router with a circuit
-- breaker per device, limits on the models of a device, and a discovery of the devices and of the models
-- they offer.
--
-- The parts, and where they are modelled:
-- - Config: core/internal/config/config.go, on an environment that is a function from names to texts.
-- - Db: the tables of db/init/01_core.sql and db/migrations as lists of rows (`Db`), and what a request
--   meets (`Env`): the clocks of the database and of the process, new ids, the rows that other
--   transactions hold locked, the statements that fail, the listings that break off, the variables, and
--   the parsers of times and JSON.
-- - Queue: the SQL statements on `jobs` and `job_attempts` that core/internal/api/handlers.go sends, as
--   functions on the tables. Queue/Order is about the row that the claim query returns, Queue/Slots about
--   the slots of a device, Queue/Invariant about the keys of the tables.
-- - Http: the handlers of core/internal/api/handlers.go. `Http/Jobs` is HandleJobs, `Http/Workers`
--   HandleWorkerRegister and HandleWorkerClaim, `Http/Finish` HandleWorkerComplete, HandleWorkerFail and
--   RecordCost, `Http/Lease` HandleWorkerHeartbeat and HandleDeviceOffline. A handler is a function from
--   the environment, the request and the state (`World`: the database and the router's circuits) to the
--   reply and the new state. `Http/Read` is fetchJob and HandleJobByID, `Http/Stream` the streams of a
--   job over a list of what wakes them, `Http/Llm` HandleLLMRequest and `Http/Bench` HandleBenchmarkRun,
--   `Http/Runs` HandleDiscoveryRun and HandleDiscoveryLast, `Http/Scanner` the line scanner of chat
--   streams. Http/Claim, Http/Exclusive and Http/Progress are about claims, Http/Reported about streams,
--   Http/Lines about the scanner.
-- - Grpc: the methods of core/internal/grpcserver/server.go. Grpc/Agree compares them with the handlers,
--   Grpc/Stream is StreamJob.
-- - Limits: core/internal/limits/limits.go. Limits/Bounds is about the derived limits, Limits/Applied
--   about the table that ApplyDeviceLimits leaves; `Limits/Load` is LoadDeviceLimitSpecs.
-- - Routing: core/internal/routing/router.go. Routing/Circuit is the circuit breaker, Routing/Device the
--   queries for devices, Routing/Payload the fields of a payload, Routing/Models findLocalModel,
--   findCloudModel and lookupPricing, with theorems in Suits and Local, Routing/Llm RouteLLM, and
--   Routing/Llm/Smart routeSmartLLM. A payload is the fields that the code puts into it, before they are
--   marshalled.
-- - Discovery: core/internal/discovery. `Discovery/Offline` is offline_handler.go, the others are
--   discovery.go: `Discovery/Infer` what is inferred of a model, `Discovery/Sync` syncDeviceModels,
--   `Discovery/Address` and `Discovery/Subnets` what is probed, `Discovery/Devices` the rows of devices,
--   `Discovery/Probe` the probes, `Discovery/Run` Run and scanSubnets. The network, `tailscale` and the
--   packages net and net/netip are parameters (`Net`, `Tailscale`). Discovery/Frame lifts what the
--   statements keep to a run; Offered, Fastest, Private, Distinct, Freed and Stranded are theorems.
-- - Dashboard: the hosts of the dashboard in core/internal/api/handlers.go: `Dashboard/Sort` the sort of
--   buildHostHierarchy, `Dashboard/Hosts` and `Dashboard/Stats` its loops, inferNodeRole and
--   buildDashboardIssues. Dashboard/Ordered, Totals and Shown are about the result.
-- - Stats: the statistics of models in core/internal/api/handlers.go, updateModelStats, recordChatCost
--   and HandleFeedback; `Stats/Select` is selectModel and `Stats/Sync` HandleOpenRouterSync.
--   `Stats/Replay` is the history of a table, Upsert, Rows, Counted, Average, Stuck, Scanned, Selected,
--   Scored, Filled and Synced are theorems.
-- - Proxy: the endpoints of core/internal/api/handlers.go that answer in the format of OpenAI.
--   `Proxy/Embed` is HandleEmbeddings with its proxies, `Proxy/Truncate` truncateEmbeddings on decoded
--   JSON, `Proxy/Chat` HandleChatCompletions, `Proxy/Providers` its four proxies and `Proxy/Stream` the
--   loops of the streams. Cut, Retried, Streamed, Kept, Usage and First are about them.
-- - Debug: `Debug/Health` is HandleDebugHealth, `Debug/Capacity` HandleDebugCapacity and `Debug/Smoke`
--   HandleDebugTest, also of core/internal/api/handlers.go. Worst, Shared and Unnoticed are theorems.
-- - System: any sequence of calls of the handlers, the methods and runs of discovery (`run`). The
--   handlers use the tables through Queue, HandleJobs asks Limits, and completions, failures, chats and
--   embeddings report to Routing/Circuit, and chats select a device by Routing/Device and count in Stats.
-- - Prelude: tests, integers, lists and texts. Examples: concrete inputs.
--
-- Choices. Times are nanoseconds since the year 1, and the int64 product of a lease in seconds with
-- `time.Second` wraps around as written. float64 and NUMERIC values are multiples of a millionth. A loop
-- is structural recursion, and no fuel is needed, but for the calls of the line scanner, for which one
-- more than the number of bytes is enough, and the places of a sort. Each call is one step: a statement
-- of the database and a section under the router's mutex are atomic, and a claim runs in a transaction;
-- that two claims at the same time count the slots of a device before either commits is not modelled,
-- the INSERT and the UPDATE of the smoke test, which commit one after the other, are one step too, and
-- the 24 goroutines of the scan of subnets are taken one after the other. Texts of messages for people
-- and log lines are left out. The goroutine that counts a chat in `model_stats` is taken as a part of
-- the call that starts it, so that the order of the two updates of a chat is the one in which they are
-- started. The answers of LLM services, the decoders of JSON and the logarithm of a price are parameters
-- (`EmbedClient`, `ChatClient`, `Market`, `Floats`).
--
-- Not modelled: the handlers that only read lists (the pages around the dashboard, benchmarks, costs,
-- HandleModelStats), the constant list of HandleDebugActions, the forwarding of knowledge requests, the
-- metrics and the start-up, which is wiring, the generated protocol code, and the clients in other
-- languages.
pub mod Prelude
pub mod Config
pub mod Db
pub mod Queue
pub mod Limits
pub mod Routing
pub mod Http
pub mod Grpc
pub mod Discovery
pub mod Dashboard
pub mod Debug
pub mod Stats
pub mod Proxy
pub mod System
pub mod Examples
