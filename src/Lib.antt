-- ===== src/Lib.antt =====
-- pogu: a gateway in front of providers of language models. A client names a model as
-- `prefix/model` or by the name of a group; the gateway resolves the name to targets (a route and
-- the keys to try), tries the keys in order until one answers, and records each attempt.
--
-- Parts, and the files that model them:
--   Prelude, Prelude/*     names of the library, Boolean tests, lists, texts, ORDER BY.
--   Store                  the tables of internal/store/schema.go: rows, and the last id of AUTOINCREMENT.
--   Service/RoundRobin     nextRoundRobinCursor (internal/service/service.go) and the rotation of EligibleKeys and
--                          ResolveGroupTargets; Rotation and Fairness hold its lemmas.
--   Service/Types          internal/service/types.go, the errors, and the state of the service.
--   Service/Validate       internal/service/validate.go and the name checks of groups.go.
--   Service/Routing        GetProvider, ListProviderKeys, EligibleKeys, ResolveRoute, ListGroupMembers,
--                          ResolveGroupTargets (internal/service) and resolveTargets (internal/httpapi/gateway.go);
--                          Keys, Routes and Targets hold the lemmas of each, Turns is about successive requests.
--   Service/PromptRules    internal/service/promptrules.go: the writes; Resolve the cache and the resolution, where
--                          a load may fail; Cache is about the cache against the database, Claims about the checks
--                          of a change and the UNIQUE constraint, and Selected about the rules that apply.
--   Service/Groups, Models, Keys   the writes of internal/service/groups.go, models.go and provider_keys.go, and
--                          DeleteProvider; Live is about what deletions leave behind.
--   Provider/Effort        effort names, budgets and suffixes of internal/provider/reasoning.go.
--   Provider/Sse           scanSSE of internal/provider/sse.go; Rounds compares it with a reading of the whole input.
--   Provider/Stream/FromAnthropic, FromResponses   the translators of upstream streams to chat chunks
--                          (internal/provider/stream_anthropic.go and stream_responses.go); Chat has the chunks and a
--                          client's reading of them.
--   Provider/Stream/ToAnthropic   the translator of chat chunks to Anthropic events (stream_anthropic.go); Events has the
--                          events and a client's reading of them.
--   Auth/Sessions, ApiKeys internal/service/auth.go and admin.go; ApiKeys/Admission is about the keys admitted.
--   Auth/Throttle          the login throttle of internal/httpapi/auth.go; Penalty and Reopening are about its waits.
--   Auth/Handlers          authMiddleware, login, logout and completeSetup of internal/httpapi/auth.go; Guarded is
--                          about what they let through.
--   Provider/Usage         internal/provider/usage.go; Collected tells the collector's usage from the whole stream.
--   Gateway/Prompts        resolvePromptSegments and injectPromptSegments of internal/httpapi/gateway.go.
--   Provider/Json          the values of encoding/json, decoded as `any`. A count below zero is written as its
--                          bit pattern, another number below zero by its literal.
--   Provider/Body          the translation of bodies: Chat has internal/provider/common.go; Blocks, ToAnthropic, ToChat
--                          and Objects have translate_anthropic.go; ToResponses and FromResponses have
--                          translate_responses.go; Prompts has prompts.go and the writes of reasoning.go. Turns, Calls,
--                          RoundTrip, Placed and Images are about what the translators make.
--   Crypto                 the sealed form, the fingerprint and the mask of a secret (internal/crypto/crypto.go); Sealed
--                          is about what is read back, and Password has password.go.
--   Service/KeyNames       the names of keys that are given none (internal/service/provider_keys.go).
--   Service/Import         CreateProviderKey, and the import of keys (internal/service/import.go); Commits is about
--                          what an import stores.
--   Service/Providers      CreateProvider and UpdateProvider (internal/service/providers.go).
--   Service/Settings       internal/service/settings.go; Caveman and Levels have caveman.go.
--   Provider/Client        internal/provider/client.go: requests, headers and ProxyStream, whose bytes.TrimSpace is on
--                          the bytes of UTF-8; Chunks is about its reads.
--   Gateway/Request        the front of `gateway` with authenticateAI, writeRouteError and the choice of the proxy
--                          (internal/httpapi/gateway.go, errors.go).
--   Telemetry              the rows of telemetry and the records of monitoring (internal/telemetry).
--   Telemetry/Recorder     internal/telemetry/telemetry.go with ReapStale; Listing has its lists, Reaping is about
--                          ReapStale, PromptRules about the prompt rules of a request, and Histories puts the events
--                          of Gateway/Attempts into the tables.
--   Telemetry/Hub          internal/httpapi/monitor_hub.go: active requests, subscribers and publications; Views is about
--                          their interleavings.
--   Telemetry/Monitoring   internal/telemetry/monitoring.go: scopes and records; Ranges has the windows, Figures the
--                          totals and the time series, and Query the handlers of internal/httpapi/monitoring.go;
--                          Series and Balance are about the figures.
--   Gateway/Errors         UpstreamError and StatusMessage (internal/provider/client.go), the classification of
--                          errors and the client's status (internal/httpapi/gateway_telemetry.go).
--   Gateway/Attempts       the loop over targets and keys of `gateway` with the events it records; Plan is the
--                          order of the keys, Answer is about the reply, Log about the events.
--   Tests, Tests/*         a small database, and the theorems applied to it.
--
-- How they interact: the service keeps the database and the round-robin cursors; a resolution reads the one and
-- moves the other. The gateway takes the targets of a resolution. What an upstream does at attempt n is the
-- argument `world`, an arbitrary function, so that the theorems hold for all behaviours of the upstreams.
--
-- Bounds and fuel: ids, positions and statuses are natural numbers; the cursor is a uint64 and wraps at
-- 2 ^ 64. The loops recurse on the lists that they range over; the rotation recurses on the number of its
-- slots. Two definitions take fuel: the printing of a number (`decimal` of Service/KeyNames), where n + 1
-- rounds print n, as each round divides it by ten, and the loop of `time_series` (Telemetry/Monitoring/Figures), which has
-- more rounds than its window has nanoseconds, and each round moves on by one at least.
--
-- Ciphers, hashes, random texts, the calendar and the database's comparison of times are parameters of
-- the definitions that use them.
--
-- Not modelled: failures of the database itself, but for those of a load of the prompt rules, which a `Load`
-- says how it ended; timestamps that nothing reads; HTTP, SQL and JSON
-- libraries; the key file, the list of models for clients, the management API, the control socket, the
-- command, internal/provider/proxy.go, which joins an upstream call to a translator, and the web
-- interface. Queries see one state of the database
-- during a resolution, and a stream's frames are values, without their JSON texts; so are the events of
-- the monitor.
pub mod Prelude
pub mod Crypto
pub mod Store
pub mod Service
pub mod Provider
pub mod Auth
pub mod Gateway
pub mod Telemetry
pub mod Tests
