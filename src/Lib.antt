-- ===== src/Lib.antt =====
-- Verification of the Antigravity server: the decisions by which it picks an account for a
-- request, refreshes it, limits it, retries it and keeps its settings in step with other instances.
--
-- The program is a proxy with a pool of accounts. A request asks the token pool for an account;
-- the pool filters the accounts by the rate limits noted for them, orders the rest, takes a slot of
-- the first that has one free, and refreshes its token and its project, over as many attempts as it
-- has accounts. The request goes out through a proxy of the proxy pool, and the first chunk of the
-- answer is looked at before it is handed on. The answer is recorded: a failure may lock the account
-- or one of its models out, cut its adaptive limit, open its circuit, or disable it; the retry
-- strategy says whether and when the next account is tried. Beside this, the signatures of thoughts
-- are cached, failed logins block an address, failing endpoints are skipped, the messages of a
-- Claude request are put in order, and instances exchange their model mappings and proxies.
--
-- Files, and the code that they are about (paths from the root of the repository; `proxy` is
-- crates/antigravity-core/src/proxy):
--   Prelude         tests on numbers, lists, text, maps, integers, results, clock readings, sorting
--   CircuitBreaker  proxy/common/circuit_breaker: check, should_allow, record_success,
--                   record_failure, reset and the queries; History has its calls as data
--   Json            the values of serde_json and the accessors that the parsers use
--   RateLimit       proxy/rate_limit: the tracker (tracker.rs, rate_limit_info.rs), Lockout
--                   (lockout.rs), Parser (parser.rs), ErrorParsing (error_parsing.rs)
--   ActiveRequests  proxy/active_request_guard.rs; Interleaving has the loop of try_new as
--                   separate atomic steps of several threads
--   Sync            crates/antigravity-types/src/models/sync: Mapping (mapping.rs), over the merge of
--                   Lww for any type of entries; ProxyAssignment (proxy_assignment.rs), with
--                   its capacity; BTree has sorted maps
--   EndpointHealth  proxy/upstream/endpoint_health.rs
--   AuthLimiter     proxy/middleware/rate_limiter.rs
--   Retry           proxy/retry (mod.rs, profile.rs), RetryDelay proxy/upstream/retry.rs
--   Peek            proxy/retry/peek.rs
--   SignatureCache  proxy/signature_cache (mod.rs, session.rs, content.rs)
--   AdaptiveLimit   proxy/adaptive_limit (aimd.rs, tracker.rs), Manager manager.rs
--   ModelMapping    proxy/common/model_mapping.rs
--   ProxyPool       proxy/proxy_pool.rs
--   Health          proxy/health (types.rs, monitor.rs, response.rs)
--   TokenManager    proxy/token_manager: the tokens (proxy_token.rs), Sessions (session.rs),
--                   Selection (candidate_filter.rs, selection_helpers.rs, routing.rs),
--                   RateLimiting (mark_rate_limited_async of rate_limiter.rs), Recovery
--                   (recovery.rs), Refresh (token_refresh.rs), Attempts, GetToken and Forced
--                   (selection.rs, and try_preferred_account of selection_helpers.rs)
--   Messages        proxy/mappers/claude: the messages (claude_models.rs, content_block.rs), their
--                   merging and sorting, and CacheControl (request/message_cleaning.rs); ToolLoops
--                   the closing of tool loops and Signatures the repair of signatures
--                   (thinking_utils.rs); Rounds the rounds of tools
--                   (proxy/mappers/context_manager/tool_rounds.rs)
--   In each, Examples has the theorems at concrete values.
--
-- State is passed explicitly: an operation takes the state and the readings of the clock that it
-- makes, and returns the new state with its answer. Each access to a shared map is one atomic step,
-- as under its lock; the races inside `try_new` are the one interleaving that is spelled out, and
-- what other requests do while a recovery sleeps is an argument; limits are read after that sleep at
-- the time before it, and the routing settings are those of the pool, not a copy from the start. A
-- guard is dropped where it goes out of scope. Disabling an account for errors is one step. Where
-- the reset time of a limit overflows, the program panics, which is `none` (ErrorParsing); other
-- sums of clock readings are not bounded. Text is a list of code points, and a clock reading a number of nanoseconds. Counters wrap
-- as they do where the release profile compiles them without overflow checks; saturating operations
-- saturate. Maps are lists of bindings, and their order is not observed, save that a BTreeMap is
-- sorted by its keys. Recursion is structural. Two loops have a bound, which is that of the code: the
-- attempts of a request are as many as the accounts, and the normalisation of a model's name has the
-- depth of the source.
--
-- Taken as parameters: JSON parsing, the matches of regular expressions, lower-casing, dates, SHA-256
-- and the hash of an address, arithmetic on floating point, `partial_cmp` on scores, whether AIMD
-- finds an account overused in a selection, the reset times of quotas, fetched or stored, the standard
-- names of models in the token pool, the answers of OAuth, of the network and of the database, the
-- parsing of URLs and the building of HTTP clients.
-- Not modelled: the HTTP handlers, the other mappers between protocols, files and most of the database, the
-- upstream client, metrics and the front end, which are input and output; of the pool the loading and
-- storing of accounts, and the limit of 5 seconds on a request for a token, which cancels it where it
-- waits; and the ids of sessions.
-- Logging is left out everywhere.
pub mod Prelude
pub mod CircuitBreaker
pub mod Json
pub mod RateLimit
pub mod ActiveRequests
pub mod Sync
pub mod EndpointHealth
pub mod AuthLimiter
pub mod Retry
pub mod SignatureCache
pub mod AdaptiveLimit
pub mod ModelMapping
pub mod ProxyPool
pub mod Peek
pub mod Health
pub mod Messages
pub mod TokenManager
