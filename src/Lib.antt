-- ===== src/Lib.antt =====
-- A model of the core of FrankClaw, a personal AI gateway: chat channels and HTTP clients reach
-- agents through it, and the agents reach model providers through it.
--
-- Parts and files. A type or function has the source's name; a Rust method is a function that takes
-- the state and returns it changed.
-- Core/Error is crates/frankclaw-core/src/error.rs, the errors that all parts return.
-- Core/Ids, Core/Message and Core/ApiKeys are types.rs, model.rs and api_keys.rs beside it: identifiers
-- and session keys, the messages of a conversation, and the rotation of a provider's keys.
-- Core/Sanitize is sanitize.rs there, what is stripped from a text for a model and the limit of a prompt.
-- Core/Sessions is the scoping of session.rs there with `session_key_for_inbound` of
-- crates/frankclaw-runtime/src/lib.rs: which inbound messages share a session of Core/Ids.
-- Crypto/Token is crates/frankclaw-crypto/src/token.rs, the comparison of bearer tokens.
-- Gateway/RateLimit, Gateway/Auth and Gateway/Exposure are crates/frankclaw-gateway/src/rate_limit.rs and
-- auth.rs. `authenticate` asks the rate limiter, checks the credential (with Crypto/Token for a
-- token) and records the outcome in the limiter.
-- Models/CircuitBreaker, Models/Retry and Models/Failover are circuit_breaker.rs, retry.rs and failover.rs
-- of crates/frankclaw-models/src. `complete` walks the providers in order, asks the breaker of
-- each, and retries with Retry's classification of errors.
-- Models/CostGuard is cost_guard.rs of the same directory, the daily and hourly limits of model calls.
-- Models/ResponseCache is cache.rs there; its requests hold the messages of Core/Message.
-- Models/Sse is sse.rs there, the decoder of the stream of a provider's answer.
-- Runtime/Context and Runtime/Subagent are context.rs and subagent.rs of crates/frankclaw-runtime/src: the
-- history that a model is sent, made of the messages of Core/Message, and the runs of spawned agents.
-- Cron/Job is crates/frankclaw-cron/src/job.rs, the state machine of background jobs, and
-- Cron/Triggers the guardrails of triggers.rs beside it.
-- Gateway/WebhookLimiter, Gateway/Pairing and Gateway/HealthMonitor are webhook_limiter.rs,
-- pairing.rs and health_monitor.rs of crates/frankclaw-gateway/src.
-- Gateway/Delivery is delivery.rs there. A message has its attachments read and is split (Message, Split),
-- each part is sent with retries (Send) or streamed as edits of a draft (Stream), and the loop over the
-- parts reports what was sent (Reply). The channel is a parameter, its answer to each call, and so is what
-- the media store reads.
-- Gateway/Canvas is canvas.rs there, the store of documents with their revisions.
-- Cron/Service is service.rs of crates/frankclaw-cron/src, the scheduler of jobs.
-- Media/Address is `is_safe_ip` of crates/frankclaw-core/src/media.rs and Media/Fetch, which asks it
-- before every request, is crates/frankclaw-media/src/fetch.rs.
-- Plugins/Lifecycle is crates/frankclaw-plugin-sdk/src/lifecycle.rs, the plugins that are enabled.
--
-- Time. An `Instant` is a number of nanoseconds, given as an argument wherever the code reads the
-- clock; a subtraction stops at 0, as `duration_since` and `elapsed` do. Each method that holds a
-- mutex is one step, so that the order of the steps is the order in which the lock is taken; `sync_jobs` of
-- Cron/Service, which takes two locks, has what it has read under the first as an argument.
--
-- Numbers are natural numbers. A u32 or u64 that the code adds to wraps around (`add_u32`,
-- `add_u64`) or saturates (`saturating_add_u64`). A `HashMap` or `DashMap` is an association list
-- with one entry per key.
--
-- Loops are structural recursion on the list or the number of rounds that the code iterates over, save
-- five, which count their rounds. `evict` and `prune` remove entries until a condition holds, and as
-- many rounds as there are entries are enough, since each round removes one (`length-evict` and
-- `prune-Keeps`). `chunks_of` and `batches_of` have a round for each character or attachment, of which
-- a round takes at least one off, and `send_loop` as many rounds as the channel has attempts, after
-- which it returns.
-- Numbers of f64 are written as what they round to where their files say so.
--
-- Not modelled: input and output, SQL, JSON and HTTP, the packages that the code calls (the Argon2id
-- check, the parsing of addresses, URLs and schedules, the resolver, the HTTP client, the channels and
-- `f64` arithmetic are parameters), log lines and metrics.
pub mod Prelude
pub mod Core
pub mod Crypto
pub mod Gateway
pub mod Models
pub mod Cron
pub mod Media
pub mod Plugins
pub mod Runtime
