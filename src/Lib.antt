-- ===== src/Lib.antt =====
-- The PredictIQ prediction market. Its contract (contracts/predict-iq): markets on which bettors
-- stake a token, their resolution by an oracle, the disputes of a resolution, and the governance
-- around it. And its HTTP service (services/api): the e-mail queue with the sending behind it and
-- the webhook, the tables of keys and of subscribers, the client of the chain, the circuit breaker
-- in front of the cache, and smaller parts.
--
-- The parts and the files that model them, one module for one Rust module of
-- contracts/predict-iq/src:
--   Types, Types/Error          types.rs and errors.rs
--   Env                         what soroban_sdk::Env gives a call: the ledger, the storage as one
--                               record for each module that owns keys, the log of published events
--                               and extended entries (modules/events.rs), and the monad of calls
--   Admin, CircuitBreaker, Monitoring, Sac, Fees, Markets, Resolution, Oracles, Voting, Disputes,
--   Cancellation, Bets, Governance, Queries, EventArchive
--                               modules/<name>.rs, each function under its own name
--   Markets/Change              the ways in which calls change the market store, as a relation
--   Contract                    lib.rs: initialize, and the entries with a check of their own
--   Calls                       sequences of accepted calls
--   Migration                   modules/migration.rs, whose keys stand beside that environment
--   Api/Breaker                 services/api/src/cache/mod.rs: CircuitBreaker, and exec behind it
--   Api/EmailQueue              services/api/src/email/queue.rs; EmailQueue/Redis is its interface
--   Api/Shutdown                services/api/src/shutdown.rs: the counter of finished workers
--   Api/Supervisor              src/shutdown.rs and src/worker_supervisor.rs: the restarts of the
--                               e-mail worker, in both versions
--   Api/Pagination, Api/RateLimit, Api/Idempotency
--                               services/api/src/pagination.rs, rate_limit.rs, idempotency.rs
--   Api/Sanitize, Api/Tokens    services/api/src/validation.rs (what it strips) and newsletter.rs
--                               (OpaqueTokenStore)
--   Api/Counter                 services/api/src/cache/mod.rs: incr_with_ttl, and the limiter of
--                               newsletter.rs over it
--   Api/Mailer, Api/Webhook     services/api/src/email/service.rs and email/webhook.rs
--   Api/EmailQueue/Worker       services/api/src/email/queue.rs: process_job, on the queue and the
--                               mailer together
--   Api/Keys, Api/Subscribers   services/api/src/db.rs: the tables api_keys and
--                               newsletter_subscribers; rotate_api_key of handlers.rs, and ApiKeyAuth of
--                               security.rs
--   Api/Watch, Api/Rpc, Api/Sync
--                               services/api/src/blockchain.rs: the watched transactions, the retries of
--                               a call of the node, and the worker that follows the ledgers
--   Examples                    the theorems applied to one environment, and to small inputs
--   Prelude                     Boolean tests, integers, sorted maps and lists
-- A long Rust function is several definitions here, each of them a stretch of its lines: place_bet
-- is check_bet and then place_checked, which ends in credit_net and reward_referrer.
--
-- A call is a function from an environment to an outcome (Ok, Err or a panic) and an environment. A
-- failed require_auth, an overflow of unchecked arithmetic, and the trap of a called contract are
-- panics. The environment beside an Err holds what was written before it; `settle` says what the host
-- keeps of it. i128 is a signed integer with its bounds tested where the code checks them or traps;
-- u32 and u64 are natural numbers with the same tests.
--
-- Token contracts and the price feed are not part of the repository. They are the record Host, a
-- parameter, with no assumption on what they answer. voting::get_market_votes, which resolution.rs
-- calls and no file defines, is a parameter of the definitions that use it.
--
-- Redis is not part of the repository either. The e-mail queue is over a record SortedSets, a
-- parameter, with the laws of ZADD, ZREM, ZPOPMIN, ZRANGE and ZRANGEBYSCORE that the documentation
-- of Redis states; Examples/Redis fills it with association lists. An operation of the queue is the
-- list of the commands that it sends, so that one cut short is a prefix of that list. The clock,
-- the predicates of characters and the hash of a token are parameters. A table of PostgreSQL is the
-- list of its rows, and a statement of db.rs is the function on it that its text describes; where a
-- call of Redis goes through exec, a parameter is the list of its attempts; where a statement can
-- fail, a parameter says whether it does. SendGrid and the RPC node are parameters: what they
-- answer to each attempt. The workers of Api/Shutdown interleave: a report is a read of the counter
-- and then a write, two steps of a relation.
--
-- Loops are structural recursion: over the list that the code walks, or over the number of turns
-- that the range of the loop gives. The supervisor's loop, which has no such range, runs on fuel
-- max_restarts + 1, and the theorem on it shows that this is enough below the largest u32, at which
-- its counter wraps around; so do the retries of a call of the node, on fuel max(retry_attempts,
-- 1).
--
-- Not modelled: the entries of lib.rs that only pass a call on, the payload layout of events, the
-- storage metrics, bets::claim_winnings and bets::withdraw_refund (called, but not in the
-- repository), markets::count_bets_for_outcome and oracles::validate_consensus (they do not
-- compile). The relation Call leaves out cleanup_expired_market_index, which takes the index entry
-- of a market that is still stored. Of the service: recover_orphaned_jobs and the rest of the
-- worker loop of the e-mail queue, the concurrent batch of the webhook, replay_events, the cached
-- queries, the middleware around the rate limit and the idempotency store, the injection patterns
-- of validation.rs, metrics and logs; and the configuration, the other handlers and queries, which
-- are mostly I/O. Frontend and infrastructure are left out.
pub mod Prelude
pub mod Types
pub mod Env
pub mod Admin
pub mod CircuitBreaker
pub mod Monitoring
pub mod Sac
pub mod Fees
pub mod Markets
pub mod Resolution
pub mod Oracles
pub mod Voting
pub mod Disputes
pub mod Cancellation
pub mod Bets
pub mod Governance
pub mod Queries
pub mod Migration
pub mod Api
pub mod Contract
pub mod Calls
pub mod Examples
pub mod EventArchive
