-- ===== src/Api.antt =====
-- services/api/src, and the supervisor of src: the parts of the HTTP service.
pub mod Counter
pub mod Mailer
pub mod Keys
pub mod Webhook
pub mod Subscribers
pub mod Watch
pub mod Sync
pub mod Rpc
pub mod Breaker
pub mod Pagination
pub mod Sanitize
pub mod RateLimit
pub mod Idempotency
pub mod Tokens
pub mod EmailQueue
pub mod Supervisor
pub mod Shutdown
