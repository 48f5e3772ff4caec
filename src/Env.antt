-- ===== src/Env.antt =====
-- The environment of a call: the contract's storage, one record for each module's `DataKey`, the
-- ledger, the token contracts, and what the call publishes. The monad of the contract's functions
-- is in Env/Monad.antt.
mod External
mod Effects
mod Stores
mod Monad
mod Rules
pub use External.*
pub use Effects.*
pub use Stores.*
unfoldable pub use Monad.*
pub use Rules.*
