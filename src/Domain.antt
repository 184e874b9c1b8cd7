-- ===== src/Domain.antt =====
-- src/domain.rs: the provider-neutral data model that every other part works with.
pub mod Identity
pub mod Symbol
pub mod Normal
pub mod Trimming
pub mod Subscription
pub mod Payload
pub mod Candles
pub mod Event
