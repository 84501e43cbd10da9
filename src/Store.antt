-- ===== src/Store.antt =====
-- crates/crewd-core/src/store.rs: the database of the daemon.
pub mod Tables
pub mod Deliveries
pub mod Asks
pub mod Sequences
pub mod Queue
pub mod Once
pub mod Inbox
pub mod Keys
pub mod Expiry
pub mod Replies
mod Tests
