-- ===== src/Database.antt =====
-- internal/store: the methods that replace rows in a transaction, the loads, and the search of the log.
pub mod Tables
pub mod Transactions
pub mod Loads
pub mod Replacing
pub mod Pool
pub mod Logs
pub mod Listener
