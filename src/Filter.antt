-- ===== src/Filter.antt =====
-- internal/filter: the domain lists and the policy engine.
pub mod Domain
pub mod Blacklist
pub mod Downloader
pub mod Updater
pub mod Engine
