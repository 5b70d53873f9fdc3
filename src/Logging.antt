-- ===== src/Logging.antt =====
-- internal/logging: the asynchronous log of queries.
pub mod Pipeline
