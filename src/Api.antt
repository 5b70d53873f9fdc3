-- ===== src/Api.antt =====
-- internal/api: the REST API of the dashboard.
pub mod Numbers
pub mod Tokens
pub mod Requests
pub mod Replies
pub mod Handlers
pub mod Router
