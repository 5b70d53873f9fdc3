-- ===== src/Web.antt =====
-- web/src: the dashboard, page by page. A page is its React state; a handler is its part before
-- the request and its part after the answer, so that answers may arrive in any order. The screen
-- is modelled where it decides something.
pub mod Html
pub mod Page
pub mod Toggle
pub mod Lists
pub mod Client
pub mod Logs
pub mod Groups
pub mod Forms
pub mod Session
pub mod Dashboard
