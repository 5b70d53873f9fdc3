-- ===== src/Lib.antt =====
-- dns-filter: a DNS server that filters by policy, with a captive portal, a query log and a web
-- dashboard. The program is in Go, its dashboard in TypeScript.
--
-- A query passes through the handler of internal/dns/handler.go: it finds out who asks
-- (internal/identity), sends a client that has to log in to the captive portal, asks the policy
-- (internal/filter), then the cache (internal/cache), then the upstream servers, and writes a log
-- entry (internal/logging). The portal (internal/captive) registers sessions with the identities.
-- The dashboard (web/src) configures lists, groups, ranges and users by the REST API.
--
-- Prelude: text as lists of code points, association lists, lists and tests.
-- Filter: Domain (normalize, parseLine), Blacklist (type Blacklist; Matching and Loading prove
--   what it blocks), Engine (type Engine, EvaluateForGroup; Decision and Categories), Downloader
--   (FetchDomains; AsFile), Updater (updateAll, updateList, and the transaction of DownloadLists;
--   Atomic, Refreshed and Rejected). The HTTP client and the scanner are parameters.
-- Database: internal/store. Tables has the rows of the tables and what the statements do to them
--   (Rows), Transactions the sequence of Begin, statements, Commit and Rollback (Atomic), Pool the
--   methods of one statement (Admins, Groups), Replacing the methods that change several rows
--   (SetGroupPolicy, SetBlocklistCategories, DeleteBlocklist, InsertBlocklistEntries; Done), Loads
--   what the methods that read make of their rows (Entries, Policies, Enforced), Logs the queries of
--   QueryLogs (Placeholders), Listener the loop of notify.go (Backoff). pgx and PostgreSQL are the
--   parameters Sql and Pool; their laws View and PoolView are what PostgreSQL documents: a statement
--   that fails aborts its transaction, and only a commit changes the tables.
-- Config: internal/config; YAML decoding, the file and the environment are parameters.
-- Identity: type Resolver of internal/identity/resolver.go; Priority for Resolve, Sessions for
--   the operations on sessions, Ranges for the order of the ranges.
-- Message: the fields of DNS messages that the program uses. What github.com/miekg/dns computes
--   is the parameter DnsLib, with the law IsLawful for its documented SetReply and SetRcode.
-- Cache: type Cache and its Redis level; Ttl, Reads and Invalidation.
-- Logging: type Pipeline, with Send, consume and Stop as the steps of a relation (Steps, Sound,
--   Counting, Conservation).
-- Upstream: the loop of Resolver.Resolve in internal/dns/resolver.go; the exchange with a server
--   is a parameter.
-- Handler: ServeDNS and the functions that it calls. Steps has the equations of its branches;
--   Policy, Responses, Caching and Logs prove what it does.
-- Captive: handleAuth, isValidRedirect and the authenticators; Login and Redirects. Page: the login
--   page of handleLogin, up to its fixed text.
-- RateLimit: internal/api/ratelimit.go; the token bucket is the parameter Rate.
-- Api: internal/api. Numbers (strconv.Atoi), Tokens (the claims and AuthMiddleware), Requests (the
--   routes of router.go, the bodies, and the store as the parameter Store), Replies (the
--   state, the responses, and what answers a bad request, a query or a command), Handlers (one
--   function for each handler of handlers.go with steps of its own; Reload, Ranges, Paging and
--   Downloads prove what they leave) and Router (the other handlers, and the middlewares in their order; Access,
--   Status, Effects and Refreshing). A handler takes the state and gives the state that it leaves
--   with its response. The token library is the parameter Jwt, with the law IsJwt: a token that was
--   signed is parsed under the same key until it expires.
-- Startup: what cmd/dnsfilter/main.go makes of the database and the files: the ranges that it sorts
--   and adds (SortedRows, LongestPrefix; sort.Slice is the parameter Sort, with the law IsSort), and
--   the lists and the engine, at the start and on a change of the configuration (Filtering, Fresh).
-- Web: a page is its React state, a handler its part before the request and its part after the
--   answer. Client for web/src/api/client.ts, Lists, Groups, Logs, Forms (Users.tsx, Ranges.tsx),
--   Dashboard, Session (Login.tsx, App.tsx, MainLayout.tsx), Page and Toggle for what they share.
--   What a page renders is a tree of Html, with the events of its buttons, inputs and forms; View
--   (UsersView, RangesView, LoginView, Layout) has the tree and what its events do to the page, and
--   Html says which events a click can cause: a disabled button none, a form only where its required
--   fields are filled and its submit button is not disabled.
-- Examples: the theorems at concrete inputs, and tests.
--
-- State is passed explicitly. Times are numbers of nanoseconds and inputs of the operations, so
-- that a theorem about an expiry holds for every clock. Go maps are association lists; where Go
-- ranges over a map, the model takes the order of the list. Counters wrap at 2 ^ 64 as in the
-- source. Case and white space are those of ASCII, with U+0085 and U+00A0. Loops are structural
-- recursion. Fuel stands in two places: the decimal digits of a number (Web.Page.show) have the
-- number itself plus one, which is at least the number of its digits (Api.Numbers.Printing); a
-- request of the dashboard with its repetition (Web.Client.request) needs two, one for each time
-- that it is sent. An operation of a component that holds its mutex in the source, or uses an atomic
-- counter, is one step. The counter of dropped log entries has neither: Logging.Pipeline.Steps takes
-- the read and the write of each sender apart, and `send` is a sender that runs alone. A query that
-- panics ends the process, so that no query is served after it.
--
-- Not modelled: the migrations and the connection of the store, the figures of the overview that it
-- computes, other transactions during one, the start and stop of servers, floating-point figures,
-- the matching of paths to routes by the router library, and of the markup static styling,
-- placeholders and icons.
pub mod Prelude
pub mod Filter
pub mod Identity
pub mod Message
pub mod Cache
pub mod Logging
pub mod Upstream
pub mod Handler
pub mod Captive
pub mod RateLimit
pub mod Web
pub mod Database
pub mod Config
pub mod Api
pub mod Startup
pub mod Examples
