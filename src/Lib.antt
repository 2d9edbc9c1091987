-- ===== src/Lib.antt =====
-- The verification of Linkex, the service that answers a LinkedIn profile URL with a structured
-- profile. A request passes the rate limit and the billing (src/api/middleware.rs, src/billing.rs),
-- is served from a cache (src/service/cache.rs) or joins a shared fetch (src/service/profile.rs),
-- which asks LinkedIn by one strategy after another (src/linkedin/repository.rs) through a client
-- that retries, keeps a session and stops at a circuit breaker (src/linkedin/client.rs,
-- src/linkedin/session.rs, src/linkedin/throttle.rs).
--
-- Which file models which part, with the functions of the source in the same words:
--   Breaker      src/linkedin/throttle.rs, `CircuitBreaker`: `check`, `record_success`,
--                `record_failure`, `state`, `snapshot`; a check takes its two clock readings.
--   Throttle     src/linkedin/throttle.rs, `RequestThrottle::acquire`.
--   Billing      src/billing.rs: accounts, `authenticate`, `seed_from_file`, `reserve`, `settle` and
--                their Lua scripts over Billing.Commands, the Redis commands as an interface;
--                Billing.Charge is the billing of a request in src/api/middleware.rs, and
--                Billing.Ledger the interleavings of many requests of one account.
--   Access       src/api/middleware.rs, the check of an API key and the identity that is limited.
--   RateLimit    src/api/middleware.rs, `RateLimiter::check` with its evictions.
--   Session      src/linkedin/session.rs: cookies, tombstones, `merge_cookies`,
--                `parse_cookie_header`, and the payload of `save_sync` and `load_sync`.
--   Client       src/linkedin/client.rs, `VoyagerClient::fetch`: an attempt ends with a result, the
--                next attempt or `break`; the answers of LinkedIn are a script.
--   Endpoints    src/linkedin/endpoints.rs; Endpoints.Spelled has the bytes that an encoded text
--                stands for, apart from the code.
--   Repository   src/linkedin/repository.rs over the trait `Upstream` of src/linkedin/client.rs.
--   Cache        src/service/cache.rs over Cache.Crate, the crate lru as an interface.
--   Flight       src/service/profile.rs, `fetch_once`: callers and fetching tasks as a sequence of
--                events in any order.
--   Lookup       src/service/profile.rs, `get_profile`, and the reply of src/api/profile.rs: the link,
--                the cache, the disk, and the fetch of Repository with Parser in its place. It is one
--                lookup after another; concurrent ones are the business of Flight. Lookup.Raw is the
--                raw endpoint of src/api/profile.rs.
--   Urls         src/linkedin/url.rs: `parse_profile_url` and the cache key; Urls.Decoding is
--                `percent_decode` on bytes, with the lossy decoding of the standard library.
--   Parser       src/parser: Parser.Texts, Dates, Images, Organizations and Labels are common.rs,
--                Contact contact.rs, Index normalized.rs, Legacy (with Legacy.Views) legacy.rs, Dash
--                (Identity, Positions, Sections, Document) dash.rs, and Assembler assembler.rs.
--   Config       src/config.rs, `Settings::from_env`, over Config.Values, the readers of values; the
--                upstream and cache sections are in Config.Load.
--   Domain       src/domain/profile.rs, the records of the public profile.
--   Draft        src/parser/draft.rs, the draft of a profile and how later calls add to it.
--   Error        src/error.rs, src/linkedin/error.rs and src/domain/response.rs.
--   Json, Shared JSON values; lists, options, sorting, maps, integers, texts and the lemmas on them.
--
-- How the source is read. A struct is a record and an enum a data type with the same constructors;
-- a `HashMap` is an association list; `&mut self` is a state that is passed and returned. A clock
-- reading is an argument, a duration a number of nanoseconds; an `f64` is a whole number of
-- billionths, so that rounding beyond them is not seen. An `i64` is an integer: the arithmetic on
-- dates in Parser wraps, elsewhere overflow is not modelled. The loop of `fetch` is recursion on
-- the attempts that are left, which is the source's own bound; no other fuel is used but that of
-- the decimal form of a number, which is the number and one, and so at least its digits. The byte
-- loop of `percent_decode` is recursion on the bytes with a count of those to skip, and the search
-- for an image stops at the source's own depth. Where a modelled step of the source panics the
-- model says so (`panicked`, `panic`, `panics`, `dropped`, or `none` in Urls); the backoff of the
-- client and the texts of its log are left out. Lookup reads the clock once where the source reads
-- it for the memory, for the disk and for the age of an entry, one after the other.
--
-- Parameters, with their documented behaviour as hypotheses where a theorem needs it: Redis, the
-- crate lru, the SHA-256 digests, the network, the crate url, the case tables of Unicode and the
-- timestamps of chrono (Parser.Platform), and the parsing of an `f64`. For each an instance is
-- written out among the examples, at which the theorems are applied.
--
-- Not modelled: the requests of the authentication (src/linkedin/auth.rs), which are calls of
-- reqwest; request ids, envelopes and extractors of the handlers; the account and system handlers;
-- logging and start-up; the site, scripts, benchmarks and tests.
pub mod Shared
pub mod Json
pub mod Parser
pub mod Urls
pub mod Error
pub mod Domain
pub mod Draft
pub mod Breaker
pub mod Billing
pub mod RateLimit
pub mod Access
pub mod Session
pub mod Client
pub mod Throttle
pub mod Cache
pub mod Flight
pub mod Endpoints
pub mod Repository
pub mod Lookup
pub mod Config
