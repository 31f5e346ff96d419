-- ===== src/Lib.antt =====
-- Telegram Marketing CRM: the services of the backend that decide who is written to, by which
-- account, and when.
--
-- The backend (backend/app) keeps accounts, contacts, jobs and conversations in a database. A worker
-- (backend/worker) ticks the running jobs, and an engine service logs in to Telegram and sends. The
-- services (backend/app/services) hold the logic: an operation takes the database session, reads
-- and changes objects, and commits. The modules, and the code they model:
--   Prelude       names of the libraries, Boolean tests, lists, keys, text
--   Db, Session   SQLAlchemy's session as backend/app/db/session.py makes it (`autoflush=False`,
--                 `expire_on_commit=False`): a table has the objects that the session holds and the
--                 rows that the database holds, a SELECT reads the rows, a commit writes them
--   Models        backend/app/db/models, a record for each table
--   OnDelete      the foreign keys of backend/app/db/models that refer to accounts and contacts
--   Pacing        backend/worker/antiban/pacing.py: caps, delays, hours, rotation
--   Spintax       backend/worker/antiban/spintax.py: `spin`
--   Engine        the answers behind backend/app/services/engine_client.py, a parameter
--   Contacts      backend/app/services/contacts.py: normal forms, send targets,
--                 conflicts, creation, import, edits, lookups and messages
--   Inbox         backend/app/services/inbox.py: conversations, incoming and outgoing
--                 messages, the opt-out guardrail, the operator's changes
--   Sender        backend/app/services/sender.py: jobs, targets, `run_tick` and `build_executor`
--   Warmup        backend/app/services/warmup.py: runs, stages and the warmup tick
--   Campaigns     backend/app/services/campaigns.py: segments, targets and the campaign tick
--   Destinations  backend/app/services/destinations.py: registration, add_members, `run_add_tick`
--   RateLimit     backend/app/ratelimit.py and middleware.py: the limiter in memory and over Redis
--   Proxies       backend/app/services/proxies.py: parsing, import, assignment and release
--   Audit         backend/app/services/audit.py: events
--   Accounts      backend/app/services/accounts.py and backend/app/api/accounts.py
--   Users         backend/app/services/users.py and auth.py, backend/app/auth, and the endpoints
--                 backend/app/api/users.py and auth.py
--   Bots          backend/app/services/bots.py and bot_consumer.py
--   Referrals     backend/app/services/referrals.py
--   Worker        backend/worker/tasks/{sending,campaigns,warmup}.py: the beats over what runs
--   Tests         the theorems at concrete inputs
--
-- Text is a list of code points, and case and blanks are those of ASCII. A datetime is a number of
-- microseconds in UTC. A random generator is a stream of numbers. The only fuel is that of `spin`,
-- the number of opening braces, and each round removes one. A service that raises returns `none`,
-- or names what it raises. An executor is quiet if it changes no account, contact, job or target.
-- The engine service, urlparse, bcrypt, the reader of tokens and Redis are parameters.
-- Not modelled: routing and validation of requests, WebSocket events, the frontend, the engine
-- process, backups, reports, the constraints that make a commit raise, the
-- deletions of destinations, bots and warmup runs with the rows that refer to them, and the
-- orders by `created_at` of the lists that are only shown.
pub mod Prelude
pub mod Db
pub mod Models
pub mod Session
pub mod Pacing
pub mod Spintax
pub mod Engine
pub mod Contacts
pub mod Inbox
pub mod Sender
pub mod Warmup
pub mod Campaigns
pub mod Destinations
pub mod RateLimit
pub mod Proxies
pub mod Audit
pub mod Accounts
pub mod Users
pub mod Bots
pub mod Referrals
pub mod Worker
pub mod OnDelete
pub mod Tests
