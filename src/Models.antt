-- ===== src/Models.antt =====
-- The ORM models (backend/app/db/models), a record for each table and a data type for each column
-- with a CHECK constraint. The primary key `id` is the key under which a table holds the record,
-- and the server's `created_at` is left out, since no operation of the model reads it. A datetime
-- is a number of microseconds since the epoch, in UTC.
pub mod Account
pub mod Contact
pub mod Sender
pub mod Destination
pub mod Campaign
pub mod Inbox
pub mod Warmup
pub mod Bot
pub mod User
pub mod Event
