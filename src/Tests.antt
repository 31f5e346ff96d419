-- ===== src/Tests.antt =====
-- The theorems at concrete inputs: a session with two accounts, three contacts and a send job.
mod Data
mod Pacing
mod Sender
mod Warmup
mod Campaigns
mod Inbox
mod Contacts
mod Import
mod Destinations
mod RateLimit
mod Worker
mod Accounts
mod Referrals
mod Users
