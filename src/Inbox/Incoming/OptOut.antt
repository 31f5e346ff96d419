-- ===== src/Inbox/Incoming/OptOut.antt =====
-- A reply that asks to stop is honoured.
use telegram_marketing_crm.Prelude.{true, Option}
use telegram_marketing_crm.Prelude.Text.{Text}
use telegram_marketing_crm.Models.Contact.{Contact, ContactStage}
use telegram_marketing_crm.Session.{Session}
use mathlib.Core.Option

-- `c` after it has asked to stop.
abbrev pub stopped : Contact → Contact
stopped c = record c { opted_out = true; stage = ContactStage.opted_out }
