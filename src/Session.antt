-- ===== src/Session.antt =====
-- The database session of a request or of a worker tick: one table for each model. `calls` counts
-- the requests to the engine service, so that each may be answered anew.
use telegram_marketing_crm.Prelude.{ℕ}
use telegram_marketing_crm.Db.{Table, flush}
use telegram_marketing_crm.Models.Account.{Account, Proxy}
use telegram_marketing_crm.Models.Contact.{Contact}
use telegram_marketing_crm.Models.Sender.{SendJob, SendTarget}
use telegram_marketing_crm.Models.Destination.{Destination, GroupMembership}
use telegram_marketing_crm.Models.Campaign.{Template, Campaign, CampaignTarget}
use telegram_marketing_crm.Models.Inbox.{Conversation, Message}
use telegram_marketing_crm.Models.Warmup.{WarmupRun, WarmupParticipant, WarmupPartner}
use telegram_marketing_crm.Models.Bot.{Bot, BotSubscriber, BotConversation, BotMessage, Referral}
use telegram_marketing_crm.Models.User.{User}
use telegram_marketing_crm.Models.Event.{Event}

pub record Session : Type 0 where
  pub accounts : Table Account
  pub proxies : Table Proxy
  pub contacts : Table Contact
  pub send_jobs : Table SendJob
  pub send_targets : Table SendTarget
  pub destinations : Table Destination
  pub memberships : Table GroupMembership
  pub templates : Table Template
  pub campaigns : Table Campaign
  pub campaign_targets : Table CampaignTarget
  pub conversations : Table Conversation
  pub messages : Table Message
  pub warmup_runs : Table WarmupRun
  pub warmup_participants : Table WarmupParticipant
  pub warmup_partners : Table WarmupPartner
  pub users : Table User
  pub bots : Table Bot
  pub subscribers : Table BotSubscriber
  pub bot_conversations : Table BotConversation
  pub bot_messages : Table BotMessage
  pub referrals : Table Referral
  pub events : Table Event
  pub calls : ℕ

-- `await db.commit()` and `await db.flush()`: every pending change is written.
unfoldable pub commit : Session → Session
unfolding flush
commit s = record {
  accounts = flush s.accounts;
  proxies = flush s.proxies;
  contacts = flush s.contacts;
  send_jobs = flush s.send_jobs;
  send_targets = flush s.send_targets;
  destinations = flush s.destinations;
  memberships = flush s.memberships;
  templates = flush s.templates;
  campaigns = flush s.campaigns;
  campaign_targets = flush s.campaign_targets;
  conversations = flush s.conversations;
  messages = flush s.messages;
  warmup_runs = flush s.warmup_runs;
  warmup_participants = flush s.warmup_participants;
  warmup_partners = flush s.warmup_partners;
  users = flush s.users;
  bots = flush s.bots;
  subscribers = flush s.subscribers;
  bot_conversations = flush s.bot_conversations;
  bot_messages = flush s.bot_messages;
  referrals = flush s.referrals;
  events = flush s.events;
  calls = s.calls;
}
