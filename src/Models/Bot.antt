-- ===== src/Models/Bot.antt =====
-- backend/app/db/models/bot.py and referral.py. `created_at` and `started_at` are only shown.
use telegram_marketing_crm.Prelude.{ℕ, Bool, Option}
use telegram_marketing_crm.Prelude.Text.{Text}
use telegram_marketing_crm.Models.Inbox.{Direction}

pub data BotStatus : Type 0 where
  running stopped error : BotStatus

pub data BotMode : Type 0 where
  polling webhook : BotMode

pub record Bot : Type 0 where
  pub name : Option Text
  pub username : Option Text
  pub token : Text
  pub mode : BotMode
  pub status : BotStatus
  pub webhook_url : Option Text
  pub started_count : ℕ
  pub active_count : ℕ

pub record BotSubscriber : Type 0 where
  pub bot_id : ℕ
  pub telegram_user_id : ℕ
  pub name : Option Text
  pub contact_id : Option ℕ
  pub utm_source : Option Text
  pub last_active_at : Option ℕ
  pub is_active : Bool
  pub is_subscribed : Bool

pub record BotConversation : Type 0 where
  pub bot_id : ℕ
  pub subscriber_id : ℕ
  pub last_message_at : Option ℕ
  pub last_message_preview : Option Text
  pub unread_count : ℕ
  pub assigned_agent_id : Option ℕ
  pub status : Text

pub record BotMessage : Type 0 where
  pub bot_conversation_id : ℕ
  pub direction : Direction
  pub sender : Text
  pub message_type : Text
  pub body : Option Text
  pub media_ref : Option Text
  pub tg_message_id : Option ℕ
  pub created_at : ℕ

pub record Referral : Type 0 where
  pub referrer_subscriber_id : ℕ
  pub invite_code : Text
  pub invited_count : ℕ
  pub rewarded : Bool
