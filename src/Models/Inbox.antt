-- ===== src/Models/Inbox.antt =====
-- backend/app/db/models/inbox.py.
use telegram_marketing_crm.Prelude.{ℕ, Bool, Option}
use telegram_marketing_crm.Prelude.Text.{Text}

pub data ConversationStatus : Type 0 where
  new contacted replied joined customer opted_out blocked : ConversationStatus

pub record Conversation : Type 0 where
  pub contact_id : Option ℕ
  pub account_id : ℕ
  pub peer_id : Option ℕ
  pub peer_name : Option Text
  pub peer_username : Option Text
  pub last_message_at : Option ℕ
  pub last_message_preview : Option Text
  pub unread_count : ℕ
  pub status : ConversationStatus
  pub archived : Bool

pub data Direction : Type 0 where
  incoming outgoing : Direction

pub data MessageStatus : Type 0 where
  queued sent delivered failed read : MessageStatus

pub record Message : Type 0 where
  pub conversation_id : ℕ
  pub direction : Direction
  pub account_id : Option ℕ
  pub sender : Text
  pub message_type : Text
  pub body : Option Text
  pub media_ref : Option Text
  pub tg_message_id : Option ℕ
  pub status : MessageStatus
  pub created_at : ℕ
