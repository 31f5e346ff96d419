-- ===== src/Engine.antt =====
-- The engine service behind backend/app/services/engine_client.py, which reaches Telegram over HTTP.
-- Its answers are a parameter: each request may be answered in any way that the client's callers
-- read, and `none` is the exception EngineUnavailable. The first argument counts the requests made
-- before, so that two equal requests may be answered differently.
use telegram_marketing_crm.Prelude.{ℕ, Bool, Option, ◌⊎◌}
use telegram_marketing_crm.Prelude.Text.{Text}
use telegram_marketing_crm.Models.Account.{Account, Proxy}
use telegram_marketing_crm.Models.Destination.{MembershipState, DestinationType}
use telegram_marketing_crm.Models.Contact.{ResolutionStatus}

-- `{"sent": ..., "error": ...}`; a missing key is `none`.
pub record SendReply : Type 0 where
  pub sent : Bool
  pub error : Option Text

-- `{"state": ..., "method": ..., "error": ..., "detail": ...}`.
pub record AddReply : Type 0 where
  pub state : Option MembershipState
  pub method : Option Text
  pub error : Option Text
  pub detail : Option Text

-- `{"user_id": ..., "status": ...}` of a lookup by username or phone.
pub record ResolveReply : Type 0 where
  pub user_id : Option ℕ
  pub status : Option ResolutionStatus

-- `{"title": ..., "tg_entity_id": ..., "type": ...}`.
pub record DestinationReply : Type 0 where
  pub title : Option Text
  pub tg_entity_id : Option ℕ
  pub destination_type : Option DestinationType

-- `{"name": ..., "username": ...}` of a bot.
pub record BotReply : Type 0 where
  pub name : Option Text
  pub username : Option Text

-- `{"sent": ..., "error": ...}` of a message between warming accounts.
pub record WarmupReply : Type 0 where
  pub sent : Option Bool
  pub error : Option Text

pub record Engine : Type 0 where
  pub send_message : ℕ → ℕ → Account → Option Proxy → Text → Text → Option SendReply
  pub add_member : ℕ → ℕ → Account → Option Proxy → ℕ → Text → Option AddReply
  pub resolve_username : ℕ → ℕ → Account → Option Proxy → Text → Option ResolveReply
  pub resolve_phone : ℕ → ℕ → Account → Option Proxy → Text → Option ResolveReply
  pub resolve_destination : ℕ → ℕ → Account → Option Proxy → Text → Option DestinationReply
  -- Of the two for warming accounts, what is left is the text of the exception.
  pub warmup_join : ℕ → ℕ → Account → Option Proxy → Text → Option Text
  pub warmup_send : ℕ → ℕ → Account → Option Proxy → Text → Text → Text ⊎ WarmupReply
  pub bot_info : ℕ → Text → Option BotReply
  pub bot_start : ℕ → ℕ → Text → Option BotReply
  pub bot_stop : ℕ → ℕ → Text → Bool
  pub bot_send : ℕ → ℕ → Text → ℕ → Text → Bool
