-- ===== src/Models/Account.antt =====
-- backend/app/db/models/account.py and proxy.py.
use telegram_marketing_crm.Prelude.{ℕ, Bool, true, false, Option}
use telegram_marketing_crm.Prelude.Text.{Text}

pub data AccountStatus : Type 0 where
  active warming quarantined banned logged_out : AccountStatus

pub record Account : Type 0 where
  pub label : Text
  pub phone : Option Text
  pub api_id : Option Text
  pub api_hash : Option Text
  pub tg_user_id : Option ℕ
  pub tg_username : Option Text
  pub tg_first_name : Option Text
  pub session_ref : Option Text
  pub proxy_id : Option ℕ
  pub status : AccountStatus
  pub warmup_stage : ℕ
  pub warmup_started_at : Option ℕ
  pub daily_cap : ℕ
  pub actions_today : ℕ
  pub last_action_at : Option ℕ
  pub spam_state : Text

abbrev pub is_active : AccountStatus → Bool
is_active AccountStatus.active = true
is_active _ = false

abbrev pub is_warming : AccountStatus → Bool
is_warming AccountStatus.warming = true
is_warming _ = false

pub data ProxyType : Type 0 where
  socks5 http mtproxy : ProxyType

pub data ProxyHealth : Type 0 where
  ok dead unknown : ProxyHealth

pub record Proxy : Type 0 where
  pub raw : Text
  pub proxy_type : ProxyType
  pub host : Text
  pub port : ℕ
  pub username : Option Text
  pub password : Option Text
  pub is_active : Bool
  pub assigned_account_id : Option ℕ
  pub last_checked_at : Option ℕ
  pub health : ProxyHealth
  pub notes : Option Text

abbrev pub is_dead : ProxyHealth → Bool
is_dead ProxyHealth.dead = true
is_dead _ = false
