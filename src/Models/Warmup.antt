-- ===== src/Models/Warmup.antt =====
-- backend/app/db/models/warmup.py. A stage of the JSON column `stages` is a record of its two keys,
-- and `day_key`, a date, is the number of the day since the epoch.
use telegram_marketing_crm.Prelude.{ℕ, Bool, true, false, Option, List}
use telegram_marketing_crm.Prelude.Text.{Text}
use telegram_marketing_crm.Models.Sender.{JobStatus}

pub record Stage : Type 0 where
  pub days : ℕ
  pub max_actions : Option ℕ

pub record WarmupRun : Type 0 where
  pub name : Text
  pub status : JobStatus
  pub stages : List Stage
  pub groups : List Text
  pub messages : List Text
  pub min_delay_seconds : ℕ
  pub max_delay_seconds : ℕ
  pub created_by : Option ℕ
  pub started_at : Option ℕ

pub data ParticipantStatus : Type 0 where
  pending active paused done : ParticipantStatus

abbrev pub is_active : ParticipantStatus → Bool
is_active ParticipantStatus.active = true
is_active _ = false

pub record WarmupParticipant : Type 0 where
  pub run_id : ℕ
  pub account_id : ℕ
  pub stage : ℕ
  pub stage_started_at : Option ℕ
  pub actions_today : ℕ
  pub day_key : Option ℕ
  pub last_action_at : Option ℕ
  pub joined : List Text
  pub status : ParticipantStatus

pub data PartnerKind : Type 0 where
  phone username : PartnerKind

pub record WarmupPartner : Type 0 where
  pub run_id : ℕ
  pub identifier : Text
  pub kind : PartnerKind
