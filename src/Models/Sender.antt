-- ===== src/Models/Sender.antt =====
-- backend/app/db/models/sender.py.
use telegram_marketing_crm.Prelude.{ℕ, Bool, true, false, Option}
use telegram_marketing_crm.Prelude.Text.{Text}

-- The status of a send job, and of a campaign and a warmup run, whose columns take the same values.
pub data JobStatus : Type 0 where
  draft running paused done : JobStatus

abbrev pub is_running : JobStatus → Bool
is_running JobStatus.running = true
is_running _ = false

pub record SendJob : Type 0 where
  pub name : Text
  pub template : Text
  pub include_link : Bool
  pub link_url : Option Text
  pub suppress_link_first : Bool
  pub active_start : Text
  pub active_end : Text
  pub status : JobStatus
  pub last_account_id : Option ℕ
  pub created_by : Option ℕ
  pub started_at : Option ℕ

pub data TargetStatus : Type 0 where
  queued sent replied failed skipped : TargetStatus

abbrev pub is_queued : TargetStatus → Bool
is_queued TargetStatus.queued = true
is_queued _ = false

pub record SendTarget : Type 0 where
  pub job_id : ℕ
  pub contact_id : ℕ
  pub account_id : Option ℕ
  pub status : TargetStatus
  pub rendered_body : Option Text
  pub error : Option Text
  pub sent_at : Option ℕ
