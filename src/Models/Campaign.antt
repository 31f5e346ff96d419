-- ===== src/Models/Campaign.antt =====
-- backend/app/db/models/campaign.py. The JSON columns `segment` and `steps` are records of the keys
-- that the services read, each with `none` for a missing key.
use telegram_marketing_crm.Prelude.{ℕ, Bool, true, false, Option, List}
use telegram_marketing_crm.Prelude.Text.{Text}
use telegram_marketing_crm.Models.Sender.{JobStatus}

pub record Template : Type 0 where
  pub name : Text
  pub body : Text
  pub include_link : Bool
  pub link_url : Option Text
  pub media_ref : Option Text
  pub variant_group : Text
  pub variant_label : Text
  pub created_by : Option ℕ

pub data CampaignAction : Type 0 where
  message invite add : CampaignAction

pub record Segment : Type 0 where
  pub source : Option Text
  pub stage : Option Text
  pub tag : Option Text
  pub exclude_in_destination : Option ℕ

pub record Step : Type 0 where
  pub offset_hours : Option ℕ
  pub variant_group : Option Text

pub record Campaign : Type 0 where
  pub name : Text
  pub action : CampaignAction
  pub destination_id : Option ℕ
  pub segment : Segment
  pub steps : List Step
  pub ab_test : Bool
  pub status : JobStatus
  pub last_account_id : Option ℕ
  pub created_by : Option ℕ
  pub started_at : Option ℕ

pub data TargetResult : Type 0 where
  queued sent replied joined failed skipped : TargetResult

abbrev pub is_queued : TargetResult → Bool
is_queued TargetResult.queued = true
is_queued _ = false

pub record CampaignTarget : Type 0 where
  pub campaign_id : ℕ
  pub contact_id : ℕ
  pub step : ℕ
  pub template_id : Option ℕ
  pub account_id : Option ℕ
  pub scheduled_at : Option ℕ
  pub sent_at : Option ℕ
  pub result : TargetResult
  pub error : Option Text
