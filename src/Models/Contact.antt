-- ===== src/Models/Contact.antt =====
-- backend/app/db/models/contact.py and constants.py.
use telegram_marketing_crm.Prelude.{ℕ, Bool, true, false, Option, List}
use telegram_marketing_crm.Prelude.Text.{Text, codes}

pub data LeadType : Type 0 where
  phone username : LeadType

pub data ResolutionStatus : Type 0 where
  pending resolved no_telegram failed : ResolutionStatus

pub data ContactStage : Type 0 where
  new contacted replied joined customer opted_out : ContactStage

pub record Contact : Type 0 where
  pub name : Option Text
  pub lead_type : LeadType
  pub phone : Option Text
  pub username : Option Text
  pub telegram_user_id : Option ℕ
  pub resolution_status : ResolutionStatus
  pub source : Option Text
  pub notes : Option Text
  pub stage : ContactStage
  pub consent : Bool
  pub opted_out : Bool
  pub assigned_account_id : Option ℕ
  pub assigned_agent_id : Option ℕ
  pub utm : List (Text × Text)
  pub tags : List Text
  pub last_contacted_at : Option ℕ

abbrev pub is_new : ContactStage → Bool
is_new ContactStage.new = true
is_new _ = false

-- The stored spelling of a stage.
unfoldable pub stage_name : ContactStage → Text
stage_name ContactStage.new = codes "new"
stage_name ContactStage.contacted = codes "contacted"
stage_name ContactStage.replied = codes "replied"
stage_name ContactStage.joined = codes "joined"
stage_name ContactStage.customer = codes "customer"
stage_name ContactStage.opted_out = codes "opted_out"
