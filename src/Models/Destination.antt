-- ===== src/Models/Destination.antt =====
-- backend/app/db/models/destination.py. Telegram's entity ids are only passed on.
use telegram_marketing_crm.Prelude.{ℕ, Bool, true, false, Option}
use telegram_marketing_crm.Prelude.Text.{Text}

pub data DestinationType : Type 0 where
  group channel unknown : DestinationType

pub record Destination : Type 0 where
  pub title : Option Text
  pub link : Text
  pub tg_entity_id : Option ℕ
  pub destination_type : DestinationType
  pub invite_link : Option Text
  pub added_via : Option ℕ

pub data MembershipState : Type 0 where
  pending added invited joined failed : MembershipState

pub record GroupMembership : Type 0 where
  pub contact_id : ℕ
  pub destination_id : ℕ
  pub state : MembershipState
  pub method : Option Text
  pub account_id : Option ℕ
  pub error : Option Text

abbrev pub is_pending : MembershipState → Bool
is_pending MembershipState.pending = true
is_pending _ = false

-- `IN_DESTINATION_STATES`
abbrev pub in_destination : MembershipState → Bool
in_destination MembershipState.added = true
in_destination MembershipState.invited = true
in_destination MembershipState.joined = true
in_destination _ = false
