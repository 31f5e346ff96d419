-- ===== src/Models/Event.antt =====
-- backend/app/db/models/event.py, with the actors of constants.py.
use telegram_marketing_crm.Prelude.{ℕ, Option, List}
use telegram_marketing_crm.Prelude.Text.{Text}

pub data ActorType : Type 0 where
  user account system : ActorType

-- A value of the JSON object `meta`.
pub data MetaValue : Type 0 where
  null : MetaValue
  number : ℕ → MetaValue
  text : Text → MetaValue

pub record Event : Type 0 where
  pub event_type : Text
  pub actor_type : ActorType
  pub actor_id : Option ℕ
  pub entity_ref : Option Text
  pub meta : List (Text × MetaValue)
