-- ===== src/Audit.antt =====
-- The audit log (backend/app/services/audit.py).
use telegram_marketing_crm.Prelude.{ℕ, Option, List}
use telegram_marketing_crm.Prelude.Text.{Text}
use telegram_marketing_crm.Db.{add}
use telegram_marketing_crm.Models.Event.{ActorType, MetaValue}
use telegram_marketing_crm.Session.{Session, commit}

unfoldable pub add_event :
    Text → ActorType → Option ℕ → Option Text → List (Text × MetaValue) → Session → Session
unfolding add
add_event event_type actor_type actor_id entity_ref meta s = record s {
  events =
      add
        (record {
          event_type = event_type;
          actor_type = actor_type;
          actor_id = actor_id;
          entity_ref = entity_ref;
          meta = meta;
        })
        s.events;
}

-- It commits all that is pending.
unfoldable pub record_event :
    Text → ActorType → Option ℕ → Option Text → List (Text × MetaValue) → Session → Session
unfolding add_event commit
record_event event_type actor_type actor_id entity_ref meta s =
    commit (add_event event_type actor_type actor_id entity_ref meta s)
