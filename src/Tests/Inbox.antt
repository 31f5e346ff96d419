-- ===== src/Tests/Inbox.antt =====
-- The opt-out guardrail at a contact that is known by its username.
use telegram_marketing_crm.Inbox.Operator.Consent.{set_status-sendable}
use telegram_marketing_crm.Prelude.{◌≡◌, refl, none, some, true, false, [], ◌∷◌}
use telegram_marketing_crm.Db.{modify, get}
use telegram_marketing_crm.Session.{commit, Session}
use telegram_marketing_crm.Tests.Data.{two_queued, lead, table_of}
use telegram_marketing_crm.Sender.Tick.{sendable}
use telegram_marketing_crm.Inbox.Operator.{set_status}
use telegram_marketing_crm.Models.Inbox.{ConversationStatus}
use telegram_marketing_crm.Inbox.{new_conversation}

abbrev one_contact : Session
one_contact = record two_queued { contacts = table_of ((1, lead false) ∷ []) }

held : get 1 one_contact.contacts ≡ some (lead false)
unfolding get
held = refl

abbrev one_chat : Session
one_chat = record one_contact {
  conversations = table_of ((1, new_conversation 1 none none none (some 1)) ∷ []);
}

still_sendable : sendable (get 1 (set_status 1 ConversationStatus.joined one_chat).contacts) ≡ true
unfolding set_status sendable get commit modify
still_sendable = refl

set_status-sendable_example : sendable (get 1 one_chat.contacts) ≡ true
set_status-sendable_example =
    set_status-sendable 1 ConversationStatus.joined 1 one_chat still_sendable
