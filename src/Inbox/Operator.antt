-- ===== src/Inbox/Operator.antt =====
-- What an operator does to a conversation (backend/app/services/inbox.py).
pub mod Consent
use telegram_marketing_crm.Prelude.{
  ℕ, Bool, true, Option, none, some, List, [], ◌∷◌, ◌==◌, if◌then◌else◌,
}
use telegram_marketing_crm.Db.{get, modify, delete}
use telegram_marketing_crm.Models.Contact.{Contact, ContactStage}
use telegram_marketing_crm.Models.Inbox.{Conversation, ConversationStatus, Message}
use telegram_marketing_crm.Session.{Session, commit}

unfoldable pub mark_read : ℕ → Session → Session
mark_read conversation s = commit (record s {
  conversations = modify conversation (λ r. record r { unread_count = 0 }) s.conversations;
})

-- The stage of a contact that a status maps to: `blocked` maps to none.
unfoldable pub stage_of : ConversationStatus → Option ContactStage
stage_of ConversationStatus.new = some ContactStage.new
stage_of ConversationStatus.contacted = some ContactStage.contacted
stage_of ConversationStatus.replied = some ContactStage.replied
stage_of ConversationStatus.joined = some ContactStage.joined
stage_of ConversationStatus.customer = some ContactStage.customer
stage_of ConversationStatus.opted_out = some ContactStage.opted_out
stage_of ConversationStatus.blocked = none

-- The contact's opt-out is set with the stage of that name, and never taken back.
unfoldable pub to_stage : ContactStage → Contact → Contact
to_stage ContactStage.opted_out c = record c { stage = ContactStage.opted_out; opted_out = true }
to_stage stage c = record c { stage = stage }

sync_contact : Option ContactStage → Option ℕ → Session → Session
unfolding to_stage
sync_contact (some stage) (some k) s =
    if k == 0 then s else record s { contacts = modify k (to_stage stage) s.contacts }
sync_contact _ _ s = s

contact_of : Option Conversation → Option ℕ
contact_of none = none
contact_of (some r) = r.contact_id

unfoldable pub set_status : ℕ → ConversationStatus → Session → Session
unfolding sync_contact stage_of contact_of
set_status conversation status s = commit (
    sync_contact (stage_of status) (contact_of (get conversation s.conversations)) (record s {
      conversations = modify conversation (λ r. record r { status = status }) s.conversations;
    }))

unfoldable pub set_archived : ℕ → Bool → Session → Session
set_archived conversation archived s = commit (record s {
  conversations = modify conversation (λ r. record r { archived = archived }) s.conversations;
})

without_messages_of : ℕ → List (ℕ × Message) → List (ℕ × Message)
without_messages_of conversation [] = []
without_messages_of conversation ((k, m) ∷ l) =
    let rest = without_messages_of conversation l in
    if m.conversation_id == conversation then rest else (k, m) ∷ rest

-- The messages are deleted in the database at once, and the session follows.
unfoldable pub delete_conversation : ℕ → Session → Session
unfolding without_messages_of
delete_conversation conversation s = commit (record s {
  messages = record s.messages {
    objects = without_messages_of conversation s.messages.objects;
    rows = without_messages_of conversation s.messages.rows;
  };
  conversations = delete conversation s.conversations;
})
