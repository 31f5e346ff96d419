-- ===== src/OnDelete.antt =====
-- What the database does to the rows that refer to a deleted row: the foreign keys of
-- backend/app/db/models with ON DELETE CASCADE or SET NULL. The request ends with the deletion, so
-- that the objects that its session holds are those of the rows afterwards.
use telegram_marketing_crm.Prelude.{ℕ, Bool, Option, none, some, List, [], ◌∷◌, ◌==◌, if◌then◌else◌}
use telegram_marketing_crm.Prelude.Keys.{mem}
use telegram_marketing_crm.Db.{Table, keys_where}
use telegram_marketing_crm.Models.Contact.{Contact}
use telegram_marketing_crm.Models.Sender.{SendTarget}
use telegram_marketing_crm.Models.Destination.{GroupMembership}
use telegram_marketing_crm.Models.Campaign.{CampaignTarget}
use telegram_marketing_crm.Models.Inbox.{Conversation, Message}
use telegram_marketing_crm.Models.Warmup.{WarmupParticipant}
use telegram_marketing_crm.Models.Bot.{BotSubscriber}
use telegram_marketing_crm.Session.{Session}

-- A column with SET NULL.
nulled : ℕ → Option ℕ → Option ℕ
nulled k none = none
nulled k (some j) = if j == k then none else some j

module _ {ℓ} {R : Type ℓ} where
  each_row : (R → R) → List (ℕ × R) → List (ℕ × R)
  each_row f [] = []
  each_row f ((k, r) ∷ l) = (k, f r) ∷ each_row f l

  drop_rows : (R → Bool) → List (ℕ × R) → List (ℕ × R)
  drop_rows p [] = []
  drop_rows p ((k, r) ∷ l) = let rest = drop_rows p l in if p r then rest else (k, r) ∷ rest

  set_null : (R → R) → Table R → Table R
  unfolding each_row
  set_null f t = record t { objects = each_row f t.objects; rows = each_row f t.rows }

  cascade : (R → Bool) → Table R → Table R
  unfolding drop_rows
  cascade p t = record t { objects = drop_rows p t.objects; rows = drop_rows p t.rows }

contact_without : ℕ → Contact → Contact
unfolding nulled
contact_without k r = record r { assigned_account_id = nulled k r.assigned_account_id }

send_target_without : ℕ → SendTarget → SendTarget
unfolding nulled
send_target_without k r = record r { account_id = nulled k r.account_id }

campaign_target_without : ℕ → CampaignTarget → CampaignTarget
unfolding nulled
campaign_target_without k r = record r { account_id = nulled k r.account_id }

membership_without : ℕ → GroupMembership → GroupMembership
unfolding nulled
membership_without k r = record r { account_id = nulled k r.account_id }

message_without : ℕ → Message → Message
unfolding nulled
message_without k r = record r { account_id = nulled k r.account_id }

conversation_of_account : ℕ → Conversation → Bool
conversation_of_account k r = r.account_id == k

message_of_conversations : List ℕ → Message → Bool
message_of_conversations ks r = mem r.conversation_id ks

participant_of_account : ℕ → WarmupParticipant → Bool
participant_of_account k r = r.account_id == k

-- After the account with the key `k` is deleted: its conversations go, and their messages with them.
unfoldable pub account_deleted : ℕ → Session → Session
unfolding set_null cascade contact_without send_target_without campaign_target_without
    membership_without message_without conversation_of_account message_of_conversations
    participant_of_account
account_deleted k s =
    let gone = keys_where (λ j r. conversation_of_account k r) s.conversations.rows in
    record s {
      contacts = set_null (contact_without k) s.contacts;
      send_targets = set_null (send_target_without k) s.send_targets;
      campaign_targets = set_null (campaign_target_without k) s.campaign_targets;
      memberships = set_null (membership_without k) s.memberships;
      conversations = cascade (conversation_of_account k) s.conversations;
      messages = set_null (message_without k) (cascade (message_of_conversations gone) s.messages);
      warmup_participants = cascade (participant_of_account k) s.warmup_participants;
    }

send_target_of_contact : ℕ → SendTarget → Bool
send_target_of_contact k r = r.contact_id == k

campaign_target_of_contact : ℕ → CampaignTarget → Bool
campaign_target_of_contact k r = r.contact_id == k

membership_of_contact : ℕ → GroupMembership → Bool
membership_of_contact k r = r.contact_id == k

conversation_without : ℕ → Conversation → Conversation
unfolding nulled
conversation_without k r = record r { contact_id = nulled k r.contact_id }

subscriber_without : ℕ → BotSubscriber → BotSubscriber
unfolding nulled
subscriber_without k r = record r { contact_id = nulled k r.contact_id }

-- After the contact with the key `k` is deleted.
unfoldable pub contact_deleted : ℕ → Session → Session
unfolding set_null cascade send_target_of_contact campaign_target_of_contact membership_of_contact
    conversation_without subscriber_without
contact_deleted k s = record s {
  send_targets = cascade (send_target_of_contact k) s.send_targets;
  campaign_targets = cascade (campaign_target_of_contact k) s.campaign_targets;
  memberships = cascade (membership_of_contact k) s.memberships;
  conversations = set_null (conversation_without k) s.conversations;
  subscribers = set_null (subscriber_without k) s.subscribers;
}
