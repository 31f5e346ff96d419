-- ===== src/Inbox/Incoming.antt =====
-- `record_incoming` of backend/app/services/inbox.py, with its opt-out guardrail.
pub mod OptOut
use telegram_marketing_crm.Prelude.{
  ℕ, ◌+◌, Bool, true, false, ◌||◌, Option, none, some, [], ◌∷◌, ◌++◌, if◌then◌else◌,
}
use telegram_marketing_crm.Prelude.Text.{Text, codes, text_eq}
use telegram_marketing_crm.Db.{get, modify, add}
use telegram_marketing_crm.Models.Contact.{Contact, ContactStage}
use telegram_marketing_crm.Models.Inbox.{ConversationStatus, Message, Direction, MessageStatus}
use telegram_marketing_crm.Session.{Session, commit}
use telegram_marketing_crm.Contacts.{display_label}
use telegram_marketing_crm.Inbox.{
  is_opt_out, detect_type, preview, find_contact_by_peer, get_or_create_conversation,
}

-- `msg_type or detect_type(text)`
unfoldable pub kind_of : Option Text → Option Text → Text
unfolding detect_type
kind_of none text = detect_type text
kind_of (some []) text = detect_type text
kind_of (some (c ∷ t)) text = c ∷ t

label_of : Option ℕ → Session → Option Text
label_of none s = none
label_of (some k) s = elim (get k s.contacts) [ none ↦ none | some c ↦ some (display_label k c) ]

-- `peer_name or (contact.display_label if contact else None)`
name_of : Option Text → Option ℕ → Session → Option Text
unfolding label_of
name_of none contact s = label_of contact s
name_of (some []) contact s = label_of contact s
name_of (some (c ∷ t)) contact s = some (c ∷ t)

-- `_preview(text) or (f"[{kind}]" if kind not in ("text", "link") else None)`
incoming_preview : Option Text → Text → Option Text
unfolding preview text_eq
incoming_preview text kind = or_kind (preview text)
  where
    or_kind : Option Text → Option Text
    or_kind (some (c ∷ t)) = some (c ∷ t)
    or_kind _ =
        if text_eq kind (codes "text") || text_eq kind (codes "link")
        then none
        else some (codes "[" ++ (kind ++ codes "]"))

unfoldable pub incoming_message : ℕ → ℕ → ℕ → Text → Option Text → Option Text → Option ℕ → Message
incoming_message clock conversation account_id kind text media_ref tg_message_id = record {
  conversation_id = conversation;
  direction = Direction.incoming;
  account_id = some account_id;
  sender = codes "contact";
  message_type = kind;
  body = text;
  media_ref = media_ref;
  tg_message_id = tg_message_id;
  status = MessageStatus.delivered;
  created_at = clock;
}

-- `contact.stage in ("new", "contacted")`
abbrev pub awaits_reply : ContactStage → Bool
awaits_reply ContactStage.new = true
awaits_reply ContactStage.contacted = true
awaits_reply _ = false

unfoldable pub opt_out : Contact → Contact
opt_out c = record c { opted_out = true; stage = ContactStage.opted_out }

set_conversation : ℕ → ConversationStatus → Session → Session
set_conversation conversation status s = record s {
  conversations = modify conversation (λ r. record r { status = status }) s.conversations;
}

-- The contact whose key is given, if the session holds it, has replied.
unfoldable pub replied : ℕ → ℕ → Option Contact → Session → Session
unfolding set_conversation
replied conversation k none s = s
replied conversation k (some c) s =
    if awaits_reply c.stage
    then set_conversation conversation ConversationStatus.replied (record s {
      contacts = modify k (λ x. record x { stage = ContactStage.replied }) s.contacts;
    })
    else s

-- The consent guardrail.
unfoldable pub guardrail : Bool → ℕ → Option ℕ → Session → Session
unfolding set_conversation opt_out replied
guardrail true conversation none s = set_conversation conversation ConversationStatus.opted_out s
guardrail true conversation (some k) s =
    set_conversation conversation ConversationStatus.opted_out
      (record s { contacts = modify k opt_out s.contacts })
guardrail false conversation none s = s
guardrail false conversation (some k) s = replied conversation k (get k s.contacts) s

-- The message that comes in, from the contact with the given key or from a stranger.
unfoldable pub receive :
    ℕ
    → ℕ
    → Option ℕ
    → Option Text
    → Option Text
    → Option Text
    → Option Text
    → Option Text
    → Option ℕ
    → Option ℕ
    → Session
    → ℕ × Session
unfolding guardrail is_opt_out incoming_message kind_of name_of incoming_preview
receive clock account_id peer_id peer_name peer_username text msg_type media_ref tg_message_id
      contact s =
    let (conversation, s1) =
      get_or_create_conversation account_id peer_id (name_of peer_name contact s) peer_username
        contact s in
    let kind = kind_of msg_type text in
    let s2 = record s1 {
      messages =
          add (incoming_message clock conversation account_id kind text media_ref tg_message_id)
            s1.messages;
      conversations =
          modify conversation
            (λ r. record r {
              unread_count = r.unread_count + 1;
              last_message_at = some clock;
              last_message_preview = incoming_preview text kind;
            })
            s1.conversations;
    } in
    (conversation, commit (guardrail (is_opt_out text) conversation contact s2))

-- `none` is the exception of a lookup that finds two contacts.
unfoldable pub record_incoming :
    ℕ
    → ℕ
    → Option ℕ
    → Option Text
    → Option Text
    → Option Text
    → Option Text
    → Option Text
    → Option ℕ
    → Session
    → Option (ℕ × Session)
unfolding find_contact_by_peer receive
record_incoming clock account_id peer_id peer_name peer_username text msg_type media_ref
      tg_message_id s =
    elim (find_contact_by_peer peer_id peer_username s) [
      | none ↦ none
      | some contact ↦ some (
          receive clock account_id peer_id peer_name peer_username text msg_type media_ref
            tg_message_id contact s)
    ]
