-- ===== src/Inbox.antt =====
-- Conversations and messages (backend/app/services/inbox.py).
pub mod Incoming
pub mod Operator
use telegram_marketing_crm.Prelude.{
  ℕ, Bool, false, ◌&&◌, ◌||◌, not, Option, none, some, List, [], ◌∷◌, ◌++◌, ◌==◌, if◌then◌else◌,
  is_some, head?, take,
}
use telegram_marketing_crm.Prelude.Text.{
  mem_text, Text, codes, present, lower, strip, strip_left, starts_with, show, contains,
  option_text_eq,
}
use telegram_marketing_crm.Db.{modify, add, select}
use telegram_marketing_crm.Models.Inbox.{Conversation, ConversationStatus, Direction, MessageStatus}
use telegram_marketing_crm.Session.{Session, commit}
use telegram_marketing_crm.Contacts.{or_none, present_id}

abbrev opt_out_words : List Text
opt_out_words =
    codes "stop"
    ∷ codes "unsubscribe"
    ∷ codes "opt out"
    ∷ codes "optout"
    ∷ codes "unsub"
    ∷ codes "cancel"
    ∷ []

-- `text or ""`
abbrev text_or_empty : Option Text → Text
text_or_empty none = []
text_or_empty (some t) = t

unfoldable pub is_opt_out : Option Text → Bool
unfolding mem_text
is_opt_out text =
    let t = lower (strip (text_or_empty text)) in
    mem_text t opt_out_words || starts_with (codes "stop") t

unfoldable pub detect_type : Option Text → Text
detect_type body =
    let t = text_or_empty body in
    if contains (codes "http://") t || (contains (codes "https://") t || contains (codes "t.me/") t)
    then codes "link"
    else codes "text"

unfoldable pub preview : Option Text → Option Text
preview none = none
preview (some []) = none
preview (some (c ∷ s)) = some (take 120 (c ∷ s))

unfoldable pub norm_username : Option Text → Option Text
norm_username none = none
norm_username (some t) = or_none (lower (strip_left (λ c. c == b'@') t))

abbrev same_id : Option ℕ → ℕ → Bool
same_id none k = false
same_id (some j) k = j == k

-- `scalar_one_or_none`; the outer `none` is the exception MultipleResultsFound.
abbrev pub one_or_none : List ℕ → Option (Option ℕ)
one_or_none [] = some none
one_or_none (k ∷ []) = some (some k)
one_or_none (k ∷ j ∷ l) = none

by_username : Option Text → Session → Option (Option ℕ)
by_username none s = some none
by_username (some []) s = some none
by_username (some (c ∷ u)) s =
    let name = lower (strip_left (λ d. d == b'@') (c ∷ u)) in
    one_or_none (select (λ k r. option_text_eq r.username name) s.contacts)

-- `_find_contact_by_peer`: the key of the contact, or the exception of `scalar_one_or_none`.
unfoldable pub find_contact_by_peer : Option ℕ → Option Text → Session → Option (Option ℕ)
unfolding by_username
find_contact_by_peer none peer_username s = by_username peer_username s
find_contact_by_peer (some peer) peer_username s =
    elim (one_or_none (select (λ k r. same_id r.telegram_user_id peer) s.contacts)) [
      | none ↦ none
      | some none ↦ by_username peer_username s
      | some (some k) ↦ some (some k)
    ]

-- The WHERE clause of `get_or_create_conversation`.
conversation_lookup : ℕ → Option ℕ → Option ℕ → Conversation → Bool
conversation_lookup account_id (some peer) contact_id r =
    r.account_id == account_id && same_id r.peer_id peer
conversation_lookup account_id none (some contact) r =
    r.account_id == account_id && same_id r.contact_id contact
conversation_lookup account_id none none r =
    r.account_id == account_id && (not (is_some r.peer_id) && not (is_some r.contact_id))

-- The backfill of a conversation that is there already.
backfill : Option Text → Option Text → Option ℕ → Conversation → Conversation
backfill peer_name peer_username contact_id r = record r {
  contact_id =
      if present_id contact_id && not (is_some r.contact_id) then contact_id else r.contact_id;
  peer_username =
      if present peer_username && not (present r.peer_username)
      then norm_username peer_username
      else r.peer_username;
  peer_name = if present peer_name && not (present r.peer_name) then peer_name else r.peer_name;
}

abbrev pub new_conversation : ℕ → Option ℕ → Option Text → Option Text → Option ℕ → Conversation
new_conversation account_id peer_id peer_name peer_username contact_id = record {
  contact_id = contact_id;
  account_id = account_id;
  peer_id = peer_id;
  peer_name = peer_name;
  peer_username = norm_username peer_username;
  last_message_at = none;
  last_message_preview = none;
  unread_count = 0;
  status = ConversationStatus.new;
  archived = false;
}

-- The conversation that the query found, or a new one.
unfoldable pub create_or_backfill :
    ℕ → Option ℕ → Option Text → Option Text → Option ℕ → Session → Option ℕ → ℕ × Session
unfolding backfill
create_or_backfill account_id peer_id peer_name peer_username contact_id s none = (
  s.conversations.next,
  commit (record s {
    conversations =
        add (new_conversation account_id peer_id peer_name peer_username contact_id)
          s.conversations;
  }),
)
create_or_backfill account_id peer_id peer_name peer_username contact_id s (some k) = (
  k,
  record s {
    conversations = modify k (backfill peer_name peer_username contact_id) s.conversations;
  },
)

-- The key of the conversation, and the session. Where several match, `first()` without an order is
-- taken to be the one that was stored first.
unfoldable pub get_or_create_conversation :
    ℕ → Option ℕ → Option Text → Option Text → Option ℕ → Session → ℕ × Session
unfolding conversation_lookup create_or_backfill
get_or_create_conversation account_id peer_id peer_name peer_username contact_id s =
    create_or_backfill account_id peer_id peer_name peer_username contact_id s
      (head? (select (λ k. conversation_lookup account_id peer_id contact_id) s.conversations))

-- `f"agent:{agent_id}" if agent_id else "system"`
unfoldable pub sender_of : Option ℕ → Text
sender_of none = codes "system"
sender_of (some k) = if k == 0 then codes "system" else codes "agent:" ++ show k

-- `body or ("[" + type + "]")`
outgoing_preview : Option Text → Text → Option Text
outgoing_preview none kind = preview (some (codes "[" ++ (kind ++ codes "]")))
outgoing_preview (some []) kind = preview (some (codes "[" ++ (kind ++ codes "]")))
outgoing_preview (some (c ∷ s)) kind = preview (some (c ∷ s))

-- `clock` is what `datetime.now` returns.
unfoldable pub record_outgoing :
    ℕ → ℕ → ℕ → Option ℕ → Text → Option Text → Option Text → Option ℕ → Session → Session
unfolding sender_of outgoing_preview
record_outgoing clock conversation account_id agent_id kind body media_ref tg_message_id s =
    commit (record s {
      messages =
          add
            (record {
              conversation_id = conversation;
              direction = Direction.outgoing;
              account_id = some account_id;
              sender = sender_of agent_id;
              message_type = kind;
              body = body;
              media_ref = media_ref;
              tg_message_id = tg_message_id;
              status = MessageStatus.sent;
              created_at = clock;
            })
            s.messages;
      conversations =
          modify conversation
            (λ r. record r {
              last_message_at = some clock;
              last_message_preview = outgoing_preview body kind;
            })
            s.conversations;
    })
