-- ===== src/Bots.antt =====
-- The bots, their subscribers and their inbox (backend/app/services/bots.py), with the handler of
-- backend/app/services/bot_consumer.py. `now` is the clock that a function reads.
use telegram_marketing_crm.Prelude.{
  ℕ, suc, ◌+◌, Bool, true, false, ◌&&◌, not, Option, none, some, List, [], ◌∷◌, ◌==◌, if◌then◌else◌,
  length,
}
use telegram_marketing_crm.Prelude.Text.{Text, codes, present}
use telegram_marketing_crm.Db.{get, modify, add, select}
use telegram_marketing_crm.Models.Bot.{
  Bot, BotMode, BotStatus, BotSubscriber, BotConversation, BotMessage,
}
use telegram_marketing_crm.Models.Inbox.{Direction}
use telegram_marketing_crm.Session.{Session, commit}
use telegram_marketing_crm.Engine.{Engine, BotReply}
use telegram_marketing_crm.Inbox.{one_or_none, preview, sender_of}
use mathlib.Core.List.{reverse}

abbrev unnamed_bot : Text → Bot
unnamed_bot token = record {
  name = none;
  username = none;
  token = token;
  mode = BotMode.polling;
  status = BotStatus.stopped;
  webhook_url = none;
  started_count = 0;
  active_count = 0;
}

named_by : Option BotReply → Bot → Bot
named_by none bot = bot
named_by (some info) bot = record bot { name = info.name; username = info.username }

unfoldable pub create_bot : Engine → Text → Session → ℕ × Session
unfolding named_by
create_bot engine token s = (
  s.bots.next,
  commit (record s {
    bots = add (named_by (engine.bot_info s.calls token) (unnamed_bot token)) s.bots;
    calls = suc s.calls;
  }),
)

-- `new or old`
or_old : Option Text → Option Text → Option Text
or_old (some (c ∷ t)) old = some (c ∷ t)
or_old _ old = old

started : ℕ → Session → Option BotReply → Option Session
unfolding or_old
started k s none = none
started k s (some info) = some (
    commit (record s {
      bots =
          modify k
            (λ r. record r {
              name = or_old info.name r.name;
              username = or_old info.username r.username;
              status = BotStatus.running;
            })
            s.bots;
    }))

-- `none` is EngineUnavailable, after which nothing is written.
unfoldable pub start_bot : Engine → ℕ → Bot → Session → Option Session
unfolding started
start_bot engine k bot s =
    started k (record s { calls = suc s.calls }) (engine.bot_start s.calls k bot.token)

-- The engine's answer is ignored.
unfoldable pub stop_bot : ℕ → Session → Session
stop_bot k s = commit (record s {
  bots = modify k (λ r. record r { status = BotStatus.stopped }) s.bots;
  calls = suc s.calls;
})

abbrev new_subscriber : ℕ → ℕ → ℕ → Option Text → Option Text → BotSubscriber
new_subscriber now bot user name utm = record {
  bot_id = bot;
  telegram_user_id = user;
  name = name;
  contact_id = none;
  utm_source = utm;
  last_active_at = some now;
  is_active = true;
  is_subscribed = true;
}

-- `if utm and not sub.utm_source`
utm_or_kept : Option Text → Option Text → Option Text
utm_or_kept utm kept = if present utm && not (present kept) then utm else kept

unfoldable pub seen_again : ℕ → Option Text → Option Text → BotSubscriber → BotSubscriber
unfolding or_old utm_or_kept
seen_again now name utm r = record r {
  last_active_at = some now;
  is_active = true;
  name = or_old name r.name;
  utm_source = utm_or_kept utm r.utm_source;
}

upsert_found :
    ℕ → ℕ → ℕ → Option Text → Option Text → Session → Option (Option ℕ) → Option (ℕ × Session)
unfolding seen_again
upsert_found now bot user name utm s none = none
upsert_found now bot user name utm s (some none) = some (
  s.subscribers.next,
  commit (record s { subscribers = add (new_subscriber now bot user name utm) s.subscribers }),
)
upsert_found now bot user name utm s (some (some k)) =
    some (k, record s { subscribers = modify k (seen_again now name utm) s.subscribers })

-- `none` is the exception of a lookup that finds two subscribers. A change of a subscriber that is
-- there waits for the caller's commit.
unfoldable pub upsert_subscriber :
    ℕ → ℕ → ℕ → Option Text → Option Text → Session → Option (ℕ × Session)
unfolding upsert_found
upsert_subscriber now bot user name utm s =
    upsert_found now bot user name utm s
      (one_or_none (select (λ k r. r.bot_id == bot && r.telegram_user_id == user) s.subscribers))

abbrev new_conversation : ℕ → ℕ → BotConversation
new_conversation bot subscriber = record {
  bot_id = bot;
  subscriber_id = subscriber;
  last_message_at = none;
  last_message_preview = none;
  unread_count = 0;
  assigned_agent_id = none;
  status = codes "open";
}

conversation_found : ℕ → ℕ → Session → Option (Option ℕ) → Option (ℕ × Session)
conversation_found bot subscriber s none = none
conversation_found bot subscriber s (some (some k)) = some (k, s)
conversation_found bot subscriber s (some none) = some (
  s.bot_conversations.next,
  commit
      (record s { bot_conversations = add (new_conversation bot subscriber) s.bot_conversations }),
)

unfoldable pub get_or_create_conversation : ℕ → ℕ → Session → Option (ℕ × Session)
unfolding conversation_found
get_or_create_conversation bot subscriber s = conversation_found bot subscriber s (
    one_or_none
      (select (λ k r. r.bot_id == bot && r.subscriber_id == subscriber) s.bot_conversations))

abbrev message_of : ℕ → ℕ → Direction → Text → Option Text → Option ℕ → BotMessage
message_of now conversation direction sender body tg_message_id = record {
  bot_conversation_id = conversation;
  direction = direction;
  sender = sender;
  message_type = codes "text";
  body = body;
  media_ref = none;
  tg_message_id = tg_message_id;
  created_at = now;
}

arrived : ℕ → Option Text → Option ℕ → Option (ℕ × Session) → Option (ℕ × ℕ × Session)
unfolding preview
arrived now text tg_message_id none = none
arrived now text tg_message_id (some (conv, s)) = some (
  conv,
  s.bot_messages.next,
  commit (record s {
    bot_messages =
        add (message_of now conv Direction.incoming (codes "subscriber") text tg_message_id)
          s.bot_messages;
    bot_conversations =
        modify conv
          (λ r. record r {
            unread_count = r.unread_count + 1;
            last_message_at = some now;
            last_message_preview = preview text;
          })
          s.bot_conversations;
  }),
)

in_conversation : ℕ → Option (ℕ × Session) → Option (ℕ × Session)
unfolding get_or_create_conversation
in_conversation bot none = none
in_conversation bot (some (subscriber, s)) = get_or_create_conversation bot subscriber s

-- The keys of the conversation and of the message.
unfoldable pub record_incoming :
    ℕ
    → ℕ
    → ℕ
    → Option Text
    → Option Text
    → Option Text
    → Option ℕ
    → Session
    → Option (ℕ × ℕ × Session)
unfolding upsert_subscriber in_conversation arrived
record_incoming now bot user name text utm tg_message_id s =
    arrived now text tg_message_id (in_conversation bot (upsert_subscriber now bot user name utm s))

unfoldable pub mark_read : ℕ → Session → Session
mark_read conv s = commit (record s {
  bot_conversations = modify conv (λ r. record r { unread_count = 0 }) s.bot_conversations;
})

replied : ℕ → ℕ → Option ℕ → Text → Session → Bool → Option (ℕ × Session)
unfolding preview sender_of
replied now conv agent text s false = none
replied now conv agent text s true = some (
  s.bot_messages.next,
  commit (record s {
    bot_messages =
        add (message_of now conv Direction.outgoing (sender_of agent) (some text) none)
          s.bot_messages;
    bot_conversations =
        modify conv
          (λ r. record r { last_message_at = some now; last_message_preview = preview (some text) })
          s.bot_conversations;
  }),
)

reply_to :
    Engine
    → ℕ
    → ℕ
    → Bot
    → ℕ
    → Option ℕ
    → Text
    → Session
    → Option BotSubscriber
    → Option (ℕ × Session)
unfolding replied
reply_to engine now bot b conv agent text s none = none
reply_to engine now bot b conv agent text s (some subscriber) =
    replied now conv agent text (record s { calls = suc s.calls })
      (engine.bot_send s.calls bot b.token subscriber.telegram_user_id text)

-- The key of the message; `none` is EngineUnavailable, or that there is no subscriber.
unfoldable pub reply :
    Engine → ℕ → ℕ → Bot → ℕ → BotConversation → Option ℕ → Text → Session → Option (ℕ × Session)
unfolding reply_to
reply engine now bot b conv c agent text s =
    reply_to engine now bot b conv agent text s (get c.subscriber_id s.subscribers)

-- The subscribers that a broadcast goes to, the latest first.
unfoldable pub recipients : ℕ → Session → List BotSubscriber
recipients bot s = from (reverse (select (λ k r. r.bot_id == bot) s.subscribers))
  where
    from : List ℕ → List BotSubscriber
    from [] = []
    from (k ∷ ks) =
        let rest = from ks in
        elim (get k s.subscribers) [
          | none ↦ rest
          | some r ↦ if r.is_subscribed && r.is_active then r ∷ rest else rest
        ]

-- How many were sent when the loop ends, and the number of requests made.
unfoldable pub send_to : Engine → ℕ → Text → Text → ℕ → List BotSubscriber → ℕ × ℕ
send_to engine bot token text calls [] = (0, calls)
send_to engine bot token text calls (r ∷ rs) =
    let rest = send_to engine bot token text (suc calls) rs in
    if engine.bot_send calls bot token r.telegram_user_id text
    then (suc rest.0, rest.1)
    else (0, suc calls)

-- `sent` and `recipients`.
unfoldable pub broadcast : Engine → ℕ → Bot → Text → Session → ℕ × ℕ × Session
unfolding recipients send_to
broadcast engine bot b text s =
    let subs = recipients bot s in
    let (sent, calls) = send_to engine bot b.token text s.calls subs in
    (sent, length subs, record s { calls = calls })

-- An event of the engine service.
pub data BotEvent : Type 0 where
  start : ℕ → ℕ → Option Text → Option Text → BotEvent
  message : ℕ → ℕ → Option Text → Option Text → Option ℕ → BotEvent

upserted : Option (ℕ × Session) → Option Session
upserted none = none
upserted (some (k, s)) = some (commit s)

recorded : Option (ℕ × ℕ × Session) → Option Session
recorded none = none
recorded (some (conv, msg, s)) = some s

-- `_handle`; `none` is an exception, which is logged.
unfoldable pub handle : ℕ → BotEvent → Session → Option Session
unfolding upserted recorded upsert_subscriber record_incoming
handle now (BotEvent.start bot user name utm) s =
    upserted (upsert_subscriber now bot user name utm s)
handle now (BotEvent.message bot user name text id) s =
    recorded (record_incoming now bot user name text none id s)
