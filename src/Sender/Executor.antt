-- ===== src/Sender/Executor.antt =====
-- `build_executor` of backend/app/services/sender.py: a send through the engine, which lands in the
-- inbox. The WebSocket event that follows is not modelled.
use telegram_marketing_crm.Prelude.{ℕ, suc, true, false, Option, none, some, if◌then◌else◌}
use telegram_marketing_crm.Prelude.Text.{Text, codes}
use telegram_marketing_crm.Db.{get}
use telegram_marketing_crm.Models.Account.{Account, Proxy}
use telegram_marketing_crm.Models.Contact.{Contact}
use telegram_marketing_crm.Session.{Session}
use telegram_marketing_crm.Engine.{Engine, SendReply}
use telegram_marketing_crm.Contacts.{send_identifier, display_label}
use telegram_marketing_crm.Inbox.{get_or_create_conversation, record_outgoing}
use telegram_marketing_crm.Sender.Tick.{ExecResult, ExecuteFn}

-- `await db.get(Proxy, account.proxy_id) if account.proxy_id else None`
unfoldable pub proxy_of : Account → Session → Option Proxy
proxy_of a s = elim a.proxy_id [ none ↦ none | some k ↦ get k s.proxies ]

-- The message lands in the inbox.
unfoldable pub land_in_inbox : ℕ → Option ℕ → ℕ → ℕ → Contact → Text → Session → Session
land_in_inbox clock agent_id account contact c body s =
    let (conversation, s') =
      get_or_create_conversation account c.telegram_user_id (some (display_label contact c)) none
        (some contact) s in
    record_outgoing clock conversation account agent_id (codes "text") (some body) none none s'

-- `result.get("error", "warning")`
abbrev warning_of : Option Text → Option Text
warning_of none = some (codes "warning")
warning_of (some e) = some e

-- What follows the engine's answer; `none` is EngineUnavailable.
unfoldable pub after_send :
    ℕ → Option ℕ → ℕ → ℕ → Contact → Text → Session → Option SendReply → ExecResult × Session
unfolding land_in_inbox
after_send clock agent_id account contact c body s none =
    (record { ok = false; warning = some (codes "engine_unavailable"); error = none }, s)
after_send clock agent_id account contact c body s (some reply) =
    if reply.sent
    then (
      record { ok = true; warning = none; error = none },
      land_in_inbox clock agent_id account contact c body s,
    )
    else (record { ok = false; warning = warning_of reply.error; error = none }, s)

unfoldable pub send_to :
    Engine
    → ℕ
    → Option ℕ
    → ℕ
    → Account
    → ℕ
    → Contact
    → Text
    → Session
    → Option Text
    → ExecResult × Session
unfolding proxy_of after_send
send_to engine clock agent_id account a contact c body s none =
    (record { ok = false; warning = none; error = some (codes "no_target") }, s)
send_to engine clock agent_id account a contact c body s (some target) =
    after_send clock agent_id account contact c body (record s { calls = suc s.calls })
      (engine.send_message s.calls account a (proxy_of a s) target body)

-- The executor takes the objects themselves: that the session does not hold one does not occur.
unfoldable pub with_objects :
    Engine
    → ℕ
    → Option ℕ
    → ℕ
    → ℕ
    → Text
    → Session
    → Option Account
    → Option Contact
    → ExecResult × Session
unfolding send_to
with_objects engine clock agent_id account contact body s (some a) (some c) =
    send_to engine clock agent_id account a contact c body s (send_identifier c)
with_objects engine clock agent_id account contact body s _ _ =
    (record { ok = false; warning = none; error = none }, s)

unfoldable pub build_executor : Engine → ℕ → Option ℕ → ExecuteFn
unfolding with_objects
build_executor engine clock agent_id account contact body s =
    with_objects engine clock agent_id account contact body s (get account s.accounts)
      (get contact s.contacts)
