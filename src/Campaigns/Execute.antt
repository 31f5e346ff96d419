-- ===== src/Campaigns/Execute.antt =====
-- `_execute_target` of backend/app/services/campaigns.py: a message or an invitation through the
-- engine, and what the tick is told of it.
pub mod Quiet
use telegram_marketing_crm.Prelude.{
  ℕ, suc, Bool, true, false, ◌&&◌, ◌||◌, Option, none, some, [], ◌∷◌, ◌==◌, if◌then◌else◌,
}
use telegram_marketing_crm.Prelude.Text.{Text, codes, text_eq}
use telegram_marketing_crm.Db.{get, modify, add, select}
use telegram_marketing_crm.Models.Account.{Account}
use telegram_marketing_crm.Models.Contact.{Contact}
use telegram_marketing_crm.Models.Destination.{MembershipState}
use telegram_marketing_crm.Models.Campaign.{Template, CampaignAction, CampaignTarget, TargetResult}
use telegram_marketing_crm.Session.{Session}
use telegram_marketing_crm.Spintax.{Choices, spin}
use telegram_marketing_crm.Engine.{Engine, SendReply, AddReply}
use telegram_marketing_crm.Contacts.{send_identifier}
use telegram_marketing_crm.Sender.Tick.{with_link}
use telegram_marketing_crm.Sender.Executor.{proxy_of, land_in_inbox}

-- The link is held back from the first message to a contact.
unfoldable pub render_template : Template → Contact → Choices → Text
unfolding with_link
render_template template contact rng =
    let known : Bool = elim contact.last_contacted_at [ none ↦ false | some t ↦ true ] in
    with_link (template.include_link && known) template.link_url (spin template.body rng)

-- What `_execute_target` returns: a warning, or a result and its detail.
pub data TargetOutcome : Type 0 where
  warned : Text → TargetOutcome
  finished : TargetResult → Option Text → TargetOutcome

-- `_execute_target`, given the keys of the account, the target and the contact.
abbrev pub ExecuteFn : Type 0
ExecuteFn = ℕ → ℕ → ℕ → Session → TargetOutcome × Session

abbrev failed_with : Text → TargetOutcome
failed_with detail = TargetOutcome.finished TargetResult.failed (some detail)

-- `error in ("flood", "peerflood")`
unfoldable pub is_flood : Text → Bool
unfolding text_eq
is_flood error = text_eq error (codes "flood") || text_eq error (codes "peerflood")

refused : Option Text → TargetOutcome
unfolding is_flood
refused none = TargetOutcome.finished TargetResult.failed none
refused (some e) =
    if is_flood e
    then TargetOutcome.warned e
    else TargetOutcome.finished TargetResult.failed (some e)

after_message :
    ℕ → Option ℕ → ℕ → ℕ → Contact → Text → Session → Option SendReply → TargetOutcome × Session
unfolding refused
after_message clock agent a k c body s none = (TargetOutcome.warned (codes "engine_unavailable"), s)
after_message clock agent a k c body s (some reply) =
    if reply.sent
    then (TargetOutcome.finished TargetResult.sent none, land_in_inbox clock agent a k c body s)
    else (refused reply.error, s)

-- `_record_membership`; the database has no two memberships of a contact in a destination.
unfoldable pub record_membership : ℕ → ℕ → MembershipState → Option Text → ℕ → Session → Session
record_membership contact destination state method account s =
    elim (select (λ k r. r.contact_id == contact && r.destination_id == destination)
      s.memberships) [
        | [] ↦ record s {
          memberships =
              add
                (record {
                  contact_id = contact;
                  destination_id = destination;
                  state = state;
                  method = method;
                  account_id = some account;
                  error = none;
                })
                s.memberships;
        }
        | k ∷ ks ↦ record s {
          memberships =
              modify k (λ r. record r { state = state; method = method; account_id = some account })
                s.memberships;
        }
      ]

-- `result.get("detail") or "add failed"`
abbrev detail_or : Option Text → Text
detail_or none = codes "add failed"
detail_or (some []) = codes "add failed"
detail_or (some (c ∷ t)) = c ∷ t

member_state :
    ℕ
    → ℕ
    → ℕ
    → Option Text
    → Option Text
    → Option MembershipState
    → Session
    → TargetOutcome × Session
unfolding record_membership
member_state a k d method detail (some MembershipState.added) s = (
  TargetOutcome.finished TargetResult.joined none,
  record_membership k d MembershipState.added method a s,
)
member_state a k d method detail (some MembershipState.invited) s = (
  TargetOutcome.finished TargetResult.joined none,
  record_membership k d MembershipState.invited method a s,
)
member_state a k d method detail _ s = (failed_with (detail_or detail), s)

after_add : ℕ → ℕ → ℕ → Session → Option AddReply → TargetOutcome × Session
unfolding member_state is_flood
after_add a k d s none = (TargetOutcome.warned (codes "engine_unavailable"), s)
after_add a k d s (some reply) = elim reply.error [
  | none ↦ member_state a k d reply.method reply.detail reply.state s
  | some e ↦
      if is_flood e
      then (TargetOutcome.warned e, s)
      else member_state a k d reply.method reply.detail reply.state s
]

add_to : Engine → ℕ → Account → ℕ → ℕ → Text → Session → Option ℕ → TargetOutcome × Session
unfolding after_add
add_to engine a acc k d ident s none = (failed_with (codes "destination not resolved"), s)
add_to engine a acc k d ident s (some entity) =
    after_add a k d (record s { calls = suc s.calls })
      (engine.add_member s.calls a acc (proxy_of acc s) entity ident)

-- `await db.get(Template, target.template_id) if target.template_id else None`, rendered.
body_of : Option Template → Contact → Choices → Text
unfolding render_template
body_of none c rng = []
body_of (some template) c rng = render_template template c rng

abbrev template_of : Option ℕ → Session → Option Template
template_of none s = none
template_of (some k) s = get k s.templates

-- The key of the destination that the tick has, and its entity id where it is resolved.
abbrev pub Place : Type 0
Place = Option (ℕ × Option ℕ)

by_action :
    Engine
    → ℕ
    → Option ℕ
    → Choices
    → CampaignAction
    → Place
    → ℕ
    → Account
    → ℕ
    → Contact
    → Text
    → Option Template
    → Session
    → TargetOutcome × Session
unfolding after_message add_to body_of
by_action engine clock agent rng CampaignAction.message place a acc k c ident template s =
    let body = body_of template c rng in
    after_message clock agent a k c body (record s { calls = suc s.calls })
      (engine.send_message s.calls a acc (proxy_of acc s) ident body)
by_action engine clock agent rng action none a acc k c ident template s =
    (failed_with (codes "destination not resolved"), s)
by_action engine clock agent rng action (some (d, entity)) a acc k c ident template s =
    add_to engine a acc k d ident s entity

identified :
    Engine
    → ℕ
    → Option ℕ
    → Choices
    → CampaignAction
    → Place
    → ℕ
    → Account
    → ℕ
    → Contact
    → Option Template
    → Session
    → Option Text
    → TargetOutcome × Session
unfolding by_action
identified engine clock agent rng action place a acc k c template s none =
    (failed_with (codes "no reachable identifier"), s)
identified engine clock agent rng action place a acc k c template s (some ident) =
    by_action engine clock agent rng action place a acc k c ident template s

with_objects :
    Engine
    → ℕ
    → Option ℕ
    → (ℕ → Choices)
    → CampaignAction
    → Place
    → ℕ
    → ℕ
    → ℕ
    → Session
    → Option Account
    → Option CampaignTarget
    → Option Contact
    → TargetOutcome × Session
unfolding identified
with_objects engine clock agent rng action place a t k s (some acc) (some target) (some c) =
    identified engine clock agent (rng t) action place a acc k c (template_of target.template_id s)
      s (send_identifier c)
with_objects engine clock agent rng action place a t k s _ _ _ =
    (TargetOutcome.finished TargetResult.failed none, s)

-- `_execute_target`. It takes the objects: that the session does not hold one does not occur.
unfoldable pub execute_target :
    Engine → ℕ → Option ℕ → (ℕ → Choices) → CampaignAction → Place → ExecuteFn
unfolding with_objects
execute_target engine clock agent rng action place a t k s =
    with_objects engine clock agent rng action place a t k s (get a s.accounts)
      (get t s.campaign_targets) (get k s.contacts)
