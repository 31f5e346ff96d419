-- ===== src/Campaigns/Execute/Quiet.antt =====
-- What `_execute_target` of backend/app/services/campaigns.py leaves alone.
use telegram_marketing_crm.Prelude.{
  ℕ, suc, ◌≡◌, ◌⊎◌, ◌==◌, ◌&&◌, refl, Bool-cases, Option-cases, inl, inr, Option, none, some, [],
  ◌∷◌, List,
}
use telegram_marketing_crm.Prelude.Text.{Text}
use telegram_marketing_crm.Db.{get, select}
use telegram_marketing_crm.Models.Account.{Account}
use telegram_marketing_crm.Models.Contact.{Contact}
use telegram_marketing_crm.Models.Destination.{MembershipState}
use telegram_marketing_crm.Models.Campaign.{Template, CampaignAction, CampaignTarget}
use telegram_marketing_crm.Session.{Session}
use telegram_marketing_crm.Spintax.{Choices}
use telegram_marketing_crm.Engine.{Engine, SendReply, AddReply}
use telegram_marketing_crm.Contacts.{send_identifier}
use telegram_marketing_crm.Sender.Executor.{proxy_of}
use telegram_marketing_crm.Sender.Quiet.{land_in_inbox-same}
use telegram_marketing_crm.Campaigns.Execute.{
  ExecuteFn, after_message, record_membership, member_state, after_add, add_to, by_action,
  identified, with_objects, execute_target, Place, template_of, body_of, is_flood,
}

-- The accounts hold what they held.
abbrev pub SameAccounts : Session → Session → Type 0
SameAccounts s s' = s'.accounts.objects ≡ s.accounts.objects

-- The executor leaves the accounts alone, and may commit.
pub record KeepsAccounts (execute : ExecuteFn) : Type 0 where
  pub same : (a t c : ℕ) (s : Session) → SameAccounts s (execute a t c s).1

after_message-same :
    (clock : ℕ) (agent : Option ℕ) (a k : ℕ) (c : Contact) (body : Text) (s : Session)
    (o : Option SendReply)
    → SameAccounts s (after_message clock agent a k c body s o).1
unfolding after_message
after_message-same clock agent a k c body s none = refl
after_message-same clock agent a k c body s (some reply) = elim (Bool-cases reply.sent) [
  | inl sent ↦ rw sent (land_in_inbox-same clock agent a k c body s).0.accounts
  | inr refused ↦ rw refused refl
]

record_membership-same :
    (contact destination : ℕ) (state : MembershipState) (method : Option Text) (account : ℕ)
    (s : Session)
    → SameAccounts s (record_membership contact destination state method account s)
unfolding record_membership
record_membership-same contact destination state method account s =
    elim (List-cases
      (select (λ k r. r.contact_id == contact && r.destination_id == destination) s.memberships)) [
        | inl fresh ↦ rw (fresh, record_membership) refl
        | inr (k, ks, found) ↦ rw (found, record_membership) refl
      ]
  where
    List-cases : (l : List ℕ) → (l ≡ []) ⊎ ((k : ℕ) × (ks : List ℕ) × (l ≡ k ∷ ks))
    List-cases [] = inl refl
    List-cases (k ∷ ks) = inr (k, ks, refl)

member_state-same :
    (a k d : ℕ) (method detail : Option Text) (state : Option MembershipState) (s : Session)
    → SameAccounts s (member_state a k d method detail state s).1
unfolding member_state
member_state-same a k d method detail none s = refl
member_state-same a k d method detail (some MembershipState.added) s =
    record_membership-same k d MembershipState.added method a s
member_state-same a k d method detail (some MembershipState.invited) s =
    record_membership-same k d MembershipState.invited method a s
member_state-same a k d method detail (some MembershipState.pending) s = refl
member_state-same a k d method detail (some MembershipState.joined) s = refl
member_state-same a k d method detail (some MembershipState.failed) s = refl

after_add-same :
    (a k d : ℕ) (s : Session) (o : Option AddReply) → SameAccounts s (after_add a k d s o).1
unfolding after_add
after_add-same a k d s none = refl
after_add-same a k d s (some reply) = elim (Option-cases reply.error) [
  | inl missing ↦ rw missing (member_state-same a k d reply.method reply.detail reply.state s)
  | inr (e, given) ↦ elim (Bool-cases (is_flood e)) [
    | inl flood ↦ rw (given, flood) refl
    | inr other ↦
        rw (given, other) (member_state-same a k d reply.method reply.detail reply.state s)
  ]
]

add_to-same :
    (engine : Engine) (a : ℕ) (acc : Account) (k d : ℕ) (ident : Text) (s : Session)
    (entity : Option ℕ)
    → SameAccounts s (add_to engine a acc k d ident s entity).1
unfolding add_to
add_to-same engine a acc k d ident s none = refl
add_to-same engine a acc k d ident s (some entity) =
    after_add-same a k d (record s { calls = suc s.calls })
      (engine.add_member s.calls a acc (proxy_of acc s) entity ident)

add_at-same :
    (engine : Engine) (clock : ℕ) (agent : Option ℕ) (rng : Choices) (action : CampaignAction)
    (place : Place) (a : ℕ) (acc : Account) (k : ℕ) (c : Contact) (ident : Text)
    (template : Option Template) (s : Session)
    → SameAccounts s (by_action engine clock agent rng action place a acc k c ident template s).1
unfolding by_action
add_at-same engine clock agent rng CampaignAction.message place a acc k c ident template s =
    let body = body_of template c rng in
    after_message-same clock agent a k c body (record s { calls = suc s.calls })
      (engine.send_message s.calls a acc (proxy_of acc s) ident body)
add_at-same engine clock agent rng action none a acc k c ident template s = refl
add_at-same engine clock agent rng action (some (d, entity)) a acc k c ident template s =
    add_to-same engine a acc k d ident s entity

identified-same :
    (engine : Engine) (clock : ℕ) (agent : Option ℕ) (rng : Choices) (action : CampaignAction)
    (place : Place) (a : ℕ) (acc : Account) (k : ℕ) (c : Contact) (template : Option Template)
    (s : Session) (ident : Option Text)
    → SameAccounts s (identified engine clock agent rng action place a acc k c template s ident).1
unfolding identified
identified-same engine clock agent rng action place a acc k c template s none = refl
identified-same engine clock agent rng action place a acc k c template s (some ident) =
    add_at-same engine clock agent rng action place a acc k c ident template s

with_objects-same :
    (engine : Engine) (clock : ℕ) (agent : Option ℕ) (rng : ℕ → Choices) (action : CampaignAction)
    (place : Place) (a t k : ℕ) (s : Session) (oa : Option Account) (ot : Option CampaignTarget)
    (oc : Option Contact)
    → SameAccounts s (with_objects engine clock agent rng action place a t k s oa ot oc).1
unfolding with_objects
with_objects-same engine clock agent rng action place a t k s (some acc) (some target) (some c) =
    identified-same engine clock agent (rng t) action place a acc k c
      (template_of target.template_id s) s (send_identifier c)
with_objects-same engine clock agent rng action place a t k s none ot oc = refl
with_objects-same engine clock agent rng action place a t k s (some acc) none oc = refl
with_objects-same engine clock agent rng action place a t k s (some acc) (some target) none = refl

pub execute_target-KeepsAccounts :
    (engine : Engine) (clock : ℕ) (agent : Option ℕ) (rng : ℕ → Choices) (action : CampaignAction)
    (place : Place)
    → KeepsAccounts (execute_target engine clock agent rng action place)
unfolding execute_target
execute_target-KeepsAccounts engine clock agent rng action place = record {
  same = λ a t k s.
      with_objects-same engine clock agent rng action place a t k s (get a s.accounts)
        (get t s.campaign_targets) (get k s.contacts);
}
