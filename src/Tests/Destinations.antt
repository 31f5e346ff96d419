-- ===== src/Tests/Destinations.antt =====
-- Runs of the destinations' services.
use telegram_marketing_crm.Db.{get}
use telegram_marketing_crm.Pacing.{rotate}
use telegram_marketing_crm.Sender.Pool.{ready, usable_of, eligible_accounts}
use telegram_marketing_crm.Models.Destination.{DestinationType, MembershipState}
use telegram_marketing_crm.Tests.Sender.{engine, accounts-Capped}
use telegram_marketing_crm.Destinations.Tick.{run_add_tick, build_add_executor}
use telegram_marketing_crm.Sender.Caps.{Capped}
use telegram_marketing_crm.Db.{add, select}
use telegram_marketing_crm.Models.Contact.{LeadType}
use mathlib.Core.Option
use telegram_marketing_crm.Destinations.Tick.Caps.{run_add_tick-Capped}
use telegram_marketing_crm.Prelude.{ℕ, ◌≡◌, refl, some, none, List, [], ◌∷◌, ◌++◌}
use telegram_marketing_crm.Prelude.Text.{lower, option_text_eq, codes, Text}
use telegram_marketing_crm.Session.{Session, commit}
use telegram_marketing_crm.Destinations.{
  find_or_create_contact, add_members, typed_contacts, pending_membership, typed_contact,
}
use telegram_marketing_crm.Destinations.Members.{add_members_unique, members_of, IsQueued, IsChoice}
use telegram_marketing_crm.Tests.Data.{two_queued, table_of}

-- Destination 5 has contact 2 as a member.
abbrev one_member : Session
one_member = record two_queued { memberships = table_of ((9, pending_membership 5 2) ∷ []) }

abbrev typed : List Text
typed = codes "@New" ∷ codes " " ∷ codes " new" ∷ []

-- The typed name makes one contact, with key 100.
abbrev with_new : Session
unfolding commit add
with_new = commit (record one_member {
  contacts = add (typed_contact LeadType.username none (some (codes "new"))) one_member.contacts;
})

typed-found : typed_contacts typed one_member ≡ some (100 ∷ 100 ∷ [], with_new)
unfolding typed_contacts find_or_create_contact lower select option_text_eq commit add
typed-found = refl

-- Contact 1 and the new one are queued, contact 2 has opted out, and the second mention of the new
-- contact is skipped.
add_members_unique_example :
    (r : ℕ × ℕ × Session) × (add_members 5 (1 ∷ 2 ∷ []) typed one_member ≡ some r)
    × (chosen : List ℕ) × IsChoice (1 ∷ 2 ∷ []) one_member chosen
    × IsQueued 5
        (chosen ++ (100 ∷ 100 ∷ []))
        (members_of 5 one_member.memberships.objects)
        (r.0, r.1, r.2.memberships)
add_members_unique_example =
    add_members_unique 5 (1 ∷ 2 ∷ []) typed one_member (100 ∷ 100 ∷ []) with_new refl (refl, tt)
      (refl, (refl, (refl, tt))) (refl, tt) typed-found

add_members-counts :
    Option.map {B = ℕ × ℕ}
      (λ (r : ℕ × ℕ × Session). (r.0, r.1))
      (add_members 5 (1 ∷ 2 ∷ []) typed one_member)
    ≡ some (2, 1)
unfolding add_members find_or_create_contact lower select option_text_eq commit add
add_members-counts = refl

-- Group 5 is resolved, and contact 1 waits to be added to it.
abbrev with_group : Session
with_group = record two_queued {
  destinations = table_of (
      (
        5,
        record {
          title = none;
          link = codes "@group";
          tg_entity_id = some 77;
          destination_type = DestinationType.group;
          invite_link = none;
          added_via = none;
        },
      )
      ∷ []);
  memberships = table_of ((9, pending_membership 5 1) ∷ []);
}

run_add_tick-Capped_example :
    Capped (run_add_tick (build_add_executor engine) 0 60 5 with_group).1.accounts
run_add_tick-Capped_example =
    run_add_tick-Capped engine 0 60 5 with_group (refl, (refl, tt)) accounts-Capped

run_add_tick-actions :
    (run_add_tick (build_add_executor engine) 0 60 5 with_group).0.actions
    ≡ (1, 1, MembershipState.failed) ∷ []
unfolding run_add_tick get usable_of eligible_accounts select ready rotate build_add_executor
run_add_tick-actions = refl
