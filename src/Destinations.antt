-- ===== src/Destinations.antt =====
-- Destinations and the members that are queued for them (backend/app/services/destinations.py). The
-- tick that adds them is in Destinations/Tick.antt.
pub mod Tick
pub mod Members
use telegram_marketing_crm.Prelude.{
  ℕ, suc, Bool, true, false, ◌&&◌, ◌||◌, not, Option, none, some, List, [], ◌∷◌, ◌++◌, ◌==◌,
  if◌then◌else◌, length, keep, head?,
}
use telegram_marketing_crm.Prelude.Keys.{mem}
use telegram_marketing_crm.Prelude.Text.{Text, codes, strip, starts_with, is_digit, option_text_eq}
use telegram_marketing_crm.Db.{Table, get, add, select, attributes_of}
use telegram_marketing_crm.Models.Account.{Account}
use telegram_marketing_crm.Models.Contact.{Contact, LeadType, ResolutionStatus, ContactStage}
use telegram_marketing_crm.Models.Destination.{
  Destination, DestinationType, GroupMembership, MembershipState, in_destination,
}
use telegram_marketing_crm.Session.{Session, commit}
use telegram_marketing_crm.Engine.{Engine, DestinationReply}
use telegram_marketing_crm.Contacts.{normalize_phone, normalize_username}
use telegram_marketing_crm.Inbox.{one_or_none}
use telegram_marketing_crm.Sender.Pool.{eligible_accounts}
use telegram_marketing_crm.Sender.Executor.{proxy_of}

unfoldable pub resolver_account : Session → Option ℕ
unfolding eligible_accounts
resolver_account s = head? (eligible_accounts s)

abbrev unresolved : Text → Destination
unresolved link = record {
  title = none;
  link = link;
  tg_entity_id = none;
  destination_type = DestinationType.unknown;
  invite_link = none;
  added_via = none;
}

type_or_unknown : Option DestinationType → DestinationType
type_or_unknown none = DestinationType.unknown
type_or_unknown (some t) = t

-- The new destination, after the engine's answer; `none` is EngineUnavailable.
resolved_by : ℕ → Text → Option DestinationReply → Destination
unfolding type_or_unknown
resolved_by account link none = unresolved link
resolved_by account link (some reply) = record (unresolved link) {
  title = reply.title;
  tg_entity_id = reply.tg_entity_id;
  destination_type = type_or_unknown reply.destination_type;
  added_via = some account;
}

add_destination : Destination → Session → ℕ × Session
add_destination d s =
    (s.destinations.next, commit (record s { destinations = add d s.destinations }))

register_by : Engine → Text → Session → Option ℕ → Option Account → ℕ × Session
unfolding add_destination resolved_by proxy_of
register_by engine link s (some a) (some acc) =
    add_destination
      (resolved_by a link (engine.resolve_destination s.calls a acc (proxy_of acc s) link))
      (record s { calls = suc s.calls })
register_by engine link s _ _ = add_destination (unresolved link) s

account_at : Option ℕ → Session → Option Account
account_at none s = none
account_at (some k) s = get k s.accounts

unfoldable pub register_destination : Engine → Text → Session → ℕ × Session
unfolding register_by resolver_account account_at
register_destination engine link s =
    register_by engine link s (resolver_account s) (account_at (resolver_account s) s)

unfoldable pub get_memberships : ℕ → Session → List ℕ
get_memberships destination s = select (λ k r. r.destination_id == destination) s.memberships

-- The destinations of a contact, as the database has them.
unfoldable pub destination_ids : ℕ → List (ℕ × GroupMembership) → List ℕ
destination_ids contact [] = []
destination_ids contact ((k, r) ∷ l) =
    let rest = destination_ids contact l in
    if r.contact_id == contact && in_destination r.state then r.destination_id ∷ rest else rest

unfoldable pub contact_destination_ids : ℕ → Session → List ℕ
unfolding destination_ids
contact_destination_ids contact s = destination_ids contact s.memberships.rows

-- The contact that a typed identifier makes.
abbrev pub typed_contact : LeadType → Option Text → Option Text → Contact
typed_contact lead_type phone username = record {
  name = none;
  lead_type = lead_type;
  phone = phone;
  username = username;
  telegram_user_id = none;
  resolution_status = ResolutionStatus.pending;
  source = some (codes "add_members");
  notes = none;
  stage = ContactStage.new;
  consent = true;
  opted_out = false;
  assigned_account_id = none;
  assigned_agent_id = none;
  utm = [];
  tags = [];
  last_contacted_at = none;
}

all_digits : Text → Bool
unfolding is_digit
all_digits [] = true
all_digits (c ∷ s) = is_digit c && all_digits s

-- `ident.startswith("+") or ident.replace("+", "").isdigit()`
unfoldable pub looks_like_phone : Text → Bool
unfolding starts_with all_digits
looks_like_phone ident =
    let bare = keep (λ c. not (c == b'+')) ident in
    starts_with (codes "+") ident || (not (length bare == 0) && all_digits bare)

-- What the lookup found: the exception of `scalar_one_or_none`, nothing, or a contact.
found_or_new : Contact → Session → Option (Option ℕ) → Option (Option ℕ × Session)
found_or_new c s none = none
found_or_new c s (some (some k)) = some (some k, s)
found_or_new c s (some none) =
    some (some s.contacts.next, commit (record s { contacts = add c s.contacts }))

by_phone : Option Text → Session → Option (Option ℕ × Session)
unfolding found_or_new
by_phone none s = some (none, s)
by_phone (some phone) s =
    found_or_new (typed_contact LeadType.phone (some phone) none) s
      (one_or_none (select (λ k r. option_text_eq r.phone phone) s.contacts))

by_username : Option Text → Session → Option (Option ℕ × Session)
unfolding found_or_new
by_username none s = some (none, s)
by_username (some username) s =
    found_or_new (typed_contact LeadType.username none (some username)) s
      (one_or_none (select (λ k r. option_text_eq r.username username) s.contacts))

by_identifier : Text → Session → Option (Option ℕ × Session)
unfolding by_phone by_username looks_like_phone normalize_phone normalize_username
by_identifier [] s = some (none, s)
by_identifier (c ∷ ident) s =
    if looks_like_phone (c ∷ ident)
    then by_phone (normalize_phone (some (c ∷ ident))) s
    else by_username (normalize_username (some (c ∷ ident))) s

-- `none` is the exception of a lookup that finds two contacts.
unfoldable pub find_or_create_contact : Text → Session → Option (Option ℕ × Session)
unfolding by_identifier strip
find_or_create_contact identifier s = by_identifier (strip identifier) s

cons_found : Option ℕ → Option (List ℕ × Session) → Option (List ℕ × Session)
cons_found found none = none
cons_found none (some (ks, s)) = some (ks, s)
cons_found (some k) (some (ks, s)) = some (k ∷ ks, s)

-- A turn of the loop: `after` is the rest of it.
found_then :
    (Session → Option (List ℕ × Session)) → Option (Option ℕ × Session) → Option (List ℕ × Session)
unfolding cons_found
found_then after none = none
found_then after (some (found, s)) = cons_found found (after s)

-- The loop over the typed identifiers.
unfoldable pub typed_contacts : List Text → Session → Option (List ℕ × Session)
unfolding found_then
typed_contacts [] s = some ([], s)
typed_contacts (t ∷ ts) s = found_then (λ s'. typed_contacts ts s') (find_or_create_contact t s)

unfoldable pub consenting : List ℕ → Session → List ℕ
consenting [] s = []
consenting (k ∷ ks) s = select (λ i c. mem i (k ∷ ks) && (c.consent && not c.opted_out)) s.contacts

abbrev pub pending_membership : ℕ → ℕ → GroupMembership
pending_membership destination contact = record {
  contact_id = contact;
  destination_id = destination;
  state = MembershipState.pending;
  method = none;
  account_id = none;
  error = none;
}

-- The loop that queues: how many are queued, how many skipped, and the table. `known` holds the
-- contacts that are there and those seen.
unfoldable pub queue_members :
    ℕ → List ℕ → List ℕ → Table GroupMembership → ℕ × ℕ × Table GroupMembership
queue_members destination known [] t = (0, 0, t)
queue_members destination known (c ∷ cs) t = elim (mem c known) [
  | true ↦ let rest = queue_members destination known cs t in (rest.0, suc rest.1, rest.2)
  | false ↦
      let rest =
        queue_members destination (c ∷ known) cs (add (pending_membership destination c) t) in
      (suc rest.0, rest.1, rest.2)
]

queue_all : ℕ → List ℕ → Session → ℕ × ℕ × Session
unfolding queue_members attributes_of get_memberships
queue_all destination contacts s =
    let known = attributes_of (λ r. r.contact_id) (get_memberships destination s) s.memberships in
    let r = queue_members destination known contacts s.memberships in
    (r.0, r.1, commit (record s { memberships = r.2 }))

queue_typed : ℕ → List ℕ → Option (List ℕ × Session) → Option (ℕ × ℕ × Session)
unfolding queue_all
queue_typed destination chosen none = none
queue_typed destination chosen (some (typed, s)) = some (queue_all destination (chosen ++ typed) s)

-- `queued`, `skipped_existing` and the session; `none` is the exception of a lookup.
unfoldable pub add_members : ℕ → List ℕ → List Text → Session → Option (ℕ × ℕ × Session)
unfolding queue_typed typed_contacts consenting
add_members destination contact_ids identifiers s =
    queue_typed destination (consenting contact_ids s) (typed_contacts identifiers s)
