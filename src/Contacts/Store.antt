-- ===== src/Contacts/Store.antt =====
-- The contacts in the database (backend/app/services/contacts.py): conflicts, creation, and changes
-- in bulk. A contact's phone and username are unique.
pub mod Unique
use telegram_marketing_crm.OnDelete.{contact_deleted}
use telegram_marketing_crm.Prelude.{
  ℕ, suc, Bool, true, false, ◌&&◌, not, Option, none, some, List, [], ◌∷◌, ◌==◌, if◌then◌else◌,
  length, ◌⊎◌, inl, inr,
}
use telegram_marketing_crm.Prelude.Text.{Text, option_text_eq}
use telegram_marketing_crm.Db.{get, modify, add, delete, select}
use telegram_marketing_crm.Models.Contact.{Contact, LeadType, ResolutionStatus, ContactStage}
use telegram_marketing_crm.Session.{Session, commit}
use telegram_marketing_crm.Contacts.{normalize_phone, normalize_username}

-- The message of DuplicateContact, or the field that `find_conflict` names.
pub data Conflict : Type 0 where
  phone_taken username_taken : Conflict

other_than : Option ℕ → ℕ → Bool
other_than none k = true
other_than (some x) k = not (k == x)

-- Whether a contact other than the excluded one has the value; an empty value is never taken.
unfoldable pub taken : (Contact → Option Text) → Option Text → Option ℕ → Session → Bool
unfolding other_than option_text_eq
taken field none exclude s = false
taken field (some []) exclude s = false
taken field (some (c ∷ v)) exclude s = not (
    length (select (λ k r. option_text_eq (field r) (c ∷ v) && other_than exclude k) s.contacts)
    == 0)

abbrev pub phone_of : Contact → Option Text
phone_of c = c.phone

abbrev pub username_of : Contact → Option Text
username_of c = c.username

unfoldable pub find_conflict : Option Text → Option Text → Option ℕ → Session → Option Conflict
unfolding taken
find_conflict phone username exclude s =
    if taken phone_of phone exclude s
    then some Conflict.phone_taken
    else if taken username_of username exclude s
    then some Conflict.username_taken
    else none

unfoldable pub lead_type_of : Option Text → LeadType
lead_type_of none = LeadType.username
lead_type_of (some []) = LeadType.username
lead_type_of (some (c ∷ v)) = LeadType.phone

unfoldable pub new_contact :
    Option Text → Option Text → Option Text → Option Text → Bool → List Text → Option Text → Contact
unfolding lead_type_of
new_contact name phone username source consent tags notes = record {
  name = name;
  lead_type = lead_type_of phone;
  phone = phone;
  username = username;
  telegram_user_id = none;
  resolution_status = ResolutionStatus.pending;
  source = source;
  notes = notes;
  stage = ContactStage.new;
  consent = consent;
  opted_out = false;
  assigned_account_id = none;
  assigned_agent_id = none;
  utm = [];
  tags = tags;
  last_contacted_at = none;
}

unfoldable pub insert_contact : Contact → Session → Option Conflict → Conflict ⊎ (ℕ × Session)
insert_contact c s (some conflict) = inl conflict
insert_contact c s none = inr (s.contacts.next, commit (record s { contacts = add c s.contacts }))

-- The key of the contact that is made, or the conflict that is raised.
unfoldable pub create_contact :
    Option Text
    → Option Text
    → Option Text
    → Option Text
    → Bool
    → List Text
    → Option Text
    → Session
    → Conflict ⊎ (ℕ × Session)
unfolding insert_contact find_conflict
create_contact name phone username source consent tags notes s =
    insert_contact
      (new_contact name (normalize_phone phone) (normalize_username username) source consent tags
        notes)
      s (find_conflict (normalize_phone phone) (normalize_username username) none s)

-- The loop of the changes in bulk: the number of contacts that are there, and the session.
unfoldable pub change_each : (Contact → Contact) → List ℕ → Session → ℕ × Session
change_each f [] s = (0, s)
change_each f (k ∷ ks) s = elim (get k s.contacts) [
  | none ↦ change_each f ks s
  | some c ↦
      let rest = change_each f ks (record s { contacts = modify k f s.contacts }) in
      (suc rest.0, rest.1)
]

unfoldable pub give_consent : Bool → Contact → Contact
give_consent consent c = record c {
  consent = consent;
  opted_out = if consent then false else c.opted_out;
}

unfoldable pub bulk_set_consent : List ℕ → Bool → Session → ℕ × Session
unfolding change_each give_consent
bulk_set_consent contact_ids consent s =
    let (count, s') = change_each (give_consent consent) contact_ids s in (count, commit s')

unfoldable pub bulk_unresolve : List ℕ → Session → ℕ × Session
unfolding change_each
bulk_unresolve contact_ids s =
    let (count, s') =
      change_each
        (λ c. record c { resolution_status = ResolutionStatus.pending; telegram_user_id = none })
        contact_ids s in
    (count, commit s')

unfoldable pub delete_contact : ℕ → Session → Session
unfolding contact_deleted
delete_contact contact s =
    contact_deleted contact (commit (record s { contacts = delete contact s.contacts }))
