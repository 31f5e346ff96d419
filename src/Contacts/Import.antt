-- ===== src/Contacts/Import.antt =====
-- The import of contacts (backend/app/services/contacts.py). A row is what the readers of CSV and
-- XLSX make of a line, each cell as text; a cell that is missing is `none`.
pub mod OptOut
use telegram_marketing_crm.Prelude.{
  ℕ, suc, Bool, true, false, Option, none, some, List, [], ◌∷◌, if◌then◌else◌, length,
}
use telegram_marketing_crm.Prelude.Text.{Text, strip, text_eq}
use telegram_marketing_crm.Db.{Table, get, modify, add}
use telegram_marketing_crm.Models.Contact.{Contact}
use telegram_marketing_crm.Session.{Session, commit}
use telegram_marketing_crm.Contacts.{normalize_phone, normalize_username, parse_bool, or_none}
use telegram_marketing_crm.Contacts.Store.{new_contact, lead_type_of}

pub record Row : Type 0 where
  pub name : Option Text
  pub phone : Option Text
  pub username : Option Text
  pub source : Option Text
  pub consent : Option Text

-- The dictionaries `by_phone` and `by_username`: the entry that was put last comes first.
abbrev pub Index : Type 0
Index = List (Text × ℕ)

unfoldable pub lookup : Text → Index → Option ℕ
unfolding text_eq
lookup key [] = none
lookup key ((k, contact) ∷ l) = if text_eq k key then some contact else lookup key l

-- `if key: index[key] = contact`
unfoldable pub put : Option Text → ℕ → Index → Index
put none contact l = l
put (some []) contact l = l
put (some (c ∷ key)) contact l = (c ∷ key, contact) ∷ l

index_of : (Contact → Option Text) → List (ℕ × Contact) → Index → Index
unfolding put
index_of field [] l = l
index_of field ((k, c) ∷ rows) l = index_of field rows (put (field c) k l)

-- `skipped_duplicates` and, on rows of text, `errors` are 0.
pub record Counts : Type 0 where
  pub imported : ℕ
  pub updated : ℕ
  pub rejected : ℕ
  pub invalid : ℕ

abbrev pub no_rows : Counts
no_rows = record { imported = 0; updated = 0; rejected = 0; invalid = 0 }

-- Where the loop stands.
pub record Progress : Type 0 where
  pub counts : Counts
  pub by_phone : Index
  pub by_username : Index
  pub contacts : Table Contact

-- `str(value).strip() if value else ""`, or None.
stripped : Option Text → Option Text
unfolding strip
stripped none = none
stripped (some value) = or_none (strip value)

-- `if value: attribute = value`
new_or_kept : Option Text → Option Text → Option Text
new_or_kept none kept = kept
new_or_kept (some value) kept = some value

unfoldable pub refreshed : Option Text → Option Text → Option Text → Option Text → Contact → Contact
unfolding new_or_kept lead_type_of
refreshed name phone username source c = record c {
  name = new_or_kept name c.name;
  phone = new_or_kept phone c.phone;
  username = new_or_kept username c.username;
  source = new_or_kept source c.source;
  consent = true;
  lead_type = lead_type_of (new_or_kept phone c.phone);
}

-- The contact of an index is an object of the session.
entered : (Contact → Option Text) → ℕ → Table Contact → Index → Index
unfolding put
entered field k t l = elim (get k t) [ none ↦ l | some c ↦ put (field c) k l ]

update_row : Option Text → Option Text → Option Text → Option Text → ℕ → Progress → Progress
unfolding refreshed entered
update_row name phone username source k p =
    let t = modify k (refreshed name phone username source) p.contacts in
    record {
      counts = record (p.counts) { updated = suc p.counts.updated };
      by_phone = entered (λ c. c.phone) k t p.by_phone;
      by_username = entered (λ c. c.username) k t p.by_username;
      contacts = t;
    }

insert_row : Option Text → Option Text → Option Text → Option Text → Progress → Progress
unfolding put new_contact
insert_row name phone username source p = record {
  counts = record (p.counts) { imported = suc p.counts.imported };
  by_phone = put phone p.contacts.next p.by_phone;
  by_username = put username p.contacts.next p.by_username;
  contacts = add (new_contact name phone username source true [] none) p.contacts;
}

lookup_in : Option Text → Index → Option ℕ
unfolding lookup
lookup_in none l = none
lookup_in (some key) l = lookup key l

phone_or_username : Option ℕ → Option ℕ → Option ℕ
phone_or_username none k = k
phone_or_username (some j) k = some j

write_row : Option Text → Option Text → Option Text → Option Text → Progress → Option ℕ → Progress
unfolding update_row insert_row
write_row name phone username source p (some k) = update_row name phone username source k p
write_row name phone username source p none = insert_row name phone username source p

consenting_row : Option Text → Option Text → Option Text → Option Text → Bool → Progress → Progress
unfolding write_row lookup_in phone_or_username
consenting_row name phone username source false p = record p {
  counts = record (p.counts) { rejected = suc p.counts.rejected };
}
consenting_row name phone username source true p =
    write_row name phone username source p
      (phone_or_username (lookup_in phone p.by_phone) (lookup_in username p.by_username))

identified_row : Option Text → Option Text → Option Text → Option Text → Bool → Progress → Progress
unfolding consenting_row
identified_row name none none source consent p = record p {
  counts = record (p.counts) { invalid = suc p.counts.invalid };
}
identified_row name none (some username) source consent p =
    consenting_row name none (some username) source consent p
identified_row name (some phone) username source consent p =
    consenting_row name (some phone) username source consent p

unfoldable pub import_row : Row → Progress → Progress
unfolding identified_row stripped normalize_phone normalize_username parse_bool
import_row row p =
    identified_row (stripped row.name) (normalize_phone row.phone) (normalize_username row.username)
      (stripped row.source) (parse_bool row.consent) p

unfoldable pub import_rows : List Row → Progress → Progress
unfolding import_row
import_rows [] p = p
import_rows (row ∷ rows) p = import_rows rows (import_row row p)

unfoldable pub import_start : Session → Progress
unfolding index_of
import_start s = record {
  counts = no_rows;
  by_phone = index_of (λ c. c.phone) s.contacts.rows [];
  by_username = index_of (λ c. c.username) s.contacts.rows [];
  contacts = s.contacts;
}

-- The counts, `total` and the session.
unfoldable pub import_contacts : List Row → Session → Counts × ℕ × Session
unfolding import_rows import_start
import_contacts rows s =
    let p = import_rows rows (import_start s) in
    let s' = commit (record s { contacts = p.contacts }) in (p.counts, length s'.contacts.rows, s')
