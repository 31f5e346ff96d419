-- ===== src/Tests/Import.antt =====
-- A run of the import of contacts.
use telegram_marketing_crm.Db.{modify, get}
use telegram_marketing_crm.Prelude.{◌≡◌, refl, none, some, List, [], ◌∷◌, ◌+◌, length, Option}
use telegram_marketing_crm.Prelude.Text.{Text, codes, strip, strip_left, lower}
use telegram_marketing_crm.Contacts.{normalize_phone, normalize_username, parse_bool}
use telegram_marketing_crm.Contacts.Import.{Row, import_contacts}
use telegram_marketing_crm.Contacts.Import.OptOut.{KeepsOptOut, import_contacts-KeepsOptOut}
use telegram_marketing_crm.Tests.Data.{two_queued}

abbrev row_of : Option Text → Option Text → Option Text → Row
row_of phone username consent = record {
  name = some (codes " Ann ");
  phone = phone;
  username = username;
  source = none;
  consent = consent;
}

-- A contact that is there, a new one twice, one without consent and one without an identifier.
abbrev pasted_rows : List Row
pasted_rows =
    row_of none (some (codes "@Lead")) (some (codes "yes"))
    ∷ row_of (some (codes "+49 15")) none (some (codes "TRUE"))
    ∷ row_of (some (codes "49-15")) (some (codes "ann")) (some (codes "1"))
    ∷ row_of (some (codes "+49 16")) none none
    ∷ row_of none (some (codes "@")) (some (codes "y"))
    ∷ []

import_contacts-KeepsOptOut_example :
    let r = import_contacts pasted_rows two_queued in
    KeepsOptOut two_queued.contacts r.2.contacts
    × (r.0.imported + (r.0.updated + (r.0.rejected + r.0.invalid)) ≡ length pasted_rows)
    × (r.1 ≡ length two_queued.contacts.objects + r.0.imported)
import_contacts-KeepsOptOut_example = import_contacts-KeepsOptOut pasted_rows two_queued

pasted-counts :
    (import_contacts pasted_rows two_queued).0
    ≡ record { imported = 1; updated = 2; rejected = 1; invalid = 1 }
unfolding import_contacts normalize_phone normalize_username parse_bool strip strip_left lower get
    modify
pasted-counts = refl
