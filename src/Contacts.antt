-- ===== src/Contacts.antt =====
-- Contact identifiers (backend/app/services/contacts.py and backend/app/db/models/contact.py).
pub mod Store
pub mod Import
pub mod Edit
use telegram_marketing_crm.Prelude.{
  ℕ, Bool, false, not, Option, none, some, [], ◌∷◌, ◌==◌, if◌then◌else◌, keep,
}
use telegram_marketing_crm.Prelude.Text.{
  mem_text, Text, codes, is_digit, lower, strip, strip_left, starts_with, show,
}
use telegram_marketing_crm.Models.Contact.{Contact}

-- `s or None`
abbrev pub or_none : Text → Option Text
or_none [] = none
or_none (c ∷ s) = some (c ∷ s)

plus : Text → Option Text
plus [] = none
plus (c ∷ digits) = some (b'+' ∷ c ∷ digits)

-- An empty text has no digits, so the early return on it changes nothing.
unfoldable pub normalize_phone : Option Text → Option Text
unfolding plus is_digit
normalize_phone none = none
normalize_phone (some value) = elim (strip value) [
  | [] ↦ none
  | c ∷ s ↦ plus (keep is_digit (c ∷ s))
]

unfoldable pub normalize_username : Option Text → Option Text
normalize_username none = none
normalize_username (some value) = or_none (lower (strip_left (λ c. c == b'@') (strip value)))

unfoldable pub parse_bool : Option Text → Bool
unfolding mem_text
parse_bool none = false
parse_bool (some value) =
    mem_text (lower (strip value))
      (codes "true" ∷ codes "1" ∷ codes "yes" ∷ codes "y" ∷ codes "t" ∷ [])

-- `if contact.telegram_user_id`
abbrev pub present_id : Option ℕ → Bool
present_id none = false
present_id (some k) = not (k == 0)

user_id_text : Option ℕ → Option Text
user_id_text none = none
user_id_text (some k) = if k == 0 then none else some (show k)

phone_target : Option Text → Option ℕ → Option Text
unfolding user_id_text
phone_target none user_id = user_id_text user_id
phone_target (some []) user_id = user_id_text user_id
phone_target (some (c ∷ s)) user_id =
    some (if starts_with (codes "+") (c ∷ s) then c ∷ s else b'+' ∷ c ∷ s)

username_target : Option Text → Option Text → Option ℕ → Option Text
unfolding phone_target
username_target none phone user_id = phone_target phone user_id
username_target (some []) phone user_id = phone_target phone user_id
username_target (some (c ∷ s)) phone user_id = some (b'@' ∷ c ∷ s)

unfoldable pub send_identifier : Contact → Option Text
unfolding username_target
send_identifier c = username_target c.username c.phone c.telegram_user_id

label_from : Option Text → Option Text → Option Text → ℕ → Text
label_from (some (c ∷ s)) username phone id = c ∷ s
label_from _ (some (c ∷ s)) phone id = b'@' ∷ c ∷ s
label_from _ _ (some (c ∷ s)) id = c ∷ s
label_from _ _ _ id = b'#' ∷ show id

-- `Contact.display_label`
unfoldable pub display_label : ℕ → Contact → Text
unfolding label_from
display_label id c = label_from c.name c.username c.phone id
