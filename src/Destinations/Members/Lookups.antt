-- ===== src/Destinations/Members/Lookups.antt =====
-- The lookups of typed identifiers leave the memberships as they are.
use telegram_marketing_crm.Prelude.{
  ℕ, ◌≡◌, refl, sym, ◌∙◌, ap, Option, none, some, List, [], ◌∷◌, Bool-cases, inl, inr,
}
use telegram_marketing_crm.Prelude.Text.{Text}
use telegram_marketing_crm.Db.{Table, flush, IsClean}
use telegram_marketing_crm.Models.Contact.{Contact}
use telegram_marketing_crm.Models.Destination.{GroupMembership}
use telegram_marketing_crm.Session.{Session, commit}
use telegram_marketing_crm.Destinations.{
  typed_contacts, find_or_create_contact, by_phone, by_username, found_or_new, strip,
  looks_like_phone, normalize_phone, normalize_username, by_identifier, cons_found, found_then,
}

-- A lookup, where it raises nothing, leaves the memberships as they are.
abbrev pub IsKept : {A : Type 0} → Session → Option (A × Session) → Type 0
IsKept s none = Unit
IsKept s (some (a, s')) = s'.memberships ≡ s.memberships

flush-IsClean : (t : Table GroupMembership) → IsClean t → flush t ≡ t
unfolding flush
flush-IsClean t clean = ap (λ rows. record t { rows = rows }) (sym clean)

found_or_new-IsKept :
    (c : Contact) (s : Session) (found : Option (Option ℕ))
    → IsClean s.memberships
    → IsKept s (found_or_new c s found)
unfolding found_or_new commit
found_or_new-IsKept c s none clean = tt
found_or_new-IsKept c s (some (some k)) clean = refl
found_or_new-IsKept c s (some none) clean = flush-IsClean s.memberships clean

by_phone-IsKept :
    (phone : Option Text) (s : Session) → IsClean s.memberships → IsKept s (by_phone phone s)
unfolding by_phone
by_phone-IsKept none s clean = refl
by_phone-IsKept (some phone) s clean = found_or_new-IsKept _ s _ clean

by_username-IsKept :
    (name : Option Text) (s : Session) → IsClean s.memberships → IsKept s (by_username name s)
unfolding by_username
by_username-IsKept none s clean = refl
by_username-IsKept (some name) s clean = found_or_new-IsKept _ s _ clean

by_identifier-IsKept :
    (ident : Text) (s : Session) → IsClean s.memberships → IsKept s (by_identifier ident s)
unfolding by_identifier
by_identifier-IsKept [] s clean = refl
by_identifier-IsKept (c ∷ ident) s clean = elim (Bool-cases (looks_like_phone (c ∷ ident))) [
  | inl phone ↦ rw phone (by_phone-IsKept (normalize_phone (some (c ∷ ident))) s clean)
  | inr name ↦ rw name (by_username-IsKept (normalize_username (some (c ∷ ident))) s clean)
]

cons_found-IsKept :
    (s : Session) (found : Option ℕ) (after : Option (List ℕ × Session))
    → IsKept s after
    → IsKept s (cons_found found after)
unfolding cons_found
cons_found-IsKept s found none h = tt
cons_found-IsKept s none (some (ks, s')) h = h
cons_found-IsKept s (some k) (some (ks, s')) h = h

IsKept-trans :
    (s t : Session) (r : Option (List ℕ × Session))
    → t.memberships ≡ s.memberships
    → IsKept t r
    → IsKept s r
IsKept-trans s t none e h = tt
IsKept-trans s t (some (ks, u)) e h = h ∙ e

found_then-IsKept :
    (s : Session) (after : Session → Option (List ℕ × Session))
    → ((t : Session) → IsClean t.memberships → IsKept t (after t))
    → (found : Option (Option ℕ × Session)) → IsClean s.memberships
    → IsKept s found
    → IsKept s (found_then after found)
unfolding found_then
found_then-IsKept s after keeps none clean h = tt
found_then-IsKept s after keeps (some (found, t)) clean h =
    cons_found-IsKept s found (after t) (IsKept-trans s t (after t) h (keeps t (rw h clean)))

-- The typed identifiers add contacts, and no membership.
pub typed_contacts-IsKept :
    (ts : List Text) (s : Session) → IsClean s.memberships → IsKept s (typed_contacts ts s)
unfolding typed_contacts find_or_create_contact
typed_contacts-IsKept [] s clean = refl
typed_contacts-IsKept (t ∷ ts) s clean =
    found_then-IsKept s (λ u. typed_contacts ts u) (λ u. typed_contacts-IsKept ts u)
      (find_or_create_contact t s) clean (by_identifier-IsKept (strip t) s clean)
