-- ===== src/Tests/Contacts.antt =====
-- A contact is created beside one that is there.
use telegram_marketing_crm.Contacts.{normalize_username, normalize_phone}
use telegram_marketing_crm.Prelude.{
  ℕ, ◌≡◌, refl, none, some, true, false, [], ◌∷◌, sym, ◌∙◌, inl, inr, arith, ==_iff, Option,
}
use telegram_marketing_crm.Prelude.Text.{strip_left, lower, strip, Text, codes}
use telegram_marketing_crm.Db.{select, find, add}
use telegram_marketing_crm.Models.Contact.{Contact}
use telegram_marketing_crm.Session.{Session, commit}
use telegram_marketing_crm.Tests.Data.{two_queued, lead, table_of}
use telegram_marketing_crm.Contacts.Store.{
  create_contact, new_contact, phone_of, username_of, Conflict,
}
use telegram_marketing_crm.Contacts.Store.Unique.{UniqueIn, create_contact-UniqueIn}

abbrev one_lead : Session
one_lead = record two_queued { contacts = table_of ((1, lead false) ∷ []) }

abbrev with_second : Session
with_second = commit (record one_lead {
  contacts =
      add (new_contact none (some (codes "+4915")) (some (codes "second")) none true [] none)
        one_lead.contacts;
})

creates_second :
    create_contact none (some (codes "+49 15")) (some (codes "@Second")) none true [] none one_lead
    ≡ inr (100, with_second)
unfolding create_contact normalize_phone strip select normalize_username lower
creates_second = refl

refuses_lead :
    create_contact none none (some (codes "@LEAD")) none true [] none one_lead
    ≡ inl Conflict.username_taken
unfolding create_contact normalize_phone normalize_username lower strip_left strip select
refuses_lead = refl

only_key : (i : ℕ) (a : Contact) → find i ((1, lead false) ∷ []) ≡ some a → i ≡ 1
unfolding find
only_key i a e = ground (arith, ==_iff 1 i)

one-UniqueIn : (field : Contact → Option Text) → UniqueIn field one_lead.contacts.objects
one-UniqueIn field i j a b c v fi fj ea eb = only_key i a fi ∙ sym (only_key j b fj)

create_contact-UniqueIn_example :
    UniqueIn phone_of with_second.contacts.objects
    × UniqueIn username_of with_second.contacts.objects
create_contact-UniqueIn_example =
    create_contact-UniqueIn none (some (codes "+49 15")) (some (codes "@Second")) none true [] none
      one_lead 100 with_second refl (one-UniqueIn phone_of) (one-UniqueIn username_of)
      creates_second
