-- ===== src/Contacts/Import/OptOut.antt =====
-- An import counts every row once, and withdraws no opt-out.
use telegram_marketing_crm.Prelude.{
  ℕ, suc, ◌+◌, ◌≡◌, refl, ap, ◌∙◌, Bool, true, false, Option, none, some, List, [], ◌∷◌, ◌==◌,
  length, length-append, arith, Bool-cases, inl, inr,
}
use telegram_marketing_crm.Prelude.Text.{Text}
use telegram_marketing_crm.Db.{Table, get, modify, add, change, flush}
use telegram_marketing_crm.Db.Laws.{get-modify}
use telegram_marketing_crm.Db.Keyed.{get-add}
use telegram_marketing_crm.Models.Contact.{Contact}
use telegram_marketing_crm.Session.{Session, commit}
use telegram_marketing_crm.Contacts.Store.{new_contact}
use telegram_marketing_crm.Contacts.Import.{
  Row, Counts, Progress, refreshed, update_row, insert_row, write_row, consenting_row,
  identified_row, import_row, import_rows, import_start, import_contacts,
}

-- Every contact of the one table is in the other, with the same opt-out.
abbrev pub KeepsOptOut : Table Contact → Table Contact → Type 0
KeepsOptOut t t' =
    (k : ℕ) (c : Contact)
    → get k t ≡ some c
    → (c' : Contact) × (get k t' ≡ some c') × (c'.opted_out ≡ c.opted_out)

rows_of : Counts → ℕ
rows_of n = n.imported + (n.updated + (n.rejected + n.invalid))

-- What a row does.
record IsStep (n : ℕ) (p p' : Progress) : Type 0 where
  pub kept : KeepsOptOut p.contacts p'.contacts
  pub counted : rows_of p'.counts ≡ rows_of p.counts + n
  pub size :
      length p'.contacts.objects + p.counts.imported
      ≡ length p.contacts.objects + p'.counts.imported

length-change :
    (k : ℕ) (f : Contact → Contact) (l : List (ℕ × Contact)) → length (change k f l) ≡ length l
unfolding change
length-change k f [] = refl
length-change k f ((j, c) ∷ l) = ap suc (length-change k f l)

refreshed-KeepsOptOut :
    (name phone username source : Option Text) (k : ℕ) (t : Table Contact)
    → KeepsOptOut t (modify k (refreshed name phone username source) t)
refreshed-KeepsOptOut name phone username source k t j c found =
    let f = refreshed name phone username source in
    elim (Bool-cases (j == k)) [
      | inl same ↦ (f c, get-modify j k f t ∙ rw (same, found) refl, unfold refreshed in refl)
      | inr other ↦ (c, get-modify j k f t ∙ rw (other, found) refl, refl)
    ]

update_row-IsStep :
    (name phone username source : Option Text) (k : ℕ) (p : Progress)
    → IsStep 1 p (update_row name phone username source k p)
unfolding update_row modify rows_of
update_row-IsStep name phone username source k p = record {
  kept = refreshed-KeepsOptOut name phone username source k p.contacts;
  counted = omega arith;
  size = omega (arith, length-change k (refreshed name phone username source) p.contacts.objects);
}

insert_row-IsStep :
    (name phone username source : Option Text) (p : Progress)
    → IsStep 1 p (insert_row name phone username source p)
unfolding insert_row add rows_of
insert_row-IsStep name phone username source p =
    let c = new_contact name phone username source true [] none in
    record {
      kept = λ k x found. (x, get-add k c p.contacts ∙ rw found refl, refl);
      counted = omega arith;
      size = omega (arith, length-append p.contacts.objects ((p.contacts.next, c) ∷ []));
    }

write_row-IsStep :
    (name phone username source : Option Text) (p : Progress) (found : Option ℕ)
    → IsStep 1 p (write_row name phone username source p found)
unfolding write_row
write_row-IsStep name phone username source p none = insert_row-IsStep name phone username source p
write_row-IsStep name phone username source p (some k) =
    update_row-IsStep name phone username source k p

consenting_row-IsStep :
    (name phone username source : Option Text) (consent : Bool) (p : Progress)
    → IsStep 1 p (consenting_row name phone username source consent p)
unfolding consenting_row rows_of
consenting_row-IsStep name phone username source false p = record {
  kept = λ k c found. (c, found, refl);
  counted = omega arith;
  size = refl;
}
consenting_row-IsStep name phone username source true p =
    write_row-IsStep name phone username source p _

identified_row-IsStep :
    (name phone username source : Option Text) (consent : Bool) (p : Progress)
    → IsStep 1 p (identified_row name phone username source consent p)
unfolding identified_row rows_of
identified_row-IsStep name none none source consent p = record {
  kept = λ k c found. (c, found, refl);
  counted = omega arith;
  size = refl;
}
identified_row-IsStep name none (some username) source consent p =
    consenting_row-IsStep name none (some username) source consent p
identified_row-IsStep name (some phone) username source consent p =
    consenting_row-IsStep name (some phone) username source consent p

IsStep-trans : (m : ℕ) (p q r : Progress) → IsStep 1 p q → IsStep m q r → IsStep (suc m) p r
IsStep-trans m p q r h k = record {
  kept = λ j c found.
      let (c1, found1, same1) = h.kept j c found in
      let (c2, found2, same2) = k.kept j c1 found1 in (c2, found2, same2 ∙ same1);
  counted = omega (arith, h.counted, k.counted);
  size = omega (arith, h.size, k.size);
}

import_rows-IsStep : (rows : List Row) (p : Progress) → IsStep (length rows) p (import_rows rows p)
unfolding import_rows import_row
import_rows-IsStep [] p = record {
  kept = λ k c found. (c, found, refl);
  counted = omega arith;
  size = refl;
}
import_rows-IsStep (row ∷ rows) p =
    IsStep-trans (length rows) p (import_row row p) (import_rows rows (import_row row p))
      (identified_row-IsStep _ _ _ _ _ p) (import_rows-IsStep rows (import_row row p))

-- Whatever the rows are, after an import every contact that was there is there with the opt-out
-- that it had, every row counts as imported, updated, rejected or invalid, and the total is the
-- old number of contacts and the imported.
pub import_contacts-KeepsOptOut :
    (rows : List Row) (s : Session)
    → let r = import_contacts rows s in
      KeepsOptOut s.contacts r.2.contacts
      × (r.0.imported + (r.0.updated + (r.0.rejected + r.0.invalid)) ≡ length rows)
      × (r.1 ≡ length s.contacts.objects + r.0.imported)
unfolding import_contacts import_start commit flush get rows_of
import_contacts-KeepsOptOut rows s =
    let h = import_rows-IsStep rows (import_start s) in
    (h.kept, omega (arith, h.counted), omega (arith, h.size))
