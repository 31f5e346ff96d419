-- ===== src/Contacts/Store/Unique.antt =====
-- Creation keeps phones and usernames unique.
use telegram_marketing_crm.Prelude.{
  ℕ, ◌≡◌, ◌≢◌, refl, sym, ap, ◌∙◌, Bool, true, false, ◌&&◌, Option, none, some, List, [], ◌∷◌, ◌++◌,
  ◌==◌, if◌then◌else◌, length, ◌⊎◌, inl, inr, arith, Bool-cases, Option-cases, ==_iff, not,
}
use telegram_marketing_crm.Prelude.Text.{Text, option_text_eq, text_eq_refl}
use telegram_marketing_crm.Db.{find, add, select, flush, IsClean, keys_where}
use telegram_marketing_crm.Db.Laws.{keys_where-ne_nil}
use telegram_marketing_crm.Models.Contact.{Contact}
use telegram_marketing_crm.Session.{Session, commit}
use telegram_marketing_crm.Contacts.Store.{
  taken, find_conflict, insert_contact, create_contact, phone_of, username_of, Conflict,
  new_contact, other_than, normalize_phone, normalize_username,
}
use mathlib.Core.Path.{subst}

-- No two contacts have the same value of a field, unless it is empty or missing.
abbrev pub UniqueIn : (Contact → Option Text) → List (ℕ × Contact) → Type 0
UniqueIn field l =
    (i j : ℕ) (a b : Contact) (c : ℕ) (v : Text)
    → find i l ≡ some a
    → find j l ≡ some b
    → field a ≡ some (c ∷ v)
    → field b ≡ some (c ∷ v)
    → i ≡ j

find-append :
    (k n : ℕ) (r : Contact) (l : List (ℕ × Contact))
    → find k (l ++ (n, r) ∷ [])
      ≡ elim (find k l) [ none ↦ (if n == k then some r else none) | some x ↦ some x ]
unfolding find
find-append k n r [] = refl
find-append k n r ((j, x) ∷ l) = elim (Bool-cases (j == k)) [
  | inl here ↦ rw here refl
  | inr later ↦ rw later (find-append k n r l)
]

-- An entry of a longer list is the old one, or the one that is new.
find-append-cases :
    (k n : ℕ) (r x : Contact) (l : List (ℕ × Contact))
    → find k (l ++ (n, r) ∷ []) ≡ some x
    → (find k l ≡ some x) ⊎ ((n ≡ k) × (r ≡ x))
find-append-cases k n r x l e =
    ground (arith, find-append k n r l, Option-cases (find k l), ==_iff n k)

abbrev Absent : (Contact → Option Text) → List (ℕ × Contact) → Contact → Type 0
Absent field l r =
    (j : ℕ) (b : Contact) (c : ℕ) (v : Text)
    → find j l ≡ some b
    → field r ≡ some (c ∷ v)
    → field b ≢ some (c ∷ v)

UniqueIn-append :
    (field : Contact → Option Text) (l : List (ℕ × Contact)) (n : ℕ) (r : Contact)
    → UniqueIn field l
    → Absent field l r
    → UniqueIn field (l ++ (n, r) ∷ [])
UniqueIn-append field l n r h absent i j a b c v fi fj ea eb =
    elim (find-append-cases i n r a l fi) [
      | inl old ↦ elim (find-append-cases j n r b l fj) [
        | inl old' ↦ h i j a b c v old old' ea eb
        | inr (here, same) ↦ absurd (absent i a c v old (ap field same ∙ eb) ea)
      ]
      | inr (here, same) ↦ elim (find-append-cases j n r b l fj) [
        | inl old' ↦ absurd (absent j b c v old' (ap field same ∙ ea) eb)
        | inr (here', same') ↦ sym here ∙ here'
      ]
    ]

option_text_eq_of : (o : Option Text) (t : Text) → o ≡ some t → option_text_eq o t ≡ true
unfolding option_text_eq
option_text_eq_of o t e = rw e (text_eq_refl t)

nonempty-length : (l : List ℕ) → l ≢ [] → (length l == 0) ≡ false
nonempty-length [] h = absurd (h refl)
nonempty-length (x ∷ l) h = ground arith

not_taken→Absent :
    (field : Contact → Option Text) (s : Session) (r : Contact)
    → IsClean s.contacts
    → taken field (field r) none s ≡ false
    → Absent field s.contacts.objects r
unfolding taken select other_than
not_taken→Absent field s r clean free j b c v found er eb =
    let p : ℕ → Contact → Bool = λ k x. option_text_eq (field x) (c ∷ v) && true in
    let row : find j s.contacts.rows ≡ some b = ap (find j) clean ∙ found in
    let some_row = nonempty-length _ (
      keys_where-ne_nil p j b s.contacts.rows row
        (ground (arith, option_text_eq_of (field b) (c ∷ v) eb))) in
    let busy : not (length (keys_where p s.contacts.rows) == 0) ≡ false = rw er at free in
    absurd (ground (arith, some_row, busy))

abbrev session_of : Session → Conflict ⊎ (ℕ × Session) → Session
session_of s (inl conflict) = s
session_of s (inr (k, s')) = s'

not_inserted :
    (r : Contact) (s : Session) (conflict : Conflict) (x : ℕ × Session)
    → insert_contact r s (some conflict) ≢ inr x
unfolding insert_contact
not_inserted r s conflict x e = ground arith

no_conflict :
    (ph un : Option Text) (s : Session)
    → find_conflict ph un none s ≡ none
    → (taken phone_of ph none s ≡ false) × (taken username_of un none s ≡ false)
unfolding find_conflict
no_conflict ph un s e = ground arith

insert_contact-UniqueIn :
    (field : Contact → Option Text) (r : Contact) (s : Session) (o : Option Conflict) (k : ℕ)
    (s' : Session)
    → UniqueIn field s.contacts.objects
    → Absent field s.contacts.objects r
    → insert_contact r s o ≡ inr (k, s')
    → UniqueIn field s'.contacts.objects
unfolding insert_contact add commit flush
insert_contact-UniqueIn field r s (some conflict) k s' h absent e = absurd (ground arith)
insert_contact-UniqueIn field r s none k s' h absent e =
    subst (λ (x : Session). UniqueIn field x.contacts.objects) (ap (session_of s) e)
      (UniqueIn-append field s.contacts.objects s.contacts.next r h absent)

-- With nothing pending among the contacts, a contact that is created leaves the phones that are
-- not empty unique, and the usernames, if they were before.
pub create_contact-UniqueIn :
    (name phone username source : Option Text) (consent : Bool) (tags : List Text)
    (notes : Option Text) (s : Session) (k : ℕ) (s' : Session)
    → IsClean s.contacts
    → UniqueIn phone_of s.contacts.objects
    → UniqueIn username_of s.contacts.objects
    → create_contact name phone username source consent tags notes s ≡ inr (k, s')
    → UniqueIn phone_of s'.contacts.objects × UniqueIn username_of s'.contacts.objects
unfolding create_contact new_contact
create_contact-UniqueIn name phone username source consent tags notes s k s' clean hp hu e =
    let ph = normalize_phone phone in
    let un = normalize_username username in
    let r = new_contact name ph un source consent tags notes in
    elim (Option-cases (find_conflict ph un none s)) [
      | inl free ↦
          let (p_free, u_free) = no_conflict ph un s free in
          (
            insert_contact-UniqueIn phone_of r s (find_conflict ph un none s) k s' hp
                (not_taken→Absent phone_of s r clean p_free) e,
            insert_contact-UniqueIn username_of r s (find_conflict ph un none s) k s' hu
                (not_taken→Absent username_of s r clean u_free) e,
          )
      | inr (conflict, found) ↦ absurd (not_inserted r s conflict (k, s') (rw found at e))
    ]
