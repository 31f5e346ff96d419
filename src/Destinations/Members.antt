-- ===== src/Destinations/Members.antt =====
-- What add_members queues: each contact once, and never one that the destination has.
pub mod Lookups
use telegram_marketing_crm.Destinations.Members.Lookups.{IsKept, typed_contacts-IsKept}
use telegram_marketing_crm.Prelude.{
  ℕ, ◌+◌, suc, ◌≡◌, refl, sym, ◌∙◌, ap, true, false, some, List, [], ◌∷◌, ◌++◌, Bool, ◌&&◌, not,
  All-map, length, All, arith, ◌==◌, ==_refl, ==_iff, Bool-cases, inl, inr,
}
use telegram_marketing_crm.Prelude.Keys.{mem, Distinct, Distinct-snoc, mem-All, mem-append}
use telegram_marketing_crm.Prelude.Text.{Text}
use telegram_marketing_crm.Db.{Table, add, attributes_of, flush, IsClean, select, keys_where}
use telegram_marketing_crm.Db.Laws.{keys, keys_where-All, keys_where-Distinct, mem-keys_where_of}
use telegram_marketing_crm.Sender.Queue.{IsMessageable}
use telegram_marketing_crm.Db.Values.{values_of, values_of-append, attributes_of-select}
use telegram_marketing_crm.Models.Contact.{Contact}
use telegram_marketing_crm.Models.Destination.{GroupMembership}
use telegram_marketing_crm.Session.{Session, commit}
use telegram_marketing_crm.Destinations.{
  add_members, queue_all, queue_members, typed_contacts, consenting, pending_membership,
  get_memberships, queue_typed,
}
use mathlib.Core.Path.{subst}
use mathlib.Core.List.{Memᴰ, append_assoc, append-nil}

-- The contacts of a destination's memberships, in order.
abbrev pub members_of : ℕ → List (ℕ × GroupMembership) → List ℕ
members_of destination = values_of (λ r. r.destination_id == destination) (λ r. r.contact_id)

members_of-add :
    (d c : ℕ) (t : Table GroupMembership)
    → members_of d (add (pending_membership d c) t).objects ≡ members_of d t.objects ++ c ∷ []
unfolding add
members_of-add d c t =
    let one : members_of d ((t.next, pending_membership d c) ∷ []) ≡ c ∷ [] = rw (==_refl d) in
    values_of-append (λ r. r.destination_id == d) (λ r. r.contact_id) t.objects
      ((t.next, pending_membership d c) ∷ [])
    ∙ ap (λ l. members_of d t.objects ++ l) one

mem_of_known :
    (k : ℕ) (known xs : List ℕ)
    → All (λ x. mem x known ≡ true) xs
    → mem k known ≡ false
    → mem k xs ≡ false
mem_of_known k known [] h e = refl
mem_of_known k known (x ∷ xs) h e =
    ground (arith, mem_of_known k known xs h.1, ==_iff k x, ap (λ i. mem i known))

known-later :
    (k : ℕ) (known xs : List ℕ)
    → All (λ x. mem x known ≡ true) xs
    → All (λ x. mem x (k ∷ known) ≡ true) (xs ++ k ∷ [])
known-later k known [] h = ground arith
known-later k known (x ∷ xs) h = (ground (arith, h.0), known-later k known xs h.1)

-- Every key of the first list is in the second.
abbrev pub Within : List ℕ → List ℕ → Type 0
Within xs ys = All (λ x. mem x ys ≡ true) xs

Within-at : (k : ℕ) (xs ys : List ℕ) → Within xs ys → mem k xs ≡ true → mem k ys ≡ true
Within-at k [] ys h e = absurd (ground arith)
Within-at k (x ∷ xs) ys h e = elim (Bool-cases (k == x)) [
  | inl same ↦ rw ((==_iff k x).0 same) h.0
  | inr other ↦ Within-at k xs ys h.1 (ground arith)
]

Within-cons : (k : ℕ) (xs ys : List ℕ) → Within xs ys → Within xs (k ∷ ys)
Within-cons k [] ys h = tt
Within-cons k (x ∷ xs) ys h = (ground (arith, h.0), Within-cons k xs ys h.1)

Within-append : (xs ys zs : List ℕ) → Within xs ys → Within xs (ys ++ zs)
Within-append [] ys zs h = tt
Within-append (x ∷ xs) ys zs h =
    (ground (arith, mem-append x ys zs, h.0), Within-append xs ys zs h.1)

mem-snoc : (k : ℕ) (xs : List ℕ) → mem k (xs ++ k ∷ []) ≡ true
mem-snoc k xs = ground (arith, mem-append k xs (k ∷ []))

-- What the loop leaves: the old members, then the queued ones, each of the given contacts, none
-- twice; every given contact is a member, and counts as queued or as skipped.
pub record IsQueued (d : ℕ) (contacts old : List ℕ) (r : ℕ × ℕ × Table GroupMembership)
    : Type 0 where
  pub new : List ℕ
  pub list : members_of d r.2.objects ≡ old ++ new
  pub given : Within new contacts
  pub covers : Within contacts (members_of d r.2.objects)
  pub count : r.0 ≡ length new
  pub total : r.0 + r.1 ≡ length contacts
  pub distinct : Distinct (members_of d r.2.objects)

queue_members-IsQueued :
    (d : ℕ) (known cs : List ℕ) (t : Table GroupMembership)
    → Within (members_of d t.objects) known
    → Within known (members_of d t.objects)
    → Distinct (members_of d t.objects)
    → IsQueued d cs (members_of d t.objects) (queue_members d known cs t)
unfolding queue_members
queue_members-IsQueued d known [] t h h' dt = record {
  new = [];
  list = sym (append-nil (members_of d t.objects));
  given = tt;
  covers = tt;
  count = refl;
  total = refl;
  distinct = dt;
}
queue_members-IsQueued d known (c ∷ cs) t h h' dt = elim (Bool-cases (mem c known)) [
  | inl old ↦
      let members = members_of d t.objects in
      let q = queue_members-IsQueued d known cs t h h' dt in
      let here : mem c (members ++ q.new) ≡ true =
        ground (arith, mem-append c members q.new, Within-at c known members h' old) in
      rw (old, queue_members)
        (record {
          new = q.new;
          list = q.list;
          given = Within-cons c q.new cs q.given;
          covers = (ap (mem c) q.list ∙ here, q.covers);
          count = q.count;
          total = omega (arith, q.total);
          distinct = q.distinct;
        })
  | inr new ↦
      let members = members_of d t.objects in
      let e = members_of-add d c t in
      let q =
        queue_members-IsQueued d (c ∷ known) cs (add (pending_membership d c) t)
          (rw e (known-later c known members h))
          (subst (Within (c ∷ known)) (sym e)
            (mem-snoc c members, Within-append known members (c ∷ []) h'))
          (rw e (Distinct-snoc c members (mem_of_known c known members h new) dt)) in
      let list = q.list ∙ (ap (λ l. l ++ q.new) e ∙ append_assoc members (c ∷ []) q.new) in
      let here : mem c (members ++ c ∷ q.new) ≡ true =
        ground (arith, mem-append c members (c ∷ q.new)) in
      rw (new, queue_members)
        (record {
          new = c ∷ q.new;
          list = list;
          given = (ground arith, Within-cons c q.new cs q.given);
          covers = (ap (mem c) list ∙ here, q.covers);
          count = ap suc q.count;
          total = omega (arith, q.total);
          distinct = q.distinct;
        })
]

queue_all-IsQueued :
    (d : ℕ) (cs : List ℕ) (s : Session)
    → IsClean s.memberships
    → Distinct (keys s.memberships.objects)
    → Distinct (members_of d s.memberships.objects)
    → let r = queue_all d cs s in
      IsQueued d cs (members_of d s.memberships.objects) (r.0, r.1, r.2.memberships)
unfolding queue_all get_memberships select commit flush
queue_all-IsQueued d cs s clean dk dm =
    let old = members_of d s.memberships.objects in
    let e : attributes_of (λ r. r.contact_id)
          (keys_where (λ k r. r.destination_id == d) s.memberships.rows) s.memberships
        ≡ old =
      attributes_of-select (λ r. r.destination_id == d) (λ r. r.contact_id) s.memberships clean
        dk in
    let q = queue_members-IsQueued d old cs s.memberships (mem-All [] old) (mem-All [] old) dm in
    rw e (record {
      new = q.new;
      list = q.list;
      given = q.given;
      covers = q.covers;
      count = q.count;
      total = q.total;
      distinct = q.distinct;
    })

-- The contacts of the database that the operator has chosen, consenting and not opted out.
pub record IsChoice (ids : List ℕ) (s : Session) (chosen : List ℕ) : Type 0 where
  pub allowed : All (λ k. IsMessageable s k × (mem k ids ≡ true)) chosen
  pub complete :
      (k : ℕ) (c : Contact)
      → Memᴰ (k, c) s.contacts.rows
      → mem k ids ≡ true
      → c.consent ≡ true
      → c.opted_out ≡ false
      → mem k chosen ≡ true
  pub once : Distinct chosen

consenting-IsChoice :
    (ids : List ℕ) (s : Session)
    → Distinct (keys s.contacts.rows)
    → IsChoice ids s (consenting ids s)
unfolding consenting select
consenting-IsChoice [] s d = record {
  allowed = tt;
  complete = λ k c m e agrees stays. absurd (ground arith);
  once = tt;
}
consenting-IsChoice (i ∷ ids) s d =
    let p : ℕ → Contact → Bool = λ k c. mem k (i ∷ ids) && (c.consent && not c.opted_out) in
    record {
      allowed =
          All-map _ (λ k. IsMessageable s k × (mem k (i ∷ ids) ≡ true))
            (λ k (c, m, h). ((c, m, ground arith, ground arith), ground arith)) _
            (keys_where-All p s.contacts.rows);
      complete = λ k c m e agrees stays. mem-keys_where_of p k c s.contacts.rows m (ground arith);
      once = keys_where-Distinct p s.contacts.rows d;
    }

-- Where nothing is pending among the memberships, the primary keys of the memberships and of the
-- contacts are distinct, the destination has no contact twice and the lookups of the typed
-- identifiers raise nothing, add_members returns. It chooses exactly the contacts of the database
-- that are among the given ids, consent and have not opted out, each once. It appends new
-- memberships to the destination's, each for a chosen contact or a typed one; afterwards every
-- chosen or typed contact is a member, and none twice; queued is the number of new memberships,
-- and queued and skipped are together the number of chosen and typed contacts.
pub add_members_unique :
    (d : ℕ) (ids : List ℕ) (identifiers : List Text) (s : Session) (typed : List ℕ) (u : Session)
    → IsClean s.memberships
    → Distinct (keys s.memberships.objects)
    → Distinct (keys s.contacts.rows)
    → Distinct (members_of d s.memberships.objects)
    → typed_contacts identifiers s ≡ some (typed, u)
    → (r : ℕ × ℕ × Session) × (add_members d ids identifiers s ≡ some r)
      × (chosen : List ℕ) × IsChoice ids s chosen
      × IsQueued d
          (chosen ++ typed)
          (members_of d s.memberships.objects)
          (r.0, r.1, r.2.memberships)
unfolding add_members queue_typed
add_members_unique d ids identifiers s typed u clean dk dc dm h =
    let kept : u.memberships ≡ s.memberships =
      subst (IsKept s) h (typed_contacts-IsKept identifiers s clean) in
    let q =
      queue_all-IsQueued d (consenting ids s ++ typed) u (rw kept clean) (rw kept dk)
        (rw kept dm) in
    let r = queue_all d (consenting ids s ++ typed) u in
    (
      r,
      ap (queue_typed d (consenting ids s)) h,
      consenting ids s,
      consenting-IsChoice ids s dc,
      subst
          (λ m.
            IsQueued d (consenting ids s ++ typed) (members_of d m.objects)
              (r.0, r.1, r.2.memberships))
          kept q,
    )
