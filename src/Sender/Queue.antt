-- ===== src/Sender/Queue.antt =====
-- `add_targets` keeps a job's contacts distinct, and queues consenting contacts only.
use telegram_marketing_crm.Prelude.{
  ℕ, refl, true, false, inl, inr, [], ◌∷◌, List, keep, not, ◌≡◌, All, ◌++◌, Bool-cases, arith, ◌==◌,
  ap, Option, suc, sym, ◌∙◌, length, ==_iff, ==_refl, keep-All_of, All-map,
}
use telegram_marketing_crm.Prelude.Keys.{mem-All, mem, Distinct, mem-append, keep-Distinct}
use telegram_marketing_crm.Prelude.Text.{Text}
use telegram_marketing_crm.Db.{Table, keys_where, attributes_of, add, select, IsClean, flush}
use telegram_marketing_crm.Db.Laws.{keys, keys_where-All, keys_where-Distinct}
use telegram_marketing_crm.Db.Values.{values_of, values_of-append, attributes_of-select}
use telegram_marketing_crm.Models.Contact.{Contact}
use telegram_marketing_crm.Models.Sender.{SendTarget}
use telegram_marketing_crm.Session.{Session, commit}
use telegram_marketing_crm.Sender.{enqueue, add_targets, queued_target, targetable, get_targets}
use mathlib.Core.Path.{subst}
use mathlib.Core.List.{Memᴰ, append_assoc, append-nil}

-- The contacts of a job's targets, in order.
abbrev pub contacts_of : ℕ → List (ℕ × SendTarget) → List ℕ
contacts_of job = values_of (λ r. r.job_id == job) (λ r. r.contact_id)

abbrev fresh : List ℕ → List ℕ → List ℕ
fresh existing cs = keep (λ c. not (mem c existing)) cs

-- The loop appends the fresh contacts, and counts them.
enqueue-contacts :
    (job : ℕ) (existing cs : List ℕ) (t : Table SendTarget)
    → let r = enqueue job existing cs t in
      (contacts_of job r.1.objects ≡ contacts_of job t.objects ++ fresh existing cs)
      × (r.0 ≡ length (fresh existing cs))
unfolding enqueue add
enqueue-contacts job existing [] t = (sym (append-nil (contacts_of job t.objects)), refl)
enqueue-contacts job existing (c ∷ cs) t = elim (Bool-cases (mem c existing)) [
  | inl old ↦ rw (old, enqueue) (enqueue-contacts job existing cs t)
  | inr new ↦
      let t' = add (queued_target job c) t in
      let (rest, count) = enqueue-contacts job existing cs t' in
      let one : contacts_of job ((t.next, queued_target job c) ∷ []) ≡ c ∷ [] = rw (==_refl job) in
      rw (new, enqueue)
        (
          rest
              ∙ (ap (λ l. l ++ fresh existing cs)
                    (values_of-append (λ r. r.job_id == job) (λ r. r.contact_id) t.objects
                        ((t.next, queued_target job c) ∷ [])
                      ∙ ap (λ l. contacts_of job t.objects ++ l) one)
                  ∙ append_assoc (contacts_of job t.objects) (c ∷ []) (fresh existing cs)),
          ap suc count,
        )
]

mem-fresh :
    (k : ℕ) (existing cs : List ℕ) → mem k existing ≡ true → mem k (fresh existing cs) ≡ false
mem-fresh k existing [] h = refl
mem-fresh k existing (c ∷ cs) h =
    ground (arith, mem-fresh k existing cs h, ==_iff c k, ap (λ i. mem i existing))

Distinct-append-fresh :
    (existing cs : List ℕ) (xs : List ℕ)
    → Distinct xs
    → All (λ x. mem x existing ≡ true) xs
    → Distinct cs
    → Distinct (xs ++ fresh existing cs)
Distinct-append-fresh existing cs [] d h e = keep-Distinct (λ c. not (mem c existing)) cs e
Distinct-append-fresh existing cs (x ∷ xs) d h e = ground (
  arith,
  mem-append x xs (fresh existing cs),
  Distinct-append-fresh existing cs xs d.1 h.1 e,
  mem-fresh x existing cs h.0,
)

-- The contacts that `add_targets` queues: consenting, and not opted out, in the database.
abbrev pub IsMessageable : Session → ℕ → Type 0
IsMessageable s k =
    (c : Contact) × Memᴰ (k, c) s.contacts.rows × (c.consent ≡ true) × (c.opted_out ≡ false)

targetable-messageable :
    (ids : List ℕ) (source : Option Text) (k : ℕ) (c : Contact)
    → targetable ids source k c ≡ true
    → (c.consent ≡ true) × (c.opted_out ≡ false)
unfolding targetable
targetable-messageable ids source k c h = ground arith

-- Where nothing is pending among the targets, the primary keys of the targets and of the contacts
-- are distinct and the job has no contact twice, add_targets appends contacts that consent and
-- have not opted out, returns their number, and leaves the job with no contact twice.
pub add_targets_unique :
    (job : ℕ) (ids : List ℕ) (source : Option Text) (s : Session)
    → IsClean s.send_targets
    → Distinct (keys s.send_targets.objects)
    → Distinct (keys s.contacts.rows)
    → Distinct (contacts_of job s.send_targets.objects)
    → let r = add_targets job ids source s in
      (new : List ℕ) × (contacts_of job r.1.send_targets.objects
        ≡ contacts_of job s.send_targets.objects ++ new)
      × (r.0 ≡ length new)
      × All (IsMessageable s) new
      × Distinct (contacts_of job r.1.send_targets.objects)
unfolding add_targets get_targets select commit flush
add_targets_unique job ids source s clean dt dc d =
    let old = contacts_of job s.send_targets.objects in
    let cs = keys_where (targetable ids source) s.contacts.rows in
    let e : attributes_of (λ r. r.contact_id)
          (keys_where (λ k r. r.job_id == job) s.send_targets.rows) s.send_targets
        ≡ old =
      attributes_of-select (λ r. r.job_id == job) (λ r. r.contact_id) s.send_targets clean dt in
    let (list, count) = enqueue-contacts job old cs s.send_targets in
    let unique =
      Distinct-append-fresh old cs old d (mem-All [] old)
        (keys_where-Distinct (targetable ids source) s.contacts.rows dc) in
    let messageable =
      keep-All_of (IsMessageable s) (λ c. not (mem c old)) cs
        (All-map _ (IsMessageable s)
          (λ k (c, m, h).
            let (agrees, stays) = targetable-messageable ids source k c h in (c, m, agrees, stays))
          cs (keys_where-All (targetable ids source) s.contacts.rows)) in
    rw e (fresh old cs, list, count, messageable, subst Distinct (sym list) unique)
