-- ===== src/Campaigns/Segments.antt =====
-- Whom a segment holds.
use telegram_marketing_crm.Prelude.{
  ℕ, ◌≡◌, ◌⊎◌, inl, inr, sym, ◌∙◌, ==_iff, refl, ap, Bool, true, false, some, List, [], ◌∷◌, All,
  All-map, arith, keep, keep-All, keep-All_of, ◌==◌, none, Option, Bool-cases, Option-cases, ◌&&◌,
}
use telegram_marketing_crm.Prelude.Keys.{mem}
use telegram_marketing_crm.Prelude.Text.{Text}
use telegram_marketing_crm.Db.{select}
use telegram_marketing_crm.Db.Laws.{keys_where-All, mem-keys_where_of}
use telegram_marketing_crm.Models.Contact.{Contact}
use telegram_marketing_crm.Models.Campaign.{Segment}
use telegram_marketing_crm.Models.Destination.{GroupMembership, MembershipState, in_destination}
use telegram_marketing_crm.Session.{Session}
use telegram_marketing_crm.Sender.Queue.{IsMessageable}
use telegram_marketing_crm.Campaigns.{
  in_segment, build_segment, matches, not_excluded, has_tag, already_member_contact_ids, member_ids,
}
use mathlib.Core.List.{Memᴰ}
use mathlib.Core.Path.{subst}

in_segment-messageable :
    (segment : Segment) (k : ℕ) (c : Contact)
    → in_segment segment k c ≡ true
    → (c.consent ≡ true) × (c.opted_out ≡ false)
unfolding in_segment
in_segment-messageable segment k c h = ground arith

-- No membership in the database has the contact in the destination that the segment excludes,
-- neither added, nor invited, nor joined.
abbrev pub IsOutside : Segment → Session → ℕ → Type 0
IsOutside segment s k =
    (d m : ℕ) (r : GroupMembership)
    → segment.exclude_in_destination ≡ some d
    → (d == 0) ≡ false
    → Memᴰ (m, r) s.memberships.rows
    → r.destination_id ≡ d
    → r.contact_id ≡ k
    → (r.state ≡ MembershipState.pending) ⊎ (r.state ≡ MembershipState.failed)

out_of_destination :
    (state : MembershipState)
    → in_destination state ≡ false
    → (state ≡ MembershipState.pending) ⊎ (state ≡ MembershipState.failed)
out_of_destination MembershipState.pending e = inl refl
out_of_destination MembershipState.failed e = inr refl
out_of_destination MembershipState.added e = absurd (ground arith)
out_of_destination MembershipState.invited e = absurd (ground arith)
out_of_destination MembershipState.joined e = absurd (ground arith)

member_ids-out :
    (l : List (ℕ × GroupMembership)) (d m : ℕ) (r : GroupMembership)
    → mem r.contact_id (member_ids l d) ≡ false
    → Memᴰ (m, r) l
    → r.destination_id ≡ d
    → in_destination r.state ≡ false
unfolding member_ids
member_ids-out [] d m r h here e = elim here [ ]
member_ids-out ((j, x) ∷ l) d m r h (Memᴰ.head p) e =
    let same : r ≡ x = ap (λ (q : ℕ × GroupMembership). q.1) p in
    let h' : mem x.contact_id (member_ids ((j, x) ∷ l) d) ≡ false =
      subst (λ (y : GroupMembership). mem y.contact_id (member_ids ((j, x) ∷ l) d) ≡ false) same
        h in
    let e' : (x.destination_id == d) ≡ true =
      (==_iff x.destination_id d).1
        (ap (λ (y : GroupMembership). y.destination_id) (sym same) ∙ e) in
    ap (λ (y : GroupMembership). in_destination y.state) same ∙ ground (arith, h', e')
member_ids-out ((j, x) ∷ l) d m r h (Memᴰ.tail p) e = member_ids-out l d m r (ground (arith, h)) p e

not_excluded→IsOutside :
    (segment : Segment) (s : Session) (k : ℕ)
    → not_excluded segment.exclude_in_destination s k ≡ true
    → IsOutside segment s k
unfolding not_excluded already_member_contact_ids
not_excluded→IsOutside segment s k h d m r e ne here at who =
    let out : mem k (member_ids s.memberships.rows d) ≡ false = ground (arith, rw e at h) in
    out_of_destination r.state (member_ids-out s.memberships.rows d m r (rw who out) here at)

All-both {ℓ κ} :
    {A : Type 0} (P : A → Type ℓ) (Q : A → Type κ) (xs : List A)
    → All P xs
    → All Q xs
    → All (λ x. P x × Q x) xs
All-both P Q [] p q = tt
All-both P Q (x ∷ xs) p q = ((p.0, q.0), All-both P Q xs p.1 q.1)

build_segment_sound :
    (segment : Segment) (s : Session)
    → All (λ k. IsMessageable s k × IsOutside segment s k) (build_segment segment s)
unfolding build_segment select
build_segment_sound segment s =
    let found = select (in_segment segment) s.contacts in
    let tagged = keep (has_tag segment.tag s.contacts) found in
    let rows =
      All-map _ (IsMessageable s)
        (λ k (c, m, h).
          let (agrees, stays) = in_segment-messageable segment k c h in (c, m, agrees, stays))
        found (keys_where-All (in_segment segment) s.contacts.rows) in
    let inside =
      keep-All_of (IsMessageable s) (not_excluded segment.exclude_in_destination s) tagged
        (keep-All_of (IsMessageable s) (has_tag segment.tag s.contacts) found rows) in
    let outside =
      All-map _ (IsOutside segment s) (λ k h. not_excluded→IsOutside segment s k h) _
        (keep-All (not_excluded segment.exclude_in_destination s) tagged) in
    All-both (IsMessageable s) (IsOutside segment s) _ inside outside

outside_destination :
    (state : MembershipState)
    → (state ≡ MembershipState.pending) ⊎ (state ≡ MembershipState.failed)
    → in_destination state ≡ false
outside_destination state (inl e) = ap in_destination e
outside_destination state (inr e) = ap in_destination e

member_ids-none :
    (l : List (ℕ × GroupMembership)) (d k : ℕ)
    → ((m : ℕ) (r : GroupMembership)
        → Memᴰ (m, r) l
        → r.destination_id ≡ d
        → r.contact_id ≡ k
        → in_destination r.state ≡ false)
    → mem k (member_ids l d) ≡ false
unfolding member_ids
member_ids-none [] d k h = refl
member_ids-none ((j, x) ∷ l) d k h =
    let later = member_ids-none l d k (λ m r p. h m r (Memᴰ.tail p)) in
    elim (Bool-cases (x.destination_id == d && in_destination x.state)) [
      | inl inside ↦ elim (Bool-cases (k == x.contact_id)) [
        | inl same ↦
            let out =
              h j x (Memᴰ.head refl) ((==_iff x.destination_id d).0 (ground arith))
                (sym ((==_iff k x.contact_id).0 same)) in
            absurd (ground (arith, out))
        | inr other ↦ rw inside (ground (arith, later))
      ]
      | inr outside ↦ rw outside later
    ]

IsOutside→not_excluded :
    (segment : Segment) (s : Session) (k : ℕ)
    → IsOutside segment s k
    → not_excluded segment.exclude_in_destination s k ≡ true
unfolding not_excluded already_member_contact_ids
IsOutside→not_excluded segment s k h = elim (Option-cases segment.exclude_in_destination) [
  | inl nowhere ↦ rw nowhere refl
  | inr (d, e) ↦ elim (Bool-cases (d == 0)) [
    | inl zero_key ↦ rw (e, zero_key) refl
    | inr ne ↦
        let out =
          member_ids-none s.memberships.rows d k
            (λ m r here at who. outside_destination r.state (h d m r e ne here at who)) in
        rw (e, ne, out) refl
  ]
]

mem-keep_of :
    (p : ℕ → Bool) (k : ℕ) (xs : List ℕ) → mem k xs ≡ true → p k ≡ true → mem k (keep p xs) ≡ true
mem-keep_of p k [] h e = h
mem-keep_of p k (x ∷ xs) h e = elim (Bool-cases (k == x)) [
  | inl same ↦
      let passes : p x ≡ true = ap p (sym ((==_iff k x).0 same)) ∙ e in rw passes (ground arith)
  | inr other ↦
      let later = mem-keep_of p k xs (ground arith) e in
      elim (Bool-cases (p x)) [ inl passes ↦ rw passes (ground arith) | inr fails ↦ rw fails later ]
]

matches-none : (o : Option Text) (test : Text → Bool) → o ≡ none → matches o test ≡ true
unfolding matches
matches-none o test e = rw e refl

build_segment_complete :
    (segment : Segment) (s : Session)
    → segment.source ≡ none
    → segment.stage ≡ none
    → segment.tag ≡ none
    → (k : ℕ) → IsMessageable s k
    → IsOutside segment s k
    → mem k (build_segment segment s) ≡ true
unfolding build_segment select in_segment has_tag
build_segment_complete segment s no_source no_stage no_tag k (c, m, agrees, stays) out =
    let found = select (in_segment segment) s.contacts in
    let passes : in_segment segment k c ≡ true = ground (
      arith,
      agrees,
      stays,
      matches-none segment.source _ no_source,
      matches-none segment.stage _ no_stage,
    ) in
    mem-keep_of (not_excluded segment.exclude_in_destination s) k
      (keep (has_tag segment.tag s.contacts) found)
      (mem-keep_of (has_tag segment.tag s.contacts) k found
        (mem-keys_where_of (in_segment segment) k c s.contacts.rows m passes)
        (matches-none segment.tag _ no_tag))
      (IsOutside→not_excluded segment s k out)

-- Whatever the filter is, a segment holds contacts that are in the database with consent and have
-- not opted out, and whose memberships of the destination that the segment excludes, where its
-- number is not 0, are all pending or failed; where the filter names no source, stage or tag, it
-- holds every such contact.
pub build_segment-IsMessageable :
    (segment : Segment) (s : Session)
    → All (λ k. IsMessageable s k × IsOutside segment s k) (build_segment segment s)
      × (segment.source ≡ none
          → segment.stage ≡ none
          → segment.tag ≡ none
          → (k : ℕ) → IsMessageable s k
          → IsOutside segment s k
          → mem k (build_segment segment s) ≡ true)
build_segment-IsMessageable segment s =
    (build_segment_sound segment s, build_segment_complete segment s)
