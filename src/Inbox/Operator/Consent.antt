-- ===== src/Inbox/Operator/Consent.antt =====
-- An operator's status and the consent of the contact.
use telegram_marketing_crm.Prelude.{
  ℕ, ◌≡◌, ap, ◌∙◌, sym, true, Option, none, some, ◌==◌, arith, inl, inr, Bool-cases, ==_iff,
}
use telegram_marketing_crm.Db.{Table, get, modify}
use telegram_marketing_crm.Db.Laws.{get-modify_self, get-modify_ne, get-flush}
use telegram_marketing_crm.Models.Contact.{Contact, ContactStage}
use telegram_marketing_crm.Models.Inbox.{ConversationStatus}
use telegram_marketing_crm.Session.{Session, commit}
use telegram_marketing_crm.Sender.Tick.{sendable}
use telegram_marketing_crm.Inbox.Operator.{set_status, sync_contact, to_stage, stage_of, contact_of}
use mathlib.Core.Option

to_stage-sendable :
    (stage : ContactStage) (o : Option Contact)
    → sendable (Option.map (to_stage stage) o) ≡ true
    → sendable o ≡ true
unfolding sendable to_stage
to_stage-sendable stage none h = h
to_stage-sendable ContactStage.new (some c) h = h
to_stage-sendable ContactStage.contacted (some c) h = h
to_stage-sendable ContactStage.replied (some c) h = h
to_stage-sendable ContactStage.joined (some c) h = h
to_stage-sendable ContactStage.customer (some c) h = h
to_stage-sendable ContactStage.opted_out (some c) h = ground arith

modify-sendable :
    (stage : ContactStage) (k j : ℕ) (t : Table Contact)
    → sendable (get j (modify k (to_stage stage) t)) ≡ true
    → sendable (get j t) ≡ true
modify-sendable stage k j t h = elim (Bool-cases (j == k)) [
  | inl same ↦
      let at_k : sendable (get k t) ≡ true = to_stage-sendable stage (get k t) (
        ap sendable (
          sym (get-modify_self k (to_stage stage) t)
          ∙ ap (λ i. get i (modify k (to_stage stage) t)) (sym ((==_iff j k).0 same)))
        ∙ h) in
      ap (λ i. sendable (get i t)) ((==_iff j k).0 same) ∙ at_k
  | inr other ↦ ap sendable (sym (get-modify_ne j k (to_stage stage) t other)) ∙ h
]

sync_contact-sendable :
    (stage : Option ContactStage) (contact : Option ℕ) (j : ℕ) (s : Session)
    → sendable (get j (sync_contact stage contact s).contacts) ≡ true
    → sendable (get j s.contacts) ≡ true
unfolding sync_contact
sync_contact-sendable none contact j s h = h
sync_contact-sendable (some stage) none j s h = h
sync_contact-sendable (some stage) (some k) j s h = elim (Bool-cases (k == 0)) [
  | inl zero_key ↦ rw zero_key at h
  | inr key ↦ modify-sendable stage k j s.contacts (rw key at h)
]

-- Whatever status an operator gives to a conversation, a contact that the ticks may send to
-- afterwards is one that they might send to before.
pub set_status-sendable :
    (conversation : ℕ) (status : ConversationStatus) (j : ℕ) (s : Session)
    → sendable (get j (set_status conversation status s).contacts) ≡ true
    → sendable (get j s.contacts) ≡ true
unfolding set_status commit
set_status-sendable conversation status j s h =
    sync_contact-sendable (stage_of status) (contact_of (get conversation s.conversations)) j
      (record s {
        conversations = modify conversation (λ r. record r { status = status }) s.conversations;
      })
      (ap sendable (sym (get-flush j _)) ∙ h)
