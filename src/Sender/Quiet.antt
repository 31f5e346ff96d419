-- ===== src/Sender/Quiet.antt =====
-- What the tick relies on in its executor, and the executor of the program that has it.
use telegram_marketing_crm.Db.{get}
use telegram_marketing_crm.Models.Account.{Account}
use telegram_marketing_crm.Engine.{SendReply, Engine}
use telegram_marketing_crm.Contacts.{display_label, send_identifier}
use mathlib.Core.Path.{refl}
use telegram_marketing_crm.Models.Contact.{Contact}
use telegram_marketing_crm.Prelude.Text.{Text}
use telegram_marketing_crm.Sender.Executor.{
  land_in_inbox, after_send, send_to, with_objects, build_executor, proxy_of,
}
use telegram_marketing_crm.Inbox.{get_or_create_conversation, record_outgoing, create_or_backfill}
use telegram_marketing_crm.Sender.Tick.{ExecuteFn}
use telegram_marketing_crm.Session.{Session, commit}
use telegram_marketing_crm.Prelude.{ℕ, ◌≡◌, ◌⊎◌, Option, some, inr, inl, none, Bool-cases, suc}

-- The session's accounts, contacts, jobs and targets hold what they held.
pub record SameObjects (s s' : Session) : Type 0 where
  pub accounts : s'.accounts.objects ≡ s.accounts.objects
  pub contacts : s'.contacts.objects ≡ s.contacts.objects
  pub send_jobs : s'.send_jobs.objects ≡ s.send_jobs.objects
  pub send_targets : s'.send_targets.objects ≡ s.send_targets.objects

-- The rows of the targets are as they were, or every pending change to them has been written.
abbrev pub FlushedOrNot : Session → Session → Type 0
FlushedOrNot s s' =
    (s'.send_targets.rows ≡ s.send_targets.rows) ⊎ (s'.send_targets.rows ≡ s.send_targets.objects)

-- An executor leaves the objects of the tick alone, and may commit.
pub record IsQuiet (execute : ExecuteFn) : Type 0 where
  pub same : (a c : ℕ) (body : Text) (s : Session) → SameObjects s (execute a c body s).1
  pub flushes : (a c : ℕ) (body : Text) (s : Session) → FlushedOrNot s (execute a c body s).1

pub same_refl : (s : Session) → SameObjects s s
same_refl s = record { accounts = refl; contacts = refl; send_jobs = refl; send_targets = refl }

create_or_backfill-same :
    (account : ℕ) (peer : Option ℕ) (name username : Option Text) (contact : Option ℕ) (s : Session)
    (o : Option ℕ)
    → let s' = (create_or_backfill account peer name username contact s o).1 in
      SameObjects s s' × FlushedOrNot s s'
unfolding create_or_backfill commit
create_or_backfill-same account peer name username contact s none =
    (record { accounts = refl; contacts = refl; send_jobs = refl; send_targets = refl }, inr refl)
create_or_backfill-same account peer name username contact s (some k) =
    (record { accounts = refl; contacts = refl; send_jobs = refl; send_targets = refl }, inl refl)

pub land_in_inbox-same :
    (clock : ℕ) (agent : Option ℕ) (a c : ℕ) (con : Contact) (body : Text) (s : Session)
    → let s' = land_in_inbox clock agent a c con body s in
      SameObjects s s' × (s'.send_targets.rows ≡ s.send_targets.objects)
unfolding land_in_inbox record_outgoing commit get_or_create_conversation
land_in_inbox-same clock agent a c con body s =
    let found =
      create_or_backfill-same a con.telegram_user_id (some (display_label c con)) none (some c) s
        _ in
    let same = found.0 in
    (
      record {
        accounts = same.accounts;
        contacts = same.contacts;
        send_jobs = same.send_jobs;
        send_targets = same.send_targets;
      },
      same.send_targets,
    )

after_send-same :
    (clock : ℕ) (agent : Option ℕ) (a c : ℕ) (con : Contact) (body : Text) (s : Session)
    (o : Option SendReply)
    → let s' = (after_send clock agent a c con body s o).1 in SameObjects s s' × FlushedOrNot s s'
unfolding after_send
after_send-same clock agent a c con body s none = (same_refl s, inl refl)
after_send-same clock agent a c con body s (some reply) = elim (Bool-cases reply.sent) [
  | inl sent ↦
      let landed = land_in_inbox-same clock agent a c con body s in rw sent (landed.0, inr landed.1)
  | inr refused ↦ rw refused (same_refl s, inl refl)
]

send_to-same :
    (engine : Engine) (clock : ℕ) (agent : Option ℕ) (a : ℕ) (acc : Account) (c : ℕ) (con : Contact)
    (body : Text) (s : Session) (o : Option Text)
    → let s' = (send_to engine clock agent a acc c con body s o).1 in
      SameObjects s s' × FlushedOrNot s s'
unfolding send_to
send_to-same engine clock agent a acc c con body s none = (same_refl s, inl refl)
send_to-same engine clock agent a acc c con body s (some target) =
    let (same, flushed) =
      after_send-same clock agent a c con body (record s { calls = suc s.calls })
        (engine.send_message s.calls a acc (proxy_of acc s) target body) in
    (
      record {
        accounts = same.accounts;
        contacts = same.contacts;
        send_jobs = same.send_jobs;
        send_targets = same.send_targets;
      },
      flushed,
    )

with_objects-same :
    (engine : Engine) (clock : ℕ) (agent : Option ℕ) (a c : ℕ) (body : Text) (s : Session)
    (oa : Option Account) (oc : Option Contact)
    → let s' = (with_objects engine clock agent a c body s oa oc).1 in
      SameObjects s s' × FlushedOrNot s s'
unfolding with_objects
with_objects-same engine clock agent a c body s (some acc) (some con) =
    send_to-same engine clock agent a acc c con body s (send_identifier con)
with_objects-same engine clock agent a c body s (some acc) none = (same_refl s, inl refl)
with_objects-same engine clock agent a c body s none oc = (same_refl s, inl refl)

-- The executor that the program builds is quiet, whatever the engine answers: it changes no
-- account, contact, job or target of the session, and leaves the rows of the targets as they were
-- or writes all that is pending there.
pub build_executor-IsQuiet :
    (engine : Engine) (clock : ℕ) (agent : Option ℕ) → IsQuiet (build_executor engine clock agent)
unfolding build_executor
build_executor-IsQuiet engine clock agent = record {
  same = λ a c body s.
      (with_objects-same engine clock agent a c body s (get a s.accounts) (get c s.contacts)).0;
  flushes = λ a c body s.
      (with_objects-same engine clock agent a c body s (get a s.accounts) (get c s.contacts)).1;
}
