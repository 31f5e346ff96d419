-- ===== src/Contacts/Edit.antt =====
-- Edits, lookups and messages of one contact (backend/app/services/contacts.py).
use telegram_marketing_crm.Prelude.{
  ℕ, suc, Bool, true, false, ◌&&◌, ◌||◌, Option, none, some, ◌∷◌, if◌then◌else◌, head?, is_some,
  ◌⊎◌, inl, inr,
}
use telegram_marketing_crm.Prelude.Text.{Text, present}
use telegram_marketing_crm.Db.{get, modify, select}
use telegram_marketing_crm.Models.Account.{Account, AccountStatus}
use telegram_marketing_crm.Models.Contact.{Contact, LeadType, ResolutionStatus, ContactStage}
use telegram_marketing_crm.Session.{Session, commit}
use telegram_marketing_crm.Engine.{Engine, ResolveReply, SendReply}
use telegram_marketing_crm.Sender.Executor.{proxy_of}
use telegram_marketing_crm.Contacts.{
  normalize_phone, normalize_username, send_identifier, present_id,
}
use telegram_marketing_crm.Contacts.Store.{Conflict, find_conflict, lead_type_of}

-- The dictionary `updates`: the outer `none` is a key that is missing.
pub record ContactUpdates : Type 0 where
  pub name : Option (Option Text)
  pub phone : Option (Option Text)
  pub username : Option (Option Text)
  pub source : Option (Option Text)
  pub notes : Option (Option Text)

normalized_by : (Option Text → Option Text) → Option (Option Text) → Option (Option Text)
normalized_by f none = none
normalized_by f (some value) = some (f value)

unfoldable pub normalized : ContactUpdates → ContactUpdates
unfolding normalized_by
normalized u = record u {
  phone = normalized_by normalize_phone u.phone;
  username = normalized_by normalize_username u.username;
}

-- `updates[key] if key in updates else contact.key`
unfoldable pub set_or_kept : Option (Option Text) → Option Text → Option Text
set_or_kept none kept = kept
set_or_kept (some value) kept = value

given : Option (Option Text) → Option Text
given none = none
given (some value) = value

unfoldable pub edited : ContactUpdates → Contact → Contact
unfolding set_or_kept
edited u c = record c {
  name = set_or_kept u.name c.name;
  phone = set_or_kept u.phone c.phone;
  username = set_or_kept u.username c.username;
  source = set_or_kept u.source c.source;
  notes = set_or_kept u.notes c.notes;
  lead_type = lead_type_of (set_or_kept u.phone c.phone);
}

-- What `edit_contact` raises: a ValueError, or DuplicateContact.
pub data EditError : Type 0 where
  no_identifier : EditError
  duplicate : Conflict → EditError

unless_conflict : ℕ → ContactUpdates → Session → Option Conflict → EditError ⊎ Session
unfolding edited
unless_conflict k u s (some conflict) = inl (EditError.duplicate conflict)
unless_conflict k u s none = inr (commit (record s { contacts = modify k (edited u) s.contacts }))

edit_normalized : ℕ → Contact → ContactUpdates → Session → EditError ⊎ Session
unfolding unless_conflict set_or_kept given find_conflict
edit_normalized k c u s =
    if present (set_or_kept u.phone c.phone) || present (set_or_kept u.username c.username)
    then unless_conflict k u s (find_conflict (given u.phone) (given u.username) (some k) s)
    else inl EditError.no_identifier

-- The contact is the object with the key.
unfoldable pub edit_contact : ℕ → Contact → ContactUpdates → Session → EditError ⊎ Session
unfolding edit_normalized normalized
edit_contact k c updates s = edit_normalized k c (normalized updates) s

may_resolve : AccountStatus → Bool
may_resolve AccountStatus.active = true
may_resolve AccountStatus.warming = true
may_resolve _ = false

-- The first account that is logged in, and active or warming, as the database has it.
unfoldable pub any_resolver : Session → Option ℕ
unfolding may_resolve
any_resolver s = head? (select (λ k r. is_some r.session_ref && may_resolve r.status) s.accounts)

assigned_or_any : Option ℕ → Option Account → Session → Option ℕ
unfolding may_resolve any_resolver
assigned_or_any (some k) (some a) s =
    if present_id (some k) && (present a.session_ref && may_resolve a.status)
    then some k
    else any_resolver s
assigned_or_any _ _ s = any_resolver s

assigned_account : Option ℕ → Session → Option Account
assigned_account none s = none
assigned_account (some k) s = get k s.accounts

unfoldable pub pick_resolver_account : Contact → Session → Option ℕ
unfolding assigned_or_any assigned_account
pick_resolver_account c s =
    assigned_or_any c.assigned_account_id (assigned_account c.assigned_account_id s) s

status_or_failed : Option ResolutionStatus → ResolutionStatus
status_or_failed none = ResolutionStatus.failed
status_or_failed (some status) = status

-- NoResolverAccount and EngineUnavailable are exceptions.
pub data ResolveError : Type 0 where
  no_resolver_account engine_unavailable : ResolveError

set_resolution : ℕ → (Contact → Contact) → Session → Session
set_resolution k f s = commit (record s { contacts = modify k f s.contacts })

resolved : ℕ → Session → Option ResolveReply → ResolveError ⊎ Session
unfolding status_or_failed set_resolution
resolved k s none = inl ResolveError.engine_unavailable
resolved k s (some reply) = inr (
    set_resolution k
      (λ r. record r {
        telegram_user_id = reply.user_id;
        resolution_status = status_or_failed reply.status;
      })
      s)

unresolvable : ℕ → Session → ResolveError ⊎ Session
unfolding set_resolution
unresolvable k s =
    inr (set_resolution k (λ r. record r { resolution_status = ResolutionStatus.failed }) s)

resolve_through :
    Engine
    → ℕ
    → Account
    → ℕ
    → LeadType
    → Option Text
    → Option Text
    → Session
    → ResolveError ⊎ Session
unfolding resolved unresolvable
resolve_through engine a acc k LeadType.username (some (c ∷ username)) phone s =
    resolved k (record s { calls = suc s.calls })
      (engine.resolve_username s.calls a acc (proxy_of acc s) (c ∷ username))
resolve_through engine a acc k LeadType.phone username (some (c ∷ phone)) s =
    resolved k (record s { calls = suc s.calls })
      (engine.resolve_phone s.calls a acc (proxy_of acc s) (c ∷ phone))
resolve_through engine a acc k _ _ _ s = unresolvable k s

resolve_by : Engine → ℕ → Contact → Session → Option ℕ → Option Account → ResolveError ⊎ Session
unfolding resolve_through
resolve_by engine k c s (some a) (some acc) =
    resolve_through engine a acc k c.lead_type c.username c.phone s
resolve_by engine k c s _ _ = inl ResolveError.no_resolver_account

unfoldable pub resolve_contact : Engine → ℕ → Contact → Session → ResolveError ⊎ Session
unfolding resolve_by pick_resolver_account assigned_account
resolve_contact engine k c s =
    let a = pick_resolver_account c s in resolve_by engine k c s a (assigned_account a s)

-- ValueError and EngineUnavailable are exceptions.
pub data MessageError : Type 0 where
  no_reachable_identifier engine_unavailable : MessageError

contacted : ContactStage → ContactStage
contacted ContactStage.new = ContactStage.contacted
contacted stage = stage

sent_message : ℕ → ℕ → Session → Option SendReply → MessageError ⊎ Session
unfolding contacted
sent_message now k s none = inl MessageError.engine_unavailable
sent_message now k s (some reply) =
    if reply.sent
    then inr (
        commit (record s {
          contacts =
              modify k (λ r. record r { last_contacted_at = some now; stage = contacted r.stage })
                s.contacts;
        }))
    else inl MessageError.engine_unavailable

message_to : Engine → ℕ → ℕ → ℕ → Account → Text → Session → Option Text → MessageError ⊎ Session
unfolding sent_message
message_to engine now k a acc text s none = inl MessageError.no_reachable_identifier
message_to engine now k a acc text s (some target) =
    sent_message now k (record s { calls = suc s.calls })
      (engine.send_message s.calls a acc (proxy_of acc s) target text)

-- The account is the object with the key `a`.
unfoldable pub message_contact :
    Engine → ℕ → ℕ → Contact → ℕ → Account → Text → Session → MessageError ⊎ Session
unfolding message_to send_identifier
message_contact engine now k c a acc text s =
    message_to engine now k a acc text s (send_identifier c)
