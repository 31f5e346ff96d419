-- ===== src/Accounts/Pool.antt =====
-- Every endpoint of the accounts keeps the pool of proxies.
use telegram_marketing_crm.Prelude.{
  ℕ, ◌≡◌, refl, ap, ◌∙◌, Option, none, some, List, ◌==◌, Bool-cases, Option-cases, inl, inr,
}
use telegram_marketing_crm.Prelude.Text.{Text}
use telegram_marketing_crm.Db.{Table, get, modify, flush}
use telegram_marketing_crm.Db.Laws.{get-modify}
use telegram_marketing_crm.Models.Account.{Account, AccountStatus}
use telegram_marketing_crm.Models.Event.{ActorType, MetaValue}
use telegram_marketing_crm.Session.{Session, commit}
use telegram_marketing_crm.Audit.{record_event, add_event}
use telegram_marketing_crm.Proxies.Links.{IsLinked, IsLinked-same, proxy_in, proxy_of_object}
use telegram_marketing_crm.Proxies.Pool.{IsPool, commit-IsPool}
use telegram_marketing_crm.Accounts.{
  TelegramUser, change_account, identified, put_identity, has_fields, record_identity,
  mark_logged_in, mark_logged_out, set_status, set_spam_state, update_account, relabelled, show,
}

-- A change of an account's other attributes.
abbrev KeepsProxy : (Account → Account) → Type 0
KeepsProxy f = (x : Account) → (f x).proxy_id ≡ x.proxy_id

proxy_in-keep :
    (j k : ℕ) (f : Account → Account) (t : Table Account)
    → KeepsProxy f
    → proxy_in j (modify k f t) ≡ proxy_in j t
proxy_in-keep j k f t keeps = elim (Option-cases (get j t)) [
  | inl missing ↦ elim (Bool-cases (j == k)) [
    | inl same ↦ ap proxy_of_object (get-modify j k f t) ∙ rw (same, missing) refl
    | inr other ↦ ap proxy_of_object (get-modify j k f t) ∙ rw (other, missing) refl
  ]
  | inr (x, found) ↦ elim (Bool-cases (j == k)) [
    | inl same ↦ ap proxy_of_object (get-modify j k f t) ∙ rw (same, found) (keeps x)
    | inr other ↦ ap proxy_of_object (get-modify j k f t) ∙ rw (other, found) refl
  ]
]

pub change_account-IsLinked :
    (k : ℕ) (f : Account → Account) (s : Session)
    → KeepsProxy f
    → IsLinked s
    → IsLinked (change_account k f s)
unfolding change_account
change_account-IsLinked k f s keeps h =
    IsLinked-same s (record s { accounts = modify k f s.accounts })
      (λ a. proxy_in-keep a k f s.accounts keeps) (λ p. refl) h

-- A change of an account, written.
pub changed-IsPool :
    (k : ℕ) (f : Account → Account) (s : Session)
    → KeepsProxy f
    → IsPool s
    → IsPool (commit (change_account k f s))
unfolding change_account
changed-IsPool k f s keeps h =
    commit-IsPool (change_account k f s) (change_account-IsLinked k f s keeps h.linked) h.keyed

pub record_event-IsPool :
    (t : Text) (by : ActorType) (id : Option ℕ) (ref : Option Text) (m : List (Text × MetaValue))
    (s : Session)
    → IsPool s
    → IsPool (record_event t by id ref m s)
unfolding record_event add_event
record_event-IsPool t by id ref m s h =
    let s' = add_event t by id ref m s in
    commit-IsPool s' (IsLinked-same s s' (λ a. refl) (λ p. refl) h.linked) h.keyed

pub record_event-proxy_in :
    (t : Text) (by : ActorType) (id : Option ℕ) (ref : Option Text) (m : List (Text × MetaValue))
    (j : ℕ) (s : Session)
    → proxy_in j (record_event t by id ref m s).accounts ≡ proxy_in j s.accounts
unfolding record_event add_event commit flush get
record_event-proxy_in t by id ref m j s = refl

identified-KeepsProxy : (u : TelegramUser) → KeepsProxy (identified u)
unfolding identified
identified-KeepsProxy u x = refl

pub set_status-IsPool :
    (k : ℕ) (status : AccountStatus) (s : Session) → IsPool s → IsPool (set_status k status s)
unfolding set_status
set_status-IsPool k status s h =
    changed-IsPool k (λ r. record r { status = status }) s (λ x. refl) h

pub set_spam_state-IsPool :
    (k : ℕ) (t : Text) (s : Session) → IsPool s → IsPool (set_spam_state k t s)
unfolding set_spam_state
set_spam_state-IsPool k t s h = changed-IsPool k (λ r. record r { spam_state = t }) s (λ x. refl) h

pub mark_logged_out-IsPool : (k : ℕ) (s : Session) → IsPool s → IsPool (mark_logged_out k s)
unfolding mark_logged_out
mark_logged_out-IsPool k s h =
    changed-IsPool k (λ r. record r { session_ref = none; status = AccountStatus.logged_out }) s
      (λ x. refl) h

put_identity-IsLinked :
    (k : ℕ) (u : Option TelegramUser) (s : Session) → IsLinked s → IsLinked (put_identity k u s)
unfolding put_identity
put_identity-IsLinked k none s h = h
put_identity-IsLinked k (some u) s h =
    change_account-IsLinked k (identified u) s (identified-KeepsProxy u) h

put_identity-proxies :
    (k : ℕ) (u : Option TelegramUser) (s : Session) → (put_identity k u s).proxies ≡ s.proxies
unfolding put_identity change_account
put_identity-proxies k none s = refl
put_identity-proxies k (some u) s = refl

pub mark_logged_in-IsPool :
    (k : ℕ) (u : Option TelegramUser) (s : Session) → IsPool s → IsPool (mark_logged_in k u s)
unfolding mark_logged_in
mark_logged_in-IsPool k u s h =
    let f =
      λ (r : Account). record r { session_ref = some (show k); status = AccountStatus.active } in
    let s' = change_account k f s in
    commit-IsPool (put_identity k u s')
      (put_identity-IsLinked k u s' (change_account-IsLinked k f s (λ x. refl) h.linked))
      (rw (put_identity-proxies k u s') (unfold change_account in h.keyed))

pub record_identity-IsPool :
    (k : ℕ) (u : Option TelegramUser) (s : Session) → IsPool s → IsPool (record_identity k u s)
unfolding record_identity put_identity
record_identity-IsPool k none s h = h
record_identity-IsPool k (some u) s h = elim (Bool-cases (has_fields u)) [
  | inl any ↦ rw any (changed-IsPool k (identified u) s (identified-KeepsProxy u) h)
  | inr none_given ↦ rw none_given h
]

pub update_account-IsPool :
    (k : ℕ) (label : Option Text) (s : Session) → IsPool s → IsPool (update_account k label s)
unfolding update_account relabelled
update_account-IsPool k none s h = commit-IsPool s h.linked h.keyed
update_account-IsPool k (some label) s h =
    changed-IsPool k (λ r. record r { label = label }) s (λ x. refl) h
