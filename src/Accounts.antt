-- ===== src/Accounts.antt =====
-- The accounts (backend/app/services/accounts.py). The endpoints that call these functions are in
-- Accounts/Api.antt.
pub mod Api
pub mod Health
pub mod Pool
pub mod Reach
use telegram_marketing_crm.Prelude.{ℕ, Bool, true, Option, none, some, ◌∷◌, ◌==◌, if◌then◌else◌}
use telegram_marketing_crm.Prelude.Text.{Text, codes, show, strip_left, starts_with, present}
use telegram_marketing_crm.Db.{modify, add}
use telegram_marketing_crm.Models.Account.{Account, AccountStatus}
use telegram_marketing_crm.Session.{Session, commit}

abbrev new_account : Text → Option Text → Option Text → Option Text → Account
new_account label phone api_id api_hash = record {
  label = label;
  phone = phone;
  api_id = api_id;
  api_hash = api_hash;
  tg_user_id = none;
  tg_username = none;
  tg_first_name = none;
  session_ref = none;
  proxy_id = none;
  status = AccountStatus.logged_out;
  warmup_stage = 0;
  warmup_started_at = none;
  daily_cap = 30;
  actions_today = 0;
  last_action_at = none;
  spam_state = codes "unknown";
}

unfoldable pub create_account :
    Text → Option Text → Option Text → Option Text → Session → ℕ × Session
create_account label phone api_id api_hash s = (
  s.accounts.next,
  commit (record s { accounts = add (new_account label phone api_id api_hash) s.accounts }),
)

-- An assignment to attributes of an account.
unfoldable pub change_account : ℕ → (Account → Account) → Session → Session
unfolding modify
change_account k f s = record s { accounts = modify k f s.accounts }

unfoldable pub set_status : ℕ → AccountStatus → Session → Session
unfolding change_account
set_status k status s = commit (change_account k (λ r. record r { status = status }) s)

unfoldable pub set_spam_state : ℕ → Text → Session → Session
unfolding change_account
set_spam_state k spam_state s =
    commit (change_account k (λ r. record r { spam_state = spam_state }) s)

unfoldable pub quarantine : ℕ → Session → Session
unfolding change_account
quarantine k s = commit (change_account k (λ r. record r { status = AccountStatus.quarantined }) s)

-- The engine's user payload; `user_id` is what `int` makes of the id, `none` where it fails.
pub record TelegramUser : Type 0 where
  pub user_id : Option ℕ
  pub username : Option Text
  pub first_name : Option Text
  pub phone : Option Text

id_or_kept : Option ℕ → Option ℕ → Option ℕ
id_or_kept none kept = kept
id_or_kept (some k) kept = some k

-- `str(username).lstrip("@")`
username_or_kept : Option Text → Option Text → Option Text
unfolding strip_left
username_or_kept (some (c ∷ u)) kept = some (strip_left (λ d. d == b'@') (c ∷ u))
username_or_kept _ kept = kept

text_or_kept : Option Text → Option Text → Option Text
text_or_kept (some (c ∷ u)) kept = some (c ∷ u)
text_or_kept _ kept = kept

-- A phone that the operator typed in stays.
phone_or_kept : Option Text → Option Text → Option Text
unfolding starts_with
phone_or_kept reported (some (c ∷ phone)) = some (c ∷ phone)
phone_or_kept (some (c ∷ p)) kept =
    some (if starts_with (codes "+") (c ∷ p) then c ∷ p else b'+' ∷ c ∷ p)
phone_or_kept _ kept = kept

unfoldable pub identified : TelegramUser → Account → Account
unfolding id_or_kept username_or_kept text_or_kept phone_or_kept
identified u r = record r {
  tg_user_id = id_or_kept u.user_id r.tg_user_id;
  tg_username = username_or_kept u.username r.tg_username;
  tg_first_name = text_or_kept u.first_name r.tg_first_name;
  phone = phone_or_kept u.phone r.phone;
}

-- `record_identity` without its commit, as `mark_logged_in` calls it.
unfoldable pub put_identity : ℕ → Option TelegramUser → Session → Session
unfolding change_account identified
put_identity k none s = s
put_identity k (some u) s = change_account k (identified u) s

-- `if not fields`: there is something to record.
has_fields : TelegramUser → Bool
has_fields u = elim u.user_id [
  | some k ↦ true
  | none ↦
      if present u.username then true else if present u.first_name then true else present u.phone
]

unfoldable pub record_identity : ℕ → Option TelegramUser → Session → Session
unfolding put_identity has_fields
record_identity k none s = s
record_identity k (some u) s = if has_fields u then commit (put_identity k (some u) s) else s

unfoldable pub mark_logged_in : ℕ → Option TelegramUser → Session → Session
unfolding change_account put_identity
mark_logged_in k user s = commit (
    put_identity k user (
      change_account k
        (λ r. record r { session_ref = some (show k); status = AccountStatus.active }) s))

relabelled : ℕ → Option Text → Session → Session
unfolding change_account
relabelled k none s = s
relabelled k (some label) s = change_account k (λ r. record r { label = label }) s

unfoldable pub update_account : ℕ → Option Text → Session → Session
unfolding relabelled
update_account k label s = commit (relabelled k label s)

unfoldable pub mark_logged_out : ℕ → Session → Session
unfolding change_account
mark_logged_out k s =
    commit
      (change_account k (λ r. record r { session_ref = none; status = AccountStatus.logged_out }) s)

text_or : Option Text → Text → Text
text_or (some (c ∷ s)) shared = c ∷ s
text_or _ shared = shared

-- The account's credentials, or the shared ones of the settings.
unfoldable pub effective_api_credentials : Text → Text → Account → Text × Text
unfolding text_or
effective_api_credentials shared_id shared_hash account =
    (text_or account.api_id shared_id, text_or account.api_hash shared_hash)
