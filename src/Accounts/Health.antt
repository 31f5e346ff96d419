-- ===== src/Accounts/Health.antt =====
-- The health checks and appeals of an account (backend/app/api/accounts.py).
pub mod Kept
use mathlib.Core.List.{reverse}
use telegram_marketing_crm.Prelude.{
  ℕ, suc, Bool, true, false, not, Option, none, some, List, [], ◌∷◌, ◌++◌, if◌then◌else◌,
}
use telegram_marketing_crm.Prelude.Text.{Text, codes, text_eq, present}
use telegram_marketing_crm.Db.{get, select}
use telegram_marketing_crm.Models.Account.{Account, AccountStatus}
use telegram_marketing_crm.Models.Event.{ActorType, MetaValue}
use telegram_marketing_crm.Session.{Session}
use telegram_marketing_crm.Audit.{record_event}
use telegram_marketing_crm.Sender.Executor.{proxy_of}
use telegram_marketing_crm.Accounts.{set_spam_state, set_status, mark_logged_out}
use telegram_marketing_crm.Accounts.Api.{
  AccountEngine, Response, account_ref, or_404, status_text, called,
}

-- `data.get(key, default)`
text_or_default : Option Text → Text → Text
text_or_default none default = default
text_or_default (some t) default = t

-- `_get_account_or_404`, then `_require_logged_in`.
logged_in_or_400 : Option Account → (Account → Response × Session) → Session → Response × Session
unfolding or_404
logged_in_or_400 found f s =
    or_404 found (λ a. if present a.session_ref then f a else (Response.http_error 400, s)) s

quarantine_event : ℕ → Text → AccountStatus → Session → Session
unfolding record_event status_text
quarantine_event k reason status s =
    record_event (codes "account.quarantine") ActorType.system none (account_ref k)
      ((codes "reason", MetaValue.text reason)
        ∷ (codes "status", MetaValue.text (status_text status))
        ∷ [])
      s

quarantine_as : ℕ → Text → AccountStatus → Session → Session
unfolding set_status quarantine_event
quarantine_as k spam_state status s =
    quarantine_event k (codes "spam_state=" ++ spam_state) status (set_status k status s)

-- `auto` is `settings.auto_quarantine_on_warning`.
unfoldable pub judge_spam : Bool → ℕ → Text → Session → Session
unfolding quarantine_as text_eq
judge_spam auto k spam_state s =
    if not auto
    then s
    else if text_eq spam_state (codes "banned")
    then quarantine_as k spam_state AccountStatus.banned s
    else if text_eq spam_state (codes "limited")
    then quarantine_as k spam_state AccountStatus.quarantined s
    else s

after_spam_check : Bool → ℕ → ℕ → Option (Option Text) → Session → Response × Session
unfolding judge_spam set_spam_state record_event text_or_default
after_spam_check auto actor k none s = (Response.http_error 502, s)
after_spam_check auto actor k (some answer) s =
    let spam_state = text_or_default answer (codes "unknown") in
    (
      Response.success,
      record_event (codes "account.spam_check") ActorType.user (some actor) (account_ref k)
          ((codes "spam_state", MetaValue.text spam_state) ∷ [])
          (judge_spam auto k spam_state (set_spam_state k spam_state s)),
    )

unfoldable pub judge_ban : ℕ → Text → Session → Session
unfolding text_eq set_status quarantine_event mark_logged_out
judge_ban k state s =
    if text_eq state (codes "banned")
    then quarantine_event k (codes "ban_check") AccountStatus.banned
        (set_status k AccountStatus.banned s)
    else if text_eq state (codes "unauthorized")
    then mark_logged_out k s
    else s

after_ban_check : ℕ → Option (Option Text) → Session → Response × Session
unfolding judge_ban text_or_default
after_ban_check k none s = (Response.http_error 502, s)
after_ban_check k (some answer) s =
    (Response.success, judge_ban k (text_or_default answer (codes "error")) s)

after_appeal : ℕ → ℕ → Text → Bool → Session → Response × Session
unfolding record_event
after_appeal actor k request false s = (Response.http_error 502, s)
after_appeal actor k request true s =
    (Response.success, record_event request ActorType.user (some actor) (account_ref k) [] s)

module _ (engine : AccountEngine) where
  unfoldable pub spam_check_endpoint : Bool → ℕ → ℕ → Session → Response × Session
  unfolding logged_in_or_400 after_spam_check proxy_of
  spam_check_endpoint auto actor k s =
      logged_in_or_400 (get k s.accounts)
        (λ a.
          after_spam_check auto actor k (engine.spam_check s.calls k a (proxy_of a s)) (called s))
        s

  unfoldable pub ban_check_endpoint : ℕ → Session → Response × Session
  unfolding logged_in_or_400 after_ban_check proxy_of
  ban_check_endpoint k s =
      logged_in_or_400 (get k s.accounts)
        (λ a. after_ban_check k (engine.ban_check s.calls k a (proxy_of a s)) (called s)) s

  unfoldable pub unspam_endpoint : ℕ → ℕ → Session → Response × Session
  unfolding logged_in_or_400 after_appeal proxy_of
  unspam_endpoint actor k s =
      logged_in_or_400 (get k s.accounts)
        (λ a.
          after_appeal actor k (codes "account.unspam_request")
            (engine.request_unspam s.calls k a (proxy_of a s)) (called s))
        s

  unfoldable pub unfreeze_endpoint : ℕ → ℕ → Session → Response × Session
  unfolding logged_in_or_400 after_appeal proxy_of
  unfreeze_endpoint actor k s =
      logged_in_or_400 (get k s.accounts)
        (λ a.
          after_appeal actor k (codes "account.unfreeze_request")
            (engine.request_unfreeze s.calls k a (proxy_of a s)) (called s))
        s

  reconnect_one : ℕ → Option Account → ℕ × ℕ × Session → ℕ × ℕ × Session
  unfolding proxy_of
  reconnect_one k none (started, failed, s) = (started, failed, s)
  reconnect_one k (some a) (started, failed, s) =
      if not (present a.session_ref)
      then (started, failed, s)
      else if engine.start_client s.calls k a (proxy_of a s)
      then (suc started, failed, called s)
      else (started, suc failed, called s)

  reconnect_from : List ℕ → ℕ × ℕ × Session → ℕ × ℕ × Session
  unfolding reconnect_one
  reconnect_from [] st = st
  reconnect_from (k ∷ ks) st = reconnect_from ks (reconnect_one k (get k st.2.accounts) st)

  -- How many clients were started, and how many were not; the latest account comes first.
  unfoldable pub reconnect_endpoint : Session → ℕ × ℕ × Session
  unfolding reconnect_from
  reconnect_endpoint s = reconnect_from (reverse (select (λ k r. true) s.accounts)) (0, 0, s)
