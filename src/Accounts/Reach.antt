-- ===== src/Accounts/Reach.antt =====
-- What the endpoints of accounts and proxies do to the pool, in any order.
use telegram_marketing_crm.Prelude.{ℕ, ◌≡◌, Bool, Option, some}
use telegram_marketing_crm.Prelude.Text.{Text}
use telegram_marketing_crm.Session.{Session}
use telegram_marketing_crm.Models.Account.{AccountStatus}
use telegram_marketing_crm.Proxies.{UrlParse, Imported, import_proxies}
use telegram_marketing_crm.Proxies.Pool.{IsPool}
use telegram_marketing_crm.Proxies.Added.{import_proxies-IsPool}
use telegram_marketing_crm.Accounts.Api.{
  AccountEngine, AccountCreate, AccountUpdate, create_endpoint, update_endpoint, delete_endpoint,
  qr_status_endpoint, qr_password_endpoint, phone_sign_in_endpoint, session_endpoint,
  logout_endpoint, status_endpoint, override_endpoint,
}
use telegram_marketing_crm.Accounts.Api.Kept.{update_endpoint-IsPool}
use telegram_marketing_crm.Accounts.Api.Created.{create_endpoint-IsPool, delete_endpoint-IsPool}
use telegram_marketing_crm.Accounts.Api.Login.{
  qr_status_endpoint-IsPool, qr_password_endpoint-IsPool, phone_sign_in_endpoint-IsPool,
  session_endpoint-IsPool, logout_endpoint-IsPool, status_endpoint-IsPool, override_endpoint-IsPool,
}
use telegram_marketing_crm.Accounts.Health.{
  spam_check_endpoint, ban_check_endpoint, unspam_endpoint, unfreeze_endpoint,
}
use telegram_marketing_crm.Accounts.Health.Kept.{
  spam_check_endpoint-IsPool, ban_check_endpoint-IsPool, unspam_endpoint-IsPool,
  unfreeze_endpoint-IsPool,
}

-- A request to an endpoint, with any answers of the engine service.
pub data Request (s : Session) : Session → Type 0 where
  imports :
      (urlparse : UrlParse) (raw_text : Text) (r : Imported × ℕ × Session)
      → import_proxies urlparse raw_text s ≡ some r
      → Request s r.2
  creates : (actor : ℕ) (payload : AccountCreate) → Request s (create_endpoint actor payload s).1
  updates :
      (actor k : ℕ) (payload : AccountUpdate) → Request s (update_endpoint actor k payload s).1
  deletes : (actor k : ℕ) → Request s (delete_endpoint actor k s).1
  asks_qr : (engine : AccountEngine) (k : ℕ) → Request s (qr_status_endpoint engine k s).1
  gives_password :
      (engine : AccountEngine) (k : ℕ) (password : Text)
      → Request s (qr_password_endpoint engine k password s).1
  signs_in :
      (engine : AccountEngine) (k : ℕ) (phone code hash : Text) (password : Option Text)
      → Request s (phone_sign_in_endpoint engine k phone code hash password s).1
  gives_session :
      (engine : AccountEngine) (k : ℕ) (text : Text)
      → Request s (session_endpoint engine k text s).1
  logs_out : (engine : AccountEngine) (actor k : ℕ) → Request s (logout_endpoint engine actor k s).1
  asks_status : (engine : AccountEngine) (k : ℕ) → Request s (status_endpoint engine k s).1
  overrides :
      (actor k : ℕ) (status : AccountStatus) → Request s (override_endpoint actor k status s).1
  checks_spam :
      (engine : AccountEngine) (auto : Bool) (actor k : ℕ)
      → Request s (spam_check_endpoint engine auto actor k s).1
  checks_ban : (engine : AccountEngine) (k : ℕ) → Request s (ban_check_endpoint engine k s).1
  appeals_spam :
      (engine : AccountEngine) (actor k : ℕ) → Request s (unspam_endpoint engine actor k s).1
  appeals_freeze :
      (engine : AccountEngine) (actor k : ℕ) → Request s (unfreeze_endpoint engine actor k s).1

pub data Reach (s : Session) : Session → Type 0 where
  here : Reach s s
  next : {t u : Session} → Reach s t → Request t u → Reach s u

Request-IsPool : (s t : Session) → IsPool s → Request s t → IsPool t
Request-IsPool s t h (Request.imports urlparse raw_text r e) =
    import_proxies-IsPool urlparse raw_text s r e h
Request-IsPool s t h (Request.creates actor payload) = create_endpoint-IsPool actor payload s h
Request-IsPool s t h (Request.updates actor k payload) = update_endpoint-IsPool actor k payload s h
Request-IsPool s t h (Request.deletes actor k) = delete_endpoint-IsPool actor k s h
Request-IsPool s t h (Request.asks_qr engine k) = qr_status_endpoint-IsPool engine k s h
Request-IsPool s t h (Request.gives_password engine k password) =
    qr_password_endpoint-IsPool engine k password s h
Request-IsPool s t h (Request.signs_in engine k phone code hash password) =
    phone_sign_in_endpoint-IsPool engine k phone code hash password s h
Request-IsPool s t h (Request.gives_session engine k text) =
    session_endpoint-IsPool engine k text s h
Request-IsPool s t h (Request.logs_out engine actor k) = logout_endpoint-IsPool engine actor k s h
Request-IsPool s t h (Request.asks_status engine k) = status_endpoint-IsPool engine k s h
Request-IsPool s t h (Request.overrides actor k status) =
    override_endpoint-IsPool actor k status s h
Request-IsPool s t h (Request.checks_spam engine auto actor k) =
    spam_check_endpoint-IsPool engine auto actor k s h
Request-IsPool s t h (Request.checks_ban engine k) = ban_check_endpoint-IsPool engine k s h
Request-IsPool s t h (Request.appeals_spam engine actor k) =
    unspam_endpoint-IsPool engine actor k s h
Request-IsPool s t h (Request.appeals_freeze engine actor k) =
    unfreeze_endpoint-IsPool engine actor k s h

-- In whatever order imports of proxies and requests to the endpoints of accounts come, and
-- whatever the engine answers, if at the start the two columns that link accounts and proxies
-- agree, nothing is pending among the proxies and their keys are distinct and below the next one,
-- all this holds afterwards: no proxy serves two accounts.
pub Reach-IsPool : (s t : Session) → IsPool s → Reach s t → IsPool t
Reach-IsPool s t h Reach.here = h
Reach-IsPool s t h (Reach.next {t = u} before request) =
    Request-IsPool u t (Reach-IsPool s u h before) request
