-- ===== src/Accounts/Api/Login.antt =====
-- The login, the logout and the status of an account keep the pool of proxies.
use telegram_marketing_crm.Prelude.{ℕ, Bool, true, false, Option, none, some, inl, inr, Bool-cases}
use telegram_marketing_crm.Prelude.Text.{Text, option_text_eq, codes}
use telegram_marketing_crm.Db.{get}
use telegram_marketing_crm.Models.Account.{AccountStatus}
use telegram_marketing_crm.Session.{Session}
use telegram_marketing_crm.Proxies.Pool.{IsPool}
use telegram_marketing_crm.Accounts.{TelegramUser, set_status, mark_logged_out}
use telegram_marketing_crm.Accounts.Pool.{
  record_event-IsPool, set_status-IsPool, mark_logged_in-IsPool, mark_logged_out-IsPool,
  record_identity-IsPool,
}
use telegram_marketing_crm.Accounts.Api.{
  AccountEngine, LoginReply, called, after_login, after_logout, after_status, logout_endpoint,
  status_endpoint, override_endpoint, qr_status_endpoint, qr_password_endpoint,
  phone_sign_in_endpoint, session_endpoint, proxy_of,
}
use telegram_marketing_crm.Accounts.Api.Kept.{LeavesPool, or_404-LeavesPool, called-IsPool}

after_login-LeavesPool :
    (k : ℕ) (reply : Option LoginReply) (s : Session)
    → IsPool s
    → LeavesPool (after_login k reply s)
unfolding after_login
after_login-LeavesPool k none s h = h
after_login-LeavesPool k (some reply) s h =
    elim (Bool-cases (option_text_eq reply.status (codes "authorized"))) [
      | inl authorized ↦ rw authorized (mark_logged_in-IsPool k reply.user s h)
      | inr other ↦ rw other h
    ]

after_logout-LeavesPool :
    (actor k : ℕ) (reached : Bool) (s : Session)
    → IsPool s
    → LeavesPool (after_logout actor k reached s)
unfolding after_logout
after_logout-LeavesPool actor k false s h = h
after_logout-LeavesPool actor k true s h =
    record_event-IsPool _ _ _ _ _ (mark_logged_out k s) (mark_logged_out-IsPool k s h)

after_status-IsPool :
    (k : ℕ) (answer : Option (Option TelegramUser)) (s : Session)
    → IsPool s
    → IsPool (after_status k answer s)
unfolding after_status
after_status-IsPool k none s h = h
after_status-IsPool k (some user) s h = record_identity-IsPool k user s h

module _ (engine : AccountEngine) where
  pub qr_status_endpoint-IsPool :
      (k : ℕ) (s : Session) → IsPool s → LeavesPool (qr_status_endpoint engine k s)
  unfolding qr_status_endpoint
  qr_status_endpoint-IsPool k s h =
      or_404-LeavesPool (get k s.accounts) _ s h (λ a e.
        after_login-LeavesPool k (engine.qr_status s.calls k) (called s) (called-IsPool s h))

  pub qr_password_endpoint-IsPool :
      (k : ℕ) (password : Text) (s : Session)
      → IsPool s
      → LeavesPool (qr_password_endpoint engine k password s)
  unfolding qr_password_endpoint
  qr_password_endpoint-IsPool k password s h = or_404-LeavesPool (get k s.accounts) _ s h (λ a e.
      after_login-LeavesPool k (engine.qr_password s.calls k password) (called s)
        (called-IsPool s h))

  pub phone_sign_in_endpoint-IsPool :
      (k : ℕ) (phone code hash : Text) (password : Option Text) (s : Session)
      → IsPool s
      → LeavesPool (phone_sign_in_endpoint engine k phone code hash password s)
  unfolding phone_sign_in_endpoint
  phone_sign_in_endpoint-IsPool k phone code hash password s h =
      or_404-LeavesPool (get k s.accounts) _ s h (λ a e.
        after_login-LeavesPool k (engine.phone_sign_in s.calls k phone code hash password)
          (called s) (called-IsPool s h))

  pub session_endpoint-IsPool :
      (k : ℕ) (text : Text) (s : Session) → IsPool s → LeavesPool (session_endpoint engine k text s)
  unfolding session_endpoint
  session_endpoint-IsPool k text s h = or_404-LeavesPool (get k s.accounts) _ s h (λ a e.
      after_login-LeavesPool k (engine.import_session s.calls k a (proxy_of a s) text) (called s)
        (called-IsPool s h))

  pub logout_endpoint-IsPool :
      (actor k : ℕ) (s : Session) → IsPool s → LeavesPool (logout_endpoint engine actor k s)
  unfolding logout_endpoint
  logout_endpoint-IsPool actor k s h = or_404-LeavesPool (get k s.accounts) _ s h (λ a e.
      after_logout-LeavesPool actor k (engine.logout s.calls k) (called s) (called-IsPool s h))

  pub status_endpoint-IsPool :
      (k : ℕ) (s : Session) → IsPool s → LeavesPool (status_endpoint engine k s)
  unfolding status_endpoint
  status_endpoint-IsPool k s h =
      or_404-LeavesPool (get k s.accounts) _ s h
        (λ a e. after_status-IsPool k (engine.get_status s.calls k) (called s) (called-IsPool s h))

pub override_endpoint-IsPool :
    (actor k : ℕ) (status : AccountStatus) (s : Session)
    → IsPool s
    → LeavesPool (override_endpoint actor k status s)
unfolding override_endpoint
override_endpoint-IsPool actor k status s h =
    or_404-LeavesPool (get k s.accounts) _ s h (λ a e.
      record_event-IsPool _ _ _ _ _ (set_status k status s) (set_status-IsPool k status s h))
