-- ===== src/Accounts/Health/Kept.antt =====
-- The health checks of an account keep the pool of proxies.
use telegram_marketing_crm.Prelude.{ℕ, Bool, true, false, Option, none, some, Bool-cases, inl, inr}
use telegram_marketing_crm.Prelude.Text.{Text, codes, text_eq, present}
use telegram_marketing_crm.Db.{get}
use telegram_marketing_crm.Models.Account.{Account, AccountStatus}
use telegram_marketing_crm.Session.{Session}
use telegram_marketing_crm.Proxies.Pool.{IsPool}
use telegram_marketing_crm.Accounts.{set_spam_state, set_status}
use telegram_marketing_crm.Accounts.Pool.{
  record_event-IsPool, set_status-IsPool, set_spam_state-IsPool, mark_logged_out-IsPool,
}
use telegram_marketing_crm.Accounts.Api.{AccountEngine, Response, called}
use telegram_marketing_crm.Accounts.Api.Kept.{LeavesPool, or_404-LeavesPool, called-IsPool}
use telegram_marketing_crm.Accounts.Health.{
  logged_in_or_400, quarantine_event, quarantine_as, judge_spam, after_spam_check, judge_ban,
  after_ban_check, after_appeal, spam_check_endpoint, ban_check_endpoint, unspam_endpoint,
  unfreeze_endpoint, text_or_default, proxy_of,
}

logged_in_or_400-LeavesPool :
    (found : Option Account) (f : Account → Response × Session) (s : Session)
    → IsPool s
    → ((a : Account) → LeavesPool (f a))
    → LeavesPool (logged_in_or_400 found f s)
unfolding logged_in_or_400
logged_in_or_400-LeavesPool found f s h k = or_404-LeavesPool found _ s h (λ a e.
    elim (Bool-cases (present a.session_ref)) [
      | inl logged_in ↦ rw logged_in (k a)
      | inr out ↦ rw out h
    ])

quarantine_as-IsPool :
    (k : ℕ) (t : Text) (status : AccountStatus) (s : Session)
    → IsPool s
    → IsPool (quarantine_as k t status s)
unfolding quarantine_as quarantine_event
quarantine_as-IsPool k t status s h =
    record_event-IsPool _ _ _ _ _ (set_status k status s) (set_status-IsPool k status s h)

judge_spam-IsPool :
    (auto : Bool) (k : ℕ) (t : Text) (s : Session) → IsPool s → IsPool (judge_spam auto k t s)
unfolding judge_spam
judge_spam-IsPool false k t s h = h
judge_spam-IsPool true k t s h = elim (Bool-cases (text_eq t (codes "banned"))) [
  | inl banned ↦ rw banned (quarantine_as-IsPool k t AccountStatus.banned s h)
  | inr not_banned ↦ elim (Bool-cases (text_eq t (codes "limited"))) [
    | inl limited ↦
        rw (not_banned, limited) (quarantine_as-IsPool k t AccountStatus.quarantined s h)
    | inr fine ↦ rw (not_banned, fine) h
  ]
]

after_spam_check-LeavesPool :
    (auto : Bool) (actor k : ℕ) (answer : Option (Option Text)) (s : Session)
    → IsPool s
    → LeavesPool (after_spam_check auto actor k answer s)
unfolding after_spam_check
after_spam_check-LeavesPool auto actor k none s h = h
after_spam_check-LeavesPool auto actor k (some answer) s h =
    let t = text_or_default answer (codes "unknown") in
    record_event-IsPool _ _ _ _ _ (judge_spam auto k t (set_spam_state k t s))
      (judge_spam-IsPool auto k t (set_spam_state k t s) (set_spam_state-IsPool k t s h))

judge_ban-IsPool : (k : ℕ) (t : Text) (s : Session) → IsPool s → IsPool (judge_ban k t s)
unfolding judge_ban quarantine_event
judge_ban-IsPool k t s h = elim (Bool-cases (text_eq t (codes "banned"))) [
  | inl banned ↦ rw banned (
      record_event-IsPool _ _ _ _ _ (set_status k AccountStatus.banned s)
        (set_status-IsPool k AccountStatus.banned s h))
  | inr not_banned ↦ elim (Bool-cases (text_eq t (codes "unauthorized"))) [
    | inl out ↦ rw (not_banned, out) (mark_logged_out-IsPool k s h)
    | inr fine ↦ rw (not_banned, fine) h
  ]
]

after_ban_check-LeavesPool :
    (k : ℕ) (answer : Option (Option Text)) (s : Session)
    → IsPool s
    → LeavesPool (after_ban_check k answer s)
unfolding after_ban_check
after_ban_check-LeavesPool k none s h = h
after_ban_check-LeavesPool k (some answer) s h =
    judge_ban-IsPool k (text_or_default answer (codes "error")) s h

after_appeal-LeavesPool :
    (actor k : ℕ) (request : Text) (answered : Bool) (s : Session)
    → IsPool s
    → LeavesPool (after_appeal actor k request answered s)
unfolding after_appeal
after_appeal-LeavesPool actor k request false s h = h
after_appeal-LeavesPool actor k request true s h = record_event-IsPool _ _ _ _ _ s h

module _ (engine : AccountEngine) where
  pub spam_check_endpoint-IsPool :
      (auto : Bool) (actor k : ℕ) (s : Session)
      → IsPool s
      → LeavesPool (spam_check_endpoint engine auto actor k s)
  unfolding spam_check_endpoint
  spam_check_endpoint-IsPool auto actor k s h =
      logged_in_or_400-LeavesPool (get k s.accounts) _ s h
        (λ a. after_spam_check-LeavesPool auto actor k _ (called s) (called-IsPool s h))

  pub ban_check_endpoint-IsPool :
      (k : ℕ) (s : Session) → IsPool s → LeavesPool (ban_check_endpoint engine k s)
  unfolding ban_check_endpoint
  ban_check_endpoint-IsPool k s h = logged_in_or_400-LeavesPool (get k s.accounts) _ s h (λ a.
      after_ban_check-LeavesPool k (engine.ban_check s.calls k a (proxy_of a s)) (called s)
        (called-IsPool s h))

  pub unspam_endpoint-IsPool :
      (actor k : ℕ) (s : Session) → IsPool s → LeavesPool (unspam_endpoint engine actor k s)
  unfolding unspam_endpoint
  unspam_endpoint-IsPool actor k s h =
      logged_in_or_400-LeavesPool (get k s.accounts) _ s h
        (λ a. after_appeal-LeavesPool actor k _ _ (called s) (called-IsPool s h))

  pub unfreeze_endpoint-IsPool :
      (actor k : ℕ) (s : Session) → IsPool s → LeavesPool (unfreeze_endpoint engine actor k s)
  unfolding unfreeze_endpoint
  unfreeze_endpoint-IsPool actor k s h =
      logged_in_or_400-LeavesPool (get k s.accounts) _ s h
        (λ a. after_appeal-LeavesPool actor k _ _ (called s) (called-IsPool s h))
