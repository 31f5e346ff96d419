-- ===== src/Accounts/Api.antt =====
-- The endpoints of accounts (backend/app/api/accounts.py): creation, edit, deletion, login and
-- logout. The caller has passed `require_manager`; `actor` is the caller's key.
pub mod Kept
pub mod Created
pub mod Login
use telegram_marketing_crm.OnDelete.{account_deleted}
use telegram_marketing_crm.Prelude.{
  ℕ, suc, Bool, true, false, ◌&&◌, not, Option, none, some, [], ◌∷◌, ◌++◌, ◌==◌, if◌then◌else◌,
}
use telegram_marketing_crm.Prelude.Text.{Text, codes, show, strip, option_text_eq, present}
use telegram_marketing_crm.Db.{get, delete}
use telegram_marketing_crm.Models.Account.{Account, AccountStatus, Proxy}
use telegram_marketing_crm.Models.Event.{ActorType, MetaValue}
use telegram_marketing_crm.Session.{Session, commit}
use telegram_marketing_crm.Audit.{record_event}
use telegram_marketing_crm.Proxies.{assign_free_proxy, release_proxy, bind, proxy_id_of}
use telegram_marketing_crm.Sender.Executor.{proxy_of}
use telegram_marketing_crm.Accounts.{
  TelegramUser, create_account, update_account, mark_logged_in, mark_logged_out, set_status,
  record_identity,
}

-- `{"status": ..., "user": ...}` of a login step.
pub record LoginReply : Type 0 where
  pub status : Option Text
  pub user : Option TelegramUser

-- The requests about an account to the engine service; false and `none` are EngineUnavailable. The
-- first argument counts the requests made before.
pub record AccountEngine : Type 0 where
  pub start_client : ℕ → ℕ → Account → Option Proxy → Bool
  pub logout : ℕ → ℕ → Bool
  pub get_status : ℕ → ℕ → Option (Option TelegramUser)
  pub qr_status : ℕ → ℕ → Option LoginReply
  pub qr_password : ℕ → ℕ → Text → Option LoginReply
  pub phone_sign_in : ℕ → ℕ → Text → Text → Text → Option Text → Option LoginReply
  pub import_session : ℕ → ℕ → Account → Option Proxy → Text → Option LoginReply
  pub spam_check : ℕ → ℕ → Account → Option Proxy → Option (Option Text)
  pub ban_check : ℕ → ℕ → Account → Option Proxy → Option (Option Text)
  pub request_unspam : ℕ → ℕ → Account → Option Proxy → Bool
  pub request_unfreeze : ℕ → ℕ → Account → Option Proxy → Bool

-- The response: a body, or the status code of an HTTPException.
pub data Response : Type 0 where
  success : Response
  http_error : ℕ → Response

abbrev pub account_ref : ℕ → Option Text
account_ref k = some (codes "account:" ++ show k)

label_of : ℕ → Session → MetaValue
label_of k s = elim (get k s.accounts) [ none ↦ MetaValue.null | some a ↦ MetaValue.text a.label ]

proxy_value : Option ℕ → MetaValue
proxy_value none = MetaValue.null
proxy_value (some p) = MetaValue.number p

-- The body of a POST; a phone or credentials may be missing.
pub record AccountCreate : Type 0 where
  pub label : Text
  pub phone : Option Text
  pub api_id : Option Text
  pub api_hash : Option Text
  pub assign_proxy : Bool

unfoldable pub create_endpoint : ℕ → AccountCreate → Session → ℕ × Session
unfolding create_account assign_free_proxy record_event label_of
create_endpoint actor payload s =
    let (k, s1) = create_account payload.label payload.phone payload.api_id payload.api_hash s in
    let s2 = if payload.assign_proxy then (assign_free_proxy k s1).1 else s1 in
    (
      k,
      record_event (codes "account.create") ActorType.user (some actor) (account_ref k)
          ((codes "label", label_of k s2) ∷ []) s2,
    )

-- The body of a PATCH: an outer `none` is a field that is not set.
pub record AccountUpdate : Type 0 where
  pub label : Option (Option Text)
  pub assign_proxy : Option Bool
  pub proxy_id : Option (Option ℕ)

-- `none` is the answer 422.
relabel_with : ℕ → Text → Session → Option Session
unfolding update_account
relabel_with k [] s = none
relabel_with k (c ∷ label) s = some (update_account k (some (c ∷ label)) s)

edit_label : ℕ → Option (Option Text) → Session → Option Session
unfolding relabel_with strip
edit_label k none s = some s
edit_label k (some none) s = none
edit_label k (some (some label)) s = relabel_with k (strip label) s

belongs_to_other : ℕ → Option ℕ → Bool
belongs_to_other account none = false
belongs_to_other account (some k) = not (k == account)

-- The choice of a proxy: 404 where it is missing, 409 where another account has it.
choose : ℕ → ℕ → Option Proxy → Session → Response × Session
unfolding belongs_to_other release_proxy bind
choose account proxy none s = (Response.http_error 404, s)
choose account proxy (some p) s =
    if belongs_to_other account p.assigned_account_id
    then (Response.http_error 409, s)
    else (Response.success, commit (bind account proxy (release_proxy account s)))

assign_if_none : ℕ → Option ℕ → Session → Session
unfolding assign_free_proxy
assign_if_none account (some p) s = s
assign_if_none account none s = (assign_free_proxy account s).1

choose_or_assign : ℕ → Option (Option ℕ) → Session → Response × Session
unfolding choose assign_if_none proxy_id_of
choose_or_assign account (some (some p)) s = choose account p (get p s.proxies) s
choose_or_assign account _ s = (Response.success, assign_if_none account (proxy_id_of account s) s)

unfoldable pub edit_proxy : ℕ → Option Bool → Option (Option ℕ) → Session → Response × Session
unfolding choose_or_assign release_proxy
edit_proxy account (some false) proxy s = (Response.success, release_proxy account s)
edit_proxy account (some true) proxy s = choose_or_assign account proxy s
edit_proxy account none (some proxy) s = choose_or_assign account (some proxy) s
edit_proxy account none none s = (Response.success, s)

same_proxy : Option ℕ → Option ℕ → Bool
same_proxy none none = true
same_proxy (some j) (some k) = j == k
same_proxy _ _ = false

-- The live client is bound anew; the engine's answer changes nothing.
rebind : Option ℕ → Option Account → Session → Session
unfolding same_proxy
rebind before none s = s
rebind before (some a) s =
    if not (same_proxy a.proxy_id before) && present a.session_ref
    then record s { calls = suc s.calls }
    else s

edit_end : ℕ → ℕ → Option ℕ → Response × Session → Response × Session
unfolding rebind record_event label_of proxy_value proxy_id_of
edit_end actor k before (Response.http_error code, s) = (Response.http_error code, s)
edit_end actor k before (Response.success, s) =
    let s' = rebind before (get k s.accounts) s in
    (
      Response.success,
      record_event (codes "account.update") ActorType.user (some actor) (account_ref k)
          ((codes "label", label_of k s') ∷ (codes "proxy_id", proxy_value (proxy_id_of k s')) ∷ [])
          s',
    )

edit_after_label : ℕ → ℕ → AccountUpdate → Session → Option Session → Response × Session
unfolding edit_end edit_proxy proxy_id_of
edit_after_label actor k payload s none = (Response.http_error 422, s)
edit_after_label actor k payload s (some s') =
    edit_end actor k (proxy_id_of k s') (edit_proxy k payload.assign_proxy payload.proxy_id s')

-- `_get_account_or_404`
unfoldable pub or_404 :
    Option Account → (Account → Response × Session) → Session → Response × Session
or_404 none f s = (Response.http_error 404, s)
or_404 (some a) f s = f a

unfoldable pub update_endpoint : ℕ → ℕ → AccountUpdate → Session → Response × Session
unfolding or_404 edit_after_label edit_label
update_endpoint actor k payload s =
    or_404 (get k s.accounts)
      (λ a. edit_after_label actor k payload s (edit_label k payload.label s)) s

-- The engine's logout is tried, and its failure ignored.
unfoldable pub delete_endpoint : ℕ → ℕ → Session → Response × Session
unfolding or_404 release_proxy record_event delete account_deleted
delete_endpoint actor k s =
    or_404 (get k s.accounts)
      (λ a.
        let s1 = release_proxy k (record s { calls = suc s.calls }) in
        let s2 =
          record_event (codes "account.delete") ActorType.user (some actor) (account_ref k) [] s1 in
        (
          Response.success,
          account_deleted k (commit (record s2 { accounts = delete k s2.accounts })),
        ))
      s

-- What a login step does with the engine's answer.
unfoldable pub after_login : ℕ → Option LoginReply → Session → Response × Session
unfolding mark_logged_in option_text_eq
after_login k none s = (Response.http_error 502, s)
after_login k (some reply) s = (
  Response.success,
  if option_text_eq reply.status (codes "authorized") then mark_logged_in k reply.user s else s,
)

abbrev pub called : Session → Session
called s = record s { calls = suc s.calls }

after_logout : ℕ → ℕ → Bool → Session → Response × Session
unfolding mark_logged_out record_event
after_logout actor k false s = (Response.http_error 502, s)
after_logout actor k true s = (
  Response.success,
  record_event (codes "account.logout") ActorType.user (some actor) (account_ref k) []
      (mark_logged_out k s),
)

after_status : ℕ → Option (Option TelegramUser) → Session → Session
unfolding record_identity
after_status k none s = s
after_status k (some user) s = record_identity k user s

module _ (engine : AccountEngine) where
  unfoldable pub qr_status_endpoint : ℕ → Session → Response × Session
  unfolding or_404 after_login
  qr_status_endpoint k s =
      or_404 (get k s.accounts) (λ a. after_login k (engine.qr_status s.calls k) (called s)) s

  unfoldable pub qr_password_endpoint : ℕ → Text → Session → Response × Session
  unfolding or_404 after_login
  qr_password_endpoint k password s =
      or_404 (get k s.accounts)
        (λ a. after_login k (engine.qr_password s.calls k password) (called s)) s

  unfoldable pub phone_sign_in_endpoint :
      ℕ → Text → Text → Text → Option Text → Session → Response × Session
  unfolding or_404 after_login
  phone_sign_in_endpoint k phone code hash password s =
      or_404 (get k s.accounts)
        (λ a. after_login k (engine.phone_sign_in s.calls k phone code hash password) (called s)) s

  unfoldable pub session_endpoint : ℕ → Text → Session → Response × Session
  unfolding or_404 after_login proxy_of
  session_endpoint k session_string s =
      or_404 (get k s.accounts)
        (λ a.
          after_login k (engine.import_session s.calls k a (proxy_of a s) session_string)
            (called s))
        s

  unfoldable pub logout_endpoint : ℕ → ℕ → Session → Response × Session
  unfolding or_404 after_logout
  logout_endpoint actor k s =
      or_404 (get k s.accounts) (λ a. after_logout actor k (engine.logout s.calls k) (called s)) s

  unfoldable pub status_endpoint : ℕ → Session → Response × Session
  unfolding or_404 after_status
  status_endpoint k s =
      or_404 (get k s.accounts)
        (λ a. (Response.success, after_status k (engine.get_status s.calls k) (called s))) s

unfoldable pub status_text : AccountStatus → Text
status_text AccountStatus.active = codes "active"
status_text AccountStatus.warming = codes "warming"
status_text AccountStatus.quarantined = codes "quarantined"
status_text AccountStatus.banned = codes "banned"
status_text AccountStatus.logged_out = codes "logged_out"

unfoldable pub override_endpoint : ℕ → ℕ → AccountStatus → Session → Response × Session
unfolding or_404 set_status record_event status_text
override_endpoint actor k status s =
    or_404 (get k s.accounts)
      (λ a. (
        Response.success,
        record_event (codes "account.status_override") ActorType.user (some actor) (account_ref k)
            ((codes "from", MetaValue.text (status_text a.status))
              ∷ (codes "to", MetaValue.text (status_text status))
              ∷ [])
            (set_status k status s),
      ))
      s
