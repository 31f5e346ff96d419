-- ===== src/Accounts/Api/Kept.antt =====
-- The endpoints of accounts keep the pool of proxies.
use telegram_marketing_crm.Db.Laws.{get-modify_self}
use telegram_marketing_crm.Prelude.{
  ℕ, ◌≡◌, refl, sym, ap, ◌∙◌, Bool, true, false, not, Option, none, some, [], ◌∷◌, ==_iff, arith,
  Bool-cases, Option-cases, inl, inr, ◌&&◌,
}
use telegram_marketing_crm.Prelude.Text.{Text, present, strip}
use telegram_marketing_crm.Db.{get, flush}
use telegram_marketing_crm.Models.Account.{Account, Proxy}
use telegram_marketing_crm.Session.{Session, commit}
use telegram_marketing_crm.Proxies.{release_proxy, bind}
use telegram_marketing_crm.Proxies.Links.{IsLinked-same, holder_in, bind-IsLinked}
use telegram_marketing_crm.Proxies.Pool.{
  IsPool, commit-IsPool, bind-IsKeyed, assign_free_proxy-IsPool, release_proxy-IsPool,
}
use telegram_marketing_crm.Proxies.Release.{IsReleased, release_proxy-IsReleased}
use telegram_marketing_crm.Accounts.{update_account, relabelled, change_account}
use telegram_marketing_crm.Accounts.Pool.{record_event-IsPool, update_account-IsPool}
use telegram_marketing_crm.Accounts.Api.{
  Response, AccountUpdate, called, or_404, belongs_to_other, choose, assign_if_none,
  choose_or_assign, edit_proxy, edit_label, relabel_with, edit_after_label, edit_end, rebind,
  same_proxy, update_endpoint,
}

-- The session after a response.
abbrev pub LeavesPool : Response × Session → Type 0
LeavesPool r = IsPool r.1

-- A request to the engine changes nothing here.
pub called-IsPool : (s : Session) → IsPool s → IsPool (called s)
called-IsPool s h = record {
  linked = IsLinked-same s (called s) (λ a. refl) (λ p. refl) h.linked;
  clean = h.clean;
  keyed = h.keyed;
}

pub or_404-LeavesPool :
    (found : Option Account) (f : Account → Response × Session) (s : Session)
    → IsPool s
    → ((a : Account) → found ≡ some a → LeavesPool (f a))
    → LeavesPool (or_404 found f s)
unfolding or_404
or_404-LeavesPool none f s h k = h
or_404-LeavesPool (some a) f s h k = k a refl

choose-LeavesPool :
    (a p : ℕ) (x : Account) (s : Session) (chosen : Option Proxy)
    → get a s.accounts ≡ some x
    → get p s.proxies ≡ chosen
    → IsPool s
    → LeavesPool (choose a p chosen s)
unfolding choose
choose-LeavesPool a p x s none ha hp h = h
choose-LeavesPool a p x s (some r) ha hp h =
    elim (Bool-cases (belongs_to_other a r.assigned_account_id)) [
      | inl taken ↦ rw (taken, choose) h
      | inr free ↦
          let s' = release_proxy a s in
          let pool = release_proxy-IsPool a s h in
          let released = release_proxy-IsReleased a x s ha h.linked in
          let (x', ha') = released.account in
          let (r', hp') = released.still p r hp in
          rw (free, choose)
            (commit-IsPool (bind a p s')
              (bind-IsLinked a p x' r' s' ha' hp' released.nothing_held (free_after released free)
                pool.linked)
              (bind-IsKeyed a p s' pool.keyed))
    ]
  where
    free_after :
        IsReleased a s (release_proxy a s)
        → belongs_to_other a r.assigned_account_id ≡ false
        → holder_in p (release_proxy a s).proxies ≡ none
    free_after released e = elim (Option-cases r.assigned_account_id) [
      | inl nobody ↦ released.stays_free p (rw hp nobody)
      | inr (b, somebody) ↦ released.freed p (
          rw hp (
            somebody
            ∙ ap some (ground (arith, ap (belongs_to_other a) (sym somebody) ∙ e, ==_iff b a))))
    ]

assign_if_none-IsPool :
    (a : ℕ) (x : Account) (s : Session) (has : Option ℕ)
    → get a s.accounts ≡ some x
    → IsPool s
    → IsPool (assign_if_none a has s)
unfolding assign_if_none
assign_if_none-IsPool a x s none ha h = assign_free_proxy-IsPool a x s ha h
assign_if_none-IsPool a x s (some p) ha h = h

choose_or_assign-LeavesPool :
    (a : ℕ) (x : Account) (s : Session) (proxy : Option (Option ℕ))
    → get a s.accounts ≡ some x
    → IsPool s
    → LeavesPool (choose_or_assign a proxy s)
unfolding choose_or_assign
choose_or_assign-LeavesPool a x s none ha h = assign_if_none-IsPool a x s _ ha h
choose_or_assign-LeavesPool a x s (some none) ha h = assign_if_none-IsPool a x s _ ha h
choose_or_assign-LeavesPool a x s (some (some p)) ha h =
    choose-LeavesPool a p x s (get p s.proxies) ha refl h

edit_proxy-LeavesPool :
    (a : ℕ) (x : Account) (s : Session) (switch : Option Bool) (proxy : Option (Option ℕ))
    → get a s.accounts ≡ some x
    → IsPool s
    → LeavesPool (edit_proxy a switch proxy s)
unfolding edit_proxy
edit_proxy-LeavesPool a x s (some false) proxy ha h = release_proxy-IsPool a s h
edit_proxy-LeavesPool a x s (some true) proxy ha h = choose_or_assign-LeavesPool a x s proxy ha h
edit_proxy-LeavesPool a x s none (some p) ha h = choose_or_assign-LeavesPool a x s (some p) ha h
edit_proxy-LeavesPool a x s none none ha h = h

rebind-IsPool :
    (before : Option ℕ) (found : Option Account) (s : Session)
    → IsPool s
    → IsPool (rebind before found s)
unfolding rebind
rebind-IsPool before none s h = h
rebind-IsPool before (some a) s h =
    elim (Bool-cases (not (same_proxy a.proxy_id before) && present a.session_ref)) [
      | inl bound ↦ rw bound (called-IsPool s h)
      | inr kept ↦ rw kept h
    ]

edit_end-LeavesPool :
    (actor k : ℕ) (before : Option ℕ) (r : Response × Session)
    → LeavesPool r
    → LeavesPool (edit_end actor k before r)
unfolding edit_end
edit_end-LeavesPool actor k before (Response.http_error code, s) h = h
edit_end-LeavesPool actor k before (Response.success, s) h =
    record_event-IsPool _ _ _ _ _ _ (rebind-IsPool before (get k s.accounts) s h)

-- The account is there after its label has changed.
update_account-found :
    (k : ℕ) (label : Text) (x : Account) (s : Session)
    → get k s.accounts ≡ some x
    → (x' : Account) × (get k (update_account k (some label) s).accounts ≡ some x')
unfolding update_account relabelled change_account commit flush get
update_account-found k label x s h = (
  record x { label = label },
  get-modify_self k (λ r. record r { label = label }) s.accounts ∙ rw h refl,
)

-- The session holds an account with the key.
abbrev pub IsThere : ℕ → Session → Type 0
IsThere k s = (x : Account) × (get k s.accounts ≡ some x)

IsEdited : ℕ → Option Session → Type 0
IsEdited k none = Unit
IsEdited k (some s) = IsPool s × IsThere k s

relabel_with-IsEdited :
    (k : ℕ) (label : Text) (x : Account) (s : Session)
    → get k s.accounts ≡ some x
    → IsPool s
    → IsEdited k (relabel_with k label s)
unfolding relabel_with IsEdited
relabel_with-IsEdited k [] x s ha h = tt
relabel_with-IsEdited k (c ∷ label) x s ha h =
    (update_account-IsPool k (some (c ∷ label)) s h, update_account-found k (c ∷ label) x s ha)

edit_label-IsEdited :
    (k : ℕ) (label : Option (Option Text)) (x : Account) (s : Session)
    → get k s.accounts ≡ some x
    → IsPool s
    → IsEdited k (edit_label k label s)
unfolding edit_label IsEdited
edit_label-IsEdited k none x s ha h = (h, (x, ha))
edit_label-IsEdited k (some none) x s ha h = tt
edit_label-IsEdited k (some (some label)) x s ha h = relabel_with-IsEdited k (strip label) x s ha h

edit_after_label-LeavesPool :
    (actor k : ℕ) (payload : AccountUpdate) (s : Session) (edited : Option Session)
    → IsPool s
    → IsEdited k edited
    → LeavesPool (edit_after_label actor k payload s edited)
unfolding edit_after_label IsEdited
edit_after_label-LeavesPool actor k payload s none h e = h
edit_after_label-LeavesPool actor k payload s (some s') h e =
    edit_end-LeavesPool actor k _ (edit_proxy k payload.assign_proxy payload.proxy_id s')
      (edit_proxy-LeavesPool k e.1.0 s' payload.assign_proxy payload.proxy_id e.1.1 e.0)

pub update_endpoint-IsPool :
    (actor k : ℕ) (payload : AccountUpdate) (s : Session)
    → IsPool s
    → LeavesPool (update_endpoint actor k payload s)
unfolding update_endpoint
update_endpoint-IsPool actor k payload s h = or_404-LeavesPool (get k s.accounts) _ s h (λ a found.
    edit_after_label-LeavesPool actor k payload s (edit_label k payload.label s) h
      (edit_label-IsEdited k payload.label a s found h))
