-- ===== src/Proxies/Pool.antt =====
-- The pool of proxies between two operations of its service.
use telegram_marketing_crm.Prelude.{
  ℕ, ◌≡◌, refl, true, Option, none, some, arith, Option-cases, inl, inr, head?,
}
use telegram_marketing_crm.Db.{get, select, flush, IsClean}
use telegram_marketing_crm.Db.Keyed.{IsKeyed, modify-IsKeyed, flush-IsKeyed}
use telegram_marketing_crm.Models.Account.{Account, Proxy}
use telegram_marketing_crm.Session.{Session, commit}
use telegram_marketing_crm.Proxies.{
  proxy_id_of, is_free, bind, unbind, assign_free_proxy, assign_unless, assign_first, release_proxy,
  release_from, link_of,
}
use telegram_marketing_crm.Proxies.Links.{
  IsLinked, proxy_in, bind-IsLinked, unbind-IsLinked, commit-IsLinked, head-select,
}

-- The links agree, nothing is pending, and the keys of the proxies are distinct.
pub record IsPool (s : Session) : Type 0 where
  pub linked : IsLinked s
  pub clean : IsClean s.proxies
  pub keyed : IsKeyed s.proxies

-- A commit ends an operation.
pub commit-IsPool : (s : Session) → IsLinked s → IsKeyed s.proxies → IsPool (commit s)
unfolding commit flush
commit-IsPool s h k = record {
  linked = commit-IsLinked s h;
  clean = refl;
  keyed = flush-IsKeyed s.proxies k;
}

pub bind-IsKeyed : (a p : ℕ) (s : Session) → IsKeyed s.proxies → IsKeyed (bind a p s).proxies
unfolding bind
bind-IsKeyed a p s k = modify-IsKeyed p (λ r. record r { assigned_account_id = some a }) s.proxies k

unbind-IsKeyed : (a p : ℕ) (s : Session) → IsKeyed s.proxies → IsKeyed (unbind a p s).proxies
unfolding unbind
unbind-IsKeyed a p s k = modify-IsKeyed p (λ r. record r { assigned_account_id = none }) s.proxies k

is_free-holder : (k : ℕ) (r : Proxy) → is_free k r ≡ true → r.assigned_account_id ≡ none
unfolding is_free
is_free-holder k r h = elim (Option-cases r.assigned_account_id) [
  | inl free ↦ free
  | inr (a, taken) ↦ ground (arith, h, taken)
]

-- A free proxy that a SELECT found is given to an account that has none.
assign_first-IsPool :
    (a : ℕ) (x : Account) (s : Session) (first : Option ℕ)
    → get a s.accounts ≡ some x
    → proxy_in a s.accounts ≡ none
    → head? (select is_free s.proxies) ≡ first
    → IsPool s
    → IsPool (assign_first a first s).1
unfolding assign_first
assign_first-IsPool a x s none ha free e h = h
assign_first-IsPool a x s (some p) ha free e h =
    let (r, hp, passes) = head-select is_free p s.proxies h.clean h.keyed.distinct e in
    commit-IsPool (bind a p s)
      (bind-IsLinked a p x r s ha hp free (rw hp (is_free-holder p r passes)) h.linked)
      (bind-IsKeyed a p s h.keyed)

-- An account gets a free proxy, unless it has one.
pub assign_free_proxy-IsPool :
    (a : ℕ) (x : Account) (s : Session)
    → get a s.accounts ≡ some x
    → IsPool s
    → IsPool (assign_free_proxy a s).1
unfolding assign_free_proxy assign_unless proxy_id_of link_of
assign_free_proxy-IsPool a x s ha h = elim (Option-cases x.proxy_id) [
  | inl free ↦
      rw (ha, free)
        (assign_first-IsPool a x s (head? (select is_free s.proxies)) ha (rw ha free) refl h)
  | inr (p, has) ↦ rw (ha, has) h
]

-- What an account has goes back to the pool.
pub release_proxy-IsPool : (a : ℕ) (s : Session) → IsPool s → IsPool (release_proxy a s)
unfolding release_proxy release_from proxy_id_of link_of
release_proxy-IsPool a s h = elim (Option-cases (get a s.accounts)) [
  | inl missing ↦ rw missing h
  | inr (x, found) ↦ elim (Option-cases x.proxy_id) [
    | inl none_held ↦ rw (found, none_held) h
    | inr (p, has) ↦
        rw (found, has)
          (commit-IsPool (unbind a p s) (unbind-IsLinked a p x s found (rw found has) h.linked)
            (unbind-IsKeyed a p s h.keyed))
  ]
]
