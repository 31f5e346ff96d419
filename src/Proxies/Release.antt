-- ===== src/Proxies/Release.antt =====
-- What an account gives back when it releases its proxy.
use telegram_marketing_crm.Prelude.{
  ℕ, ◌≡◌, refl, sym, ◌∙◌, none, some, ◌==◌, ==_iff, arith, Bool-cases, Option-cases, inl, inr,
}
use telegram_marketing_crm.Db.{Table, get, modify, flush}
use telegram_marketing_crm.Db.Laws.{get-modify, get-modify_self}
use telegram_marketing_crm.Models.Account.{Account, Proxy}
use telegram_marketing_crm.Session.{Session, commit}
use telegram_marketing_crm.Proxies.{release_proxy, release_from, proxy_id_of, link_of, unbind}
use telegram_marketing_crm.Proxies.Links.{
  IsLinked, proxy_in, holder_in, proxy_in-modify, holder_in-modify, holder-found,
}

-- An account that gave back what it had.
pub record IsReleased (a : ℕ) (s s' : Session) : Type 0 where
  pub account : (x : Account) × (get a s'.accounts ≡ some x)
  pub nothing_held : proxy_in a s'.accounts ≡ none
  pub still :
      (p : ℕ) (r : Proxy) → get p s.proxies ≡ some r → (r' : Proxy) × (get p s'.proxies ≡ some r')
  pub freed : (p : ℕ) → holder_in p s.proxies ≡ some a → holder_in p s'.proxies ≡ none
  pub stays_free : (p : ℕ) → holder_in p s.proxies ≡ none → holder_in p s'.proxies ≡ none

get-modify_found {ℓ} :
    {R : Type ℓ} (j k : ℕ) (f : R → R) (r : R) (t : Table R)
    → get j t ≡ some r
    → (r' : R) × (get j (modify k f t) ≡ some r')
get-modify_found j k f r t h = elim (Bool-cases (j == k)) [
  | inl same ↦ (f r, get-modify j k f t ∙ rw (same, h) refl)
  | inr other ↦ (r, get-modify j k f t ∙ rw (other, h) refl)
]

unbind-IsReleased :
    (a q : ℕ) (x : Account) (y : Proxy) (s : Session)
    → get a s.accounts ≡ some x
    → get q s.proxies ≡ some y
    → proxy_in a s.accounts ≡ some q
    → IsLinked s
    → IsReleased a s (commit (unbind a q s))
unfolding unbind commit flush get
unbind-IsReleased a q x y s ha hq e h = record {
  account = (
    record x { proxy_id = none },
    get-modify_self a (λ r. record r { proxy_id = none }) s.accounts ∙ rw ha refl,
  );
  nothing_held = proxy_in-modify a a none x s.accounts ha ∙ ground arith;
  still =
      λ p r hp. get-modify_found p q (λ z. record z { assigned_account_id = none }) r s.proxies hp;
  freed =
      λ p k. holder_in-modify p q none y s.proxies hq ∙ ground (arith, h.held a p k, e, ==_iff p q);
  stays_free = λ p k. holder_in-modify p q none y s.proxies hq ∙ ground (arith, k);
}

pub release_proxy-IsReleased :
    (a : ℕ) (x : Account) (s : Session)
    → get a s.accounts ≡ some x
    → IsLinked s
    → IsReleased a s (release_proxy a s)
unfolding release_proxy release_from proxy_id_of link_of
release_proxy-IsReleased a x s ha h = elim (Option-cases x.proxy_id) [
  | inl nothing ↦
      rw (ha, nothing)
        (record {
          account = (x, ha);
          nothing_held = rw ha nothing;
          still = λ p r hp. (r, hp);
          freed = λ p k.
              let e : proxy_in a s.accounts ≡ none = rw ha nothing in
              let absurd : none ≡ some p = sym e ∙ h.held a p k in cc;
          stays_free = λ p k. k;
        })
  | inr (q, has) ↦
      let e : proxy_in a s.accounts ≡ some q = rw ha has in
      let (y, hq) = holder-found q a s.proxies (h.owns a q e) in
      rw (ha, has) (unbind-IsReleased a q x y s ha hq e h)
]
