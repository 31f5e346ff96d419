-- ===== src/Proxies/Links.antt =====
-- One proxy for an account and one account for a proxy: the two columns that link them
-- (`accounts.proxy_id` and `proxies.assigned_account_id`) agree.
use telegram_marketing_crm.Prelude.{
  ℕ, ◌≡◌, refl, sym, ◌∙◌, Bool, true, Option, none, some, List, [], ◌∷◌, ◌==◌, ==_iff,
  if◌then◌else◌, All, arith, Bool-cases, Option-cases, inl, inr, head?,
}
use telegram_marketing_crm.Prelude.Keys.{Distinct}
use telegram_marketing_crm.Db.{Table, get, modify, find, select, IsClean, keys_where, flush}
use telegram_marketing_crm.Db.Laws.{keys, get-modify, find_of_Memᴰ, keys_where-All}
use telegram_marketing_crm.Models.Account.{Account, Proxy}
use telegram_marketing_crm.Session.{Session, commit}
use telegram_marketing_crm.Proxies.{bind, unbind}
use mathlib.Core.Option.{some-injective}
use mathlib.Core.Path.{subst}
use mathlib.Core.List.{Memᴰ}

-- `proxies.assigned_account_id`
abbrev pub holder_of : Option Proxy → Option ℕ
holder_of none = none
holder_of (some r) = r.assigned_account_id

abbrev pub holder_in : ℕ → Table Proxy → Option ℕ
holder_in p t = holder_of (get p t)

-- `accounts.proxy_id`
abbrev pub proxy_of_object : Option Account → Option ℕ
proxy_of_object none = none
proxy_of_object (some r) = r.proxy_id

abbrev pub proxy_in : ℕ → Table Account → Option ℕ
proxy_in a t = proxy_of_object (get a t)

pub record IsLinked (s : Session) : Type 0 where
  pub owns : (a p : ℕ) → proxy_in a s.accounts ≡ some p → holder_in p s.proxies ≡ some a
  pub held : (a p : ℕ) → holder_in p s.proxies ≡ some a → proxy_in a s.accounts ≡ some p

-- Only the links matter.
pub IsLinked-same :
    (s t : Session)
    → ((a : ℕ) → proxy_in a t.accounts ≡ proxy_in a s.accounts)
    → ((p : ℕ) → holder_in p t.proxies ≡ holder_in p s.proxies)
    → IsLinked s
    → IsLinked t
IsLinked-same s t pa hp h = record {
  owns = λ a p e. hp p ∙ h.owns a p (sym (pa a) ∙ e);
  held = λ a p e. pa a ∙ h.held a p (sym (hp p) ∙ e);
}

pub proxy_in-modify :
    (j k : ℕ) (v : Option ℕ) (r : Account) (t : Table Account)
    → get k t ≡ some r
    → proxy_in j (modify k (λ x. record x { proxy_id = v }) t)
      ≡ (if j == k then v else proxy_in j t)
proxy_in-modify j k v r t found = elim (Bool-cases (j == k)) [
  | inl same ↦
      let j_is : j ≡ k = ground (arith, ==_iff j k) in
      rw (get-modify j k (λ x. record x { proxy_id = v }) t, same, j_is, found) refl
  | inr other ↦ rw (get-modify j k (λ x. record x { proxy_id = v }) t, other) refl
]

pub holder_in-modify :
    (j k : ℕ) (v : Option ℕ) (r : Proxy) (t : Table Proxy)
    → get k t ≡ some r
    → holder_in j (modify k (λ x. record x { assigned_account_id = v }) t)
      ≡ (if j == k then v else holder_in j t)
holder_in-modify j k v r t found = elim (Bool-cases (j == k)) [
  | inl same ↦
      let j_is : j ≡ k = ground (arith, ==_iff j k) in
      rw (get-modify j k (λ x. record x { assigned_account_id = v }) t, same, j_is, found) refl
  | inr other ↦ rw (get-modify j k (λ x. record x { assigned_account_id = v }) t, other) refl
]

-- Where a table has no key twice and nothing is pending, what a SELECT finds first is an object
-- that satisfies its WHERE clause.
pub head-select {ℓ} :
    {R : Type ℓ} (p : ℕ → R → Bool) (k : ℕ) (t : Table R)
    → IsClean t
    → Distinct (keys t.objects)
    → head? (select p t) ≡ some k
    → (r : R) × (get k t ≡ some r) × (p k r ≡ true)
unfolding select get
head-select {R = R} p k t clean d h = first (keys_where p t.rows) (keys_where-All p t.rows) h
  where
    first :
        (ks : List ℕ)
        → All (λ k. (r : R) × Memᴰ (k, r) t.rows × (p k r ≡ true)) ks
        → head? ks ≡ some k
        → (r : R) × (find k t.objects ≡ some r) × (p k r ≡ true)
    first [] all e = cc
    first (j ∷ ks) all e =
        let same : j ≡ k = some-injective _ _ e in
        let (r, m, passes) = all.0 in
        rw (sym same) (r, find_of_Memᴰ j r t.objects d (subst (Memᴰ (j, r)) clean m), passes)

-- An account without a proxy and a proxy without an account are linked.
pub bind-IsLinked :
    (a p : ℕ) (x : Account) (r : Proxy) (s : Session)
    → get a s.accounts ≡ some x
    → get p s.proxies ≡ some r
    → proxy_in a s.accounts ≡ none
    → holder_in p s.proxies ≡ none
    → IsLinked s
    → IsLinked (bind a p s)
unfolding bind
bind-IsLinked a p x r s ha hp free_a free_p h = record {
  owns = λ j q e. ground (
    arith,
    proxy_in-modify j a (some p) x s.accounts ha,
    holder_in-modify q p (some a) r s.proxies hp,
    h.owns j q,
    ==_iff j a,
    ==_iff q p,
  );
  held = λ j q e. ground (
    arith,
    proxy_in-modify j a (some p) x s.accounts ha,
    holder_in-modify q p (some a) r s.proxies hp,
    h.held j q,
    ==_iff j a,
    ==_iff q p,
  );
}

pub commit-IsLinked : (s : Session) → IsLinked s → IsLinked (commit s)
unfolding commit flush get
commit-IsLinked s h = record { owns = h.owns; held = h.held }

pub holder-found :
    (p a : ℕ) (t : Table Proxy) → holder_in p t ≡ some a → (r : Proxy) × (get p t ≡ some r)
holder-found p a t h = elim (Option-cases (get p t)) [
  | inl missing ↦ cc
  | inr (r, found) ↦ (r, found)
]

-- What an account gives back is free, and no other link changes.
pub unbind-IsLinked :
    (a p : ℕ) (x : Account) (s : Session)
    → get a s.accounts ≡ some x
    → proxy_in a s.accounts ≡ some p
    → IsLinked s
    → IsLinked (unbind a p s)
unfolding unbind
unbind-IsLinked a p x s ha e h =
    let (r, hp) = holder-found p a s.proxies (h.owns a p e) in
    record {
      owns = λ j q k. ground (
        arith,
        proxy_in-modify j a none x s.accounts ha,
        holder_in-modify q p none r s.proxies hp,
        h.owns j q,
        h.owns a p e,
        ==_iff j a,
        ==_iff q p,
      );
      held = λ j q k. ground (
        arith,
        proxy_in-modify j a none x s.accounts ha,
        holder_in-modify q p none r s.proxies hp,
        h.held j q,
        h.held j p,
        e,
        ==_iff j a,
        ==_iff q p,
      );
    }
