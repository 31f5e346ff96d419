-- ===== src/Accounts/Api/Created.antt =====
-- The creation and the deletion of an account keep the pool of proxies.
use telegram_marketing_crm.OnDelete.{account_deleted}
use telegram_marketing_crm.Prelude.{
  ℕ, ◌≡◌, refl, sym, ap, ◌∙◌, Option, none, some, List, [], ◌∷◌, ◌==◌, ==_iff, ==_refl,
  if◌then◌else◌, arith, Bool-cases, Option-cases, inl, inr,
}
use telegram_marketing_crm.Prelude.Text.{Text}
use telegram_marketing_crm.Db.{Table, get, find, add, delete, drop_key, flush}
use telegram_marketing_crm.Db.Keyed.{get-add}
use telegram_marketing_crm.Models.Account.{Account}
use telegram_marketing_crm.Session.{Session, commit}
use telegram_marketing_crm.Proxies.{assign_free_proxy, release_proxy}
use telegram_marketing_crm.Proxies.Links.{IsLinked-same, proxy_in, proxy_of_object}
use telegram_marketing_crm.Proxies.Pool.{
  IsPool, commit-IsPool, assign_free_proxy-IsPool, release_proxy-IsPool,
}
use telegram_marketing_crm.Proxies.Release.{release_proxy-IsReleased}
use telegram_marketing_crm.Accounts.{create_account, new_account, codes}
use telegram_marketing_crm.Accounts.Pool.{record_event-IsPool, record_event-proxy_in}
use telegram_marketing_crm.Accounts.Api.{
  AccountCreate, called, create_endpoint, delete_endpoint, ActorType, account_ref,
}
use telegram_marketing_crm.Accounts.Api.Kept.{LeavesPool, IsThere, or_404-LeavesPool, called-IsPool}

-- A new account has no proxy.
proxy_in-add :
    (a : ℕ) (x : Account) (t : Table Account)
    → x.proxy_id ≡ none
    → proxy_in a (add x t) ≡ proxy_in a t
proxy_in-add a x t h = elim (Option-cases (get a t)) [
  | inl missing ↦ elim (Bool-cases (t.next == a)) [
    | inl new ↦ ap proxy_of_object (get-add a x t) ∙ rw (missing, new) h
    | inr other ↦ ap proxy_of_object (get-add a x t) ∙ rw (missing, other) refl
  ]
  | inr (r, found) ↦ ap proxy_of_object (get-add a x t) ∙ rw found refl
]

add-found : (x : Account) (t : Table Account) → (r : Account) × (get t.next (add x t) ≡ some r)
add-found x t = elim (Option-cases (get t.next t)) [
  | inl missing ↦ (x, get-add t.next x t ∙ rw (missing, ==_refl t.next) refl)
  | inr (r, found) ↦ (r, get-add t.next x t ∙ rw found refl)
]

create_account-IsPool :
    (label : Text) (phone api_id api_hash : Option Text) (s : Session)
    → IsPool s
    → let r = create_account label phone api_id api_hash s in IsPool r.1 × IsThere r.0 r.1
unfolding create_account commit flush get
create_account-IsPool label phone api_id api_hash s h =
    let x = new_account label phone api_id api_hash in
    let s' = record s { accounts = add x s.accounts } in
    (
      commit-IsPool s'
          (IsLinked-same s s' (λ a. proxy_in-add a x s.accounts refl) (λ p. refl) h.linked) h.keyed,
      add-found x s.accounts,
    )

pub create_endpoint-IsPool :
    (actor : ℕ) (payload : AccountCreate) (s : Session)
    → IsPool s
    → IsPool (create_endpoint actor payload s).1
unfolding create_endpoint
create_endpoint-IsPool actor payload s h =
    let r = create_account payload.label payload.phone payload.api_id payload.api_hash s in
    let (pool, there) =
      create_account-IsPool payload.label payload.phone payload.api_id payload.api_hash s h in
    let after = if payload.assign_proxy then (assign_free_proxy r.0 r.1).1 else r.1 in
    let kept : IsPool after = elim (Bool-cases payload.assign_proxy) [
      | inl assign ↦ rw assign (assign_free_proxy-IsPool r.0 there.0 r.1 there.1 pool)
      | inr leave ↦ rw leave pool
    ] in
    record_event-IsPool _ _ _ _ _ after kept

find-drop_key {ℓ} :
    {R : Type ℓ} (j k : ℕ) (l : List (ℕ × R))
    → find j (drop_key k l) ≡ (if j == k then none else find j l)
unfolding find drop_key
find-drop_key j k [] = ground arith
find-drop_key j k ((i, r) ∷ l) = elim (Bool-cases (i == k)) [
  | inl dropped ↦ ground (arith, dropped, find-drop_key j k l, ==_iff i k, ==_iff j k, ==_iff i j)
  | inr kept ↦ ground (arith, kept, find-drop_key j k l, ==_iff i k, ==_iff j k, ==_iff i j)
]

-- An account without a proxy may go.
deleted-IsPool :
    (k : ℕ) (s : Session)
    → proxy_in k s.accounts ≡ none
    → IsPool s
    → IsPool (commit (record s { accounts = delete k s.accounts }))
unfolding delete get
deleted-IsPool k s e h =
    let s' = record s { accounts = delete k s.accounts } in
    commit-IsPool s' (IsLinked-same s s' same (λ p. refl) h.linked) h.keyed
  where
    same : (a : ℕ) → proxy_in a (delete k s.accounts) ≡ proxy_in a s.accounts
    same a = elim (Bool-cases (a == k)) [
      | inl gone ↦
          ap proxy_of_object (find-drop_key a k s.accounts.objects)
          ∙ rw gone (let a_is : a ≡ k = ground (arith, ==_iff a k) in sym (rw a_is e))
      | inr other ↦ ap proxy_of_object (find-drop_key a k s.accounts.objects) ∙ rw other refl
    ]

-- The rows that referred to the account are no part of the pool.
account_deleted-IsPool : (k : ℕ) (s : Session) → IsPool s → IsPool (account_deleted k s)
unfolding account_deleted
account_deleted-IsPool k s h = record {
  linked = IsLinked-same s (account_deleted k s) (λ a. refl) (λ p. refl) h.linked;
  clean = h.clean;
  keyed = h.keyed;
}

pub delete_endpoint-IsPool :
    (actor k : ℕ) (s : Session) → IsPool s → LeavesPool (delete_endpoint actor k s)
unfolding delete_endpoint
delete_endpoint-IsPool actor k s h = or_404-LeavesPool (get k s.accounts) _ s h (λ x found.
    let s1 = release_proxy k (called s) in
    let pool = release_proxy-IsPool k (called s) (called-IsPool s h) in
    let gone =
      (release_proxy-IsReleased k x (called s) found (called-IsPool s h).linked).nothing_held in
    account_deleted-IsPool k _ (
      deleted-IsPool k _
        (record_event-proxy_in (codes "account.delete") ActorType.user (some actor) (account_ref k)
            [] k s1
          ∙ gone)
        (record_event-IsPool _ _ _ _ _ s1 pool)))
