-- ===== src/Sender/Caps.antt =====
-- Daily caps, and at most one action of an account in a tick.
use telegram_marketing_crm.Pacing.Rotation.{rotate-All, rotate-Distinct}
use mathlib.Core.List.{append_assoc}
use telegram_marketing_crm.Pacing.{rotate}
use telegram_marketing_crm.Models.Sender.{SendJob}
use telegram_marketing_crm.Sender.Pool.Laws.{usable_of-Distinct}
use telegram_marketing_crm.Sender.Consent.{MayAct, usable-MayAct}
use telegram_marketing_crm.Spintax.{Choices}
use telegram_marketing_crm.Sender.Pool.{usable_of, eligible_accounts}
use mathlib.Core.Option.{some-injective}
use telegram_marketing_crm.Db.Laws.{get-modify, get-modify_ne, keys, keys_where-Distinct}
use telegram_marketing_crm.Sender.Loop.{
  LoopRule, run_tick_rule, prefilter-accounts, finish-accounts, send_loop_inv,
}
use telegram_marketing_crm.Sender.Quiet.{IsQuiet}
use telegram_marketing_crm.Session.{Session}
use telegram_marketing_crm.Prelude.Keys.{mem, Distinct, Distinct-drop_middle, Distinct-of_append}
use telegram_marketing_crm.Sender.Tick.{
  on_sent, Summary, on_failure, on_warning, ExecuteFn, tick_with, sender_ready, run_tick,
  queued_targets, prefilter,
}
use telegram_marketing_crm.Models.Account.{Account, AccountStatus, is_active}
use telegram_marketing_crm.Db.{Table, get, find, modify, select}
use telegram_marketing_crm.Prelude.{
  ℕ, refl, List, ◌≡◌, ◌+◌, ◌==◌, some, ap, false, ◌≤◌, ◌<◌, All, All-map, Option-cases, ◌∷◌, [],
  inl, arith, inr, Bool-cases, Bool, ◌++◌, sym, ◌∙◌, ◌&&◌, is_some,
}

-- No account has acted more often today than its cap allows.
pub record Capped (t : Table Account) : Type 0 where
  pub at : (k : ℕ) (a : Account) → get k t ≡ some a → a.actions_today ≤ a.daily_cap

abbrev pub HasRoom : Table Account → ℕ → Type 0
HasRoom t k = (a : Account) → get k t ≡ some a → a.actions_today < a.daily_cap

abbrev pub bump : ℕ → Account → Account
bump now r = record r { actions_today = r.actions_today + 1; last_action_at = some now }

get-objects {ℓ} :
    {R : Type ℓ} (k : ℕ) (t t' : Table R) → t'.objects ≡ t.objects → get k t' ≡ get k t
unfolding get
get-objects k t t' e = ap (find k) e

pub Capped-objects : (t t' : Table Account) → t'.objects ≡ t.objects → Capped t → Capped t'
Capped-objects t t' e h = record { at = λ k a p. h.at k a (rw (get-objects k t t' e) at p) }

pub bump-Capped :
    (now a : ℕ) (t : Table Account) → Capped t → HasRoom t a → Capped (modify a (bump now) t)
bump-Capped now a t h room = record {
  at = λ k r e. elim (Option-cases (get k t)) [
    | inl missing ↦ ground (arith, get-modify k a (bump now) t)
    | inr (x, found) ↦ elim (Bool-cases (k == a)) [
      | inl same ↦
          let k_is : k ≡ a = ground arith in
          ground (arith, get-modify k a (bump now) t, room x (rw k_is at found))
      | inr other ↦ ground (arith, get-modify k a (bump now) t, h.at k x found)
    ]
  ];
}

bump-HasRoom :
    (now a k : ℕ) (t : Table Account)
    → (k == a) ≡ false
    → HasRoom t k
    → HasRoom (modify a (bump now) t) k
bump-HasRoom now a k t ne room r e = room r (rw (get-modify_ne k a (bump now) t ne) at e)

pub bump-HasRoom-All :
    (now a : ℕ) (t : Table Account) (order : List ℕ)
    → mem a order ≡ false
    → All (HasRoom t) order
    → All (HasRoom (modify a (bump now) t)) order
bump-HasRoom-All now a t [] ne h = tt
bump-HasRoom-All now a t (k ∷ order) ne h =
    (bump-HasRoom now a k t (ground arith) h.0, bump-HasRoom-All now a t order (ground arith) h.1)

pub HasRoom-objects :
    (t t' : Table Account) → t'.objects ≡ t.objects → (k : ℕ) → HasRoom t k → HasRoom t' k
HasRoom-objects t t' e k room a p = room a (rw (get-objects k t t' e) at p)

-- What the loop keeps: the caps, and room for each account that is left.
abbrev CapsInv : List ℕ → List (ℕ × ℕ) → Summary × Session → Type 0
CapsInv order valid st = Capped st.1.accounts × All (HasRoom st.1.accounts) order × Distinct order

pub quarantine-Capped :
    (a : ℕ) (t : Table Account)
    → Capped t
    → Capped (modify a (λ r. record r { status = AccountStatus.quarantined }) t)
quarantine-Capped a t h = record {
  at = λ k r e. elim (Option-cases (get k t)) [
    | inl missing ↦
        ground (arith, get-modify k a (λ x. record x { status = AccountStatus.quarantined }) t)
    | inr (x, found) ↦ ground (
      arith,
      get-modify k a (λ y. record y { status = AccountStatus.quarantined }) t,
      h.at k x found,
    )
  ];
}

caps_rule :
    (execute : ExecuteFn) (now job : ℕ)
    → IsQuiet execute
    → LoopRule execute now job CapsInv (λ st. Capped st.1.accounts)
unfolding on_sent on_failure on_warning
caps_rule execute now job quiet = record {
  keeps_sent = λ a t c order valid body sum s h.
      let t' = (execute a c body s).1.accounts in
      let same = (quiet.same a c body s).accounts in
      (
        bump-Capped now a t' (Capped-objects s.accounts t' same h.0)
            (HasRoom-objects s.accounts t' same a h.1.0),
        bump-HasRoom-All now a t' order h.2.0 (
            All-map (HasRoom s.accounts) (HasRoom t') (HasRoom-objects s.accounts t' same) order
              h.1.1),
        h.2.1,
      );
  keeps_failed = λ a t c order valid body e sum s h.
      let t' = (execute a c body s).1.accounts in
      let same = (quiet.same a c body s).accounts in
      (
        Capped-objects s.accounts t' same h.0,
        All-map (HasRoom s.accounts) (HasRoom t') (HasRoom-objects s.accounts t' same) order h.1.1,
        h.2.1,
      );
  ends_warned = λ a t c order valid body w sum s h.
      let t' = (execute a c body s).1.accounts in
      quarantine-Capped a t' (Capped-objects s.accounts t' (quiet.same a c body s).accounts h.0);
  ends = λ order valid sum s h. h.0;
}

usable-HasRoom :
    (window : Bool) (now d : ℕ) (s : Session)
    → All
        (HasRoom s.accounts)
        (usable_of (sender_ready window now d) s.accounts (eligible_accounts s))
usable-HasRoom window now d s =
    All-map (MayAct now d s.accounts) (HasRoom s.accounts) (λ k may a found. room k may a found) _
      (usable-MayAct window now d s)
  where
    room : (k : ℕ) → MayAct now d s.accounts k → HasRoom s.accounts k
    room k may a found =
        let same : may.object ≡ a = some-injective _ _ (sym may.found ∙ found) in
        rw same at may.below_cap

-- The accounts of a tick are distinct, since those of the table are.
pub usable-Distinct :
    (p : Account → Bool) (s : Session)
    → Distinct (keys s.accounts.rows)
    → Distinct (usable_of p s.accounts (eligible_accounts s))
unfolding eligible_accounts select
usable-Distinct p s d =
    usable_of-Distinct p s.accounts _
      (keys_where-Distinct (λ k r. is_active r.status && is_some r.session_ref) s.accounts.rows d)

tick_with-Capped :
    (execute : ExecuteFn) (rng : ℕ → Choices) (now job : ℕ) (j : SendJob) (usable : List ℕ)
    (s : Session)
    → IsQuiet execute
    → Capped s.accounts
    → All (HasRoom s.accounts) usable
    → Distinct usable
    → Capped (tick_with execute rng now job j usable s).1.accounts
unfolding tick_with
tick_with-Capped execute rng now job j [] s quiet h room d = h
tick_with-Capped execute rng now job j (a ∷ usable) s quiet h room d =
    let same = prefilter-accounts (queued_targets job s) s in
    let order = rotate (a ∷ usable) j.last_account_id in
    let s1 = (prefilter (queued_targets job s) s).2 in
    Capped-objects _ _ (finish-accounts job _) (
      send_loop_inv (caps_rule execute now job quiet) rng order _ _ (
        rw same h,
        rw same (rotate-All (HasRoom s.accounts) (a ∷ usable) j.last_account_id room),
        rotate-Distinct (a ∷ usable) j.last_account_id d,
      ))

-- With a quiet executor, a tick leaves no account above its daily cap if none was above it
-- before; the primary keys of the accounts are distinct.
pub run_tick-Capped :
    (execute : ExecuteFn) (rng : ℕ → Choices) (now min_delay job : ℕ) (s : Session)
    (r : Summary × Session)
    → IsQuiet execute
    → Distinct (keys s.accounts.rows)
    → Capped s.accounts
    → run_tick execute rng now min_delay job s ≡ some r
    → Capped r.1.accounts
run_tick-Capped execute rng now d job s r quiet distinct h e =
    run_tick_rule execute rng now d job s (λ st. Capped st.1.accounts) h
      (λ j window found runs.
        tick_with-Capped execute rng now job j _ s quiet h (usable-HasRoom window now d s)
          (usable-Distinct (sender_ready window now d) s distinct))
      r e

-- The accounts of the actions that a summary lists.
abbrev pub actors : List (ℕ × ℕ) → List ℕ
actors [] = []
actors ((a, c) ∷ l) = a ∷ actors l

actors-append : (l : List (ℕ × ℕ)) (a c : ℕ) → actors (l ++ (a, c) ∷ []) ≡ actors l ++ a ∷ []
actors-append [] a c = refl
actors-append ((b, d) ∷ l) a c = ap (◌∷◌ b) (actors-append l a c)

-- The accounts that are left have not acted, and those that have are distinct.
abbrev ActsInv : List ℕ → List (ℕ × ℕ) → Summary × Session → Type 0
ActsInv order valid st = Distinct (actors st.0.actions ++ order)

acts_rule :
    (execute : ExecuteFn) (now job : ℕ)
    → LoopRule execute now job ActsInv (λ st. Distinct (actors st.0.actions))
unfolding on_sent on_failure on_warning
acts_rule execute now job = record {
  keeps_sent =
      λ a t c order valid body sum s h. rw (actors-append sum.actions a c) (simp append_assoc h);
  keeps_failed =
      λ a t c order valid body e sum s h. Distinct-drop_middle a (actors sum.actions) order h;
  ends_warned =
      λ a t c order valid body w sum s h. Distinct-of_append (actors sum.actions) (a ∷ order) h;
  ends = λ order valid sum s h. Distinct-of_append (actors sum.actions) order h;
}

tick_with-Distinct :
    (execute : ExecuteFn) (rng : ℕ → Choices) (now job : ℕ) (j : SendJob) (usable : List ℕ)
    (s : Session)
    → Distinct usable
    → Distinct (actors (tick_with execute rng now job j usable s).0.actions)
unfolding tick_with
tick_with-Distinct execute rng now job j [] s d = tt
tick_with-Distinct execute rng now job j (a ∷ usable) s d =
    send_loop_inv (acts_rule execute now job) rng (rotate (a ∷ usable) j.last_account_id) _ _
      (rotate-Distinct (a ∷ usable) j.last_account_id d)

-- In one tick no account sends two messages; the primary keys of the accounts are distinct.
pub run_tick-acts_once :
    (execute : ExecuteFn) (rng : ℕ → Choices) (now min_delay job : ℕ) (s : Session)
    (r : Summary × Session)
    → Distinct (keys s.accounts.rows)
    → run_tick execute rng now min_delay job s ≡ some r
    → Distinct (actors r.0.actions)
run_tick-acts_once execute rng now d job s r distinct e =
    run_tick_rule execute rng now d job s (λ st. Distinct (actors st.0.actions)) tt
      (λ j window found runs.
        tick_with-Distinct execute rng now job j _ s
          (usable-Distinct (sender_ready window now d) s distinct))
      r e
